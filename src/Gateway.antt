-- ===== src/Gateway.antt =====
-- src/gateway: the command line, the HTTP routes and the gRPC service.
pub mod Requests
pub mod Wire
pub mod Health
pub mod Cli
pub mod Grpc
pub mod Agreement
pub mod Commands
pub mod Http
