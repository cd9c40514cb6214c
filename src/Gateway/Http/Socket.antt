-- ===== src/Gateway/Http/Socket.antt =====
-- `create_tuned_tcp_listener` of src/gateway/http/socket.rs, over the sockets of the system: a call
-- of the crate `socket2` acts on their state and may fail. The port is reused as well, since the
-- server runs on a unix other than solaris and illumos.
pub mod Documented
pub mod Laws
use rust_enterprise_query_en.Common.{ℕ, ◌*◌, Bool, true, Result, ok, err, and_then}

pub data Domain : Type 0 where
  ipv4 ipv6 : Domain

-- An address of either kind, with its port.
pub data SocketAddr : Type 0 where
  v4 v6 : (ip port : ℕ) → SocketAddr

-- The calls on a TCP socket. `close` is what its drop does.
pub record Sockets : Type 1 where
  pub World : Type 0
  pub Socket : Type 0
  pub Listener : Type 0
  pub IoError : Type 0
  pub new_stream : Domain → World → World × Result IoError Socket
  pub set_reuse_address : Socket → Bool → World → World × Result IoError (Unit {0})
  pub set_reuse_port : Socket → Bool → World → World × Result IoError (Unit {0})
  pub set_nodelay : Socket → Bool → World → World × Result IoError (Unit {0})
  pub set_recv_buffer_size : Socket → ℕ → World → World × Result IoError (Unit {0})
  pub set_send_buffer_size : Socket → ℕ → World → World × Result IoError (Unit {0})
  pub set_nonblocking : Socket → Bool → World → World × Result IoError (Unit {0})
  pub bind : Socket → SocketAddr → World → World × Result IoError (Unit {0})
  pub listen : Socket → ℕ → World → World × Result IoError (Unit {0})
  pub from_std : Socket → World → World × Result IoError Listener
  pub close : Socket → World → World

unfoldable pub domain_of : SocketAddr → Domain
domain_of (v4 ip port) = ipv4
domain_of (v6 ip port) = ipv6

module _ (api : Sockets) where
  open api use {World, Socket, Listener, IoError}

  -- The calls on the new socket.
  unfoldable pub tune : Socket → SocketAddr → World → World × Result IoError (Unit {0})
  tune socket addr w0 = and_then (api.set_reuse_address socket true w0) λ w1 _.
      and_then (api.set_reuse_port socket true w1) λ w2 _.
        and_then (api.set_nodelay socket true w2) λ w3 _.
          and_then (api.set_recv_buffer_size socket (128 * 1024) w3) λ w4 _.
            and_then (api.set_send_buffer_size socket (128 * 1024) w4) λ w5 _.
              and_then (api.set_nonblocking socket true w5)
                λ w6 _. and_then (api.bind socket addr w6) λ w7 _. api.listen socket 1024 w7

  -- The socket is dropped with the function's locals if one of the calls fails.
  unfoldable pub drop_failed :
      Socket → World × Result IoError (Unit {0}) → World × Result IoError (Unit {0})
  drop_failed socket (w, ok done) = (w, ok done)
  drop_failed socket (w, err e) = (api.close socket w, err e)

  -- `from_std` takes the socket over, be it that it fails.
  unfoldable pub create_tuned_tcp_listener : SocketAddr → World → World × Result IoError Listener
  create_tuned_tcp_listener addr w = and_then (api.new_stream (domain_of addr) w) λ w' socket.
      and_then (drop_failed socket (tune socket addr w')) λ w'' _. api.from_std socket w''
