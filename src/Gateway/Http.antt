-- ===== src/Gateway/Http.antt =====
-- `create_router` of src/gateway/http/mod.rs as a table, and `handle_load_shed_error` of
-- src/gateway/http/middleware.rs. The limit on concurrent requests is the crate `tower`'s.
pub mod Socket
use rust_enterprise_query_en.Common.{ℕ, List, [], ◌∷◌, ◌++◌}
use rust_enterprise_query_en.Common.Text.{Text, codes}
use rust_enterprise_query_en.Gateway.Requests.{
  StatusCode, service_unavailable, internal_server_error,
}

pub data Method : Type 0 where
  get post : Method

pub data Handler : Type 0 where
  health_handler sql_query_handler semantic_query_handler router_query_handler : Handler

-- The routes in their order.
abbrev pub routes : List (Text × Method × Handler)
routes =
    (codes "/health", get, health_handler)
    ∷ (codes "/query/sql", post, sql_query_handler)
    ∷ (codes "/query/semantic", post, semantic_query_handler)
    ∷ (codes "/query", post, router_query_handler)
    ∷ []

-- The argument of `ConcurrencyLimitLayer::new`.
abbrev pub concurrency_limit : ℕ
concurrency_limit = 128

-- An error of the layers: the server is overloaded, or any other, with its text.
pub data MiddlewareError : Type 0 where
  overloaded : MiddlewareError
  unhandled : (text : Text) → MiddlewareError

pub record ErrorBody : Type 0 where
  pub error : Text
  pub status_code : ℕ

unfoldable pub handle_load_shed_error : MiddlewareError → StatusCode × ErrorBody
handle_load_shed_error overloaded = (
  service_unavailable,
  record {
    error = codes "Server overloaded, request shed to protect memory stability";
    status_code = 503;
  },
)
handle_load_shed_error (unhandled text) = (
  internal_server_error,
  record { error = codes "Unhandled middleware error: " ++ text; status_code = 500 },
)
