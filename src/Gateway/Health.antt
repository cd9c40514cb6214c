-- ===== src/Gateway/Health.antt =====
-- The health reports of the three doors: `health_handler` of src/gateway/http/routes.rs,
-- `check_health` of src/gateway/grpc/service.rs and the command of src/gateway/mod.rs. What is
-- probed are arguments: whether the model answers, and the count of rows or an error.
pub mod Laws
use rust_enterprise_query_en.Common.{ℕ, Bool, true, false, ◌&&◌, Result, ok, err, if◌then◌else◌}
use rust_enterprise_query_en.Gateway.Requests.{StatusCode, ok_200, service_unavailable}

pub data HealthStatus : Type 0 where
  healthy degraded unhealthy : HealthStatus

pub record HealthResponse : Type 0 where
  pub status : HealthStatus
  pub llm_connected : Bool
  pub vector_db_connected : Bool
  pub total_records : ℕ
  pub vector_indexed : Bool
  pub cache_entries : ℕ

pub record HealthCheckResponse : Type 0 where
  pub status : HealthStatus
  pub llm_connected : Bool
  pub vector_db_connected : Bool
  pub total_records : ℕ

-- `match lancedb_stats { Ok(count) => (true, count), Err(_) => (false, 0) }`
unfoldable pub connection_of {ℓ} : {E : Type ℓ} → Result E ℕ → Bool × ℕ
connection_of (ok count) = (true, count)
connection_of (err _) = (false, 0)

-- `unwrap_or(false)`
unfoldable pub indexed_of {ℓ} : {E : Type ℓ} → Result E Bool → Bool
indexed_of (ok b) = b
indexed_of (err _) = false

unfoldable pub http_status : Bool → Bool → HealthStatus × StatusCode
http_status llm_online connected =
    if llm_online && connected
    then (healthy, ok_200)
    else if connected
    then (degraded, ok_200)
    else (unhealthy, service_unavailable)

unfoldable pub health_handler {ℓ} :
    {E : Type ℓ} → Bool → Result E ℕ → Result E Bool → ℕ → StatusCode × HealthResponse
health_handler llm_online stats indexed entries =
    let connected = (connection_of stats).0 in
    (
      (http_status llm_online connected).1,
      record {
        status = (http_status llm_online connected).0;
        llm_connected = llm_online;
        vector_db_connected = connected;
        total_records = (connection_of stats).1;
        vector_indexed = indexed_of indexed;
        cache_entries = entries;
      },
    )

-- `count as u64` keeps every `usize` of 64 bits.
unfoldable pub check_health {ℓ} : {E : Type ℓ} → Bool → Result E ℕ → HealthCheckResponse
check_health llm_online stats =
    let connected = (connection_of stats).0 in
    record {
      status =
          if llm_online && connected then healthy else if connected then degraded else unhealthy;
      llm_connected = llm_online;
      vector_db_connected = connected;
      total_records = (connection_of stats).1;
    }

-- The command `health`, which has no cache.
unfoldable pub health_command {ℓ} :
    {E : Type ℓ} → Bool → Result E ℕ → Result E Bool → HealthResponse
health_command llm_online stats indexed =
    let connected = (connection_of stats).0 in
    record {
      status =
          if llm_online && connected then healthy else if connected then degraded else unhealthy;
      llm_connected = llm_online;
      vector_db_connected = connected;
      total_records = (connection_of stats).1;
      vector_indexed = indexed_of indexed;
      cache_entries = 0;
    }
