-- ===== src/Gateway/Health/Laws.antt =====
-- The doors report the same health, and the code of the HTTP report follows the store.
use rust_enterprise_query_en.Common.{ℕ, Bool, true, false, Result, ok, err, ◌≡◌, refl, ◌↔◌, arith}
use rust_enterprise_query_en.Gateway.Requests.{ok_200, service_unavailable}
use rust_enterprise_query_en.Gateway.Health.{
  healthy, unhealthy, HealthResponse, HealthCheckResponse, connection_of, http_status,
  health_handler, check_health, health_command,
}

-- The fields that the gRPC report has.
abbrev pub shared : HealthResponse → HealthCheckResponse
shared r = record {
  status = r.status;
  llm_connected = r.llm_connected;
  vector_db_connected = r.vector_db_connected;
  total_records = r.total_records;
}

-- From the same probes the HTTP route, the gRPC service and the command report the same status,
-- connections and count, and the route and the command the same index flag.
pub health_reports_agree {ℓ} :
    {E : Type ℓ} (llm_online : Bool) (stats : Result E ℕ) (indexed : Result E Bool) (entries : ℕ)
    → (shared (health_handler llm_online stats indexed entries).1 ≡ check_health llm_online stats)
      × (shared (health_command llm_online stats indexed) ≡ check_health llm_online stats)
      × ((health_handler llm_online stats indexed entries).1.vector_indexed
          ≡ (health_command llm_online stats indexed).vector_indexed)
unfolding health_handler check_health health_command http_status connection_of
health_reports_agree true (ok n) indexed entries = (refl, refl, refl)
health_reports_agree false (ok n) indexed entries = (refl, refl, refl)
health_reports_agree true (err e) indexed entries = (refl, refl, refl)
health_reports_agree false (err e) indexed entries = (refl, refl, refl)

-- The route answers 503 exactly when the store cannot be reached, and 200 otherwise; the status is
-- `healthy` exactly when the model and the store both answer, and `unhealthy` exactly on a 503.
pub health_handler_status {ℓ} :
    {E : Type ℓ} (llm_online : Bool) (stats : Result E ℕ) (indexed : Result E Bool) (entries : ℕ)
    → (((health_handler llm_online stats indexed entries).0 ≡ service_unavailable)
        ↔ ((e : E) × (stats ≡ err e)))
      × (((health_handler llm_online stats indexed entries).0 ≡ ok_200)
          ↔ ((n : ℕ) × (stats ≡ ok n)))
      × (((health_handler llm_online stats indexed entries).1.status ≡ healthy)
          ↔ ((llm_online ≡ true) × ((n : ℕ) × (stats ≡ ok n))))
      × (((health_handler llm_online stats indexed entries).1.status ≡ unhealthy)
          ↔ ((health_handler llm_online stats indexed entries).0 ≡ service_unavailable))
unfolding health_handler http_status connection_of
health_handler_status true (ok n) indexed entries = (
  (λ h. cc, λ h. absurd (ground arith)),
  (λ h. (n, refl), λ h. refl),
  (λ h. (refl, (n, refl)), λ h. refl),
  (λ h. cc, λ h. cc),
)
health_handler_status false (ok n) indexed entries = (
  (λ h. cc, λ h. absurd (ground arith)),
  (λ h. (n, refl), λ h. refl),
  (λ h. cc, λ h. absurd (ground arith)),
  (λ h. cc, λ h. cc),
)
health_handler_status true (err e) indexed entries = (
  (λ h. (e, refl), λ h. refl),
  (λ h. cc, λ h. absurd (ground arith)),
  (λ h. cc, λ h. absurd (ground arith)),
  (λ h. refl, λ h. refl),
)
health_handler_status false (err e) indexed entries = (
  (λ h. (e, refl), λ h. refl),
  (λ h. cc, λ h. absurd (ground arith)),
  (λ h. cc, λ h. absurd (ground arith)),
  (λ h. refl, λ h. refl),
)
