-- ===== src/Gateway/Requests/Laws.antt =====
-- Which queries are accepted, and what the guards of the two doors have in common.
use rust_enterprise_query_en.Common.{
  ℕ, ◌≤◌, true, [], ◌∷◌, ok, err, ltb, ◌≡◌, refl, ◌↔◌, ◌≢◌, ◌⊎◌, inl, inr, arith, Bool-cases,
  map_err,
}
use rust_enterprise_query_en.Common.Text.{Text, trim, is_empty, byte_len}
use rust_enterprise_query_en.Gateway.Requests.{
  StatusCode, bad_request, GrpcCode, invalid_argument, Refusal, cannot_be_empty, exceeds_maximum,
  validate_query_str, grpc_guards,
}

is_empty_iff : (s : Text) → (is_empty s ≡ true) ↔ (s ≡ [])
unfolding is_empty
is_empty_iff [] = (λ h. refl, λ h. refl)
is_empty_iff (c ∷ s) = (λ h. cc, λ h. cc)

-- A query is accepted exactly when something is left after trimming, and this takes at most
-- `max_chars` bytes; the result is what is left.
pub validate_query_str_iff :
    (query name : Text) (max_chars : ℕ) (out : Text)
    → (validate_query_str query name max_chars ≡ ok out)
      ↔ ((out ≡ trim query) × (trim query ≢ []) × (byte_len (trim query) ≤ max_chars))
unfolding validate_query_str
validate_query_str_iff query name max_chars out = (
  λ h. (ground arith, ground (arith, is_empty_iff (trim query)), ground arith),
  λ (same, some_text, short). ground (arith, is_empty_iff (trim query)),
)

-- A refusal of one door for the code of the other.
abbrev pub to_grpc : StatusCode × Refusal → GrpcCode × Refusal
to_grpc e = (invalid_argument, e.1)

-- Under the same name, as the SQL doors have it, the guards accept the same queries with the same
-- result, and refuse the others with the same message, over HTTP with 400 and over gRPC as an
-- invalid argument.
pub grpc_guards-validate_query_str :
    (query name : Text) (max_chars : ℕ)
    → (grpc_guards query name max_chars ≡ map_err to_grpc (validate_query_str query name max_chars))
      × (((out : Text) × (validate_query_str query name max_chars ≡ ok out))
          ⊎ ((why : Refusal) × (validate_query_str query name max_chars ≡ err (bad_request, why))))
unfolding grpc_guards validate_query_str
grpc_guards-validate_query_str query name max_chars = elim (Bool-cases (is_empty (trim query))) [
  | inl nothing ↦ rw nothing (refl, inr (cannot_be_empty name, refl))
  | inr some_text ↦ elim (Bool-cases (ltb max_chars (byte_len (trim query)))) [
    | inl long ↦ rw (some_text, long) (refl, inr (exceeds_maximum name max_chars, refl))
    | inr short ↦ rw (some_text, short) (refl, inl (trim query, refl))
  ]
]
