-- ===== src/Pipelines/Ollama/Setup.antt =====
-- The construction of the client in src/pipelines/query/ollama.rs, and its probe. The environment
-- gives the text of a variable that is set.
use rust_enterprise_query_en.Common.{
  ℕ, ◌+◌, ◌-◌, ◌*◌, ◌^◌, Bool, false, ◌&&◌, [], ◌∷◌, ◌++◌, Option, none, some, Result, ok, err,
  ◌>>=◌, if◌then◌else◌, ltb, leb, ◌==◌,
}
use rust_enterprise_query_en.Common.Text.{Text, codes}
use mathlib.Core.Option

-- `str::parse` of an unsigned integer below the bound: digits, at least one, behind a plus sign or
-- none; a digit that leads past the bound ends it with an error.
unfoldable pub parse_digits : ℕ → ℕ → Text → Option ℕ
parse_digits bound n [] = some n
parse_digits bound n (c ∷ s) =
    let next = n * 10 + (c - 48) in
    let rest = parse_digits bound next s in
    if leb 48 c && (leb c 57 && ltb next bound) then rest else none

unfoldable pub parse_some : ℕ → Text → Option ℕ
parse_some bound [] = none
parse_some bound (c ∷ s) = parse_digits bound 0 (c ∷ s)

unfoldable pub parse_unsigned : ℕ → Text → Option ℕ
parse_unsigned bound [] = none
parse_unsigned bound (c ∷ s) = if c == 43 then parse_some bound s else parse_some bound (c ∷ s)

abbrev pub Environment : Type 0
Environment = Text → Option Text

-- What a client holds, beside the connection pool.
pub record OllamaClient : Type 0 where
  pub base_url : Text
  pub model : Text
  pub timeout_secs : ℕ

-- `build` is whether the HTTP client can be built with the timeout.
unfoldable pub init_from_env_or_default {ℓ} :
    {E : Type ℓ} → Environment → (ℕ → Result E (Unit {0})) → Result E OllamaClient
init_from_env_or_default env build =
    let base_url = Option.get_or (env (codes "OLLAMA_HOST")) (codes "http://localhost:11434") in
    let timeout_secs =
      Option.get_or (Option.bind (env (codes "OLLAMA_TIMEOUT_SECS")) (parse_unsigned (2 ^ 64)))
        10 in
    let model = Option.get_or (env (codes "OLLAMA_MODEL")) (codes "llama3.2:latest") in
    do
      _ ← build timeout_secs
      ok (record { base_url = base_url; model = model; timeout_secs = timeout_secs })

-- A status from 200 to 299 is a success.
abbrev pub is_success : ℕ → Bool
is_success status = leb 200 status && leb status 299

unfoldable pub probed {ℓ} : {E : Type ℓ} → Result E ℕ → Bool
probed (ok status) = is_success status
probed (err _) = false

-- `get` sends a request for an address, with a timeout in seconds, and gives the status.
unfoldable pub is_healthy {ℓ} : {E : Type ℓ} → (Text → ℕ → Result E ℕ) → OllamaClient → Bool
is_healthy get client = probed (get (client.base_url ++ codes "/api/tags") 2)
