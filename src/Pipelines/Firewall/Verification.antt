-- ===== src/Pipelines/Firewall/Verification.antt =====
-- What the verification of quotes guarantees.
use mathlib.Core.Path.{subst}
use rust_enterprise_query_en.Common.{
  false, List, [], ◌∷◌, ◌++◌, some, Result, ok, arith, ◌≡◌, ap, sym, ◌∙◌, ◌≢◌, ◌↔◌, ◌⊎◌, inl, inr,
  Bool-cases, Option-cases, Result-cases, All,
}
use rust_enterprise_query_en.Common.Text.{Text, text_eq, contains}
use rust_enterprise_query_en.Common.Text.Laws.{text_eq_iff, text_eq_refl, contains_iff, OccursIn}
use rust_enterprise_query_en.Pipelines.Types.{SemanticResponse}
use rust_enterprise_query_en.Pipelines.Firewall.{
  clean_json, find_chunk, check_quote, verify_response, parse_llm_json,
  verify_and_parse_llm_generation,
}

-- The first chunk with the id, with what stands before and behind it.
pub record FirstChunk (id : Text) (chunks : List (Text × Text)) : Type 0 where
  pub before : List (Text × Text)
  pub text : Text
  pub after : List (Text × Text)
  pub whole : chunks ≡ before ++ ((id, text) ∷ after)
  pub earlier : All (λ c. c.0 ≢ id) before

find_chunk-FirstChunk :
    (id : Text) (chunks : List (Text × Text)) (text : Text)
    → find_chunk id chunks ≡ some text
    → (c : FirstChunk id chunks) × (c.text ≡ text)
unfolding find_chunk
find_chunk-FirstChunk id [] text h = cc
find_chunk-FirstChunk id ((j, t) ∷ chunks) text h = elim (Bool-cases (text_eq j id)) [
  | inl same ↦
      let e : j ≡ id = (text_eq_iff j id).0 same in
      (record { before = []; text = t; after = chunks; whole = rw e; earlier = tt }, ground arith)
  | inr other ↦
      let (c, e) = find_chunk-FirstChunk id chunks text (rw other at h) in
      (
        record {
          before = (j, t) ∷ c.before;
          text = c.text;
          after = c.after;
          whole = ap (◌∷◌ (j, t)) c.whole;
          earlier = (λ p. let b = (text_eq_iff j id).1 p in cc, c.earlier);
        },
        e,
      )
]

find_chunk-eq-some :
    (id text : Text) (before after : List (Text × Text))
    → All (λ c. c.0 ≢ id) before
    → find_chunk id (before ++ ((id, text) ∷ after)) ≡ some text
unfolding find_chunk
find_chunk-eq-some id text [] after h = rw (text_eq_refl id)
find_chunk-eq-some id text ((j, t) ∷ before) after (other, h) =
    ground (arith, text_eq_iff j id, find_chunk-eq-some id text before after h)

-- An answer is grounded in chunks if it claims nothing, or if its quote occurs in the text of the
-- first chunk with the id that it cites.
abbrev pub IsGrounded : List (Text × Text) → SemanticResponse → Type 0
IsGrounded chunks r =
    (r.answer_found ≡ false)
    ⊎ ((c : FirstChunk r.source_chunk_id chunks) × OccursIn r.exact_quote c.text)

verify_response_iff {ℓ} :
    {E : Type ℓ} (chunks : List (Text × Text)) (r r' : SemanticResponse)
    → (verify_response {E = E} chunks r ≡ ok r') ↔ ((r ≡ r') × IsGrounded chunks r)
unfolding verify_response check_quote
verify_response_iff {E} chunks r r' = (to, from)
  where
    to : verify_response {E = E} chunks r ≡ ok r' → (r ≡ r') × IsGrounded chunks r
    to h = elim (Bool-cases r.answer_found) [
      | inr quiet ↦ (ground arith, inl quiet)
      | inl claims ↦ elim (Option-cases (find_chunk r.source_chunk_id chunks)) [
        | inl missing ↦ absurd (ground arith)
        | inr (text, found) ↦ elim (Bool-cases (contains r.exact_quote text)) [
          | inr absent ↦ absurd (ground arith)
          | inl present ↦
              let (c, e) = find_chunk-FirstChunk r.source_chunk_id chunks text found in
              (ground arith, inr (c, rw e ((contains_iff r.exact_quote text).0 present)))
        ]
      ]
    ]

    from : (r ≡ r') × IsGrounded chunks r → verify_response {E = E} chunks r ≡ ok r'
    from (same, inl quiet) = ground arith
    from (same, inr (c, occurs)) =
        let present = (contains_iff r.exact_quote c.text).1 occurs in
        let found : find_chunk r.source_chunk_id chunks ≡ some c.text =
          rw c.whole (find_chunk-eq-some r.source_chunk_id c.text c.before c.after c.earlier) in
        ground arith

module _ {ℓ} {E : Type ℓ} (from_str : Text → Result E SemanticResponse) where
  -- An output is accepted exactly when its cleaned text parses and the response that it parses to
  -- is grounded in the retrieved chunks; the result is that response, unchanged.
  pub verify_iff :
      (raw_output : Text) (chunks : List (Text × Text)) (r : SemanticResponse)
      → (verify_and_parse_llm_generation from_str raw_output chunks ≡ ok r)
        ↔ ((from_str (clean_json raw_output) ≡ ok r) × IsGrounded chunks r)
  unfolding verify_and_parse_llm_generation parse_llm_json
  verify_iff raw_output chunks r = elim (Result-cases (from_str (clean_json raw_output))) [
    | inr (e, failed) ↦ (λ h. absurd (ground arith), λ h. absurd (ground arith))
    | inl (parsed, good) ↦
        let same = verify_response_iff {E = E} chunks parsed r in
        (
          λ h.
              let (p, grounded) = same.0 (rw good at h) in
              (good ∙ ap ok p, subst (IsGrounded chunks) p grounded),
          λ (h, grounded).
              let p : parsed ≡ r = ground arith in
              rw good (same.1 (p, subst (IsGrounded chunks) (sym p) grounded)),
        )
  ]

  -- A response with an empty quote is accepted for whichever retrieved chunk it cites, whatever it
  -- answers: the empty text occurs in every text.
  pub verify_empty_quote :
      (raw_output : Text) (chunks : List (Text × Text)) (r : SemanticResponse)
      → from_str (clean_json raw_output) ≡ ok r
      → r.exact_quote ≡ []
      → FirstChunk r.source_chunk_id chunks
      → verify_and_parse_llm_generation from_str raw_output chunks ≡ ok r
  verify_empty_quote raw_output chunks r parsed empty c =
      (verify_iff raw_output chunks r).1 (parsed, inr (c, ([], c.text, rw empty)))
