-- ===== src/Engines/Inference/Shapes.antt =====
-- The shapes of the tensors of both models, and what they give: as many scores as passages, as many
-- vectors as sentences.
use rust_enterprise_query_en.Common.{
  map_err-eq-ok, ℕ, suc, ◌*◌, Bool, true, List, [], ◌∷◌, map, Result, ok, err, map_err, collect,
  ◌≡◌, refl, ap, length, >>=-eq-ok, arith, ◌∙◌, inl, inr, ap₂, length-map, collect-cons,
  collect-nil,
}
use rust_enterprise_query_en.Common.Text.{Text}
use rust_enterprise_query_en.Common.Floats.{Floats}
use rust_enterprise_query_en.Engines.Rerank.{RerankError, scorer_failed}
use rust_enterprise_query_en.Engines.Rerank.Laws.{rerank-Outcome}
use rust_enterprise_query_en.Engines.Inference.{
  Tensors, Encoding, CrossEncoder, stack_rows, values_of, forward_pairs, tensors_of, score_pairs,
  rerank, Error, tokenizer_failed, tensor_failed,
}

-- The number of the elements of a shape.
abbrev pub elements : List ℕ → ℕ
elements [] = 1
elements (n ∷ shape) = n * elements shape

module _ {F : Type 0} (tensors : Tensors F) where
  open tensors use {
    Tensor, TensorError, of_slice, stack, zeros_like, first_tokens, dim, flatten_all, to_vec1,
  }

  -- What the crate documents of the shapes.
  pub record ShapeLaws : Type 0 where
    pub shape : Tensor → List ℕ
    pub stacked :
        (t : Tensor) (ts : List Tensor) (u : Tensor)
        → stack (t ∷ ts) ≡ ok u
        → shape u ≡ length (t ∷ ts) ∷ shape t
    pub sliced : (xs : List ℕ) (t : Tensor) → of_slice xs ≡ ok t → shape t ≡ length xs ∷ []
    pub flattened : (t u : Tensor) → flatten_all t ≡ ok u → shape u ≡ elements (shape t) ∷ []
    pub read :
        (t : Tensor) (n : ℕ) (xs : List F) → shape t ≡ n ∷ [] → to_vec1 t ≡ ok xs → length xs ≡ n
    pub first :
        (t u : Tensor) (a b c : ℕ)
        → shape t ≡ a ∷ b ∷ c ∷ []
        → first_tokens t ≡ ok u
        → shape u ≡ a ∷ c ∷ []
    pub second_dim : (t : Tensor) (a c d : ℕ) → shape t ≡ a ∷ c ∷ [] → dim t 1 ≡ ok d → d ≡ c

-- A tokenizer gives an encoding for each input.
abbrev pub EncodesEach :
    {K Input : Type 0} → (List Input → Bool → Result K (List Encoding)) → Type 0
EncodesEach {Input = Input} encode_batch =
    (inputs : List Input) (encodings : List Encoding)
    → encode_batch inputs true ≡ ok encodings
    → length encodings ≡ length inputs

-- The values of the model's tensors, where the laws hold.
module _ (fl : Floats) (tensors : Tensors fl.F) (K : Type 0) (laws : ShapeLaws tensors) where
  open tensors use {Tensor, TensorError, of_slice, stack, zeros_like, first_tokens, dim}

  pub values_of-length :
      (t : Tensor) (xs : List fl.F)
      → values_of fl tensors K t ≡ ok xs
      → length xs ≡ elements (laws.shape t)
  unfolding values_of
  values_of-length t xs h =
      let (u, flat, read) = >>=-eq-ok (tensors.flatten_all t) tensors.to_vec1 h in
      laws.read u (elements (laws.shape t)) xs (laws.flattened t u flat) read

  collected-length :
      (rows : List (List ℕ)) (ts : List Tensor)
      → collect (map of_slice rows) ≡ ok ts
      → length ts ≡ length rows
  collected-length [] ts h = rw (collect-nil h) refl
  collected-length (row ∷ rows) ts h =
      let (t, rest, _, done, both) = collect-cons (of_slice row) (map of_slice rows) h in
      rw both (ap suc (collected-length rows rest done))

  tensors_of-length :
      (encodings : List Encoding) (ids masks : List Tensor)
      → tensors_of fl tensors K encodings ≡ ok (ids, masks)
      → length ids ≡ length encodings
  unfolding tensors_of
  tensors_of-length [] ids masks h = cc
  tensors_of-length (enc ∷ encodings) ids masks h =
      let (id, _, h1) = >>=-eq-ok (of_slice enc.get_ids) _ h in
      let (mask, _, h2) = >>=-eq-ok (of_slice enc.get_attention_mask) _ h1 in
      let ((rest, others), done, h3) = >>=-eq-ok (tensors_of fl tensors K encodings) _ h2 in
      let e : ids ≡ id ∷ rest = cc in rw e (ap suc (tensors_of-length encodings rest others done))

  stacked-shape :
      (n l : ℕ) (t : Tensor) (ts : List Tensor) (u : Tensor)
      → laws.shape t ≡ l ∷ []
      → length ts ≡ n
      → stack (t ∷ ts) ≡ ok u
      → laws.shape u ≡ suc n ∷ l ∷ []
  stacked-shape n l t ts u shape_t count made =
      laws.stacked t ts u made ∙ ap₂ (λ a b. suc a ∷ b) count shape_t

  pub stack_rows-shape :
      (row : List ℕ) (rows : List (List ℕ)) (u : Tensor)
      → stack_rows fl tensors K (row ∷ rows) ≡ ok u
      → laws.shape u ≡ suc (length rows) ∷ length row ∷ []
  unfolding stack_rows
  stack_rows-shape row rows u h =
      let (ts, collected, made) = >>=-eq-ok (collect (map of_slice (row ∷ rows))) stack h in
      let (t, rest, sliced, done, both) =
        collect-cons (of_slice row) (map of_slice rows) collected in
      stacked-shape (length rows) (length row) t rest u (laws.sliced row t sliced)
        (collected-length rows rest done) (rw both at made)

  ids-shape :
      (enc : Encoding) (encodings : List Encoding) (ids masks : List Tensor) (u : Tensor)
      → tensors_of fl tensors K (enc ∷ encodings) ≡ ok (ids, masks)
      → stack ids ≡ ok u
      → laws.shape u ≡ suc (length encodings) ∷ length enc.get_ids ∷ []
  unfolding tensors_of
  ids-shape enc encodings ids masks u h made =
      let (id, sliced, h1) = >>=-eq-ok (of_slice enc.get_ids) _ h in
      let (mask, _, h2) = >>=-eq-ok (of_slice enc.get_attention_mask) _ h1 in
      let ((rest, others), done, h3) = >>=-eq-ok (tensors_of fl tensors K encodings) _ h2 in
      let both : ids ≡ id ∷ rest = cc in
      stacked-shape (length encodings) (length enc.get_ids) id rest u
        (laws.sliced enc.get_ids id sliced) (tensors_of-length encodings rest others done)
        (rw both at made)

  -- The forward pass of the cross-encoder gives one number for each row.
  module _ (encoder : CrossEncoder fl tensors K)
      (one_logit : (ids mask types out : Tensor) (n l : ℕ)
        → laws.shape ids ≡ n ∷ l ∷ []
        → encoder.forward ids mask types ≡ ok out
        → laws.shape out ≡ n ∷ 1 ∷ []) where
    forward_pairs-length :
        (enc : Encoding) (encodings : List Encoding) (scores : List fl.F)
        → forward_pairs fl tensors K encoder (enc ∷ encodings) ≡ ok scores
        → length scores ≡ suc (length encodings)
    unfolding forward_pairs
    forward_pairs-length enc encodings scores h =
        let ((ids, masks), split, h1) = >>=-eq-ok (tensors_of fl tensors K (enc ∷ encodings)) _ h in
        let (input_ids, stacked, h2) = >>=-eq-ok (stack ids) _ h1 in
        let (mask, _, h3) = >>=-eq-ok (stack masks) _ h2 in
        let (types, _, h4) = >>=-eq-ok (zeros_like input_ids) _ h3 in
        let (logits, passed, h5) = >>=-eq-ok (encoder.forward input_ids mask types) _ h4 in
        let shape_out =
          one_logit input_ids mask types logits (suc (length encodings)) (length enc.get_ids)
            (ids-shape enc encodings ids masks input_ids split stacked) passed in
        let count : elements (laws.shape logits) ≡ suc (length encodings) =
          ap elements shape_out ∙ omega arith in
        values_of-length logits scores h5 ∙ count

    forwarded-length :
        (encodings : List Encoding) (n : ℕ) (scores : List fl.F)
        → length encodings ≡ suc n
        → forward_pairs fl tensors K encoder encodings ≡ ok scores
        → length scores ≡ suc n
    forwarded-length [] n scores count h = absurd (omega arith)
    forwarded-length (enc ∷ encodings) n scores count h =
        forward_pairs-length enc encodings scores h ∙ count

    -- If the shapes are as documented, the tokenizer gives an encoding for each pair and the model
    -- one number for each row, then scoring that succeeds gives one score for each passage.
    pub score_pairs-length :
        EncodesEach encoder.encode_batch
        → (query : Text) (passages : List Text) {scores : List fl.F}
        → score_pairs fl tensors K encoder query passages ≡ ok scores
        → length scores ≡ length passages
    unfolding score_pairs
    score_pairs-length each query [] h = cc
    score_pairs-length each query (p ∷ ps) {scores} h =
        let (encodings, encoded, h1) =
          >>=-eq-ok
            (map_err tokenizer_failed (encoder.encode_batch (map (λ x. (query, x)) (p ∷ ps)) true))
            _ h in
        let count = each _ encodings (map_err-eq-ok tokenizer_failed _ encoded) in
        forwarded-length encodings (length ps) scores
          (count ∙ ap suc (length-map ps (λ x. (query, x)))) (map_err-eq-ok tensor_failed _ h1)

    -- If the shapes are as documented, the tokenizer gives an encoding for each pair and the model
    -- one number for each row, then re-ranking fails only where scoring fails, and as it does: the
    -- number of the scores is never wrong.
    pub rerank-Failure :
        EncodesEach encoder.encode_batch
        → {T : Type 0} (query : Text) (candidates : List (T × Text)) (k : ℕ)
          {x : RerankError (Error fl tensors K)}
        → rerank fl tensors K encoder query candidates k ≡ err x
        → (e : Error fl tensors K) × (score_pairs fl tensors K encoder query
              (map (λ c. c.1) candidates)
            ≡ err e)
          × (x ≡ scorer_failed e)
    unfolding rerank
    rerank-Failure each {T} query candidates k h =
        elim (rerank-Outcome fl T (score_pairs fl tensors K encoder) query candidates k) [
          | inl (_, e) ↦ absurd (cc)
          | inr (_, _, inl (x, failed, e)) ↦ (x, failed, cc)
          | inr (_, _, inr (found, given, inl (differs, e))) ↦ absurd (
              differs (
                score_pairs-length each query (map (λ c. c.1) candidates) given
                ∙ length-map candidates (λ c. c.1)))
          | inr (_, _, inr (found, given, inr (same, (best, e, top)))) ↦ absurd (cc)
        ]
