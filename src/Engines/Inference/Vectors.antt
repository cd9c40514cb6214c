-- ===== src/Engines/Inference/Vectors.antt =====
-- The embedding of sentences by the model of src/engines/embeddings.rs: the buffer has the length that
-- the batch expects.
use rust_enterprise_query_en.Common.{
  map_err-eq-ok, ℕ, suc, ◌*◌, true, List, [], ◌∷◌, map, ok, err, map_err, ◌≡◌, refl, ap, length,
  Result-cases, Bool-cases, >>=-eq-ok, arith, ◌∙◌, sym, inl, inr, length-map, ok-injective, ltb,
  ◌==◌, false,
}
use rust_enterprise_query_en.Common.Text.{Text}
use rust_enterprise_query_en.Common.Floats.{Floats}
use rust_enterprise_query_en.Engines.Embeddings.{
  length_mismatch, get_embeddings_batch, embed_flat, try_new, normalize_chunks, checked_mul,
  usize_bound,
}
use rust_enterprise_query_en.Engines.Embeddings.Normalize.{length-normalize_chunks}
use rust_enterprise_query_en.Engines.Inference.{
  Tensors, Encoding, BertModel, stack_rows, values_of, forward_tokens, embed_sentences, Error,
  tokenizer_failed, tensor_failed,
}
use rust_enterprise_query_en.Engines.Inference.Shapes.{
  ShapeLaws, EncodesEach, elements, values_of-length, stack_rows-shape,
}

module _ (fl : Floats) (tensors : Tensors fl.F) (K : Type 0) (laws : ShapeLaws tensors)
    (model : BertModel fl tensors K)
    (hidden : (ids types out : tensors.Tensor) (n l : ℕ)
      → laws.shape ids ≡ n ∷ l ∷ []
      → model.forward ids types ≡ ok out
      → (h : ℕ) × (laws.shape out ≡ n ∷ l ∷ h ∷ [])) where
  forward_tokens-length :
      (enc : Encoding) (tokens : List Encoding) (d : ℕ) (flat : List fl.F)
      → forward_tokens fl tensors K model (enc ∷ tokens) ≡ ok (d, flat)
      → length flat ≡ suc (length tokens) * d
  unfolding forward_tokens
  forward_tokens-length enc tokens d flat h =
      let (ids, stacked, h1) =
        >>=-eq-ok (stack_rows fl tensors K (map (λ t. t.get_ids) (enc ∷ tokens))) _ h in
      let (types, _, h2) = >>=-eq-ok (tensors.zeros_like ids) _ h1 in
      let (out, passed, h3) = >>=-eq-ok (model.forward ids types) _ h2 in
      let (cls, picked, h4) = >>=-eq-ok (tensors.first_tokens out) _ h3 in
      let (d', sized, h5) = >>=-eq-ok (tensors.dim cls 1) _ h4 in
      let (xs, read, h6) = >>=-eq-ok (values_of fl tensors K cls) _ h5 in
      let n = suc (length tokens) in
      let l = length enc.get_ids in
      let ids_shape : laws.shape ids ≡ n ∷ l ∷ [] =
        stack_rows-shape fl tensors K laws enc.get_ids (map (λ t. t.get_ids) tokens) ids stacked
        ∙ ap (λ a. suc a ∷ l ∷ []) (length-map tokens (λ t. t.get_ids)) in
      let (width, out_shape) = hidden ids types out n l ids_shape passed in
      let cls_shape = laws.first out cls n l width out_shape picked in
      let same_d : d' ≡ width = laws.second_dim cls n width d' cls_shape sized in
      let pair = ok-injective h6 in
      let same : d' ≡ d = ap (λ p. p.0) pair in
      let got : xs ≡ flat = ap (λ p. p.1) pair in
      let count : length xs ≡ elements (n ∷ width ∷ []) =
        values_of-length fl tensors K laws cls xs read ∙ ap elements cls_shape in
      ap length (sym got) ∙ (count ∙ (omega arith ∙ ap (λ a. n * a) (sym same_d ∙ same)))

  embed_sentences-length :
      EncodesEach model.encode_batch
      → (sentence : Text) (sentences : List Text) (d : ℕ) (flat : List fl.F)
      → embed_sentences fl tensors K model (sentence ∷ sentences) ≡ ok (d, flat)
      → length flat ≡ suc (length sentences) * d
  unfolding embed_sentences
  embed_sentences-length each sentence sentences d flat h =
      let (tokens, encoded, h1) =
        >>=-eq-ok (map_err tokenizer_failed (model.encode_batch (sentence ∷ sentences) true)) _ h in
      let count = each _ tokens (map_err-eq-ok tokenizer_failed _ encoded) in
      forwarded tokens (map_err-eq-ok tensor_failed _ h1) count
    where
      forwarded :
          (tokens : List Encoding)
          → forward_tokens fl tensors K model tokens ≡ ok (d, flat)
          → length tokens ≡ suc (length sentences)
          → length flat ≡ suc (length sentences) * d
      forwarded [] g count = absurd (omega arith)
      forwarded (enc ∷ tokens) g count =
          forward_tokens-length enc tokens d flat g ∙ ap (λ n. n * d) count

  not_empty : (n : ℕ) → (suc n == 0) ≡ false
  not_empty n = ground arith

  not_above : (max_batch : ℕ) → ltb max_batch 0 ≡ false
  not_above max_batch = ground arith

  try_new_fits :
      (values : List fl.F) (d n expected got : ℕ)
      → length values ≡ n * d
      → ¬ (try_new {E = Error fl tensors K} values d n ≡ err (length_mismatch expected got))
  unfolding try_new checked_mul
  try_new_fits values d n expected got fits = λ h. elim (Bool-cases (ltb (n * d) usize_bound)) [
    | inl small ↦ ground arith
    | inr large ↦ ground arith
  ]

  embed_flat_fits :
      (d n expected got : ℕ) (flat : List fl.F)
      → length flat ≡ n * d
      → ¬ (embed_flat fl {E = Error fl tensors K} n (d, flat) ≡ err (length_mismatch expected got))
  unfolding embed_flat
  embed_flat_fits d n expected got flat fits = elim (Bool-cases (d == 0)) [
    | inl none ↦ rw none (λ h. cc)
    | inr some ↦ rw some (
        try_new_fits (normalize_chunks fl (length flat) d flat) d n expected got
          (length-normalize_chunks fl (length flat) d flat ∙ fits))
  ]

  -- If the shapes are as documented, the tokenizer gives an encoding for each sentence and the model
  -- a vector for each token, then a batch of sentences is never refused for a wrong number of values.
  pub get_embeddings_batch_fits :
      EncodesEach model.encode_batch
      → (max_batch : ℕ) (sentences : List Text) (expected got : ℕ)
      → ¬ (
          get_embeddings_batch fl max_batch (embed_sentences fl tensors K model) sentences
          ≡ err (length_mismatch expected got))
  unfolding get_embeddings_batch
  get_embeddings_batch_fits each max_batch [] expected got =
      rw (not_above max_batch) (try_new_fits [] 768 0 expected got refl)
  get_embeddings_batch_fits each max_batch (sentence ∷ sentences) expected got =
      elim (Bool-cases (ltb max_batch (length (sentence ∷ sentences)))) [
        | inl large ↦ rw large (λ h. cc)
        | inr within ↦
            elim (Result-cases (embed_sentences fl tensors K model (sentence ∷ sentences))) [
              | inr (x, failed) ↦ rw (within, not_empty (length sentences), failed) (λ h. cc)
              | inl ((d, flat), answered) ↦
                  rw (within, not_empty (length sentences), answered)
                    (embed_flat_fits d (suc (length sentences)) expected got flat
                      (embed_sentences-length each sentence sentences d flat answered))
            ]
      ]
