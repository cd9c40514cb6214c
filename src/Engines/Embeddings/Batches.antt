-- ===== src/Engines/Embeddings/Batches.antt =====
-- The embeddings of a batch of sentences.
use mathlib.Core.List.{flatten}
use mathlib.Core.Path.{subst, ap}
use rust_enterprise_query_en.Common.{
  ℕ, ◌≤◌, ◌<◌, List, ok, ltb, ◌==◌, length, arith, ◌≡◌, All, Result-cases, Bool-cases, inl, inr,
  ltb_false→le, ap,
}
use rust_enterprise_query_en.Common.Text.{Text}
use rust_enterprise_query_en.Common.Floats.{Floats}
use rust_enterprise_query_en.Engines.Embeddings.{
  EmbeddingBatch, Model, try_new, into_vecs, normalize_chunks, embed_flat, get_embeddings_batch,
  get_embeddings,
}
use rust_enterprise_query_en.Engines.Embeddings.Buffer.{
  try_new_iff, into_vecs-shape, flatten-into_vecs,
}

module _ (fl : Floats) {E : Type 0} (max_batch : ℕ) (model : Model fl E) where
  open fl use {F}

  -- What the vectors of a batch are: one for each sentence, each of the model's dimension, and
  -- together the model's output with its chunks normalised.
  pub record Embeds (sentences : List Text) (vectors : List (List F)) : Type 0 where
    pub dim : ℕ
    pub flat : List F
    pub answered : model sentences ≡ ok (dim, flat)
    pub positive : 0 < dim
    pub within : length sentences ≤ max_batch
    pub many : length vectors ≡ length sentences
    pub wide : All (λ v. length v ≡ dim) vectors
    pub content : flatten vectors ≡ normalize_chunks fl (length flat) dim flat

  embed_flat-Embeds :
      (sentences : List Text) (dim : ℕ) (flat : List F) (b : EmbeddingBatch F)
      → model sentences ≡ ok (dim, flat)
      → length sentences ≤ max_batch
      → embed_flat fl {E = E} (length sentences) (dim, flat) ≡ ok b
      → Embeds sentences (into_vecs b)
  unfolding embed_flat
  embed_flat-Embeds sentences dim flat b answered within h = elim (Bool-cases (dim == 0)) [
    | inl no_dim ↦ absurd (ground arith)
    | inr some_dim ↦
        let made : try_new {E = E} (normalize_chunks fl (length flat) dim flat) dim
              (length sentences)
            ≡ ok b =
          rw some_dim at h in
        let (same, valid) = (try_new_iff _ dim (length sentences) b).0 made in
        let positive : 0 < b.dim = ground arith in
        let (many, wide) = into_vecs-shape b valid positive in
        record {
          dim = dim;
          flat = flat;
          answered = answered;
          positive = ground arith;
          within = within;
          many = ground arith;
          wide =
              subst (λ (d : ℕ). All (λ v. length v ≡ d) (into_vecs b))
                (ap (λ (x : EmbeddingBatch F). x.dim) same) wide;
          content = ground (arith, flatten-into_vecs b valid positive);
        }
  ]

  batch_of_embed_flat :
      (sentences : List Text) (b : EmbeddingBatch F)
      → 0 < length sentences
      → get_embeddings_batch fl max_batch model sentences ≡ ok b
      → Embeds sentences (into_vecs b)
  unfolding get_embeddings_batch
  batch_of_embed_flat sentences b h e = elim (Bool-cases (ltb max_batch (length sentences))) [
    | inl large ↦ absurd (ground arith)
    | inr within ↦ elim (Result-cases (model sentences)) [
      | inr (x, failed) ↦ absurd (ground arith)
      | inl ((dim, flat), answered) ↦
          embed_flat-Embeds sentences dim flat b answered
            (ltb_false→le max_batch (length sentences) within) (ground arith)
    ]
  ]

  -- An embedding call that succeeds on at least one sentence returns one vector for each sentence,
  -- all of the model's dimension, which is not 0, and together the output of the model with its
  -- chunks normalised; and the batch was within the limit.
  pub get_embeddings-Embeds :
      (sentences : List Text) {vectors : List (List F)}
      → 0 < length sentences
      → get_embeddings fl max_batch model sentences ≡ ok vectors
      → Embeds sentences vectors
  unfolding get_embeddings
  get_embeddings-Embeds sentences {vectors} h e =
      elim (Result-cases (get_embeddings_batch fl max_batch model sentences)) [
        | inl (b, made) ↦
            let out : into_vecs b ≡ vectors = ground arith in
            subst (Embeds sentences) out (batch_of_embed_flat sentences b h made)
        | inr (x, failed) ↦ absurd (ground arith)
      ]
