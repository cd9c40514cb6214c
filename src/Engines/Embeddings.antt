-- ===== src/Engines/Embeddings.antt =====
-- src/engines/embeddings.rs: the contiguous buffer of embeddings, and the normalisation of vectors.
-- `usize` has 64 bits. The tokenizer and the model are a parameter that gives, for the sentences,
-- the dimension and the flattened first-token vectors.
pub mod Buffer
pub mod Normalize
pub mod Batches
use rust_enterprise_query_en.Common.{
  ℕ, zero, suc, ◌+◌, ◌*◌, ◌^◌, Bool, true, false, not, ◌||◌, List, [], ◌∷◌, ◌++◌, map, Option, none,
  some, Result, ok, err, ◌>>=◌, map_err, ltb, leb, ◌==◌, if◌then◌else◌, length, take, drop, ◌&&◌,
  ◌-◌,
}
use rust_enterprise_query_en.Common.Text.{Text}
use rust_enterprise_query_en.Common.Floats.{Floats}
use mathlib.Core.List.{foldl}
use mathlib.Core.Option

abbrev pub usize_bound : ℕ
usize_bound = 2 ^ 64

unfoldable pub checked_mul : ℕ → ℕ → Option ℕ
checked_mul a b = if ltb (a * b) usize_bound then some (a * b) else none

unfoldable pub checked_add : ℕ → ℕ → Option ℕ
checked_add a b = if ltb (a + b) usize_bound then some (a + b) else none

pub data EmbeddingError {ℓ} (E : Type ℓ) : Type ℓ where
  dimension_overflow : EmbeddingError E
  length_mismatch : (expected got : ℕ) → EmbeddingError E
  batch_too_large : (size limit : ℕ) → EmbeddingError E
  model_failed : E → EmbeddingError E
  -- `chunks_exact_mut(0)` panics, which the joined task reports.
  zero_dimension : EmbeddingError E

module _ (F : Type 0) where
  -- The field `data` of the source is `values` here.
  pub record EmbeddingBatch : Type 0 where
    pub values : List F
    pub dim : ℕ
    pub count : ℕ

module _ {F : Type 0} where
  unfoldable pub try_new {ℓ} :
      {E : Type ℓ} → List F → ℕ → ℕ → Result (EmbeddingError E) (EmbeddingBatch F)
  try_new values dim count = elim (checked_mul count dim) [
    | none ↦ err dimension_overflow
    | some expected ↦
        if length values == expected
        then ok (record { values = values; dim = dim; count = count })
        else err (length_mismatch expected (length values))
  ]

  -- `slice.get(start..end)`
  unfoldable pub get_range : List F → ℕ → ℕ → Option (List F)
  get_range xs start end =
      if leb start end && leb end (length xs)
      then some (take (end - start) (drop start xs))
      else none

  unfoldable pub row : EmbeddingBatch F → ℕ → Option (List F)
  row b idx =
      if leb b.count idx || b.dim == 0
      then none
      else Option.bind (checked_mul idx b.dim)
          λ start. Option.bind (checked_add start b.dim) λ end. get_range b.values start end

  -- `filter_map` over the indices from `i`, `n` of them.
  unfoldable pub rows_from : EmbeddingBatch F → ℕ → ℕ → List (List F)
  rows_from b i zero = []
  rows_from b i (suc n) =
      let rest = rows_from b (suc i) n in elim (row b i) [ none ↦ rest | some r ↦ r ∷ rest ]

  unfoldable pub into_vecs : EmbeddingBatch F → List (List F)
  into_vecs b = if b.dim == 0 then [] else rows_from b 0 b.count

module _ (fl : Floats) where
  open fl use {
    F, zero_f, one_f, min_positive, mul, div, abs, max_f, sqrt, square, sum, is_finite, eq_f, le,
  }

  -- `fold(0.0, |acc, x| acc.max(x.abs()))`
  unfoldable pub max_abs_of : List F → F
  max_abs_of xs = foldl (λ acc x. max_f acc (abs x)) zero_f xs

  unfoldable pub scaled_norm : F → List F → F
  scaled_norm max_abs xs =
      let inv_max = div one_f max_abs in
      mul max_abs (sqrt (sum (map (λ x. square (mul x inv_max)) xs)))

  unfoldable pub divide_by_norm : F → List F → List F
  divide_by_norm norm xs =
      if le norm min_positive || not (is_finite norm)
      then xs
      else map (λ x. mul x (div one_f norm)) xs

  unfoldable pub normalize_vector_slice : List F → List F
  normalize_vector_slice xs =
      if eq_f (max_abs_of xs) zero_f || not (is_finite (max_abs_of xs))
      then xs
      else divide_by_norm (scaled_norm (max_abs_of xs) xs) xs

  -- `chunks_exact_mut(dim)`: each full chunk is normalised, what is left over stays. The fuel is
  -- the number of elements, and every round takes `dim` of them.
  unfoldable pub normalize_chunks : ℕ → ℕ → List F → List F
  normalize_chunks zero dim xs = xs
  normalize_chunks (suc fuel) dim xs =
      let rest = normalize_vector_slice (take dim xs) ++ normalize_chunks fuel dim (drop dim xs) in
      if ltb (length xs) dim then xs else rest

  -- A model: the dimension and the flat data for the sentences, or its error.
  abbrev pub Model : Type 0 → Type 0
  Model E = List Text → Result E (ℕ × List F)

  unfoldable pub embed_flat :
      {E : Type 0} → ℕ → ℕ × List F → Result (EmbeddingError E) (EmbeddingBatch F)
  embed_flat count (dim, flat) =
      if dim == 0
      then err zero_dimension
      else try_new (normalize_chunks (length flat) dim flat) dim count

  unfoldable pub get_embeddings_batch :
      {E : Type 0} → ℕ → Model E → List Text → Result (EmbeddingError E) (EmbeddingBatch F)
  get_embeddings_batch max_batch model sentences =
      if ltb max_batch (length sentences)
      then err (batch_too_large (length sentences) max_batch)
      else if length sentences == 0
      then try_new [] 768 0
      else do
        tensors ← map_err model_failed (model sentences)
        embed_flat (length sentences) tensors

  unfoldable pub get_embeddings :
      {E : Type 0} → ℕ → Model E → List Text → Result (EmbeddingError E) (List (List F))
  get_embeddings max_batch model sentences = do
    b ← get_embeddings_batch max_batch model sentences
    ok (into_vecs b)
