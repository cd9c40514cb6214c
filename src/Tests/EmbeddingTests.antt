-- ===== src/Tests/EmbeddingTests.antt =====
-- The embedding buffer at concrete inputs.
use mathlib.Core.Option
use rust_enterprise_query_en.Common.{ℕ, [], ◌∷◌, ok, ◌≡◌, refl, arith}
use rust_enterprise_query_en.Common.Text.{codes}
use rust_enterprise_query_en.Engines.Embeddings.{
  EmbeddingBatch, Model, try_new, row, into_vecs, normalize_vector_slice, normalize_chunks,
  get_embeddings, get_embeddings_batch, embed_flat, checked_mul, checked_add, get_range, rows_from,
  max_abs_of, scaled_norm, divide_by_norm,
}
use rust_enterprise_query_en.Engines.Embeddings.Buffer.{IsValid}
use rust_enterprise_query_en.Engines.Embeddings.Batches.{Embeds, get_embeddings-Embeds}
use rust_enterprise_query_en.Tests.Concrete.{numbers}

abbrev buffer : EmbeddingBatch ℕ
buffer = record { values = 1 ∷ 2 ∷ 3 ∷ 4 ∷ []; dim = 2; count = 2 }

buffer-IsValid : IsValid buffer
buffer-IsValid = record { filled = refl; fits = omega arith }

abbrev model : Model numbers ℕ
model sentences = ok (2, 1 ∷ 0 ∷ [])

embedded : get_embeddings numbers 8 model (codes "hi" ∷ []) ≡ ok ((1 ∷ 0 ∷ []) ∷ [])
unfolding get_embeddings get_embeddings_batch embed_flat try_new checked_mul checked_add get_range
    row rows_from into_vecs normalize_chunks normalize_vector_slice max_abs_of scaled_norm
    divide_by_norm Option.bind
embedded = refl

get_embeddings-Embeds_example : Embeds numbers 8 model (codes "hi" ∷ []) ((1 ∷ 0 ∷ []) ∷ [])
get_embeddings-Embeds_example =
    get_embeddings-Embeds numbers 8 model (codes "hi" ∷ []) (omega arith) embedded
