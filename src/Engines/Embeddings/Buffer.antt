-- ===== src/Engines/Embeddings/Buffer.antt =====
-- The embedding buffer: when it is accepted, what its rows are, and that the rows are the buffer.
use mathlib.Core.List.{flatten}
use mathlib.Core.Option
use native.Mathlib.Decide.{dec_lt}
use rust_enterprise_query_en.Common.{
  ℕ, zero, suc, ◌+◌, ◌*◌, ◌-◌, ◌≤◌, ◌<◌, true, false, ◌&&◌, List, none, some, ok, ltb, leb, lt→ltb,
  drop_of_length-le, ◌==◌, if◌then◌else◌, length, take, drop, arith, ◌≡◌, refl, ◌↔◌, ap, sym, All,
  length-take, length-drop, drop-drop, take-append-drop,
}
use rust_enterprise_query_en.Engines.Embeddings.{
  usize_bound, checked_mul, checked_add, EmbeddingBatch, try_new, get_range, row, rows_from,
  into_vecs,
}

row_end_le : (idx dim count : ℕ) → idx < count → idx * dim + dim ≤ count * dim
row_end_le idx dim count h = grind arith

checked_mul_fits : (a b : ℕ) → a * b < usize_bound → checked_mul a b ≡ some (a * b)
unfolding checked_mul
checked_mul_fits a b h = rw (lt→ltb (a * b) usize_bound h)

checked_add_fits : (a b : ℕ) → a + b < usize_bound → checked_add a b ≡ some (a + b)
unfolding checked_add
checked_add_fits a b h = rw (lt→ltb (a + b) usize_bound h)

le→leb : (a b : ℕ) → a ≤ b → leb a b ≡ true
le→leb a b h = ground arith

module _ {F : Type 0} where
  -- What `try_new` establishes: the buffer holds `count` rows of `dim` values, and the size of a
  -- buffer is a `usize`.
  pub record IsValid (b : EmbeddingBatch F) : Type 0 where
    pub filled : length b.values ≡ b.count * b.dim
    pub fits : b.count * b.dim < usize_bound

  -- A buffer is accepted exactly when the product of its dimensions is a `usize` and is its length,
  -- and then it is kept with these dimensions.
  pub try_new_iff {ℓ} :
      {E : Type ℓ} (values : List F) (dim count : ℕ) (b : EmbeddingBatch F)
      → (try_new {E = E} values dim count ≡ ok b)
        ↔ ((b ≡ record { values = values; dim = dim; count = count }) × IsValid b)
  unfolding try_new checked_mul
  try_new_iff values dim count b = (λ h. ground arith, λ h. ground arith)

  get_range_inside :
      (xs : List F) (start width : ℕ)
      → start + width ≤ length xs
      → get_range xs start (start + width) ≡ some (take width (drop start xs))
  unfolding get_range
  get_range_inside xs start width h =
      let e : start + width - start ≡ width = omega arith in
      rw (le→leb start (start + width) (omega arith), le→leb (start + width) (length xs) h, e)

  row_inside :
      (b : EmbeddingBatch F) (idx : ℕ)
      → IsValid b
      → idx < b.count
      → 0 < b.dim
      → row b idx ≡ some (take b.dim (drop (idx * b.dim) b.values))
  unfolding row Option.bind
  row_inside b idx v h k =
      let end_le = row_end_le idx b.dim b.count h in
      let fits = v.fits in
      let filled = v.filled in
      let below : leb b.count idx ≡ false = ground arith in
      let wide : (b.dim == 0) ≡ false = ground arith in
      rw
        (
          below,
          wide,
          checked_mul_fits idx b.dim (omega arith),
          checked_add_fits (idx * b.dim) b.dim (omega arith),
        )
        (get_range_inside b.values (idx * b.dim) b.dim (omega arith))

  -- Row `idx` of a valid buffer is the slice of `dim` values at `idx * dim`, and there is one exactly
  -- for `idx < count` where the dimension is not 0: no checked operation fails before.
  pub row-slice :
      (b : EmbeddingBatch F) (idx : ℕ)
      → IsValid b
      → row b idx ≡ (
          if ltb idx b.count && ltb 0 b.dim
          then some (take b.dim (drop (idx * b.dim) b.values))
          else none)
  unfolding row
  row-slice b idx v = elim (dec_lt idx b.count) [
    | yes h ↦ elim (dec_lt 0 b.dim) [
      | yes k ↦ ground (arith, row_inside b idx v h k)
      | no k ↦ ground arith
    ]
    | no h ↦ ground arith
  ]

  -- The rows from `i` on, glued together, are the buffer from `i * dim` on.
  rows_from-flatten :
      (b : EmbeddingBatch F) (i n : ℕ)
      → IsValid b
      → 0 < b.dim
      → i + n ≡ b.count
      → flatten (rows_from b i n) ≡ drop (i * b.dim) b.values
  unfolding rows_from flatten
  rows_from-flatten b i zero v k e =
      let same : i ≡ b.count = omega arith in
      let all : i * b.dim ≡ length b.values = rw (same, v.filled) in
      sym (drop_of_length-le (i * b.dim) b.values (omega arith))
  rows_from-flatten b i (suc n) v k e =
      let here = row_inside b i v (omega arith) k in
      let ih = rows_from-flatten b (suc i) n v k (omega arith) in
      let step : suc i * b.dim ≡ i * b.dim + b.dim = omega arith in
      rw (here, rows_from)
        (rw (ih, step, ← drop-drop (i * b.dim) b.dim b.values)
          (take-append-drop b.dim (drop (i * b.dim) b.values)))

  -- The rows of a valid buffer whose dimension is not 0, glued together, are the buffer: nothing is
  -- lost, doubled or reordered.
  pub flatten-into_vecs :
      (b : EmbeddingBatch F) → IsValid b → 0 < b.dim → flatten (into_vecs b) ≡ b.values
  unfolding into_vecs
  flatten-into_vecs b v k =
      let wide : (b.dim == 0) ≡ false = ground arith in
      let all = rows_from-flatten b 0 b.count v k (omega arith) in
      let start : 0 * b.dim ≡ 0 = omega arith in rw wide (rw start at all)

  rows_from-shape :
      (b : EmbeddingBatch F) (i n : ℕ)
      → IsValid b
      → 0 < b.dim
      → i + n ≡ b.count
      → (length (rows_from b i n) ≡ n) × All (λ r. length r ≡ b.dim) (rows_from b i n)
  unfolding rows_from
  rows_from-shape b i zero v k e = (refl, tt)
  rows_from-shape b i (suc n) v k e =
      let here = row_inside b i v (omega arith) k in
      let (many, wide) = rows_from-shape b (suc i) n v k (omega arith) in
      let end_le = row_end_le i b.dim b.count (omega arith) in
      let width : length (take b.dim (drop (i * b.dim) b.values)) ≡ b.dim = omega (
        arith,
        length-take b.dim (drop (i * b.dim) b.values),
        length-drop (i * b.dim) b.values,
        v.filled,
      ) in
      rw (here, rows_from) (ap suc many, (width, wide))

  -- There are `count` rows, each of `dim` values.
  pub into_vecs-shape :
      (b : EmbeddingBatch F)
      → IsValid b
      → 0 < b.dim
      → (length (into_vecs b) ≡ b.count) × All (λ r. length r ≡ b.dim) (into_vecs b)
  unfolding into_vecs
  into_vecs-shape b v k =
      let wide : (b.dim == 0) ≡ false = ground arith in
      rw wide (rows_from-shape b 0 b.count v k (omega arith))
