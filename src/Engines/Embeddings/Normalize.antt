-- ===== src/Engines/Embeddings/Normalize.antt =====
-- Normalisation keeps the shape of the data, and leaves alone what it cannot normalise.
use mathlib.Core.Bool.{◌||◌, not}
use rust_enterprise_query_en.Common.{
  ℕ, zero, suc, ◌+◌, ◌≤◌, ◌<◌, false, List, ◌++◌, ltb, length, drop, arith, ◌≡◌, refl, Bool-cases,
  inl, inr, length-append, length-drop, ltb_false→le, take-length, drop-length, take, length-take,
  length-map,
}
use rust_enterprise_query_en.Common.Floats.{Floats}
use rust_enterprise_query_en.Engines.Embeddings.{
  normalize_vector_slice, normalize_chunks, divide_by_norm, max_abs_of, scaled_norm,
}

module _ (fl : Floats) where
  open fl use {F}

  normalize_chunks_short :
      (fuel dim : ℕ) (xs : List F) → length xs < dim → normalize_chunks fl fuel dim xs ≡ xs
  unfolding normalize_chunks
  normalize_chunks_short zero dim xs h = refl
  normalize_chunks_short (suc fuel) dim xs h = ground arith

  -- The fuel is enough: with at least as much fuel as values, more fuel changes nothing.
  pub normalize_chunks_enough_fuel :
      (fuel more dim : ℕ) (xs : List F)
      → 0 < dim
      → length xs ≤ fuel
      → normalize_chunks fl (fuel + more) dim xs ≡ normalize_chunks fl fuel dim xs
  unfolding normalize_chunks
  normalize_chunks_enough_fuel zero more dim xs h k =
      normalize_chunks_short (zero + more) dim xs (omega arith)
  normalize_chunks_enough_fuel (suc fuel) more dim xs h k =
      let e : suc fuel + more ≡ suc (fuel + more) = omega arith in
      rw e (elim (Bool-cases (ltb (length xs) dim)) [
        | inl short ↦ rw short
        | inr full ↦
            let wide = ltb_false→le (length xs) dim full in
            rw (
              full,
              normalize_chunks_enough_fuel fuel more dim (drop dim xs) h
                  (omega (arith, length-drop dim xs)),
            )
      ])

  -- A chunk in front is normalised by itself, and the rest as if it stood alone.
  pub normalize_chunks-append :
      (fuel dim : ℕ) (chunk rest : List F)
      → length chunk ≡ dim
      → normalize_chunks fl (suc fuel) dim (chunk ++ rest)
        ≡ normalize_vector_slice fl chunk ++ normalize_chunks fl fuel dim rest
  unfolding normalize_chunks
  normalize_chunks-append fuel dim chunk rest h =
      let full : ltb (length (chunk ++ rest)) dim ≡ false =
        ground (arith, length-append chunk rest) in
      rw (full, ← h, take-length chunk rest, drop-length chunk rest)

  length-normalize_vector_slice : (xs : List F) → length (normalize_vector_slice fl xs) ≡ length xs
  unfolding normalize_vector_slice divide_by_norm
  length-normalize_vector_slice xs =
      elim (Bool-cases
        (fl.eq_f (max_abs_of fl xs) fl.zero_f || not (fl.is_finite (max_abs_of fl xs)))) [
          | inl kept ↦ rw kept
          | inr other ↦
              let norm = scaled_norm fl (max_abs_of fl xs) xs in
              elim (Bool-cases (fl.le norm fl.min_positive || not (fl.is_finite norm))) [
                | inl small ↦ rw (other, small)
                | inr large ↦ rw (other, large) (length-map xs _)
              ]
        ]

  -- Normalisation keeps the number of values.
  pub length-normalize_chunks :
      (fuel dim : ℕ) (xs : List F) → length (normalize_chunks fl fuel dim xs) ≡ length xs
  unfolding normalize_chunks
  length-normalize_chunks zero dim xs = refl
  length-normalize_chunks (suc fuel) dim xs = elim (Bool-cases (ltb (length xs) dim)) [
    | inl short ↦ rw short
    | inr full ↦ rw full (
        omega (
          arith,
          ltb_false→le (length xs) dim full,
          length-append (normalize_vector_slice fl (take dim xs))
              (normalize_chunks fl fuel dim (drop dim xs)),
          length-normalize_vector_slice (take dim xs),
          length-take dim xs,
          length-normalize_chunks fuel dim (drop dim xs),
          length-drop dim xs,
        ))
  ]
