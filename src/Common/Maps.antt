-- ===== src/Common/Maps.antt =====
-- `HashMap<String, V>` as an association list with each key once. The order of the list is not that
-- of the map's iterator, which is a parameter wherever the program iterates over a map.
use mathlib.Core.List.{Memᴰ}
use rust_enterprise_query_en.Common.Tests.{if◌then◌else◌, Bool-cases}
use rust_enterprise_query_en.Common.Text.{Text, text_eq}
use rust_enterprise_query_en.Common.Text.Laws.{text_eq_iff, text_eq_refl}
use mathlib.Core.Path.{◌≡◌, refl, ap, sym}
use mathlib.Core.Logic.{◌≢◌, ◌↔◌, inl, inr}
use mathlib.Core.Bool.{Bool}
use mathlib.Core.Option.{Option, none, some}
use mathlib.Core.List.{List, [], ◌∷◌}
use native.Mathlib.Omega.{arith}

module _ {ℓ} {V : Type ℓ} where
  unfoldable pub lookup : Text → List (Text × V) → Option V
  lookup k [] = none
  lookup k ((j, v) ∷ m) = if text_eq j k then some v else lookup k m

  unfoldable pub insert : Text → V → List (Text × V) → List (Text × V)
  insert k v [] = (k, v) ∷ []
  insert k v ((j, w) ∷ m) = if text_eq j k then (j, v) ∷ m else (j, w) ∷ insert k v m

  -- `remove`
  unfoldable pub remove : Text → List (Text × V) → List (Text × V)
  remove k [] = []
  remove k ((j, w) ∷ m) = if text_eq j k then m else (j, w) ∷ remove k m

  -- `retain(|_, v| test(v))`
  unfoldable pub retain : (V → Bool) → List (Text × V) → List (Text × V)
  retain test [] = []
  retain test ((j, w) ∷ m) = if test w then (j, w) ∷ retain test m else retain test m

  abbrev pub IsFresh : Text → List (Text × V) → Type 0
  IsFresh k [] = Unit
  IsFresh k ((j, _) ∷ m) = (j ≢ k) × IsFresh k m

  abbrev pub IsMap : List (Text × V) → Type 0
  IsMap [] = Unit
  IsMap ((j, _) ∷ m) = IsFresh j m × IsMap m

  -- Every value of the map satisfies the predicate.
  abbrev pub AllValues {κ} : (V → Type κ) → List (Text × V) → Type κ
  AllValues P [] = Unit
  AllValues P ((_, v) ∷ m) = P v × AllValues P m

  pub lookup-insert :
      (k j : Text) (v : V) (m : List (Text × V))
      → lookup j (insert k v m) ≡ (if text_eq k j then some v else lookup j m)
  unfolding lookup insert
  lookup-insert k j v [] = refl
  lookup-insert k j v ((i, w) ∷ m) =
      ground (arith, text_eq_iff k j, text_eq_iff i k, text_eq_iff i j, lookup-insert k j v m)

  IsFresh-insert :
      (i k : Text) (v : V) (m : List (Text × V)) → i ≢ k → IsFresh k m → IsFresh k (insert i v m)
  unfolding insert
  IsFresh-insert i k v [] h f = (h, tt)
  IsFresh-insert i k v ((j, w) ∷ m) h (here, f) = elim (Bool-cases (text_eq j i)) [
    | inl same ↦ rw same (here, f)
    | inr other ↦ rw other (here, IsFresh-insert i k v m h f)
  ]

  pub insert-IsMap : (k : Text) (v : V) (m : List (Text × V)) → IsMap m → IsMap (insert k v m)
  unfolding insert
  insert-IsMap k v [] h = (tt, tt)
  insert-IsMap k v ((j, w) ∷ m) (f, h) = elim (Bool-cases (text_eq j k)) [
    | inl same ↦ rw same (f, h)
    | inr other ↦ rw other (
      IsFresh-insert k j v m (λ e. let t = (text_eq_iff j k).1 (sym e) in cc) f,
      insert-IsMap k v m h,
    )
  ]

  lookup-IsFresh : (k : Text) (m : List (Text × V)) → IsFresh k m → lookup k m ≡ none
  unfolding lookup
  lookup-IsFresh k [] f = refl
  lookup-IsFresh k ((j, w) ∷ m) (here, f) = ground (arith, text_eq_iff j k, lookup-IsFresh k m f)

  Memᴰ-lookup :
      (k : Text) (v : V) (m : List (Text × V)) → IsMap m → Memᴰ (k, v) m → lookup k m ≡ some v
  unfolding lookup
  Memᴰ-lookup k v [] h t = elim t [ ]
  Memᴰ-lookup k v ((j, w) ∷ m) h (Memᴰ.head e) =
      rw (← ap (λ p. p.0) e, text_eq_refl k, ← ap (λ p. p.1) e)
  Memᴰ-lookup k v ((j, w) ∷ m) (f, h) (Memᴰ.tail t) =
      let found = Memᴰ-lookup k v m h t in
      elim (Bool-cases (text_eq j k)) [
        | inl same ↦
            let e : j ≡ k = (text_eq_iff j k).0 same in
            let missing = lookup-IsFresh k m (rw e at f) in cc
        | inr other ↦ rw other found
      ]

  lookup-Memᴰ : (k : Text) (v : V) (m : List (Text × V)) → lookup k m ≡ some v → Memᴰ (k, v) m
  unfolding lookup
  lookup-Memᴰ k v [] h = cc
  lookup-Memᴰ k v ((j, w) ∷ m) h = elim (Bool-cases (text_eq j k)) [
    | inl same ↦ Memᴰ.head (ground (arith, (text_eq_iff j k).0 same))
    | inr other ↦ Memᴰ.tail (lookup-Memᴰ k v m (rw other at h))
  ]

  -- The entries of a map are what it looks up.
  pub Memᴰ-lookup_iff :
      (k : Text) (v : V) (m : List (Text × V)) → IsMap m → Memᴰ (k, v) m ↔ (lookup k m ≡ some v)
  Memᴰ-lookup_iff k v m h = (Memᴰ-lookup k v m h, lookup-Memᴰ k v m)
