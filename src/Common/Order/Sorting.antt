-- ===== src/Common/Order/Sorting.antt =====
-- The stable sort, that its result is ordered and a rearrangement, and when it is unique.
use Prim.Native.Nat.{ℕ, zero, suc}
use mathlib.Core.Path.{◌≡◌, refl, ap, ap₂, ◌∙◌}
use mathlib.Core.Bool.{Bool, true, false}
use mathlib.Core.List.{List, [], ◌∷◌, Permᴰ, Memᴰ}
use mathlib.Core.List.Permᴰ
use mathlib.Core.Logic.{inl, inr}
use native.Mathlib.Omega.{arith}
use rust_enterprise_query_en.Common.Tests.{if◌then◌else◌, Bool-cases}
use rust_enterprise_query_en.Common.Lists.{length, take, drop, All, All-map, All-take, All-drop}

-- `le a b` says that `a` need not stand behind `b`.
pub record IsTotal {ℓ} {A : Type ℓ} (le : A → A → Bool) : Type ℓ where
  pub total : (a b : A) → le a b ≡ false → le b a ≡ true
  pub trans : (a b c : A) → le a b ≡ true → le b c ≡ true → le a c ≡ true

-- What stands in a list stands in every rearrangement of it.
pub Memᴰ_of_perm {ℓ} : {A : Type ℓ} {a : A} {l r : List A} → Permᴰ l r → Memᴰ a l → Memᴰ a r
Memᴰ_of_perm Permᴰ.nil t = t
Memᴰ_of_perm (Permᴰ.cons e p) (Memᴰ.head f) = Memᴰ.head (f ∙ e)
Memᴰ_of_perm (Permᴰ.cons e p) (Memᴰ.tail t) = Memᴰ.tail (Memᴰ_of_perm p t)
Memᴰ_of_perm (Permᴰ.swap e f) (Memᴰ.head g) = Memᴰ.tail (Memᴰ.head (g ∙ e))
Memᴰ_of_perm (Permᴰ.swap e f) (Memᴰ.tail (Memᴰ.head g)) = Memᴰ.head (g ∙ f)
Memᴰ_of_perm (Permᴰ.swap e f) (Memᴰ.tail (Memᴰ.tail t)) = Memᴰ.tail (Memᴰ.tail t)
Memᴰ_of_perm (Permᴰ.trans p q) t = Memᴰ_of_perm q (Memᴰ_of_perm p t)

module _ {ℓ} {A : Type ℓ} (le : A → A → Bool) where
  unfoldable pub insert_sorted : A → List A → List A
  insert_sorted x [] = x ∷ []
  insert_sorted x (y ∷ ys) = if le x y then x ∷ y ∷ ys else y ∷ insert_sorted x ys

  unfoldable pub sort_by : List A → List A
  sort_by [] = []
  sort_by (x ∷ xs) = insert_sorted x (sort_by xs)

  abbrev pub IsSorted : List A → Type ℓ
  IsSorted [] = Unit
  IsSorted (x ∷ xs) = All (λ y. le x y ≡ true) xs × IsSorted xs

  length-perm : {l r : List A} → Permᴰ l r → length l ≡ length r
  length-perm Permᴰ.nil = refl
  length-perm (Permᴰ.cons e p) = ap suc (length-perm p)
  length-perm (Permᴰ.swap e f) = refl
  length-perm (Permᴰ.trans p q) = length-perm p ∙ length-perm q

  insert_sorted-perm : (x : A) (xs : List A) → Permᴰ (insert_sorted x xs) (x ∷ xs)
  unfolding insert_sorted
  insert_sorted-perm x [] = Permᴰ.refl (x ∷ [])
  insert_sorted-perm x (y ∷ ys) = elim (Bool-cases (le x y)) [
    | inl first ↦ rw first (Permᴰ.refl (x ∷ y ∷ ys))
    | inr later ↦
        rw later (Permᴰ.trans (Permᴰ.cons refl (insert_sorted-perm x ys)) (Permᴰ.swap refl refl))
  ]

  -- The sort loses and invents nothing.
  pub sort_by-perm : (xs : List A) → Permᴰ (sort_by xs) xs
  unfolding sort_by
  sort_by-perm [] = Permᴰ.nil
  sort_by-perm (x ∷ xs) =
      Permᴰ.trans (insert_sorted-perm x (sort_by xs)) (Permᴰ.cons refl (sort_by-perm xs))

  pub length-sort_by : (xs : List A) → length (sort_by xs) ≡ length xs
  length-sort_by xs = length-perm (sort_by-perm xs)

  insert_sorted-All {κ} :
      (P : A → Type κ) (x : A) (xs : List A) → P x → All P xs → All P (insert_sorted x xs)
  unfolding insert_sorted
  insert_sorted-All P x [] px pxs = (px, tt)
  insert_sorted-All P x (y ∷ ys) px (py, pys) = elim (Bool-cases (le x y)) [
    | inl first ↦ rw first (px, (py, pys))
    | inr later ↦ rw later (py, insert_sorted-All P x ys px pys)
  ]

  -- A list that is ordered is left as it is: the sort is stable.
  pub sort_by_of_IsSorted : (xs : List A) → IsSorted xs → sort_by xs ≡ xs
  unfolding sort_by insert_sorted
  sort_by_of_IsSorted [] s = refl
  sort_by_of_IsSorted (x ∷ []) s = refl
  sort_by_of_IsSorted (x ∷ y ∷ ys) (b, s) = rw (sort_by_of_IsSorted (y ∷ ys) s, b.0)

module _ {ℓ} {A : Type ℓ} {le : A → A → Bool} (order : IsTotal le) where
  insert_sorted-IsSorted :
      (x : A) (xs : List A) → IsSorted le xs → IsSorted le (insert_sorted le x xs)
  unfolding insert_sorted
  insert_sorted-IsSorted x [] s = (tt, tt)
  insert_sorted-IsSorted x (y ∷ ys) (b, s) = elim (Bool-cases (le x y)) [
    | inl first ↦ rw first ((first, All-map ys (λ z yz. order.trans x y z first yz) b), (b, s))
    | inr later ↦ rw later (
      insert_sorted-All le (λ z. le y z ≡ true) x ys (order.total x y later) b,
      insert_sorted-IsSorted x ys s,
    )
  ]

  -- The result is in order.
  pub sort_by-IsSorted : (xs : List A) → IsSorted le (sort_by le xs)
  unfolding sort_by
  sort_by-IsSorted [] = tt
  sort_by-IsSorted (x ∷ xs) = insert_sorted-IsSorted x (sort_by le xs) (sort_by-IsSorted xs)

  -- Where only equal elements compare equal, the order of insertion does not matter.
  module _ (antisymm : (a b : A) → le a b ≡ true → le b a ≡ true → a ≡ b) where
    insert_sorted_comm :
        (x y : A) (l : List A)
        → insert_sorted le x (insert_sorted le y l) ≡ insert_sorted le y (insert_sorted le x l)
    unfolding insert_sorted
    insert_sorted_comm x y [] = ground (arith, order.total x y, order.total y x, antisymm x y)
    insert_sorted_comm x y (z ∷ l) = ground (
      arith,
      insert_sorted_comm x y l,
      order.total x y,
      order.total y x,
      order.total x z,
      order.total y z,
      antisymm x y,
      order.trans x y z,
      order.trans y x z,
    )

    -- So the result depends only on the elements, not on their order.
    pub sort_by_of_perm : {l r : List A} → Permᴰ l r → sort_by le l ≡ sort_by le r
    unfolding sort_by
    sort_by_of_perm Permᴰ.nil = refl
    sort_by_of_perm (Permᴰ.cons e p) = ap₂ (insert_sorted le) e (sort_by_of_perm p)
    sort_by_of_perm (Permᴰ.swap {a} {b} {l} e f) =
        rw (← e, ← f) (insert_sorted_comm a b (sort_by le l))
    sort_by_of_perm (Permᴰ.trans p q) = sort_by_of_perm p ∙ sort_by_of_perm q

module _ {ℓ} {A : Type ℓ} (le : A → A → Bool) where
  -- In an ordered list everything in front of a cut stands before everything behind it.
  pub IsSorted-cut :
      (n : ℕ) (xs : List A)
      → IsSorted le xs
      → All (λ x. All (λ y. le x y ≡ true) (drop n xs)) (take n xs)
  IsSorted-cut zero xs s = tt
  IsSorted-cut (suc n) [] s = tt
  IsSorted-cut (suc n) (x ∷ xs) (b, s) = (All-drop (λ y. le x y ≡ true) n xs b, IsSorted-cut n xs s)

  pub IsSorted-take : (n : ℕ) (xs : List A) → IsSorted le xs → IsSorted le (take n xs)
  IsSorted-take zero xs s = tt
  IsSorted-take (suc n) [] s = tt
  IsSorted-take (suc n) (x ∷ xs) (b, s) =
      (All-take (λ y. le x y ≡ true) n xs b, IsSorted-take n xs s)
