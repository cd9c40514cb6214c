-- ===== src/Common/Errors.antt =====
-- Fallible code: `anyhow::Result` with an error type `E` of its own for each component.
use mathlib.Core.Path.{◌≡◌, refl}
use mathlib.Core.Logic.{◌⊎◌, inl, inr}
use mathlib.Core.List.{List, [], ◌∷◌}

pub data Result {ℓ κ} (E : Type κ) (A : Type ℓ) : Type (ℓ ⊔ κ) where
  ok : A → Result E A
  err : E → Result E A

infixl 5 ◌>>=◌
abbrev pub ◌>>=◌ {ℓ κ μ} :
    {E : Type μ} {A : Type ℓ} {B : Type κ} → Result E A → (A → Result E B) → Result E B
ok value >>= next = next value
err error >>= next = err error

-- `map_err`
abbrev pub map_err {ℓ κ μ} :
    {E : Type κ} {F : Type μ} {A : Type ℓ} → (E → F) → Result E A → Result F A
map_err f (ok a) = ok a
map_err f (err e) = err (f e)

-- A step that changes a state and may fail, and what follows it: `?` keeps the state of the failure.
abbrev pub and_then {ℓ κ μ ν} :
    {S : Type ν} {E : Type μ} {A : Type ℓ} {B : Type κ}
    → S × Result E A
    → (S → A → S × Result E B)
    → S × Result E B
and_then (s, ok a) next = next s a
and_then (s, err e) next = (s, err e)

pub Result-cases {ℓ κ} :
    {E : Type κ} {A : Type ℓ} (r : Result E A) → ((a : A) × (r ≡ ok a)) ⊎ ((e : E) × (r ≡ err e))
Result-cases (ok a) = inl (a, refl)
Result-cases (err e) = inr (e, refl)

pub ok-injective {ℓ κ} :
    {E : Type κ} {A : Type ℓ} {a b : A} → Path (Result E A) (ok a) (ok b) → a ≡ b
ok-injective h = cc

-- `collect` of results: the first error, or all the values.
pub collect {ℓ κ} : {E : Type κ} {A : Type ℓ} → List (Result E A) → Result E (List A)
collect [] = ok []
collect (r ∷ rs) = do a ← r; rest ← collect rs; ok (a ∷ rest)

pub collect-nil {ℓ κ} :
    {E : Type κ} {A : Type ℓ} {out : List A} → collect {E = E} [] ≡ ok out → out ≡ []
unfolding collect
collect-nil h = cc

pub >>=-eq-ok {ℓ κ μ} :
    {E : Type μ} {A : Type ℓ} {B : Type κ} (r : Result E A) (next : A → Result E B) {out : B}
    → (r >>= next) ≡ ok out
    → (a : A) × (r ≡ ok a) × (next a ≡ ok out)
>>=-eq-ok (ok value) next h = (value, refl, h)
>>=-eq-ok (err error) next h = cc

pub collect-cons {ℓ κ} :
    {E : Type κ} {A : Type ℓ} (r : Result E A) (rs : List (Result E A)) {out : List A}
    → collect (r ∷ rs) ≡ ok out
    → (a : A) × (rest : List A) × (r ≡ ok a) × (collect rs ≡ ok rest) × (out ≡ a ∷ rest)
unfolding collect
collect-cons r rs h =
    let (a, here, h1) = >>=-eq-ok r _ h in
    let (rest, there, h2) = >>=-eq-ok (collect rs) _ h1 in (a, rest, here, there, cc)

-- How a chain of steps that succeeds went.
pub and_then-ok {ℓ κ μ ν} :
    {S : Type ν} {E : Type μ} {A : Type ℓ} {B : Type κ} (first : S × Result E A)
    (next : S → A → S × Result E B) {b : B}
    → (and_then first next).1 ≡ ok b
    → (a : A) × (first.1 ≡ ok a)
      × (and_then first next ≡ next first.0 a)
      × ((next first.0 a).1 ≡ ok b)
and_then-ok (s, ok a) next h = (a, refl, refl, h)
and_then-ok (s, err e) next h = cc

pub map_err-eq-ok {ℓ κ μ} :
    {E : Type κ} {G : Type μ} {A : Type ℓ} (f : E → G) (r : Result E A) {a : A}
    → map_err f r ≡ ok a
    → r ≡ ok a
map_err-eq-ok f (ok x) h = cc
map_err-eq-ok f (err e) h = cc
