-- ===== src/Common/Text/Trim.antt =====
-- Trimming: what a trimmed text looks like, and that trimming removes blanks at the ends only.
use mathlib.Core.Path.{◌≡◌, refl, ap}
use mathlib.Core.Logic.{◌⊎◌, inl, inr}
use mathlib.Core.Bool.{true, false}
use mathlib.Core.List.{[], ◌∷◌, ◌++◌}
use Prim.Native.Nat.{ℕ}
use rust_enterprise_query_en.Common.Tests.{Bool-cases}
use rust_enterprise_query_en.Common.Lists.{All}
use rust_enterprise_query_en.Common.Text.{
  Text, trim, trim_start, trim_end, cons_trimmed, is_whitespace,
}

abbrev pub IsBlank : Text → Type 0
IsBlank = All (λ c. is_whitespace c ≡ true)

-- The first character is no blank.
abbrev pub StartsSolid : Text → Type 0
StartsSolid [] = ⊥
StartsSolid (c ∷ s) = is_whitespace c ≡ false

-- The last character is no blank.
abbrev pub EndsSolid : Text → Type 0
EndsSolid [] = ⊥
EndsSolid (c ∷ []) = is_whitespace c ≡ false
EndsSolid (c ∷ d ∷ s) = EndsSolid (d ∷ s)

pub trim_start-blank : (b s : Text) → IsBlank b → trim_start (b ++ s) ≡ trim_start s
unfolding trim_start
trim_start-blank [] s h = refl
trim_start-blank (c ∷ b) s h = rw h.0 (trim_start-blank b s h.1)

pub trim_start_of_StartsSolid : (s : Text) → StartsSolid s → trim_start s ≡ s
unfolding trim_start
trim_start_of_StartsSolid (c ∷ s) h = rw h
trim_start_of_StartsSolid [] h = absurd h

trim_end_blank : (b : Text) → IsBlank b → trim_end b ≡ []
unfolding trim_end cons_trimmed
trim_end_blank [] h = refl
trim_end_blank (c ∷ b) h = rw (trim_end_blank b h.1, h.0)

pub trim_end-blank : (s b : Text) → IsBlank b → trim_end (s ++ b) ≡ trim_end s
unfolding trim_end
trim_end-blank [] b h = trim_end_blank b h
trim_end-blank (c ∷ s) b h = ap (cons_trimmed c) (trim_end-blank s b h)

pub trim_end_of_EndsSolid : (s : Text) → EndsSolid s → trim_end s ≡ s
unfolding trim_end cons_trimmed
trim_end_of_EndsSolid [] h = absurd h
trim_end_of_EndsSolid (c ∷ []) h = rw h
trim_end_of_EndsSolid (c ∷ d ∷ s) h = rw (ap (cons_trimmed c) (trim_end_of_EndsSolid (d ∷ s) h))

pub EndsSolid-append : (s t : Text) → EndsSolid t → EndsSolid (s ++ t)
EndsSolid-append [] t h = h
EndsSolid-append (c ∷ []) [] h = absurd h
EndsSolid-append (c ∷ []) (d ∷ t) h = h
EndsSolid-append (c ∷ d ∷ s) t h = EndsSolid-append (d ∷ s) t h

pub StartsSolid-append : (s t : Text) → StartsSolid s → StartsSolid (s ++ t)
StartsSolid-append [] t h = absurd h
StartsSolid-append (c ∷ s) t h = h

trim_end_nil : trim_end [] ≡ []
unfolding trim_end
trim_end_nil = refl

-- Blanks round a text that begins and ends solidly are what `trim` removes.
pub trim_padded :
    (before s after : Text)
    → IsBlank before
    → IsBlank after
    → StartsSolid s
    → EndsSolid s
    → trim (before ++ (s ++ after)) ≡ s
unfolding trim
trim_padded before s after hb ha first last =
    rw
      (
        trim_start-blank before (s ++ after) hb,
        trim_start_of_StartsSolid (s ++ after) (StartsSolid-append s after first),
        trim_end-blank s after ha,
      )
      (trim_end_of_EndsSolid s last)

trim_start_blank : (b : Text) → IsBlank b → trim_start b ≡ []
unfolding trim_start
trim_start_blank [] h = refl
trim_start_blank (c ∷ b) h = rw h.0 (trim_start_blank b h.1)

-- Nor do trailing ones.
pub trim-append_blank : (s b : Text) → IsBlank b → trim (s ++ b) ≡ trim s
unfolding trim trim_start
trim-append_blank [] b h = ap trim_end (trim_start_blank b h)
trim-append_blank (c ∷ s) b h = elim (Bool-cases (is_whitespace c)) [
  | inl blank ↦ rw blank (trim-append_blank s b h)
  | inr solid ↦ rw solid (trim_end-blank (c ∷ s) b h)
]

trim_start-cases : (s : Text) → (trim_start s ≡ []) ⊎ StartsSolid (trim_start s)
unfolding trim_start
trim_start-cases [] = inl refl
trim_start-cases (c ∷ s) = elim (Bool-cases (is_whitespace c)) [
  | inl blank ↦ rw blank (trim_start-cases s)
  | inr solid ↦ rw solid (inr solid)
]

cons_trimmed-cases :
    (c : ℕ) (u : Text)
    → (u ≡ []) ⊎ EndsSolid u
    → (cons_trimmed c u ≡ []) ⊎ EndsSolid (cons_trimmed c u)
unfolding cons_trimmed
cons_trimmed-cases c [] h = elim (Bool-cases (is_whitespace c)) [
  | inl blank ↦ rw blank (inl refl)
  | inr solid ↦ rw solid (inr solid)
]
cons_trimmed-cases c (d ∷ u) (inl e) = cc
cons_trimmed-cases c (d ∷ u) (inr h) = inr h

trim_end-cases : (s : Text) → (trim_end s ≡ []) ⊎ EndsSolid (trim_end s)
unfolding trim_end
trim_end-cases [] = inl refl
trim_end-cases (c ∷ s) = cons_trimmed-cases c (trim_end s) (trim_end-cases s)

cons_trimmed-StartsSolid :
    (c : ℕ) (u : Text) → is_whitespace c ≡ false → StartsSolid (cons_trimmed c u)
unfolding cons_trimmed
cons_trimmed-StartsSolid c [] h = rw h h
cons_trimmed-StartsSolid c (d ∷ u) h = h

trim_end-StartsSolid : (s : Text) → StartsSolid s → StartsSolid (trim_end s)
unfolding trim_end
trim_end-StartsSolid [] h = absurd h
trim_end-StartsSolid (c ∷ s) h = cons_trimmed-StartsSolid c (trim_end s) h

-- A text whose ends are no blanks.
abbrev pub IsTrimmed : Text → Type 0
IsTrimmed s = StartsSolid s × EndsSolid s

-- What is left after trimming is nothing, or has no blank at its ends.
pub trim-cases : (s : Text) → (trim s ≡ []) ⊎ IsTrimmed (trim s)
unfolding trim
trim-cases s = elim (trim_start-cases s) [
  | inl e ↦ inl (rw e trim_end_nil)
  | inr first ↦ elim (trim_end-cases (trim_start s)) [
    | inl e ↦ inl e
    | inr last ↦ inr (trim_end-StartsSolid (trim_start s) first, last)
  ]
]

pub trim_of_IsTrimmed : (s : Text) → IsTrimmed s → trim s ≡ s
unfolding trim
trim_of_IsTrimmed s (first, last) =
    rw (trim_start_of_StartsSolid s first) (trim_end_of_EndsSolid s last)
