-- ===== src/Common/Text/Laws.antt =====
-- Equality, order, prefixes and substrings of texts.
use mathlib.Core.Path.{◌≡◌, refl, sym, ap, ap₂}
use mathlib.Core.Logic.{◌↔◌, inl, inr}
use mathlib.Core.Bool.{true, false}
use mathlib.Core.List.{[], ◌∷◌, ◌++◌, map}
use native.Mathlib.Omega.{arith}
use rust_enterprise_query_en.Common.Tests.{◌==◌, ==_iff, &&-eq-true, Bool-cases}
use rust_enterprise_query_en.Common.Text.{
  Text, text_eq, is_empty, starts_with, contains, text_leb, eq_ignore_ascii_case,
  to_ascii_lowercase, strip_prefix, some,
}

text_eq_sound : (s t : Text) → text_eq s t ≡ true → s ≡ t
unfolding text_eq
text_eq_sound [] [] h = refl
text_eq_sound [] (d ∷ t) h = cc
text_eq_sound (c ∷ s) [] h = cc
text_eq_sound (c ∷ s) (d ∷ t) h =
    let (same, rest) = &&-eq-true (c == d) (text_eq s t) h in
    ap₂ ◌∷◌ ((==_iff c d).0 same) (text_eq_sound s t rest)

pub text_eq_refl : (s : Text) → text_eq s s ≡ true
unfolding text_eq
text_eq_refl [] = refl
text_eq_refl (c ∷ s) = ground (arith, text_eq_refl s)

pub text_eq_iff : (s t : Text) → (text_eq s t ≡ true) ↔ (s ≡ t)
text_eq_iff s t = (text_eq_sound s t, λ e. rw e (text_eq_refl t))

-- The case-insensitive comparison is an equivalence.
pub eq_ignore_ascii_case_iff :
    (s t : Text)
    → (eq_ignore_ascii_case s t ≡ true) ↔ (map to_ascii_lowercase s ≡ map to_ascii_lowercase t)
unfolding eq_ignore_ascii_case
eq_ignore_ascii_case_iff s t = text_eq_iff _ _

pub text_leb_total : (s t : Text) → text_leb s t ≡ false → text_leb t s ≡ true
unfolding text_leb
text_leb_total [] t h = cc
text_leb_total (c ∷ s) [] h = refl
text_leb_total (c ∷ s) (d ∷ t) h = ground (arith, text_leb_total s t)

pub text_leb_antisymm : (s t : Text) → text_leb s t ≡ true → text_leb t s ≡ true → s ≡ t
unfolding text_leb
text_leb_antisymm [] [] h k = refl
text_leb_antisymm [] (d ∷ t) h k = cc
text_leb_antisymm (c ∷ s) [] h k = cc
text_leb_antisymm (c ∷ s) (d ∷ t) h k = ground (arith, text_leb_antisymm s t)

pub text_leb_trans :
    (s t u : Text) → text_leb s t ≡ true → text_leb t u ≡ true → text_leb s u ≡ true
unfolding text_leb
text_leb_trans [] t u h k = refl
text_leb_trans (c ∷ s) [] u h k = cc
text_leb_trans (c ∷ s) (d ∷ t) [] h k = cc
text_leb_trans (c ∷ s) (d ∷ t) (e ∷ u) h k = ground (arith, text_leb_trans s t u)

-- `needle` occurs in `text`, as a contiguous run.
abbrev pub OccursIn : Text → Text → Type 0
OccursIn needle text = (before : Text) × (after : Text) × (text ≡ before ++ (needle ++ after))

starts_with-split : (p s : Text) → starts_with p s ≡ true → (after : Text) × (s ≡ p ++ after)
unfolding starts_with
starts_with-split [] s h = (s, refl)
starts_with-split (c ∷ p) [] h = cc
starts_with-split (c ∷ p) (d ∷ s) h =
    let (same, rest) = &&-eq-true (c == d) (starts_with p s) h in
    let (after, e) = starts_with-split p s rest in (after, ap₂ ◌∷◌ (sym ((==_iff c d).0 same)) e)

pub starts_with-append : (p s : Text) → starts_with p (p ++ s) ≡ true
unfolding starts_with
starts_with-append [] s = refl
starts_with-append (c ∷ p) s = ground (arith, starts_with-append p s)

pub contains-OccursIn : (p s : Text) → contains p s ≡ true → OccursIn p s
unfolding contains is_empty
contains-OccursIn [] s h = ([], s, refl)
contains-OccursIn (c ∷ p) [] h = cc
contains-OccursIn (c ∷ p) (d ∷ s) h = elim (Bool-cases (starts_with (c ∷ p) (d ∷ s))) [
  | inl here ↦ let (after, e) = starts_with-split (c ∷ p) (d ∷ s) here in ([], after, e)
  | inr later ↦
      let (before, after, e) = contains-OccursIn (c ∷ p) s (rw later at h) in
      (d ∷ before, after, ap (◌∷◌ d) e)
]

contains-append : (before p after : Text) → contains p (before ++ (p ++ after)) ≡ true
unfolding contains is_empty starts_with
contains-append [] [] [] = refl
contains-append [] [] (d ∷ after) = refl
contains-append [] (c ∷ p) after = rw (starts_with-append (c ∷ p) after)
contains-append (d ∷ before) p after = ground (arith, contains-append before p after)

-- `contains` decides whether the needle occurs.
pub contains_iff : (p s : Text) → (contains p s ≡ true) ↔ OccursIn p s
contains_iff p s =
    (contains-OccursIn p s, λ (before, after, e). rw e (contains-append before p after))

pub strip_prefix-append : (p s : Text) → strip_prefix p (p ++ s) ≡ some s
unfolding strip_prefix
strip_prefix-append [] s = refl
strip_prefix-append (c ∷ p) s = ground (arith, strip_prefix-append p s)
