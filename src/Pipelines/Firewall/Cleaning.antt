-- ===== src/Pipelines/Firewall/Cleaning.antt =====
-- The cleaning of a model's output: a JSON object comes out of it whole, with a Markdown fence round
-- it or without.
use rust_enterprise_query_en.Common.{
  ℕ, true, false, [], ◌∷◌, ◌++◌, none, some, arith, ◌≡◌, refl, ap, sym, ◌∙◌, ◌==◌, inl, inr,
  Bool-cases, length, length-append, append-nil, append_assoc,
}
use rust_enterprise_query_en.Common.Text.{
  Text, trim, is_whitespace, text_eq, strip_prefix, strip_suffix, is_empty,
}
use rust_enterprise_query_en.Common.Text.Laws.{text_eq_iff, text_eq_refl}
use rust_enterprise_query_en.Common.Text.Trim.{
  IsBlank, EndsSolid, IsTrimmed, trim_padded, trim-append_blank, trim_of_IsTrimmed,
  EndsSolid-append,
}
use rust_enterprise_query_en.Pipelines.Firewall.{
  fence, json_fence, strip_first, open_fences, close_fence, clean_json,
}

-- The text of a JSON object with the given content: it begins with a brace and ends with one.
abbrev pub object_of : Text → Text
object_of body = 123 ∷ (body ++ (125 ∷ []))

object_of-IsTrimmed : (body : Text) → IsTrimmed (object_of body)
unfolding is_whitespace
object_of-IsTrimmed body = (refl, EndsSolid-append (123 ∷ body) (125 ∷ []) refl)

blank-ne : (c d : ℕ) → is_whitespace c ≡ true → is_whitespace d ≡ false → (d == c) ≡ false
blank-ne c d h k = elim (Bool-cases (d == c)) [
  | inl same ↦ let e : d ≡ c = ground arith in cc
  | inr differs ↦ differs
]

-- What is left of a text behind an opening fence: blanks, and then the rest.
abbrev Opened : Text → Text → Type 0
Opened rest out = (blank : Text) × IsBlank blank × (out ≡ blank ++ rest)

open_json_fence :
    (blank body rest : Text)
    → IsBlank blank
    → Opened
        (object_of body ++ rest)
        (open_fences (json_fence ++ (blank ++ (object_of body ++ rest))))
unfolding open_fences strip_first strip_prefix
open_json_fence [] body rest h = ([], tt, refl)
open_json_fence (c ∷ blank) body rest h = elim (Bool-cases (10 == c)) [
  | inl newline ↦ (blank, h.1, ground arith)
  | inr other ↦ (c ∷ blank, h, ground arith)
]

open_plain_fence :
    (blank body rest : Text)
    → IsBlank blank
    → Opened (object_of body ++ rest) (open_fences (fence ++ (blank ++ (object_of body ++ rest))))
unfolding open_fences strip_first strip_prefix is_whitespace
open_plain_fence [] body rest h = ([], tt, refl)
open_plain_fence (c ∷ blank) body rest h =
    let no_json = blank-ne c 106 h.0 refl in
    elim (Bool-cases (10 == c)) [
      | inl newline ↦ (blank, h.1, ground arith)
      | inr other ↦ (c ∷ blank, h, ground arith)
    ]

open_no_fence : (body : Text) → open_fences (object_of body) ≡ object_of body
unfolding open_fences strip_first strip_prefix
open_no_fence body = refl

strip_suffix-append : (s : Text) (c : ℕ) (p : Text) → strip_suffix (c ∷ p) (s ++ (c ∷ p)) ≡ some s
unfolding strip_suffix
strip_suffix-append [] c p = rw (text_eq_refl (c ∷ p))
strip_suffix-append (d ∷ s) c p = elim (Bool-cases (text_eq (c ∷ p) (d ∷ (s ++ (c ∷ p))))) [
  | inl same ↦
      let e = ap length ((text_eq_iff (c ∷ p) (d ∷ (s ++ (c ∷ p)))).0 same) in
      absurd (omega (arith, length-append s (c ∷ p)))
  | inr other ↦ rw other (rw (strip_suffix-append s c p) refl)
]

strip_suffix_brace : (s : Text) → strip_suffix fence (s ++ (125 ∷ [])) ≡ none
unfolding strip_suffix text_eq is_empty
strip_suffix_brace [] = refl
strip_suffix_brace (a ∷ []) = ground (arith, strip_suffix_brace [])
strip_suffix_brace (a ∷ b ∷ []) = ground (arith, strip_suffix_brace (b ∷ []))
strip_suffix_brace (a ∷ b ∷ c ∷ []) = ground (arith, strip_suffix_brace (b ∷ c ∷ []))
strip_suffix_brace (a ∷ b ∷ c ∷ d ∷ s) = ground (arith, strip_suffix_brace (b ∷ c ∷ d ∷ s))

fenced-ends : (blank body pad : Text) → EndsSolid (blank ++ (object_of body ++ (pad ++ fence)))
unfolding is_whitespace
fenced-ends blank body pad =
    EndsSolid-append blank (object_of body ++ (pad ++ fence))
      (EndsSolid-append (object_of body) (pad ++ fence) (EndsSolid-append pad fence refl))

-- The steps behind the removal of the opening fence, on what is left of a fenced object.
finish_fenced :
    (blank body pad : Text)
    → IsBlank blank
    → IsBlank pad
    → trim (close_fence (trim (blank ++ (object_of body ++ (pad ++ fence))))) ≡ object_of body
unfolding close_fence is_whitespace
finish_fenced blank body pad hb hp =
    let whole = object_of body ++ (pad ++ fence) in
    let ends : EndsSolid whole =
      EndsSolid-append (object_of body) (pad ++ fence) (EndsSolid-append pad fence refl) in
    let inner : trim (blank ++ whole) ≡ (object_of body ++ pad) ++ fence =
      ap (λ t. trim (blank ++ t)) (sym (append-nil whole))
      ∙ trim_padded blank whole [] hb tt refl ends
      ∙ sym (append_assoc (object_of body) pad fence) in
    rw (inner, strip_suffix-append (object_of body ++ pad) 96 (96 ∷ 96 ∷ []))
      (trim-append_blank (object_of body) pad hp
        ∙ trim_of_IsTrimmed (object_of body) (object_of-IsTrimmed body))

-- A fence that opens with three backticks, `json` or not.
pub data IsFence : Text → Type 0 where
  plain : IsFence fence
  json : IsFence json_fence

-- A JSON object in a Markdown fence, plain or marked `json`, with any blanks round the fence and
-- round the object, is what the JSON parser is given.
pub clean_json_fenced :
    (before blank body pad after : Text) {opening : Text}
    → IsFence opening
    → IsBlank before
    → IsBlank blank
    → IsBlank pad
    → IsBlank after
    → clean_json (before ++ ((opening ++ (blank ++ (object_of body ++ (pad ++ fence)))) ++ after))
      ≡ object_of body
unfolding clean_json is_whitespace
clean_json_fenced before blank body pad after plain h0 h1 h2 h3 =
    let tail = object_of body ++ (pad ++ fence) in
    let (left, hl, opened) = open_plain_fence blank body (pad ++ fence) h1 in
    rw
      (
        trim_padded before (fence ++ (blank ++ tail)) after h0 h3 refl
            (EndsSolid-append fence (blank ++ tail) (fenced-ends blank body pad)),
        opened,
      )
      (finish_fenced left body pad hl h2)
clean_json_fenced before blank body pad after json h0 h1 h2 h3 =
    let tail = object_of body ++ (pad ++ fence) in
    let (left, hl, opened) = open_json_fence blank body (pad ++ fence) h1 in
    rw
      (
        trim_padded before (json_fence ++ (blank ++ tail)) after h0 h3 refl
            (EndsSolid-append json_fence (blank ++ tail) (fenced-ends blank body pad)),
        opened,
      )
      (finish_fenced left body pad hl h2)

-- So is a JSON object without a fence, with any blanks round it.
pub clean_json_plain :
    (before body after : Text)
    → IsBlank before
    → IsBlank after
    → clean_json (before ++ (object_of body ++ after)) ≡ object_of body
unfolding clean_json close_fence
clean_json_plain before body after h0 h1 =
    let solid = object_of-IsTrimmed body in
    rw
      (
        trim_padded before (object_of body) after h0 h1 solid.0 solid.1,
        open_no_fence body,
        trim_of_IsTrimmed (object_of body) solid,
        strip_suffix_brace (123 ∷ body),
      )
      (trim_of_IsTrimmed (object_of body) solid)
