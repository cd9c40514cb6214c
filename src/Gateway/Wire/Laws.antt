-- ===== src/Gateway/Wire/Laws.antt =====
-- The framing of rows: an array of exactly the rows that were written.
use rust_enterprise_query_en.Common.{
  Bool, true, false, List, [], ◌∷◌, ◌++◌, if◌then◌else◌, ◌==◌, ◌≡◌, refl, sym, ◌∙◌, All, append-nil,
  append_assoc,
}
use rust_enterprise_query_en.Common.Text.{Text, is_empty, split_on, push_char, join}
use rust_enterprise_query_en.Engines.Sql.{strip_cr}
use rust_enterprise_query_en.Gateway.Wire.{push_lines, frame}

-- A row as the writer of JSON lines gives it: not empty, without a newline, and without a carriage
-- return at its end.
abbrev pub IsRow : Text → Type 0
IsRow row = (is_empty row ≡ false) × All (λ c. (c == 10) ≡ false) row × (strip_cr row ≡ row)

-- What the writer writes: each row with a newline behind it.
pub written : List Text → Text
written [] = []
written (row ∷ rows) = row ++ (10 ∷ written rows)

split_on-row :
    (row rest : Text)
    → All (λ c. (c == 10) ≡ false) row
    → split_on 10 (row ++ (10 ∷ rest)) ≡ row ∷ split_on 10 rest
unfolding split_on push_char
split_on-row [] rest h = refl
split_on-row (c ∷ row) rest h = rw (h.0, split_on-row row rest h.1)

-- Each row behind a comma.
with_commas : List Text → Text
with_commas [] = []
with_commas (row ∷ rows) = 44 ∷ (row ++ with_commas rows)

push_lines-row :
    (first : Bool) (buffer row : Text) (lines : List Text)
    → IsRow row
    → push_lines first buffer (row ∷ lines)
      ≡ push_lines false (buffer ++ ((if first then [] else 44 ∷ []) ++ row)) lines
unfolding push_lines
push_lines-row first buffer row lines (some_text, _, whole) = rw (whole, some_text)

push_lines_end : (first : Bool) (buffer : Text) → push_lines first buffer ([] ∷ []) ≡ buffer
unfolding push_lines is_empty strip_cr
push_lines_end first buffer = refl

push_lines-written :
    (buffer : Text) (rows : List Text)
    → All IsRow rows
    → push_lines false buffer (split_on 10 (written rows)) ≡ buffer ++ with_commas rows
unfolding written with_commas
push_lines-written buffer [] h =
    unfold split_on in (push_lines_end false buffer ∙ sym (append-nil buffer))
push_lines-written buffer (row ∷ rows) (r, h) =
    rw
      (
        split_on-row row (written rows) r.1,
        push_lines-row false buffer row (split_on 10 (written rows)) r,
        push_lines-written (buffer ++ (44 ∷ row)) rows h,
      )
      (append_assoc buffer (44 ∷ row) (with_commas rows))

join-with_commas :
    (row : Text) (rows : List Text) → join (44 ∷ []) (row ∷ rows) ≡ row ++ with_commas rows
unfolding join with_commas
join-with_commas row [] = sym (append-nil row)
join-with_commas row (next ∷ rows) = rw (join-with_commas next rows)

push_first :
    (rows : List Text)
    → All IsRow rows
    → push_lines true (91 ∷ []) (split_on 10 (written rows)) ≡ 91 ∷ join (44 ∷ []) rows
unfolding written
push_first [] h = unfold split_on join in (push_lines_end true (91 ∷ []))
push_first (row ∷ rows) (r, h) = rw (
  split_on-row row (written rows) r.1,
  push_lines-row true (91 ∷ []) row (split_on 10 (written rows)) r,
  push_lines-written (91 ∷ row) rows h,
  join-with_commas row rows,
)

-- For rows that are not empty, hold no newline and do not end in a carriage return, the body of the
-- response is an opening bracket, the rows in order with a comma between neighbours, and a closing
-- bracket; without rows it is the empty array.
pub frame-written :
    (rows : List Text)
    → All IsRow rows
    → frame (written rows) ≡ 91 ∷ (join (44 ∷ []) rows ++ (93 ∷ []))
unfolding frame
frame-written rows h = rw (push_first rows h)
