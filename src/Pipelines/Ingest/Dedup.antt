-- ===== src/Pipelines/Ingest/Dedup.antt =====
-- Which rows of a batch are embedded and stored.
use rust_enterprise_query_en.Common.{
  Bool, true, false, ◌||◌, List, [], ◌∷◌, ◌≡◌, refl, ◌⊎◌, inl, inr, arith, All, All-map, Bool-cases,
}
use mathlib.Core.Path.{subst}
use rust_enterprise_query_en.Common.Text.{Text, text_eq}
use rust_enterprise_query_en.Common.Text.Laws.{text_eq_iff, text_eq_refl}
use rust_enterprise_query_en.Pipelines.Types.{Kna1Row}
use rust_enterprise_query_en.Pipelines.Ingest.{has_key, key_of, select_new}

-- The keys of some rows.
abbrev pub keys : List Kna1Row → List Text
keys [] = []
keys (row ∷ rows) = key_of row ∷ keys rows

-- No key stands twice, and none is among those given.
abbrev pub AllNew : List Text → List Kna1Row → Type 0
AllNew known [] = Unit
AllNew known (row ∷ rows) = (has_key (key_of row) known ≡ false) × AllNew (key_of row ∷ known) rows

or_false : (a b : Bool) → (a || b) ≡ false → (a ≡ false) × (b ≡ false)
or_false a b h = ground arith

-- Fewer known keys leave as many rows new.
AllNew-mono :
    (rows : List Kna1Row) (a b : List Text)
    → ((k : Text) → has_key k a ≡ false → has_key k b ≡ false)
    → AllNew a rows
    → AllNew b rows
unfolding has_key
AllNew-mono [] a b sub new = tt
AllNew-mono (row ∷ rows) a b sub (h, new) = (
  sub (key_of row) h,
  AllNew-mono rows (key_of row ∷ a) (key_of row ∷ b)
      (λ k e. let (l, r) = or_false (text_eq (key_of row) k) (has_key k a) e in rw l (sub k r)) new,
)

AllNew-tail :
    (k : Text) (known : List Text) (rows : List Kna1Row)
    → AllNew (k ∷ known) rows
    → AllNew known rows
unfolding has_key
AllNew-tail k known rows new =
    AllNew-mono rows (k ∷ known) known (λ j e. (or_false (text_eq k j) (has_key j known) e).1) new

-- No selected row's key is among the existing ones, none was seen before, and no two selected rows
-- have the same key.
pub select_new-AllNew :
    (existing seen : List Text) (rows : List Kna1Row)
    → All (λ row. has_key (key_of row) existing ≡ false) (select_new existing seen rows)
      × AllNew seen (select_new existing seen rows)
unfolding select_new
select_new-AllNew existing seen [] = (tt, tt)
select_new-AllNew existing seen (row ∷ rows) =
    let (unknown, new) = select_new-AllNew existing (key_of row ∷ seen) rows in
    elim (Bool-cases (has_key (key_of row) seen || has_key (key_of row) existing)) [
      | inl known ↦ rw known (unknown, AllNew-tail (key_of row) seen _ new)
      | inr fresh ↦ let (l, r) = or_false _ _ fresh in rw fresh ((r, unknown), (l, new))
    ]

or_true : (a b : Bool) → (a || b) ≡ true → (a ≡ true) ⊎ (b ≡ true)
or_true true b h = inl refl
or_true false b h = inr h

-- The key exists already, was seen before, or is that of a selected row.
abbrev pub IsCovered : List Text → List Text → List Kna1Row → Text → Type 0
IsCovered existing seen chosen k =
    (has_key k existing ≡ true) ⊎ ((has_key k seen ≡ true) ⊎ (has_key k (keys chosen) ≡ true))

-- A key that was just added is the row's own, which is known or stands among the selected keys.
settle :
    (existing seen : List Text) (row : Kna1Row) (chosen : List Kna1Row) (k : Text)
    → (has_key (key_of row) seen || has_key (key_of row) existing) ≡ true
    → IsCovered existing (key_of row ∷ seen) chosen k
    → IsCovered existing seen chosen k
unfolding has_key
settle existing seen row chosen k known (inl stored) = inl stored
settle existing seen row chosen k known (inr (inr selected)) = inr (inr selected)
settle existing seen row chosen k known (inr (inl added)) =
    elim (or_true (text_eq (key_of row) k) (has_key k seen) added) [
      | inr before ↦ inr (inl before)
      | inl own ↦
          let e = (text_eq_iff (key_of row) k).0 own in
          elim (or_true _ _ known) [
            | inl before ↦ inr (inl (subst (λ j. has_key j seen ≡ true) e before))
            | inr stored ↦ inl (subst (λ j. has_key j existing ≡ true) e stored)
          ]
    ]

settle_selected :
    (existing seen : List Text) (row : Kna1Row) (chosen : List Kna1Row) (k : Text)
    → IsCovered existing (key_of row ∷ seen) chosen k
    → IsCovered existing seen (row ∷ chosen) k
unfolding has_key
settle_selected existing seen row chosen k covered = ground arith

select_new_known :
    (existing seen : List Text) (row : Kna1Row) (rows : List Kna1Row)
    → (has_key (key_of row) seen || has_key (key_of row) existing) ≡ true
    → select_new existing (key_of row ∷ seen) rows ≡ select_new existing seen (row ∷ rows)
unfolding select_new
select_new_known existing seen row rows h = rw (h) refl

select_new_fresh :
    (existing seen : List Text) (row : Kna1Row) (rows : List Kna1Row)
    → (has_key (key_of row) seen || has_key (key_of row) existing) ≡ false
    → row ∷ select_new existing (key_of row ∷ seen) rows ≡ select_new existing seen (row ∷ rows)
unfolding select_new
select_new_fresh existing seen row rows h = rw (h) refl

has_key_head : (k : Text) (ks : List Text) → has_key k (k ∷ ks) ≡ true
unfolding has_key
has_key_head k ks = rw (text_eq_refl k) refl

found_or_selected :
    (found : List Text) (chosen : List Kna1Row) (k : Text)
    → IsCovered found [] chosen k
    → (has_key k found ≡ true) ⊎ (has_key k (keys chosen) ≡ true)
unfolding has_key
found_or_selected found chosen k (inl h) = inl h
found_or_selected found chosen k (inr (inr h)) = inr h
found_or_selected found chosen k (inr (inl h)) = absurd (cc)

-- No key is lost: the key of each row exists already, was seen before, or is that of a selected row.
pub select_new-covers :
    (existing seen : List Text) (rows : List Kna1Row)
    → All (λ row. IsCovered existing seen (select_new existing seen rows) (key_of row)) rows
select_new-covers existing seen [] = tt
select_new-covers existing seen (row ∷ rows) =
    let rest = select_new-covers existing (key_of row ∷ seen) rows in
    let chosen = select_new existing (key_of row ∷ seen) rows in
    let P = λ (c : List Kna1Row). All (λ r. IsCovered existing seen c (key_of r)) (row ∷ rows) in
    elim (Bool-cases (has_key (key_of row) seen || has_key (key_of row) existing)) [
      | inl known ↦ subst P (select_new_known existing seen row rows known) (
        settle existing seen row chosen (key_of row) known
            (inr (inl (has_key_head (key_of row) seen))),
        All-map rows (λ r. settle existing seen row chosen (key_of r) known) rest,
      )
      | inr fresh ↦ subst P (select_new_fresh existing seen row rows fresh) (
        inr (inr (has_key_head (key_of row) (keys chosen))),
        All-map rows (λ r. settle_selected existing seen row chosen (key_of r)) rest,
      )
    ]

-- Whatever keys count as found, the selection from the rows of a batch takes no row whose key was
-- found and no two rows with the same key; and the key of every row of the batch was found or is
-- that of a selected row.
pub select_new-Selects :
    (found : List Text) (rows : List Kna1Row)
    → All (λ row. has_key (key_of row) found ≡ false) (select_new found [] rows)
      × AllNew [] (select_new found [] rows)
      × All
          (λ row.
            (has_key (key_of row) found ≡ true)
            ⊎ (has_key (key_of row) (keys (select_new found [] rows)) ≡ true))
          rows
unfolding has_key
select_new-Selects found rows =
    let (unknown, new) = select_new-AllNew found [] rows in
    (
      unknown,
      new,
      All-map rows (λ row. found_or_selected found (select_new found [] rows) (key_of row))
          (select_new-covers found [] rows),
    )
