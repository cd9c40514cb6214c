-- ===== src/Pipelines/Ingest/Batching.antt =====
-- The rows of a file reach the store in consecutive batches of the given size.
use rust_enterprise_query_en.Common.{
  ℕ, zero, suc, ◌+◌, ◌≤◌, ◌<◌, true, false, List, [], ◌∷◌, ◌++◌, map, Result, ok, leb, length, take,
  drop, ◌≡◌, refl, ap, arith, Bool-cases, inl, inr, length-append, append-nil, append_assoc,
  take-length, drop-length, leb→le, leb_false→lt, take-append-drop, length-drop, length-take, All,
  take_of_length-le, drop_of_length-le,
}
use mathlib.Core.Path.{fun_ext, subst, ap₂}
use mathlib.Core.List.{flatten}
use rust_enterprise_query_en.Pipelines.Ingest.Csv.{
  continue_with, finish, read_rows, process_csv_in_batches,
}

-- The rows cut into pieces of the given size, the last one smaller if they do not come out even. The
-- fuel is the number of rows, and each piece takes at least one.
pub pieces {ℓ} : {A : Type ℓ} → ℕ → ℕ → List A → List (List A)
pieces size zero xs = []
pieces size (suc fuel) [] = []
pieces size (suc fuel) (x ∷ xs) = take size (x ∷ xs) ∷ pieces size fuel (drop size (x ∷ xs))

-- The pieces, glued together, are the rows; none is empty, and none is larger than the batch size.
pieces_whole {ℓ} :
    {A : Type ℓ} (size fuel : ℕ) (xs : List A)
    → 0 < size
    → length xs ≤ fuel
    → (flatten (pieces size fuel xs) ≡ xs)
      × All (λ p. (0 < length p) × (length p ≤ size)) (pieces size fuel xs)
unfolding pieces flatten
pieces_whole size zero [] h k = (refl, tt)
pieces_whole size zero (x ∷ xs) h k = absurd (omega arith)
pieces_whole size (suc fuel) [] h k = (refl, tt)
pieces_whole size (suc fuel) (x ∷ xs) h k =
    let (glued, sized) =
      pieces_whole size fuel (drop size (x ∷ xs)) h (omega (arith, length-drop size (x ∷ xs))) in
    (
      rw glued (take-append-drop size (x ∷ xs)),
      ((omega (arith, length-take size (x ∷ xs)), omega (arith, length-take size (x ∷ xs))), sized),
    )

module _ {Db R X C : Type 0} (process : Db → List R → Db × Result X ℕ) (csv : C → X) where
  -- The batches one after the other, up to the first that fails, with the sum of their counts.
  unfoldable pub run_batches : Db → ℕ → List (List R) → Db × Result X ℕ
  run_batches db total [] = (db, ok total)
  run_batches db total (b ∷ bs) =
      continue_with process csv total (process db b) λ db' n. run_batches db' n bs

  pieces_nil : (size fuel : ℕ) → pieces {A = R} size fuel [] ≡ []
  unfolding pieces
  pieces_nil size zero = refl
  pieces_nil size (suc fuel) = refl

  -- A full batch is the first piece.
  pieces_full :
      (size fuel : ℕ) (batch rest : List R)
      → 0 < size
      → length batch ≡ size
      → pieces size (suc fuel) (batch ++ rest) ≡ batch ∷ pieces size fuel rest
  unfolding pieces
  pieces_full size fuel [] rest h e = absurd (omega arith)
  pieces_full size fuel (x ∷ batch) rest h e =
      subst (λ n. pieces n (suc fuel) ((x ∷ batch) ++ rest) ≡ (x ∷ batch) ∷ pieces n fuel rest) e
        (ap₂ (λ p q. p ∷ pieces (length (x ∷ batch)) fuel q) (take-length (x ∷ batch) rest)
          (drop-length (x ∷ batch) rest))

  -- What is left at the end is the last piece, if there is any.
  finish-pieces :
      (size fuel : ℕ) (db : Db) (batch : List R) (total : ℕ)
      → length batch < size
      → length batch ≤ fuel
      → finish process csv db batch total ≡ run_batches db total (pieces size fuel batch)
  unfolding finish run_batches pieces
  finish-pieces size fuel db [] total k enough = rw (pieces_nil size fuel)
  finish-pieces size zero db (r ∷ rs) total k enough = absurd (omega arith)
  finish-pieces size (suc fuel) db (r ∷ rs) total k enough = rw (
    take_of_length-le size (r ∷ rs) (omega arith),
    drop_of_length-le size (r ∷ rs) (omega arith),
    pieces_nil size fuel,
  )

  read_rows_full :
      (size : ℕ) (db : Db) (batch : List R) (total : ℕ) (row : R) (rest : List (Result C R))
      → leb size (length (batch ++ row ∷ [])) ≡ true
      → read_rows process csv size db batch total (ok row ∷ rest)
        ≡ continue_with process csv total
            (process db (batch ++ row ∷ []))
            λ db' n. read_rows process csv size db' [] n rest
  unfolding read_rows
  read_rows_full size db batch total row rest h = rw (h, read_rows)

  read_rows_more :
      (size : ℕ) (db : Db) (batch : List R) (total : ℕ) (row : R) (rest : List (Result C R))
      → leb size (length (batch ++ row ∷ [])) ≡ false
      → read_rows process csv size db batch total (ok row ∷ rest)
        ≡ read_rows process csv size db (batch ++ row ∷ []) total rest
  unfolding read_rows
  read_rows_more size db batch total row rest h = rw (h, read_rows)

  run_batches_step :
      (db : Db) (total : ℕ) (b : List R) (bs : List (List R)) (go_on : Db → ℕ → Db × Result X ℕ)
      → ((db' : Db) (n : ℕ) → go_on db' n ≡ run_batches db' n bs)
      → continue_with process csv total (process db b) go_on ≡ run_batches db total (b ∷ bs)
  unfolding run_batches
  run_batches_step db total b bs go_on same =
      ap (continue_with process csv total (process db b)) (fun_ext λ db'. fun_ext λ n. same db' n)

  read_rows-pieces :
      (size fuel : ℕ) (db : Db) (batch : List R) (total : ℕ) (rows : List R)
      → 0 < size
      → length batch < size
      → length batch + length rows ≤ fuel
      → read_rows process csv size db batch total (map ok rows)
        ≡ run_batches db total (pieces size fuel (batch ++ rows))
  read_rows-pieces size fuel db batch total [] h k enough =
      rw (append-nil batch)
        (unfold read_rows in (finish-pieces size fuel db batch total k (omega arith)))
  read_rows-pieces size zero db batch total (row ∷ rows) h k enough = absurd (omega arith)
  read_rows-pieces size (suc fuel) db batch total (row ∷ rows) h k enough =
      let grown : length (batch ++ row ∷ []) ≡ length batch + 1 = length-append batch (row ∷ []) in
      let regroup = append_assoc batch (row ∷ []) rows in
      elim (Bool-cases (leb size (length (batch ++ row ∷ [])))) [
        | inl full ↦
            let exact : length (batch ++ row ∷ []) ≡ size = omega (arith, leb→le _ _ full) in
            rw
              (
                read_rows_full size db batch total row (map ok rows) full,
                ← regroup,
                pieces_full size fuel (batch ++ row ∷ []) rows h exact,
              )
              (run_batches_step db total (batch ++ row ∷ []) (pieces size fuel rows) _
                (λ db' n. read_rows-pieces size fuel db' [] n rows h (omega arith) (omega arith)))
        | inr more ↦
            rw (read_rows_more size db batch total row (map ok rows) more, ← regroup)
              (read_rows-pieces size (suc fuel) db (batch ++ row ∷ []) total rows h
                (omega (arith, leb_false→lt _ _ more)) (omega arith))
      ]

  -- If every row can be read, the import processes the rows in pieces, in order, stops at the first
  -- piece that fails, and returns the sum of the pieces' counts; and the pieces, glued together, are
  -- the rows, none is empty, and none is larger than the batch size.
  pub process_csv-pieces :
      (size : ℕ) (db : Db) (rows : List R)
      → 0 < size
      → (process_csv_in_batches process csv size db (map ok rows)
          ≡ run_batches db 0 (pieces size (length rows) rows))
        × (flatten (pieces size (length rows) rows) ≡ rows)
        × All (λ p. (0 < length p) × (length p ≤ size)) (pieces size (length rows) rows)
  unfolding process_csv_in_batches
  process_csv-pieces size db rows h =
      let (glued, sized) = pieces_whole size (length rows) rows h (omega arith) in
      (read_rows-pieces size (length rows) db [] 0 rows h h (omega arith), glued, sized)
