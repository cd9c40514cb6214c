-- ===== src/Engines/Vector/FallbackSql.antt =====
-- The text of the fallback filter against an independent reader of it: whatever the words are, the
-- store reads back exactly these words, so none of them can leave its literal.
use rust_enterprise_query_en.Common.{
  ℕ, zero, suc, true, false, List, [], ◌∷◌, ◌++◌, map, Option, none, some, if◌then◌else◌, length,
  ◌==◌, ◌≡◌, refl, ap, sym, ◌∙◌, ◌≢◌, arith, Bool-cases, inl, inr, append_assoc, append-nil,
  List-cases,
}
use rust_enterprise_query_en.Common.Text.{
  Text, codes, quote, escape_quotes, join, strip_prefix, is_empty,
}
use rust_enterprise_query_en.Common.Text.Laws.{strip_prefix-append}
use rust_enterprise_query_en.Engines.Vector.{
  like_close, and_between, like_condition, split_whitespace, build_fallback_sql, join_conditions,
}
use mathlib.Core.Option

abbrev push_read : ℕ → Text × Text → Text × Text
push_read c (s, rest) = (c ∷ s, rest)

-- SQL's reading of a string literal behind its opening quote: two quotes stand for one, a single
-- quote ends it. The value, and the text behind the literal; nothing if the literal does not end.
unfoldable pub read_literal : Text → Option (Text × Text)
read_literal [] = none
read_literal (c ∷ []) = if c == quote then some ([], []) else none
read_literal (c ∷ d ∷ s) = elim (c == quote) [
  | true ↦ elim (d == quote) [
    | true ↦ Option.map (push_read quote) (read_literal s)
    | false ↦ some ([], d ∷ s)
  ]
  | false ↦ Option.map (push_read c) (read_literal (d ∷ s))
]

-- The text does not begin with a quote.
abbrev pub EndsLiteral : Text → Type 0
EndsLiteral [] = Unit
EndsLiteral (c ∷ s) = c ≢ quote

read_literal_plain :
    (c : ℕ) (s : Text)
    → (c == quote) ≡ false
    → read_literal (c ∷ s) ≡ Option.map (push_read c) (read_literal s)
unfolding read_literal
read_literal_plain c [] h = ground arith
read_literal_plain c (d ∷ s) h = ground arith

read_literal_end : (rest : Text) → EndsLiteral rest → read_literal (quote ∷ rest) ≡ some ([], rest)
unfolding read_literal
read_literal_end [] h = refl
read_literal_end (c ∷ rest) h = ground arith

read_literal_doubled :
    (s : Text) → read_literal (quote ∷ quote ∷ s) ≡ Option.map (push_read quote) (read_literal s)
unfolding read_literal
read_literal_doubled s = refl

-- An escaped word is read back as it was, up to the quote that ends the literal.
read_literal-escape_quotes :
    (word rest : Text)
    → EndsLiteral rest
    → read_literal (escape_quotes word ++ (quote ∷ rest)) ≡ some (word, rest)
unfolding escape_quotes
read_literal-escape_quotes [] rest h = read_literal_end rest h
read_literal-escape_quotes (c ∷ word) rest h = elim (Bool-cases (c == quote)) [
  | inl same ↦
      let e : c ≡ quote = ground arith in
      rw (
        same,
        e,
        read_literal_doubled (escape_quotes word ++ (quote ∷ rest)),
        read_literal-escape_quotes word rest h,
      )
  | inr other ↦ rw (
    other,
    read_literal_plain c (escape_quotes word ++ (quote ∷ rest)) other,
    read_literal-escape_quotes word rest h,
  )
]

-- The pattern of a word: the word between two percent signs.
abbrev pub pattern_of : Text → Text
pattern_of word = 37 ∷ (word ++ (37 ∷ []))

-- A reader of conditions `sentence LIKE '…'` joined by ` AND `, with at most `fuel` of them: the
-- values of the literals.
unfoldable pub read_conditions : ℕ → Text → Option (List Text)
read_conditions zero s = none
read_conditions (suc fuel) s = Option.bind (strip_prefix (codes "sentence LIKE '") s) λ literal.
    Option.bind (read_literal literal) λ read.
      if is_empty read.1
      then some (read.0 ∷ [])
      else Option.bind (strip_prefix (codes " AND ") read.1)
          λ next. Option.map (◌∷◌ read.0) (read_conditions fuel next)

escape_quotes-append : (s t : Text) → escape_quotes (s ++ t) ≡ escape_quotes s ++ escape_quotes t
unfolding escape_quotes
escape_quotes-append [] t = refl
escape_quotes-append (c ∷ s) t = ground (arith, escape_quotes-append s t)

escape_quotes-pattern_of :
    (word : Text) → escape_quotes (pattern_of word) ≡ 37 ∷ (escape_quotes word ++ (37 ∷ []))
unfolding escape_quotes
escape_quotes-pattern_of word = ap (◌∷◌ 37) (escape_quotes-append word (37 ∷ []))

-- A condition, and what follows it, as a literal behind its opening quote.
like_condition-literal :
    (word rest : Text)
    → like_condition word ++ rest
      ≡ codes "sentence LIKE '" ++ (escape_quotes (pattern_of word) ++ (quote ∷ rest))
unfolding like_condition
like_condition-literal word rest = rw (escape_quotes-pattern_of word) (
    ap (λ t. codes "sentence LIKE '" ++ (37 ∷ t))
      (append_assoc (escape_quotes word) like_close rest
        ∙ sym (append_assoc (escape_quotes word) (37 ∷ []) (quote ∷ rest))))

read_conditions_last :
    (word : Text) → read_conditions 1 (like_condition word) ≡ some (pattern_of word ∷ [])
unfolding read_conditions is_empty Option.bind
read_conditions_last word =
    rw
      (
        ← append-nil (like_condition word),
        like_condition-literal word [],
        strip_prefix-append (codes "sentence LIKE '")
            (escape_quotes (pattern_of word) ++ (quote ∷ [])),
      )
      (rw (read_literal-escape_quotes (pattern_of word) [] tt))

read_conditions_next :
    (fuel : ℕ) (word more : Text)
    → read_conditions (suc fuel) (like_condition word ++ (and_between ++ more))
      ≡ Option.map (◌∷◌ (pattern_of word)) (read_conditions fuel more)
unfolding read_conditions is_empty Option.bind
read_conditions_next fuel word more =
    rw
      (
        like_condition-literal word (and_between ++ more),
        strip_prefix-append (codes "sentence LIKE '")
            (escape_quotes (pattern_of word) ++ (quote ∷ (and_between ++ more))),
      )
      (rw (read_literal-escape_quotes (pattern_of word) (and_between ++ more) (omega arith))
        (rw (strip_prefix-append and_between more)))

read_conditions-join :
    (word : Text) (words : List Text)
    → read_conditions (suc (length words)) (join and_between (map like_condition (word ∷ words)))
      ≡ some (map pattern_of (word ∷ words))
unfolding join
read_conditions-join word [] = read_conditions_last word
read_conditions-join word (next ∷ words) = rw (
  read_conditions_next (suc (length words)) word
      (join and_between (map like_condition (next ∷ words))),
  read_conditions-join next words,
)

-- For an intent with at least one word the filter reads back as the patterns of its words, in
-- order: quotes in the words neither end a literal nor add a condition.
pub read_conditions-build_fallback_sql :
    (intent : Text)
    → split_whitespace intent ≢ []
    → read_conditions (length (split_whitespace intent)) (build_fallback_sql intent)
      ≡ some (map pattern_of (split_whitespace intent))
unfolding build_fallback_sql join_conditions
read_conditions-build_fallback_sql intent h = elim (List-cases (split_whitespace intent)) [
  | inl e ↦ absurd (h e)
  | inr (word, words, e) ↦ rw e (read_conditions-join word words)
]
