-- ===== src/ColdTier/Layout/Pattern.antt =====
-- The two regular expressions of telemetry_engine/coldtier/layout.py, as matchers that take a text
-- to the matched part and the rest.
use llm_telemetry_engine.Base.{
  ℕ, zero, suc, Bool, Option, none, some, [], ◌∷◌, ◌++◌, ◌==◌, if◌then◌else◌,
}
use llm_telemetry_engine.Base.Text.{Text, codes, strip_prefix}

abbrev pub Match : Type 0 → Type 0
Match A = Text → Option (A × Text)

infixl 5 ◌>>=◌ ◌>>◌
abbrev pub ◌>>=◌ : {A B : Type 0} → Match A → (A → Match B) → Match B
◌>>=◌ m f text = elim (m text) [ none ↦ none | some (a, rest) ↦ f a rest ]

abbrev pub ◌>>◌ : {A B : Type 0} → Match A → Match B → Match B
m >> n = m >>= λ _. n

abbrev pub matched : {A : Type 0} → A → Match A
matched a text = some (a, text)

-- a literal part of the expression
unfoldable pub lit : Text → Match (Unit {0})
lit part text = elim (strip_prefix part text) [ none ↦ none | some rest ↦ some (tt, rest) ]

abbrev pub add_digit : ℕ → Option (Text × Text) → Option (Text × Text)
add_digit c none = none
add_digit c (some (ds, rest)) = some (c ∷ ds, rest)

-- `\d{n}`
unfoldable pub digits : (ℕ → Bool) → ℕ → Match Text
digits is_digit zero text = some ([], text)
digits is_digit (suc n) [] = none
digits is_digit (suc n) (c ∷ cs) = if is_digit c then add_digit c (digits is_digit n cs) else none

-- `$`: the end, or a newline that ends the text
abbrev pub at_end : {A : Type 0} → Option (A × Text) → Option A
at_end none = none
at_end (some (a, [])) = some a
at_end (some (a, c ∷ [])) = if c == 10 then some a else none
at_end (some (a, c ∷ d ∷ rest)) = none

-- `\d{4}-\d{2}-\d{2}`
unfoldable pub iso_date : (ℕ → Bool) → Match Text
iso_date is_digit = do
  y ← digits is_digit 4
  lit (codes "-")
  m ← digits is_digit 2
  lit (codes "-")
  d ← digits is_digit 2
  matched (y ++ (codes "-" ++ (m ++ (codes "-" ++ d))))

-- `\d{8}T\d{6}`
unfoldable pub stamp : (ℕ → Bool) → Match Text
stamp is_digit = do
  d ← digits is_digit 8
  lit (codes "T")
  t ← digits is_digit 6
  matched (d ++ (codes "T" ++ t))

-- `_PARTITION_RE.match(text)`, with its group
unfoldable pub partition_re : (ℕ → Bool) → Text → Option Text
partition_re is_digit text = at_end ((do lit (codes "dt="); iso_date is_digit) text)

-- `_FILE_RE.match(text)`, with its two groups
unfoldable pub file_re : (ℕ → Bool) → Text → Option (Text × Text)
file_re is_digit text = at_end (
    (do
      lit (codes "spans-")
      first ← stamp is_digit
      lit (codes "-")
      last ← stamp is_digit
      lit (codes ".parquet")
      matched (first, last))
      text)
