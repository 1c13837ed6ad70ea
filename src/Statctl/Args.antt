-- ===== src/Statctl/Args.antt =====
-- cmd/statctl/main.go: `splitArgs`.
use text.Mathlib.Text.{starts_with}
use Prim.Native.String.{find, len}
use statgate.Prelude.{
  Bool, true, false, not, String, List, [], ◌∷◌, ◌≡◌, ◌&&◌, ◌||◌, ltb, str_eq, if◌then◌else◌,
  Bool-cases, inl, inr,
}

-- `strings.HasPrefix(a, "-") && a != "-"`
abbrev pub is_flag : String → Bool
is_flag a = starts_with a "-" && not (str_eq a "-")

-- `strings.Contains(a, "=")`
abbrev pub has_value : String → Bool
has_value a = ltb (find a "=") (len a)

-- The loop. `open_flag` holds where the token before was a flag that takes this token for its value,
-- unless this is a flag too.
pub split_from : Bool → List String → List String × List String
split_from open_flag [] = ([], [])
split_from open_flag (a ∷ tokens) =
    let rest = split_from (is_flag a && not (has_value a)) tokens in
    if is_flag a || open_flag then (a ∷ rest.0, rest.1) else (rest.0, a ∷ rest.1)

-- The flags with their values, and the positional tokens.
unfoldable pub split_args : List String → List String × List String
unfolding split_from
split_args args = split_from false args

-- A list that does not begin with a value.
abbrev BeginsNoValue : List String → Type 0
BeginsNoValue [] = Unit {0}
BeginsNoValue (a ∷ tokens) = is_flag a ≡ true

-- The grammar of a command's tokens.
pub data Splits : List String → List String → List String → Type 0 where
  nothing : Splits [] [] []
  joined :
      {args fs ps : List String} (f : String)
      → is_flag f ≡ true
      → has_value f ≡ true
      → Splits args fs ps
      → Splits (f ∷ args) (f ∷ fs) ps
  valued :
      {args fs ps : List String} (f v : String)
      → is_flag f ≡ true
      → has_value f ≡ false
      → is_flag v ≡ false
      → Splits args fs ps
      → Splits (f ∷ v ∷ args) (f ∷ v ∷ fs) ps
  bare :
      {args fs ps : List String} (f : String)
      → is_flag f ≡ true
      → has_value f ≡ false
      → BeginsNoValue args
      → Splits args fs ps
      → Splits (f ∷ args) (f ∷ fs) ps
  positional :
      {args fs ps : List String} (p : String)
      → is_flag p ≡ false
      → Splits args fs ps
      → Splits (p ∷ args) fs (p ∷ ps)

closed_token :
    (a : String) (tokens : List String)
    → Splits tokens (split_from false tokens).0 (split_from false tokens).1
    → ((f : String)
        → is_flag f ≡ true
        → has_value f ≡ false
        → Splits (f ∷ tokens) (f ∷ (split_from true tokens).0) (split_from true tokens).1)
    → Splits (a ∷ tokens) (split_from false (a ∷ tokens)).0 (split_from false (a ∷ tokens)).1
unfolding split_from
closed_token a tokens closed opened = elim (Bool-cases (is_flag a)) [
  | inr plain ↦ rw plain (positional a plain closed)
  | inl flag ↦ elim (Bool-cases (has_value a)) [
    | inl value ↦ rw (flag, value) (joined a flag value closed)
    | inr no_value ↦ rw (flag, no_value) (opened a flag no_value)
  ]
]

opened_token :
    (f a : String) (tokens : List String)
    → is_flag f ≡ true
    → has_value f ≡ false
    → Splits tokens (split_from false tokens).0 (split_from false tokens).1
    → Splits (a ∷ tokens) (split_from false (a ∷ tokens)).0 (split_from false (a ∷ tokens)).1
    → Splits
        (f ∷ a ∷ tokens)
        (f ∷ (split_from true (a ∷ tokens)).0)
        (split_from true (a ∷ tokens)).1
unfolding split_from
opened_token f a tokens flag no_value closed again = elim (Bool-cases (is_flag a)) [
  | inr plain ↦ rw plain (valued f a flag no_value plain closed)
  | inl other ↦ rw other (bare f flag no_value other (rw other at again))
]

split_from-Splits :
    (args : List String)
    → Splits args (split_from false args).0 (split_from false args).1
      × ((f : String)
          → is_flag f ≡ true
          → has_value f ≡ false
          → Splits (f ∷ args) (f ∷ (split_from true args).0) (split_from true args).1)
unfolding split_from
split_from-Splits [] = (nothing, λ f flag no_value. bare f flag no_value tt nothing)
split_from-Splits (a ∷ tokens) =
    let (closed, opened) = split_from-Splits tokens in
    let again = closed_token a tokens closed opened in
    (again, λ f flag no_value. opened_token f a tokens flag no_value closed again)

-- The tokens of a command split by the grammar: a flag with "=" stands alone, any other takes the next
-- token for its value unless that is a flag, and what is left is positional; the order is kept.
pub split_args-Splits : (args : List String) → Splits args (split_args args).0 (split_args args).1
unfolding split_args
split_args-Splits args = (split_from-Splits args).0
