-- ===== src/Prelude/Text.antt =====
-- What the program uses of `fmt` on integers (`%d`), and equality and concatenation of Go strings.
use Prim.Native.Nat.{ℕ, zero, suc, ◌/◌, ◌%◌, ◌<◌}
use mathlib.Core.Bool.{false}
use mathlib.Core.Logic.{inl, inr}
use statgate.Prelude.Lists.{All}
use native.Mathlib.Omega.{arith}
use Prim.Native.String.{String, ◌++◌, len}
use text.Mathlib.Text.{◌==◌ as text_eq}
use mathlib.Core.Path.{◌≡◌, refl, ap}
use text.Mathlib.TextPositions.{len-append}
use text.Mathlib.TextEquality.{eq_iff}
use mathlib.Core.Bool.{Bool}
use mathlib.Core.List.{List, [], ◌∷◌}
use statgate.Prelude.Tests.{ltb, if◌then◌else◌, Bool-cases}
use statgate.Prelude.Int.{ℤ, pos, negsuc}

abbrev pub str_eq : String → String → Bool
str_eq = text_eq

infixr 65 ◌+s◌
abbrev pub ◌+s◌ : String → String → String
s +s t = s ++ t

nth_digit : List String → ℕ → String
nth_digit [] n = "9"
nth_digit (d ∷ ds) zero = d
nth_digit (d ∷ ds) (suc n) = nth_digit ds n

abbrev digits : List String
digits = "0" ∷ "1" ∷ "2" ∷ "3" ∷ "4" ∷ "5" ∷ "6" ∷ "7" ∷ "8" ∷ []

digit : ℕ → String
unfolding nth_digit
digit = nth_digit digits

-- The number has fewer digits than `suc n`, so the fuel below never runs out.
decimal : ℕ → ℕ → String
unfolding digit
decimal zero n = ""
decimal (suc fuel) n =
    let front = decimal fuel (n / 10) in if ltb n 10 then digit n else front ++ digit (n % 10)

-- `%d`
unfoldable pub show_ℕ : ℕ → String
unfolding decimal
show_ℕ n = decimal (suc n) n

unfoldable pub show_ℤ : ℤ → String
unfolding show_ℕ
show_ℤ (pos n) = show_ℕ n
show_ℤ (negsuc n) = "-" ++ show_ℕ (suc n)

show_examples : (show_ℤ (pos 1207) ≡ "1207") × (show_ℤ (negsuc 9) ≡ "-10") × (show_ℤ (pos 0) ≡ "0")
unfolding show_ℤ
show_examples = (refl, refl, refl)

digits_nonempty : (ds : List String) (n : ℕ) → All (λ d. 0 < len d) ds → 0 < len (nth_digit ds n)
unfolding nth_digit
digits_nonempty [] n h = omega arith
digits_nonempty (d ∷ ds) zero h = h.0
digits_nonempty (d ∷ ds) (suc n) h = digits_nonempty ds n h.1

digit_nonempty : (n : ℕ) → 0 < len (digit n)
unfolding digit
digit_nonempty n = digits_nonempty digits n (omega arith)

show_ℕ_nonempty : (n : ℕ) → 0 < len (show_ℕ n)
unfolding show_ℕ decimal
show_ℕ_nonempty n = elim (Bool-cases (ltb n 10)) [
  | inl short ↦ rw short (digit_nonempty n)
  | inr long ↦
      rw long
        (omega (arith, len-append (decimal n (n / 10)) (digit (n % 10)), digit_nonempty (n % 10)))
]

nonempty : (s : String) → 0 < len s → str_eq s "" ≡ false
nonempty s h = elim (Bool-cases (str_eq s "")) [
  | inl same ↦
      let e : s ≡ "" = (eq_iff s "").0 same in
      let n : len s ≡ len "" = ap len e in absurd (omega arith)
  | inr other ↦ other
]

-- A printed number is not the empty text.
pub show_ℤ_nonempty : (a : ℤ) → str_eq (show_ℤ a) "" ≡ false
unfolding show_ℤ
show_ℤ_nonempty (pos n) = nonempty (show_ℕ n) (show_ℕ_nonempty n)
show_ℤ_nonempty (negsuc n) =
    nonempty ("-" ++ show_ℕ (suc n))
      (omega (arith, len-append "-" (show_ℕ (suc n)), show_ℕ_nonempty (suc n)))
