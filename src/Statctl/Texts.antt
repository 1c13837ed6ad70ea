-- ===== src/Statctl/Texts.antt =====
-- cmd/statctl/render.go: `truncate`, and its formats of texts and numbers, by runes.
use Prim.Native.Char.{code}
use Prim.Native.String.append
use statgate.Api.{RolloutPhase, empty, pending, running, paused, promoted, aborted, failed, unknown}
use statgate.Prelude.{
  show_ℤ, str_eq, ℕ, ℤ, pos, negsuc, zero, suc, Bool, true, false, String, ◌≡◌, refl, ap, ◌+◌, ◌-◌,
  ◌≤◌, ◌<◌, ltb, leb, ◌==◌, ◌&&◌, if◌then◌else◌, ◌+s◌, Bool-cases, inl, inr, arith, ◌∙◌, ◌⊎◌,
}

pub rune_count : String → ℕ
rune_count String.[] = 0
rune_count (String.◌∷◌ c s) = suc (rune_count s)

abbrev spaces : ℕ → String
spaces zero = ""
spaces (suc n) = " " +s spaces n

-- `%-nns` and `%nd`
abbrev pub padded : ℕ → String → String
padded n s = s +s spaces (n - rune_count s)

abbrev pub padded_number : ℕ → ℤ → String
padded_number n x = spaces (n - rune_count (show_ℤ x)) +s show_ℤ x

-- `%t`
abbrev pub bool_text : Bool → String
bool_text true = "true"
bool_text false = "false"

abbrev pub phase_text : RolloutPhase → String
phase_text empty = ""
phase_text pending = "Pending"
phase_text running = "Running"
phase_text paused = "Paused"
phase_text promoted = "Promoted"
phase_text aborted = "Aborted"
phase_text failed = "Failed"
phase_text (unknown s) = s

-- A text, or what stands for an empty one.
abbrev pub text_or : String → String → String
text_or s instead = if str_eq s "" then instead else s

-- `runes[:n]`
taken : ℕ → String → String
taken zero s = ""
taken (suc n) String.[] = ""
taken (suc n) (String.◌∷◌ c s) = String.◌∷◌ c (taken n s)

abbrev is_empty : String → Bool
is_empty String.[] = true
is_empty (String.◌∷◌ c s) = false

-- `strings.TrimRight` of spaces
trimmed : String → String
trimmed String.[] = ""
trimmed (String.◌∷◌ c s) =
    let rest = trimmed s in if is_empty rest && (code c == 32) then "" else String.◌∷◌ c rest

-- At a positive limit.
cut : String → ℕ → String
unfolding rune_count taken trimmed
cut s limit =
    if leb (rune_count s) limit
    then s
    else if ltb limit 2
    then taken limit s
    else trimmed (taken (limit - 1) s) +s "…"

unfoldable pub truncate : String → ℤ → String
unfolding cut
truncate s (negsuc n) = ""
truncate s (pos zero) = ""
truncate s (pos (suc n)) = cut s (suc n)

rune_count-append : (s t : String) → rune_count (s +s t) ≡ rune_count s + rune_count t
unfolding rune_count
rune_count-append String.[] t = ap rune_count (append.nil t) ∙ omega arith
rune_count-append (String.◌∷◌ c s) t =
    ap rune_count (append.cons c s t) ∙ (let h = rune_count-append s t in omega (arith, h))

taken-fits : (n : ℕ) (s : String) → rune_count (taken n s) ≤ n
unfolding taken rune_count
taken-fits zero s = omega arith
taken-fits (suc n) String.[] = omega arith
taken-fits (suc n) (String.◌∷◌ c s) = let h = taken-fits n s in omega arith

trimmed-fits : (s : String) → rune_count (trimmed s) ≤ rune_count s
unfolding trimmed rune_count
trimmed-fits String.[] = omega arith
trimmed-fits (String.◌∷◌ c s) = elim (Bool-cases (is_empty (trimmed s) && (code c == 32))) [
  | inl blank ↦ rw blank (omega arith)
  | inr other ↦ rw other (let h = trimmed-fits s in omega arith)
]

longer-fits :
    (s : String) (n : ℕ) → leb (rune_count s) (suc n) ≡ false → rune_count (cut s (suc n)) ≤ suc n
unfolding cut rune_count
longer-fits s n long = elim (Bool-cases (ltb (suc n) 2)) [
  | inl short ↦ rw (long, short) (taken-fits (suc n) s)
  | inr room ↦
      let dots = rune_count-append (trimmed (taken (suc n - 1) s)) "…" in
      let one : rune_count "…" ≡ 1 = refl in
      let fits = trimmed-fits (taken (suc n - 1) s) in
      let whole = taken-fits (suc n - 1) s in
      rw (long, room) (omega (arith, dots, one, fits, whole))
]

-- At a limit that is not negative a text with no more runes is kept, and a longer one is cut to at most
-- that many.
pub truncate-fits :
    (s : String) (limit : ℕ)
    → ((rune_count s ≤ limit) × (truncate s (pos limit) ≡ s))
      ⊎ ((limit < rune_count s) × (rune_count (truncate s (pos limit)) ≤ limit))
unfolding truncate rune_count
truncate-fits String.[] zero = inl (omega arith, refl)
truncate-fits (String.◌∷◌ c s) zero = inr (omega arith, omega arith)
truncate-fits s (suc n) = elim (Bool-cases (leb (rune_count s) (suc n))) [
  | inl fits ↦ rw fits (inl (ground arith, refl))
  | inr long ↦ inr (ground arith, longer-fits s n long)
]
