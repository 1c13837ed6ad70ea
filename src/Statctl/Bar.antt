-- ===== src/Statctl/Bar.antt =====
-- cmd/statctl/render.go: `llrBar`, the bar with the ratio between the two boundaries.
use statgate.Prelude.{
  ℕ, ℤ, pos, negsuc, zero, suc, String, Option, none, some, List, [], ◌∷◌, ◌≡◌, refl, ◌&&◌, ◌<◌,
  ltb_ℤ, leb_ℤ, ltb, if◌then◌else◌, length, get_elem?, arith, Bool-cases, inl, inr,
}
use statgate.Float64.{Float64}

-- `width`
abbrev width : ℕ
width = 50

abbrev repeated : ℕ → String → List String
repeated zero s = []
repeated (suc n) s = s ∷ repeated n s

abbrev replaced : String → Option (List String) → Option (List String)
replaced x none = none
replaced x (some xs) = some (x ∷ xs)

abbrev set_cell : List String → ℕ → String → Option (List String)
set_cell [] i s = none
set_cell (x ∷ xs) zero s = some (s ∷ xs)
set_cell (x ∷ xs) (suc i) s = replaced x (set_cell xs i s)

-- `bar[i] = s`, where `none` is the panic of an index out of range.
pub put : ℤ → String → Option (List String) → Option (List String)
put i s none = none
put (pos i) s (some bar) = set_cell bar i s
put (negsuc i) s (some bar) = none

pub put_zero : ℤ → Option (List String) → Option (List String)
put_zero cell bar = if leb_ℤ (pos 0) cell && ltb_ℤ cell (pos width) then put cell "┼" bar else bar

-- A bar as it should be: it is there, and has all its cells.
abbrev IsBar : Option (List String) → Type 0
IsBar none = ⊥
IsBar (some bar) = length bar ≡ width

IsBar-cell :
    (n : ℕ) (bar : List String) (i : ℕ) (s : String)
    → length bar ≡ n
    → i < n
    → (bar' : List String) × (set_cell bar i s ≡ some bar')
      × (length bar' ≡ n)
      × (get_elem? bar' i ≡ some s)
IsBar-cell n [] i s e h = absurd (ground arith)
IsBar-cell n (x ∷ xs) zero s e h = (s ∷ xs, refl, e, refl)
IsBar-cell zero (x ∷ xs) (suc i) s e h = absurd (ground arith)
IsBar-cell (suc n) (x ∷ xs) (suc i) s e h =
    let (ys, set, size, found) = IsBar-cell n xs i s (omega arith) (omega arith) in
    (x ∷ ys, rw set refl, rw size refl, found)

put-IsBar :
    (i : ℕ) (s : String) (bar : Option (List String))
    → i < width
    → IsBar bar
    → IsBar (put (pos i) s bar)
unfolding put
put-IsBar i s none h b = b
put-IsBar i s (some bar) h b =
    let (bar', set, size, found) = IsBar-cell width bar i s b h in rw set size

put-drawn :
    (i : ℕ) (s : String) (bar : Option (List String))
    → i < width
    → IsBar bar
    → (bar' : List String) × (put (pos i) s bar ≡ some bar')
      × (length bar' ≡ width)
      × (get_elem? bar' i ≡ some s)
unfolding put
put-drawn i s none h b = absurd b
put-drawn i s (some bar) h b = IsBar-cell width bar i s b h

put_zero-IsBar :
    (cell : ℤ) (bar : List String) → length bar ≡ width → IsBar (put_zero cell (some bar))
unfolding put_zero
put_zero-IsBar (pos n) bar b =
    elim (Bool-cases (leb_ℤ (pos 0) (pos n) && ltb_ℤ (pos n) (pos width))) [
      | inl within ↦ rw within (put-IsBar n "┼" (some bar) (ground arith) b)
      | inr outside ↦ rw outside b
    ]
put_zero-IsBar (negsuc n) bar b =
    elim (Bool-cases (leb_ℤ (pos 0) (negsuc n) && ltb_ℤ (negsuc n) (pos width))) [
      | inl within ↦ absurd (ground arith)
      | inr outside ↦ rw outside b
    ]

clamped_cell :
    (c : ℤ)
    → let from_zero = if ltb_ℤ c (pos 0) then pos 0 else c in
      (n : ℕ) × ((if ltb_ℤ (pos 49) from_zero then pos 49 else from_zero) ≡ pos n) × (n < width)
clamped_cell (pos n) = elim (Bool-cases (ltb 49 n)) [
  | inl over ↦ (49, ground arith, omega arith)
  | inr within ↦ (n, ground arith, ground arith)
]
clamped_cell (negsuc n) = (0, ground arith, omega arith)

module _ {F : Type 0} ⦃fl : Float64 F⦄ where
  open fl use {literal, of_int, to_int, add, sub, mul, div, lt}

  abbrev clamped : F → F → F → F
  clamped value lo hi =
      let above = if lt value lo then lo else value in if lt hi above then hi else above

  abbrev fraction : F → F → F → F
  fraction value lo hi =
      if lt lo hi then div (sub (clamped value lo hi) lo) (sub hi lo) else of_int (pos 0)

  -- The cell of a fraction of the width.
  abbrev cell_of : F → ℤ
  cell_of frac = to_int (add (mul frac (of_int (pos 49))) (literal 5 1))

  -- `pos`
  pub marker_cell : F → F → F → ℤ
  marker_cell value lo hi =
      let cell = cell_of (fraction value lo hi) in
      let from_zero = if ltb_ℤ cell (pos 0) then pos 0 else cell in
      if ltb_ℤ (pos 49) from_zero then pos 49 else from_zero

  -- `zeroPos`; where `-lo` is taken, `lo` is below zero.
  pub zero_cell : F → F → ℤ
  zero_cell lo hi =
      if lt lo (of_int (pos 0)) && lt (of_int (pos 0)) hi
      then cell_of (div (sub (of_int (pos 0)) lo) (sub hi lo))
      else negsuc 0

  -- The runes of the bar, where `none` is a panic.
  unfoldable pub llr_bar : F → F → F → Option (List String)
  unfolding put_zero zero_cell marker_cell put
  llr_bar value lo hi =
      put (marker_cell value lo hi) "●" (
        put (pos 49) "│" (put (pos 0) "│" (put_zero (zero_cell lo hi) (some (repeated width "─")))))

  marker_cell-bounds : (value lo hi : F) → (n : ℕ) × (marker_cell value lo hi ≡ pos n) × (n < width)
  unfolding marker_cell
  marker_cell-bounds value lo hi = clamped_cell (cell_of (fraction value lo hi))

  -- Whatever the three numbers are, the bar is drawn without a panic: it has 50 cells, and the marker
  -- is in the one for the ratio, over whatever else was drawn there.
  pub llr_bar-marker :
      (value lo hi : F)
      → (n : ℕ) × (bar : List String) × (marker_cell value lo hi ≡ pos n)
        × (llr_bar value lo hi ≡ some bar)
        × (length bar ≡ 50)
        × (get_elem? bar n ≡ some "●")
  unfolding llr_bar
  llr_bar-marker value lo hi =
      let (n, at, within) = marker_cell-bounds value lo hi in
      let edged = put-IsBar 49 "│" _ (omega arith) (
        put-IsBar 0 "│" _ (omega arith)
          (put_zero-IsBar (zero_cell lo hi) (repeated width "─") refl)) in
      let (bar, drawn, size, found) = put-drawn n "●" _ within edged in
      (n, bar, at, rw at drawn, size, found)
