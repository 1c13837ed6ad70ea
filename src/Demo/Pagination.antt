-- ===== src/Demo/Pagination.antt =====
-- demo/app/handlers.go: `parseListPagination`.
use statgate.Prelude.{
  ℤ, pos, negsuc, false, String, ◌≡◌, ◌⊎◌, inl, inr, ltb_ℤ, leb_ℤ, ◌≤ℤ◌, show_ℤ, show_ℤ_nonempty,
  str_eq, if◌then◌else◌, Bool-cases, arith,
}
use statgate.Actions.{Error, failure}

abbrev list_orders_default_limit : ℤ
list_orders_default_limit = pos 50

abbrev pub list_orders_max_limit : ℤ
list_orders_max_limit = pos 200

pub record Page : Type 0 where
  pub limit : ℤ
  pub offset : ℤ

abbrev pub limit_error : Error
limit_error = failure "limit must be a positive integer"

abbrev pub offset_error : Error
offset_error = failure "offset must be a non-negative integer"

-- What is made of the number that `Atoi` returns, or of its error.
abbrev limit_of : Error ⊎ ℤ → Error ⊎ ℤ
limit_of (inl e) = inl limit_error
limit_of (inr n) =
    if leb_ℤ n (pos 0)
    then inl limit_error
    else inr (if ltb_ℤ list_orders_max_limit n then list_orders_max_limit else n)

abbrev offset_of : Error ⊎ ℤ → Error ⊎ ℤ
offset_of (inl e) = inl offset_error
offset_of (inr n) = if ltb_ℤ n (pos 0) then inl offset_error else inr n

abbrev paged : Error ⊎ ℤ → Error ⊎ ℤ → Error ⊎ Page
paged (inl e) offset = inl e
paged (inr limit) (inl e) = inl e
paged (inr limit) (inr offset) = inr (record { limit = limit; offset = offset })

-- A page that may be queried.
pub record IsPage (p : Page) : Type 0 where
  pub limit_from : pos 1 ≤ℤ p.limit
  pub limit_to : p.limit ≤ℤ pos 200
  pub offset_from : pos 0 ≤ℤ p.offset

pub IsPage-not_below : {p : Page} → IsPage p → ltb_ℤ p.limit (pos 0) ≡ false
IsPage-not_below h = ground arith

limit_of_bounds : (o : Error ⊎ ℤ) (n : ℤ) → limit_of o ≡ inr n → (pos 1 ≤ℤ n) × (n ≤ℤ pos 200)
limit_of_bounds (inl e) n h = absurd (ground arith)
limit_of_bounds (inr (pos k)) n h = ground arith
limit_of_bounds (inr (negsuc k)) n h = absurd (ground arith)

offset_of_bounds : (o : Error ⊎ ℤ) (n : ℤ) → offset_of o ≡ inr n → pos 0 ≤ℤ n
offset_of_bounds (inl e) n h = absurd (ground arith)
offset_of_bounds (inr (pos k)) n h = ground arith
offset_of_bounds (inr (negsuc k)) n h = absurd (ground arith)

paged-eq-inr :
    (l o : Error ⊎ ℤ) (p : Page) → paged l o ≡ inr p → (l ≡ inr p.limit) × (o ≡ inr p.offset)
paged-eq-inr (inl e) o p h = absurd (ground arith)
paged-eq-inr (inr l) (inl e) p h = absurd (ground arith)
paged-eq-inr (inr l) (inr o) p h = ground arith

module _ (atoi : String → Error ⊎ ℤ) where
  parse_limit : String → Error ⊎ ℤ
  parse_limit v = if str_eq v "" then inr list_orders_default_limit else limit_of (atoi v)

  parse_offset : String → Error ⊎ ℤ
  parse_offset v = if str_eq v "" then inr (pos 0) else offset_of (atoi v)

  -- By the query's parameters.
  unfoldable pub parse_list_pagination : (String → String) → Error ⊎ Page
  unfolding parse_limit parse_offset
  parse_list_pagination param = paged (parse_limit (param "limit")) (parse_offset (param "offset"))

  parse_limit_bounds : (v : String) (n : ℤ) → parse_limit v ≡ inr n → (pos 1 ≤ℤ n) × (n ≤ℤ pos 200)
  unfolding parse_limit
  parse_limit_bounds v n h = elim (Bool-cases (str_eq v "")) [
    | inl missing ↦ let h' = rw missing at h in ground arith
    | inr given ↦ limit_of_bounds (atoi v) n (rw given at h)
  ]

  parse_offset_bounds : (v : String) (n : ℤ) → parse_offset v ≡ inr n → pos 0 ≤ℤ n
  unfolding parse_offset
  parse_offset_bounds v n h = elim (Bool-cases (str_eq v "")) [
    | inl missing ↦ let h' = rw missing at h in ground arith
    | inr given ↦ offset_of_bounds (atoi v) n (rw given at h)
  ]

  -- Whatever the parameters are, a page that is returned has a limit from 1 to 200 and an offset that is
  -- not negative.
  pub parse_list_pagination-IsPage :
      (param : String → String) (p : Page) → parse_list_pagination param ≡ inr p → IsPage p
  unfolding parse_list_pagination
  parse_list_pagination-IsPage param p h =
      let (l, o) = paged-eq-inr _ _ p h in
      let (from, to) = parse_limit_bounds (param "limit") p.limit l in
      record {
        limit_from = from;
        limit_to = to;
        offset_from = parse_offset_bounds (param "offset") p.offset o;
      }

  -- A page within the bounds is read back from its printed numbers, if `Atoi` reads them back.
  pub parse_list_pagination-show :
      (param : String → String) (p : Page)
      → IsPage p
      → param "limit" ≡ show_ℤ p.limit
      → param "offset" ≡ show_ℤ p.offset
      → atoi (show_ℤ p.limit) ≡ inr p.limit
      → atoi (show_ℤ p.offset) ≡ inr p.offset
      → parse_list_pagination param ≡ inr p
  unfolding parse_list_pagination
  parse_list_pagination-show param p h l o la oa =
      rw (l, o, la, oa, show_ℤ_nonempty p.limit, show_ℤ_nonempty p.offset) (ground arith)
