-- ===== src/Demo/Orders/Silent.antt =====
-- The statements write no header, and panic at no limit that is not negative.
use statgate.Prelude.{
  ℤ, pos, true, false, String, Option, none, some, List, ◌⊎◌, inl, inr, ◌≡◌, refl, ltb_ℤ, eq_ℤ,
}
use statgate.Actions.{Error, perform, attempt, ◌>>=◌, ◌>>◌}
use statgate.Actions.Rules.{
  Ensures, Ensures-pure, Ensures-fail, Ensures-perform, Ensures-bind, Ensures-attempt, Ensures-if,
}
use statgate.Demo.Calls.{
  Order, DemoCall, is_header, Row, no_rows, failed, row, Rows, DemoEnv, Serve, tell,
}
use statgate.Demo.Orders.{
  create_order, list_orders, get_order, remove_order, after_insert, after_select, after_scan,
  after_row, after_delete,
}

module _ {F : Type 0} (env : DemoEnv F) where
  abbrev pub IsSilent : {A : Type 0} → Serve F A → Type 0
  IsSilent m = Ensures (λ (c : DemoCall F). is_header c ≡ 0) ⊥ (λ _. Unit {0}) m

  -- A call of the store or the counters, in front.
  told-IsSilent :
      {A : Type 0} (c : DemoCall F) (m : Serve F A)
      → is_header c ≡ 0
      → IsSilent m
      → IsSilent (tell c >> m)
  told-IsSilent c m silent e =
      Ensures-bind {Q = λ _. Unit {0}} _ _ (Ensures-perform _ _ silent (λ h a e'. tt)) λ _ _. e

  asked-IsSilent :
      {A B : Type 0} (c : DemoCall F) (answer : List (DemoCall F) → Error ⊎ A)
      (f : Error ⊎ A → Serve F B)
      → is_header c ≡ 0
      → ((o : Error ⊎ A) → IsSilent (f o))
      → IsSilent (attempt (perform c answer) >>= f)
  asked-IsSilent c answer f silent k =
      Ensures-bind _ _
        (Ensures-attempt {Q = λ _. Unit {0}} _ (Ensures-perform _ _ silent (λ h a e. tt)))
        λ o _. k o

  after_insert-IsSilent : (o : Error ⊎ Order) → IsSilent (after_insert env o)
  unfolding after_insert
  after_insert-IsSilent (inl e) = told-IsSilent _ _ refl (Ensures-fail e)
  after_insert-IsSilent (inr o) = told-IsSilent _ _ refl (Ensures-pure o tt)

  pub create_order-IsSilent : (title : String) → IsSilent (create_order env title)
  unfolding create_order
  create_order-IsSilent title = asked-IsSilent _ _ _ refl after_insert-IsSilent

  after_scan-IsSilent :
      (iteration : Option Error) (o : Error ⊎ List Order) → IsSilent (after_scan env iteration o)
  unfolding after_scan
  after_scan-IsSilent iteration (inl e) =
      told-IsSilent _ _ refl (told-IsSilent _ _ refl (Ensures-fail e))
  after_scan-IsSilent (some e) (inr orders) =
      told-IsSilent _ _ refl (told-IsSilent _ _ refl (Ensures-fail e))
  after_scan-IsSilent none (inr orders) =
      told-IsSilent _ _ refl (told-IsSilent _ _ refl (Ensures-pure orders tt))

  after_select-IsSilent :
      (limit : ℤ) (o : Error ⊎ Rows)
      → ltb_ℤ limit (pos 0) ≡ false
      → IsSilent (after_select env limit o)
  unfolding after_select
  after_select-IsSilent limit (inl e) h = told-IsSilent _ _ refl (Ensures-fail e)
  after_select-IsSilent limit (inr rows) h = rw h (after_scan-IsSilent _ _)

  pub list_orders-IsSilent :
      (limit offset : ℤ) → ltb_ℤ limit (pos 0) ≡ false → IsSilent (list_orders env limit offset)
  unfolding list_orders
  list_orders-IsSilent limit offset h =
      asked-IsSilent _ _ _ refl (λ o. after_select-IsSilent limit o h)

  after_row-IsSilent : (r : Row) → IsSilent (after_row env r)
  unfolding after_row
  after_row-IsSilent no_rows = told-IsSilent _ _ refl (Ensures-pure none tt)
  after_row-IsSilent (failed e) = told-IsSilent _ _ refl (Ensures-fail e)
  after_row-IsSilent (row o) = told-IsSilent _ _ refl (Ensures-pure (some o) tt)

  pub get_order-IsSilent : (id : String) → IsSilent (get_order env id)
  unfolding get_order
  get_order-IsSilent id =
      Ensures-bind {Q = λ _. Unit {0}} _ _ (Ensures-perform _ _ refl (λ h a e. tt))
        λ r _. after_row-IsSilent r

  after_delete-IsSilent : (o : Error ⊎ ℤ) → IsSilent (after_delete env o)
  unfolding after_delete
  after_delete-IsSilent (inl e) = told-IsSilent _ _ refl (Ensures-fail e)
  after_delete-IsSilent (inr n) =
      Ensures-if (eq_ℤ n (pos 0)) _ _ (λ _. told-IsSilent _ _ refl (Ensures-pure false tt))
        (λ _. told-IsSilent _ _ refl (Ensures-pure true tt))

  pub remove_order-IsSilent : (id : String) → IsSilent (remove_order env id)
  unfolding remove_order
  remove_order-IsSilent id = asked-IsSilent _ _ _ refl after_delete-IsSilent
