-- ===== src/Demo/Handlers/Once.antt =====
-- Each handler answers its request once.
use statgate.Prelude.{
  ℤ, pos, Bool, String, Option, none, some, List, ◌⊎◌, inl, inr, ◌≡◌, refl, str_eq,
}
use statgate.Float64.{Float64}
use statgate.Actions.{Error}
use statgate.Actions.Exact.{
  Exactly, Exactly-pure, Exactly-perform, Exactly-if, Exactly-attempt, Exactly-bind,
}
use statgate.Demo.Calls.{Order, Body, is_header, Request, DemoEnv, Serve}
use statgate.Demo.Pagination.{Page, IsPage, parse_list_pagination-IsPage, IsPage-not_below}
use statgate.Demo.Orders.Silent.{
  create_order-IsSilent, list_orders-IsSilent, get_order-IsSilent, remove_order-IsSilent,
}
use statgate.Demo.Handlers.{
  App, write_json, no_database, server_error, chance, simulated_failure, created, title_required,
  create_titled, handle_create_order, listed, list_page, handle_list_orders, not_found_json, gotten,
  handle_get_order, removed, handle_delete_order, handle_healthz,
}

-- The action returns, and it has written one header.
abbrev pub AnswersOnce : {F : Type 0} → Serve F (Unit {0}) → Type 0
AnswersOnce m = Exactly is_header 1 m

module _ {F : Type 0} where
  write_json_once : (status : ℤ) (body : Body) → AnswersOnce {F = F} (write_json status body)
  unfolding write_json
  write_json_once status body =
      Exactly-bind _ 0 1 _ _ (Exactly-perform _ _ _)
        λ _. Exactly-bind _ 1 0 _ _ (Exactly-perform _ _ _) λ _. Exactly-perform _ _ _

  no_database_once : AnswersOnce {F = F} no_database
  unfolding no_database
  no_database_once = write_json_once _ _

  pub handle_healthz_once : AnswersOnce {F = F} handle_healthz
  unfolding handle_healthz
  handle_healthz_once = Exactly-bind _ 1 0 _ _ (Exactly-perform _ _ _) λ _. Exactly-perform _ _ _

module _ {F : Type 0} ⦃fl : Float64 F⦄ (env : DemoEnv F) (app : App F) where
  server_error_once : (e : Error) → AnswersOnce (server_error env app e)
  unfolding server_error
  server_error_once e = write_json_once _ _

  created_once : (o : Error ⊎ Order) → AnswersOnce (created env app o)
  unfolding created
  created_once (inl e) = server_error_once e
  created_once (inr order) = write_json_once _ _

  title_required_once : AnswersOnce (title_required env app)
  unfolding title_required
  title_required_once = write_json_once _ _

  create_titled_once : (o : Error ⊎ String) → AnswersOnce (create_titled env app o)
  unfolding create_titled
  create_titled_once (inl e) = title_required_once
  create_titled_once (inr title) =
      Exactly-if _ 1 (str_eq title "") _ _ (λ _. title_required_once)
        λ _.
          Exactly-if _ 1 app.has_db _ _
            (λ _.
              Exactly-bind _ 0 1 _ _ (Exactly-attempt _ _ (create_order-IsSilent env title))
                created_once)
            (λ _. no_database_once)

  simulated_failure_once : AnswersOnce (simulated_failure env app)
  unfolding simulated_failure
  simulated_failure_once =
      Exactly-bind _ 0 1 _ _ (Exactly-perform _ _ _)
        λ _. Exactly-bind _ 0 1 _ _ (Exactly-perform _ _ _) λ _. write_json_once _ _

  chance_silent : (rate : F) → Exactly is_header 0 (chance env app rate)
  unfolding chance
  chance_silent rate =
      Exactly-if _ 0 (fl.lt (fl.of_int (pos 0)) rate) _ _
        (λ _. Exactly-bind _ 0 0 _ _ (Exactly-perform _ _ _) λ _. Exactly-pure _ _)
        (λ _. Exactly-pure _ _)

  handle_create_order_once : (r : Request) → AnswersOnce (handle_create_order env app r)
  unfolding handle_create_order
  handle_create_order_once r = Exactly-bind _ 0 1 _ _ (Exactly-perform _ _ _) λ reading.
      Exactly-bind _ 0 1 _ _ (chance_silent _) λ hit.
        Exactly-if _ 1 hit _ _ (λ _. simulated_failure_once)
          (λ _. create_titled_once (env.decode_title r.body))

  listed_once : (o : Error ⊎ List Order) → AnswersOnce (listed env app o)
  unfolding listed
  listed_once (inl e) = server_error_once e
  listed_once (inr orders) = write_json_once _ _

  list_page_once :
      (o : Error ⊎ Page) → ((p : Page) → o ≡ inr p → IsPage p) → AnswersOnce (list_page env app o)
  unfolding list_page
  list_page_once (inl e) h = write_json_once _ _
  list_page_once (inr page) h =
      let positive = IsPage-not_below (h page refl) in
      Exactly-if _ 1 app.has_db _ _
        (λ _.
          Exactly-bind _ 0 1 _ _
            (Exactly-attempt _ _ (list_orders-IsSilent env page.limit page.offset positive))
            listed_once)
        (λ _. write_json_once _ _)

  handle_list_orders_once : (r : Request) → AnswersOnce (handle_list_orders env app r)
  unfolding handle_list_orders
  handle_list_orders_once r = list_page_once _ (parse_list_pagination-IsPage env.atoi r.query_param)

  not_found_once : AnswersOnce (not_found_json env app)
  unfolding not_found_json
  not_found_once = write_json_once _ _

  gotten_once : (o : Error ⊎ Option Order) → AnswersOnce (gotten env app o)
  unfolding gotten
  gotten_once (inl e) = server_error_once e
  gotten_once (inr none) = not_found_once
  gotten_once (inr (some order)) = write_json_once _ _

  handle_get_order_once : (r : Request) → AnswersOnce (handle_get_order env app r)
  unfolding handle_get_order
  handle_get_order_once r =
      Exactly-if _ 1 app.has_db _ _
        (λ _. Exactly-bind _ 0 1 _ _ (Exactly-attempt _ _ (get_order-IsSilent env _)) gotten_once)
        (λ _. no_database_once)

  removed_once : (o : Error ⊎ Bool) → AnswersOnce (removed env app o)
  unfolding removed
  removed_once (inl e) = server_error_once e
  removed_once (inr found) =
      Exactly-if _ 1 found _ _ (λ _. Exactly-perform _ _ _) (λ _. not_found_once)

  handle_delete_order_once : (r : Request) → AnswersOnce (handle_delete_order env app r)
  unfolding handle_delete_order
  handle_delete_order_once r =
      Exactly-if _ 1 app.has_db _ _
        (λ _.
          Exactly-bind _ 0 1 _ _ (Exactly-attempt _ _ (remove_order-IsSilent env _)) removed_once)
        (λ _. no_database_once)

  -- Whatever the database, the variables and the request are, each handler of orders returns without a
  -- panic, and has written exactly one header.
  pub handlers-AnswersOnce :
      (r : Request)
      → AnswersOnce (handle_create_order env app r)
        × AnswersOnce (handle_list_orders env app r)
        × AnswersOnce (handle_get_order env app r)
        × AnswersOnce (handle_delete_order env app r)
  handlers-AnswersOnce r = (
    handle_create_order_once r,
    handle_list_orders_once r,
    handle_get_order_once r,
    handle_delete_order_once r,
  )
