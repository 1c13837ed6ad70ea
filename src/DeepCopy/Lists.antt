-- ===== src/DeepCopy/Lists.antt =====
-- The loop over the items copies deeply, and with it a list of rollouts.
use statgate.Prelude.{Option, some, List, [], ◌∷◌, ◌≡◌, refl, ◌∙◌, arith}
use statgate.DeepCopy.Heap.{Heap, IsHeap, bind, pure, ◌>>=◌}
use statgate.DeepCopy.Objects.{
  Rollout, RolloutListOf, Ref, Cell, rollouts_cell, rollout_cell, list_cell, get_rollouts,
  get_rollout, get_list, copy_ref, copy_rollout, copy_items, copy_list, deep_copy_rollout,
  deep_copy_list,
}
use statgate.DeepCopy.Copier.{Agree, IsCopied, IsCopier, bind-eq-some, view_ref, ref-IsCopier}
use statgate.DeepCopy.Fields.{field-IsCopier}
use statgate.DeepCopy.Correct.{RolloutValue, view_rollout, rollout-IsCopier}

abbrev pub RolloutListValue : Type 0 → Type 0
RolloutListValue F = RolloutListOf (Option (List (RolloutValue F)))

module _ {F : Type 0} where
  abbrev pub view_items : Heap (Cell F) → List Rollout → Option (List (RolloutValue F))
  view_items h [] = some []
  view_items h (x ∷ xs) =
      bind (view_rollout h x) (λ v. bind (view_items h xs) (λ vs. some (v ∷ vs)))

  -- What the view of a list says of its first item and of the others.
  view_items-some :
      (h : Heap (Cell F)) (x : Rollout) (xs : List Rollout) (w : List (RolloutValue F))
      → view_items h (x ∷ xs) ≡ some w
      → (v : RolloutValue F) × (vs : List (RolloutValue F)) × (view_rollout h x ≡ some v)
        × (view_items h xs ≡ some vs)
        × (some (v ∷ vs) ≡ some w)
  view_items-some h x xs w e =
      let (v, seen, e₁) = bind-eq-some (view_rollout h x) _ e in
      let (vs, seen', last) = bind-eq-some (view_items h xs) _ e₁ in (v, vs, seen, seen', last)

  view_items-stable :
      (h h' : Heap (Cell F)) (xs : List Rollout) (w : List (RolloutValue F))
      → IsHeap h
      → Agree 0 h.next h h'
      → view_items h xs ≡ some w
      → view_items h' xs ≡ some w
  view_items-stable h h' [] w wf g e = e
  view_items-stable h h' (x ∷ xs) w wf g e =
      let (v, vs, seen, seen', last) = view_items-some h x xs w e in
      rw (rollout-IsCopier.stable h h' x v wf g seen, view_items-stable h h' xs vs wf g seen') last

  -- The first item and then the others.
  IsCopied-cons :
      (h : Heap (Cell F)) (x : Rollout) (xs : List Rollout) (v : RolloutValue F)
      (vs w : List (RolloutValue F)) (i : IsCopied view_rollout h v (copy_rollout x h))
      → some (v ∷ vs) ≡ some w
      → IsCopied view_items i.after vs (copy_items xs i.after)
      → IsCopied view_items h w (copy_items (x ∷ xs) h)
  unfolding copy_items pure ◌>>=◌
  IsCopied-cons h x xs v vs w i last j = record {
    out = i.out ∷ j.out;
    after = j.after;
    returned = rw (i.returned, j.returned) refl;
    well_formed = j.well_formed;
    grown = let a = i.grown in let b = j.grown in omega arith;
    old_kept = λ p l m. let a = i.grown in j.old_kept p l (omega arith) ∙ i.old_kept p l m;
    rests = λ h' g.
        let a = i.grown in
        let b = j.grown in
        let first = i.rests h' (λ p l m. g p l (omega arith) ∙ j.old_kept p (omega arith) m) in
        let others = j.rests h' (λ p l m. g p (omega arith) m) in rw (first, others) last;
  }

  copy_items-IsCopied :
      (h : Heap (Cell F)) (xs : List Rollout) (w : List (RolloutValue F))
      → IsHeap h
      → view_items h xs ≡ some w
      → IsCopied view_items h w (copy_items xs h)
  unfolding copy_items pure
  copy_items-IsCopied h [] w wf e = record {
    out = [];
    after = h;
    returned = refl;
    well_formed = wf;
    grown = omega arith;
    old_kept = λ p l m. refl;
    rests = λ h' g. e;
  }
  copy_items-IsCopied h (x ∷ xs) w wf e =
      let (v, vs, seen, seen', last) = view_items-some h x xs w e in
      let i = rollout-IsCopier.copies h x v wf seen in
      IsCopied-cons h x xs v vs w i last (
        copy_items-IsCopied i.after xs vs i.well_formed
          (view_items-stable h i.after xs vs wf i.old_kept seen'))

  items-IsCopier : IsCopier view_items (copy_items {F = F})
  items-IsCopier = record { stable = view_items-stable; copies = copy_items-IsCopied }

  abbrev pub list_value : RolloutListOf Ref → Option (List (RolloutValue F)) → RolloutListValue F
  list_value x vs = record { resource_version = x.resource_version; items = vs }

  abbrev pub view_list : Heap (Cell F) → RolloutListOf Ref → Option (RolloutListValue F)
  view_list h x = bind (view_ref get_rollouts view_items h x.items) (λ vs. some (list_value x vs))

  list-IsCopier : IsCopier view_list (copy_list {F = F})
  unfolding copy_list
  list-IsCopier =
      field-IsCopier (λ x. x.items) (λ x i. record x { items = i }) list_value
        (view_ref get_rollouts view_items) (copy_ref get_rollouts rollouts_cell copy_items)
        (λ r a. refl) (λ r a v. refl)
        (ref-IsCopier get_rollouts rollouts_cell copy_items view_items (λ a. refl) items-IsCopier)

  pub deep_copy_list-IsCopier : IsCopier (view_ref get_list view_list) (deep_copy_list {F = F})
  unfolding deep_copy_list
  deep_copy_list-IsCopier =
      ref-IsCopier get_list list_cell copy_list view_list (λ a. refl) list-IsCopier

  pub deep_copy_rollout-IsCopier :
      IsCopier (view_ref get_rollout view_rollout) (deep_copy_rollout {F = F})
  unfolding deep_copy_rollout
  deep_copy_rollout-IsCopier =
      ref-IsCopier get_rollout rollout_cell copy_rollout view_rollout (λ a. refl) rollout-IsCopier
