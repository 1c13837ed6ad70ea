-- ===== src/DeepCopy/Copier.antt =====
-- What it means that a command copies deeply, and a rule for each way to build one.
use statgate.Prelude.{
  ℕ, Option, none, some, ◌≡◌, ◌≤◌, ◌<◌, ltb, refl, sym, subst, ◌∙◌, ap, arith, inl, inr, Bool-cases,
}
use statgate.DeepCopy.Heap.{Heap, IsHeap, Command, bind, pure, load, alloc, allocated, ◌>>=◌}
use statgate.DeepCopy.Objects.{Ref, copy_ref}

pub bind-eq-some {ℓ κ} :
    {A : Type ℓ} {B : Type κ} (o : Option A) (f : A → Option B) {b : B}
    → bind o f ≡ some b
    → (a : A) × (o ≡ some a) × (f a ≡ some b)
bind-eq-some none f h = absurd (cc)
bind-eq-some (some a) f h = (a, refl, h)

module _ {C : Type 0} where
  -- The two heaps have the same cells from `lo` on and below `hi`.
  abbrev pub Agree : ℕ → ℕ → Heap C → Heap C → Type 0
  Agree lo hi h h' = (p : ℕ) → lo ≤ p → p < hi → h'.cell p ≡ h.cell p

  module _ {A V : Type 0} (view : Heap C → A → Option V) where
    -- The command returned from `h` with a value whose view is `v`; it left the cells of `h` alone, and
    -- the view rests on the new cells only.
    pub record IsCopied (h : Heap C) (v : V) (r : Option (A × Heap C)) : Type 0 where
      pub out : A
      pub after : Heap C
      pub returned : r ≡ some (out, after)
      pub well_formed : IsHeap after
      pub grown : h.next ≤ after.next
      pub old_kept : Agree 0 h.next h after
      pub rests : (h' : Heap C) → Agree h.next after.next after h' → view h' out ≡ some v

    -- A view rests on the cells that are allocated, and what has a view is copied.
    pub record IsCopier (copy : A → Command C A) : Type 0 where
      pub stable :
          (h h' : Heap C) (a : A) (v : V)
          → IsHeap h
          → Agree 0 h.next h h'
          → view h a ≡ some v
          → view h' a ≡ some v
      pub copies :
          (h : Heap C) (a : A) (v : V) → IsHeap h → view h a ≡ some v → IsCopied h v (copy a h)

-- Values without references.
pub pure-IsCopier : {C A : Type 0} → IsCopier {C = C} {A = A} {V = A} (λ h a. some a) pure
unfolding pure
pure-IsCopier = record {
  stable = λ h h' a v w g e. e;
  copies = λ h a v w e. record {
    out = a;
    after = h;
    returned = refl;
    well_formed = w;
    grown = omega arith;
    old_kept = λ p l m. refl;
    rests = λ h' g. e;
  };
}

module _ {C A V : Type 0} (get : C → Option A) (view : Heap C → A → Option V) where
  abbrev pub view_ref : Heap C → Ref → Option (Option V)
  view_ref h none = some none
  view_ref h (some p) = bind (bind (h.cell p) get) (λ a. bind (view h a) (λ v. some (some v)))

  -- The cell of an address that has a view.
  view_ref-some :
      (h : Heap C) (p : ℕ) (v : Option V)
      → view_ref h (some p) ≡ some v
      → (c : C) × (a : A) × (x : V) × (h.cell p ≡ some c)
        × (get c ≡ some a)
        × (view h a ≡ some x)
        × (v ≡ some x)
  view_ref-some h p v e =
      let (a, found, e₁) = bind-eq-some (bind (h.cell p) get) _ e in
      let (c, there, got) = bind-eq-some (h.cell p) get found in
      let (x, seen, last) = bind-eq-some (view h a) _ e₁ in
      (c, a, x, there, got, seen, ground arith)

  allocated_below : {h : Heap C} {p : ℕ} {c : C} → IsHeap h → h.cell p ≡ some c → p < h.next
  allocated_below {h} {p} w e = elim (Bool-cases (ltb p h.next)) [
    | inl below ↦ ground arith
    | inr beyond ↦ absurd (ground (arith, w.free p))
  ]

module _ {C A V : Type 0} (get : C → Option A) (put : A → C) (copy : A → Command C A)
    (view : Heap C → A → Option V) (get-put : (a : A) → get (put a) ≡ some a)
    (inner : IsCopier view copy) where
  allocated-at : (c : C) (h : Heap C) → (allocated c h).cell h.next ≡ some c
  allocated-at c h = ground arith

  allocated-old : (c : C) (h : Heap C) (p : ℕ) → p < h.next → (allocated c h).cell p ≡ h.cell p
  allocated-old c h p l = ground arith

  allocated-IsHeap : (c : C) (h : Heap C) → IsHeap h → IsHeap (allocated c h)
  allocated-IsHeap c h w = record { free = λ p l. ground (arith, w.free p) }

  -- A new cell with a copy of the contents.
  IsCopied-alloc :
      (h : Heap C) (p : ℕ) (c : C) (a : A) (x : V)
      → h.cell p ≡ some c
      → get c ≡ some a
      → IsCopied view h x (copy a h)
      → IsCopied (view_ref get view) h (some x) (copy_ref get put copy (some p) h)
  unfolding copy_ref load alloc pure ◌>>=◌
  IsCopied-alloc h p c a x there got i = record {
    out = some i.after.next;
    after = allocated (put i.out) i.after;
    returned = rw (there, got, i.returned) refl;
    well_formed = allocated-IsHeap (put i.out) i.after i.well_formed;
    grown = let g = i.grown in omega arith;
    old_kept = λ q l m.
        let g = i.grown in allocated-old (put i.out) i.after q (omega arith) ∙ i.old_kept q l m;
    rests = λ h' g.
        let grown = i.grown in
        let at = g i.after.next grown (omega arith) ∙ allocated-at (put i.out) i.after in
        let seen =
          i.rests h' (λ q l m. g q l (omega arith) ∙ allocated-old (put i.out) i.after q m) in
        rw (at, get-put i.out, seen) refl;
  }

  pub ref-IsCopier : IsCopier (view_ref get view) (copy_ref get put copy)
  unfolding copy_ref pure
  ref-IsCopier = record { stable = stays; copies = copied }
    where
      stays :
          (h h' : Heap C) (r : Ref) (v : Option V)
          → IsHeap h
          → Agree 0 h.next h h'
          → view_ref get view h r ≡ some v
          → view_ref get view h' r ≡ some v
      stays h h' none v w g e = e
      stays h h' (some p) v w g e =
          let (c, a, x, there, got, seen, last) = view_ref-some get view h p v e in
          let same = g p (omega arith) (allocated_below get view w there) ∙ there in
          let seen' = inner.stable h h' a x w g seen in rw (same, got, seen') (ap some (sym last))

      copied :
          (h : Heap C) (r : Ref) (v : Option V)
          → IsHeap h
          → view_ref get view h r ≡ some v
          → IsCopied (view_ref get view) h v (copy_ref get put copy r h)
      copied h none v w e = record {
        out = none;
        after = h;
        returned = refl;
        well_formed = w;
        grown = omega arith;
        old_kept = λ p l m. refl;
        rests = λ h' g. e;
      }
      copied h (some p) v w e =
          let (c, a, x, there, got, seen, last) = view_ref-some get view h p v e in
          subst (λ v. IsCopied (view_ref get view) h v (copy_ref get put copy (some p) h))
            (sym last) (IsCopied-alloc h p c a x there got (inner.copies h a x w seen))
