-- ===== src/DeepCopy/Fields.antt =====
-- Copies of records, field by field.
use statgate.Prelude.{Option, some, ◌≡◌, refl, ◌∙◌, arith}
use statgate.DeepCopy.Heap.{Heap, Command, bind, pure, ◌>>=◌}
use statgate.DeepCopy.Copier.{IsCopied, IsCopier, bind-eq-some}

module _ {C R A V W : Type 0} (field : R → A) (set : R → A → R) (make : R → V → W)
    (view : Heap C → A → Option V) (copy : A → Command C A) where
  abbrev pub view_field : Heap C → R → Option W
  view_field h r = bind (view h (field r)) (λ v. some (make r v))

  abbrev pub copy_field : R → Command C R
  copy_field r = do a ← copy (field r); pure (set r a)

  -- A record with one field that has references.
  pub field-IsCopier :
      ((r : R) (a : A) → field (set r a) ≡ a)
      → ((r : R) (a : A) (v : V) → make (set r a) v ≡ make r v)
      → IsCopier view copy
      → IsCopier view_field copy_field
  unfolding pure ◌>>=◌
  field-IsCopier field-set make-set inner = record {
    stable = λ h h' r w wf g e.
        let (v, seen, last) = bind-eq-some (view h (field r)) _ e in
        rw (inner.stable h h' (field r) v wf g seen) last;
    copies = λ h r w wf e.
        let (v, seen, last) = bind-eq-some (view h (field r)) _ e in
        let i = inner.copies h (field r) v wf seen in
        record {
          out = set r i.out;
          after = i.after;
          returned = rw i.returned refl;
          well_formed = i.well_formed;
          grown = i.grown;
          old_kept = i.old_kept;
          rests = λ h' g. rw (field-set r i.out, i.rests h' g, make-set r i.out v) last;
        };
  }

module _ {C R A B V U W : Type 0} (field : R → A) (field' : R → B) (set : R → A → B → R)
    (make : R → V → U → W) (view : Heap C → A → Option V) (copy : A → Command C A)
    (view' : Heap C → B → Option U) (copy' : B → Command C B) where
  abbrev pub view_fields : Heap C → R → Option W
  view_fields h r =
      bind (view h (field r)) (λ v. bind (view' h (field' r)) (λ u. some (make r v u)))

  abbrev pub copy_fields : R → Command C R
  copy_fields r = do a ← copy (field r); b ← copy' (field' r); pure (set r a b)

  -- The two parts of what a record's view says.
  view_fields-some :
      (h : Heap C) (r : R) (w : W)
      → view_fields h r ≡ some w
      → (v : V) × (u : U) × (view h (field r) ≡ some v)
        × (view' h (field' r) ≡ some u)
        × (some (make r v u) ≡ some w)
  view_fields-some h r w e =
      let (v, seen, e₁) = bind-eq-some (view h (field r)) _ e in
      let (u, seen', last) = bind-eq-some (view' h (field' r)) _ e₁ in (v, u, seen, seen', last)

  module _ (field-set : (r : R) (a : A) (b : B) → field (set r a b) ≡ a)
      (field'-set : (r : R) (a : A) (b : B) → field' (set r a b) ≡ b)
      (make-set : (r : R) (a : A) (b : B) (v : V) (u : U) → make (set r a b) v u ≡ make r v u) where
    -- One copy after the other.
    IsCopied-both :
        (h : Heap C) (r : R) (v : V) (u : U) (w : W) (i : IsCopied view h v (copy (field r) h))
        → some (make r v u) ≡ some w
        → IsCopied view' i.after u (copy' (field' r) i.after)
        → IsCopied view_fields h w (copy_fields r h)
    unfolding pure ◌>>=◌
    IsCopied-both h r v u w i last j = record {
      out = set r i.out j.out;
      after = j.after;
      returned = rw (i.returned, j.returned) refl;
      well_formed = j.well_formed;
      grown = let a = i.grown in let b = j.grown in omega arith;
      old_kept = λ p l m. let a = i.grown in j.old_kept p l (omega arith) ∙ i.old_kept p l m;
      rests = λ h' g.
          let a = i.grown in
          let b = j.grown in
          let first = i.rests h' (λ p l m. g p l (omega arith) ∙ j.old_kept p (omega arith) m) in
          let second = j.rests h' (λ p l m. g p (omega arith) m) in
          rw
            (
              field-set r i.out j.out,
              field'-set r i.out j.out,
              first,
              second,
              make-set r i.out j.out v u,
            )
            last;
    }

    -- A record with two fields that have references.
    pub fields-IsCopier :
        IsCopier view copy → IsCopier view' copy' → IsCopier view_fields copy_fields
    fields-IsCopier first second = record {
      stable = λ h h' r w wf g e.
          let (v, u, seen, seen', last) = view_fields-some h r w e in
          rw (first.stable h h' (field r) v wf g seen, second.stable h h' (field' r) u wf g seen')
            last;
      copies = λ h r w wf e.
          let (v, u, seen, seen', last) = view_fields-some h r w e in
          let i = first.copies h (field r) v wf seen in
          IsCopied-both h r v u w i last (
            second.copies i.after (field' r) u i.well_formed
              (second.stable h i.after (field' r) u wf i.old_kept seen'));
    }
