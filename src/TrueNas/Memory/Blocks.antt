-- ===== src/TrueNas/Memory/Blocks.antt =====
-- The server in memory meets what is assumed of the API's iSCSI calls.
use truenas_scale_csi.Base.{
  Bool, ◌≡◌, ◌≢◌, refl, ◌↔◌, inl, inr, List, ◌∷◌, ℤ, Elem, Elem-select, ok, not, select, eq_ℤ,
  eq_ℤ_iff, arith, Bool-cases,
}
use truenas_scale_csi.TrueNas.Laws.{Same, Same-refl, IsBlockStore, Added}
use truenas_scale_csi.TrueNas.Memory.{
  Memory, Call, answer, memory, memory_view, on_list_extents, on_list_initiators, on_list_targets,
  on_list_target_extents, on_create_extent, on_create_initiator, on_create_target,
  on_create_target_extent, on_delete_target, on_delete_dataset, on_delete_initiator, extent_of,
  add_extent, initiator_of, add_initiator, target_of, add_target, target_extent_of,
  add_target_extent, without_dataset, without_initiator, without_target,
}

module _ (down : Call → Bool) where
  -- A listing keeps everything, and shows what it is given.
  answer-Same :
      {A : Type 0} (call : Call) (value : Memory → A) (s : Memory)
      → Same memory_view s (answer down call value (λ s. s) s).1
  answer-Same call value s = elim (Bool-cases (down call)) [
    | inl off ↦ rw off (Same-refl memory_view s)
    | inr on ↦ rw on (Same-refl memory_view s)
  ]

  answer-value :
      {A : Type 0} (call : Call) (value : Memory → A) (change : Memory → Memory) (s : Memory)
      (a : A)
      → (answer down call value change s).0 ≡ ok a
      → (a ≡ value s) × ((answer down call value change s).1 ≡ change s)
  answer-value call value change s a h = elim (Bool-cases (down call)) [
    | inl off ↦ cc (rw off at h)
    | inr on ↦ rw on (cc (rw on at h), refl)
  ]

  -- Leaving out by id leaves the entries with another id.
  Elem-without :
      {X : Type 0} (id : X → ℤ) (i : ℤ) (x : X) (xs : List X)
      → Elem x (select (λ y. not (eq_ℤ (id y) i)) xs) ↔ (Elem x xs × (id x ≢ i))
  Elem-without id i x xs =
      ground (arith, Elem-select (λ y. not (eq_ℤ (id y) i)) x xs, eq_ℤ_iff (id x) i)

  Added-front : {X : Type 0} (x : X) (xs : List X) → Added xs x (x ∷ xs)
  Added-front x xs = record { listed = inl refl; others = λ y e. e }

  pub memory-IsBlockStore : IsBlockStore (memory down) memory_view
  memory-IsBlockStore = record {
    list_extents-same = answer-Same on_list_extents (λ s. s.extents);
    list_extents-all = λ s xs h. (answer-value on_list_extents (λ s. s.extents) (λ s. s) s xs h).0;
    list_initiators-same = answer-Same on_list_initiators (λ s. s.initiators);
    list_initiators-all =
        λ s xs h. (answer-value on_list_initiators (λ s. s.initiators) (λ s. s) s xs h).0;
    list_targets-same = answer-Same on_list_targets (λ s. s.targets);
    list_targets-all = λ s xs h. (answer-value on_list_targets (λ s. s.targets) (λ s. s) s xs h).0;
    list_target_extents-same = answer-Same on_list_target_extents (λ s. s.target_extents);
    list_target_extents-all =
        λ s xs h. (answer-value on_list_target_extents (λ s. s.target_extents) (λ s. s) s xs h).0;
    create_extent-listed = λ s p x h.
        let (made, t) = answer-value on_create_extent (extent_of p) (add_extent p) s x h in
        rw (t, made) (refl, Added-front _ s.extents, refl);
    create_initiator-listed = λ s comment x h.
        let (made, t) =
          answer-value on_create_initiator (initiator_of comment) (add_initiator comment) s x h in
        rw (t, made) (refl, Added-front _ s.initiators, refl, refl);
    create_target-listed = λ s p x h.
        let (made, t) = answer-value on_create_target (target_of p) (add_target p) s x h in
        rw (t, made) (refl, Added-front _ s.targets, refl, refl, refl);
    create_target_extent-listed = λ s p x h.
        let (made, t) =
          answer-value on_create_target_extent (target_extent_of p) (add_target_extent p) s x h in
        rw (t, made) (refl, refl, Added-front _ s.target_extents, refl, refl, refl, refl);
    delete_target-gone = λ s id x h.
        let (_, t) = answer-value on_delete_target (λ s. tt) (without_target id) s tt h in
        rw t (Elem-without (λ y. y.id) id x s.targets);
    delete_target-keeps = λ s id h.
        let (_, t) = answer-value on_delete_target (λ s. tt) (without_target id) s tt h in
        rw t (refl, refl);
    delete_dataset-keeps = λ s id h.
        let (_, t) = answer-value on_delete_dataset (λ s. tt) (without_dataset id) s tt h in
        rw t (refl, refl);
    delete_initiator-gone = λ s id x h.
        let (_, t) = answer-value on_delete_initiator (λ s. tt) (without_initiator id) s tt h in
        rw t (Elem-without (λ y. y.id) id x s.initiators);
    delete_initiator-keeps = λ s id h.
        let (_, t) = answer-value on_delete_initiator (λ s. tt) (without_initiator id) s tt h in
        rw t (refl, refl);
  }
