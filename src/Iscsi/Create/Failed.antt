-- ===== src/Iscsi/Create/Failed.antt =====
-- What a failing `iscsiCreateVolume` (pkg/driver/iscsi.go) does to the datasets, by its clean-up.
use truenas_scale_csi.Base.{
  String, ◌<>◌, ◌≡◌, refl, sym, ap, inl, inr, Option, ℤ, err, Exec, Result-cases, Option-cases,
  first, ◌>>=◌, pure, attempt, List, Bool, ◌∙◌,
}
use truenas_scale_csi.Csi.{Error, plain, status, internal}
use truenas_scale_csi.TrueNas.{
  Client, IscsiExtent, IscsiInitiator, IscsiTarget, IscsiTargetExtent, CreateExtentParams,
  CreateTargetParams, CreateTargetExtentParams,
}
use truenas_scale_csi.TrueNas.Laws.{View, IsBlockStore}
use truenas_scale_csi.Iscsi.{
  Cleanup, clean_and_report, clean_and_return, find_or_create, cleanup1, cleanup2, cleanup3,
  cleanup4, ensure_extent, ensure_initiator, ensure_target, ensure_target_extent, has_path,
  has_comment, target_named, maps, extent_params, initiator_comment, target_params, error_value,
}

module _ (C : Client) where
  open C use {Server}

  -- An error handler that fails, in the state that the clean-up leaves.
  abbrev pub CleansUp : (A : Type 0) → Cleanup C → (String → Exec Server Error A) → Type 0
  CleansUp A cleanup h = (e : String) (s : Server) → (y : Error) × (h e s ≡ (err y, (cleanup s).1))

  report-CleansUp :
      (A : Type 0) (cleanup : Cleanup C) (text : String)
      → CleansUp A cleanup (λ e. clean_and_report C cleanup text)
  report-CleansUp A cleanup text e s = elim (Result-cases (cleanup s).0) [
    | inl (x, bad) ↦ (x, rw bad refl)
    | inr (x, done) ↦ (status internal (text <> error_value x), rw done refl)
  ]

  return-CleansUp :
      (A : Type 0) (cleanup : Cleanup C) → CleansUp A cleanup (clean_and_return C cleanup)
  return-CleansUp A cleanup e s = elim (Result-cases (cleanup s).0) [
    | inl (x, bad) ↦ (x, rw bad refl)
    | inr (x, done) ↦ (plain e, rw done refl)
  ]

module _ (C : Client) (V : View C.Server) where
  open C use {Server}

  -- The calls on extents, initiators, targets and their mappings leave the datasets as they are, whether they
  -- succeed or not.
  pub record SparesDatasets : Type 0 where
    pub create_extent :
        (p : CreateExtentParams) (s : Server) → V.datasets (C.create_extent p s).1 ≡ V.datasets s
    pub create_initiator :
        (comment : String) (s : Server) → V.datasets (C.create_initiator comment s).1 ≡ V.datasets s
    pub create_target :
        (p : CreateTargetParams) (s : Server) → V.datasets (C.create_target p s).1 ≡ V.datasets s
    pub create_target_extent :
        (p : CreateTargetExtentParams) (s : Server)
        → V.datasets (C.create_target_extent p s).1 ≡ V.datasets s
    pub delete_extent : (id : ℤ) (s : Server) → V.datasets (C.delete_extent id s).1 ≡ V.datasets s
    pub delete_initiator :
        (id : ℤ) (s : Server) → V.datasets (C.delete_initiator id s).1 ≡ V.datasets s
    pub delete_target : (id : ℤ) (s : Server) → V.datasets (C.delete_target id s).1 ≡ V.datasets s

  -- The datasets were those of `s`; then it was tried, once, to delete the one with the id, and it is seen what
  -- that left.
  pub record TriesToDelete (id : String) (s t : Server) : Type 0 where
    pub before : Server
    pub unchanged : V.datasets before ≡ V.datasets s
    pub after : V.datasets t ≡ V.datasets (C.delete_dataset id before).1

  -- A clean-up that tries to delete the dataset, and touches no other.
  abbrev pub Cleans : String → Cleanup C → Type 0
  Cleans id cleanup = (u : Server) → V.datasets (cleanup u).1 ≡ V.datasets (C.delete_dataset id u).1

  tried :
      (id : String) (cleanup : Cleanup C) (s u t : Server)
      → Cleans id cleanup
      → V.datasets u ≡ V.datasets s
      → t ≡ (cleanup u).1
      → TriesToDelete id s t
  tried id cleanup s u t cleans same e = record {
    before = u;
    unchanged = same;
    after = ap V.datasets e ∙ cleans u;
  }

  -- A clean-up that does one thing more.
  attempt-Cleans :
      (id : String) (cleanup : Cleanup C) (next : Exec Server String (Unit {0}))
      → Cleans id cleanup
      → ((u : Server) → V.datasets (next u).1 ≡ V.datasets u)
      → Cleans id (cleanup >>= λ _. attempt next)
  attempt-Cleans id cleanup next cleans spares u = elim (Result-cases (cleanup u).0) [
    | inl (e, bad) ↦ rw bad (cleans u)
    | inr (x, done) ↦ rw done (spares (cleanup u).1 ∙ cleans u)
  ]

  -- A step that fails has tried to delete the dataset.
  step-tries :
      {X B : Type 0} (id : String) (cleanup : Cleanup C) (list : Exec Server String (List X))
      (p : X → Bool) (on_find : String → Exec Server Error (Option X))
      (create : Exec Server String X) (on_create : String → Exec Server Error X) (key : X → B)
      → CleansUp C (Option X) cleanup on_find
      → CleansUp C X cleanup on_create
      → Cleans id cleanup
      → ((u : Server) → V.datasets (list u).1 ≡ V.datasets u)
      → ((u : Server) → V.datasets (create u).1 ≡ V.datasets u)
      → (s : Server) (e : Error) (t : Server)
      → find_or_create C (list >>= λ xs. pure (first p xs)) on_find create on_create key s
        ≡ (err e, t)
      → TriesToDelete id s t
  unfolding find_or_create
  step-tries id cleanup list p on_find create on_create key fails fails' cleans keeps keeps' s e t
        h =
      elim (Result-cases (list s).0) [
        | inl (x, down) ↦
            let (y, bad) = fails x (list s).1 in
            tried id cleanup s (list s).1 t cleans (keeps s)
              (sym (ap (λ r. r.1) (rw (down, bad) at h)))
        | inr (xs, up) ↦ elim (Option-cases (first p xs)) [
          | inr (x, found) ↦ cc (rw (up, found) at h)
          | inl missing ↦ elim (Result-cases (create (list s).1).0) [
            | inr (x, done) ↦ cc (rw (up, missing, done) at h)
            | inl (x, down) ↦
                let (y, bad) = fails' x (create (list s).1).1 in
                tried id cleanup s (create (list s).1).1 t cleans (keeps' (list s).1 ∙ keeps s)
                  (sym (ap (λ r. r.1) (rw (up, missing, down, bad) at h)))
          ]
        ]
      ]

  -- What was tried from a later state with the same datasets was tried from the earlier one.
  pub TriesToDelete-from :
      (id : String) (s u t : Server)
      → V.datasets u ≡ V.datasets s
      → TriesToDelete id u t
      → TriesToDelete id s t
  TriesToDelete-from id s u t same r = record {
    before = r.before;
    unchanged = r.unchanged ∙ same;
    after = r.after;
  }

  module _ (block : IsBlockStore C V) (spares : SparesDatasets) where
    pub cleanup1-Cleans : (id : String) → Cleans id (cleanup1 C id)
    cleanup1-Cleans id u = refl

    pub cleanup2-Cleans : (id : String) (extent : ℤ) → Cleans id (cleanup2 C id extent)
    cleanup2-Cleans id extent =
        attempt-Cleans id (cleanup1 C id) (C.delete_extent extent) (cleanup1-Cleans id)
          (spares.delete_extent extent)

    pub cleanup3-Cleans :
        (id : String) (extent initiator : ℤ) → Cleans id (cleanup3 C id extent initiator)
    cleanup3-Cleans id extent initiator =
        attempt-Cleans id (cleanup2 C id extent) (C.delete_initiator initiator)
          (cleanup2-Cleans id extent) (spares.delete_initiator initiator)

    pub cleanup4-Cleans :
        (id : String) (extent initiator target : ℤ)
        → Cleans id (cleanup4 C id extent initiator target)
    cleanup4-Cleans id extent initiator target =
        attempt-Cleans id (cleanup3 C id extent initiator) (C.delete_target target)
          (cleanup3-Cleans id extent initiator) (spares.delete_target target)

    pub ensure_extent-tries :
        (id : String) (cleanup : Cleanup C) (volume_id path : String) (s : Server) (e : Error)
        (t : Server)
        → Cleans id cleanup
        → ensure_extent C cleanup volume_id path s ≡ (err e, t)
        → TriesToDelete id s t
    unfolding ensure_extent
    ensure_extent-tries id cleanup volume_id path s e t cleans h =
        step-tries id cleanup C.list_extents (has_path path) _
          (C.create_extent (extent_params volume_id path)) _ (λ x. x.id)
          (report-CleansUp C (Option IscsiExtent) cleanup _) (return-CleansUp C IscsiExtent cleanup)
          cleans (λ u. (block.list_extents-same u).datasets) (spares.create_extent _) s e t h

    pub ensure_initiator-tries :
        (id : String) (cleanup : Cleanup C) (volume_id : String) (s : Server) (e : Error)
        (t : Server)
        → Cleans id cleanup
        → ensure_initiator C cleanup volume_id s ≡ (err e, t)
        → TriesToDelete id s t
    unfolding ensure_initiator
    ensure_initiator-tries id cleanup volume_id s e t cleans h =
        step-tries id cleanup C.list_initiators (has_comment volume_id) _
          (C.create_initiator (initiator_comment volume_id)) _ (λ x. x.id)
          (report-CleansUp C (Option IscsiInitiator) cleanup _)
          (return-CleansUp C IscsiInitiator cleanup) cleans
          (λ u. (block.list_initiators-same u).datasets) (spares.create_initiator _) s e t h

    pub ensure_target-tries :
        (id : String) (cleanup : Cleanup C) (portal_id : ℤ) (volume_id : String) (initiator_id : ℤ)
        (s : Server) (e : Error) (t : Server)
        → Cleans id cleanup
        → ensure_target C cleanup portal_id volume_id initiator_id s ≡ (err e, t)
        → TriesToDelete id s t
    unfolding ensure_target
    ensure_target-tries id cleanup portal_id volume_id initiator_id s e t cleans h =
        step-tries id cleanup C.list_targets (target_named volume_id) _
          (C.create_target (target_params portal_id volume_id initiator_id)) _ (λ x. x.id)
          (report-CleansUp C (Option IscsiTarget) cleanup _) (return-CleansUp C IscsiTarget cleanup)
          cleans (λ u. (block.list_targets-same u).datasets) (spares.create_target _) s e t h

    pub ensure_target_extent-tries :
        (id : String) (cleanup : Cleanup C) (target extent : ℤ) (s : Server) (e : Error)
        (t : Server)
        → Cleans id cleanup
        → ensure_target_extent C cleanup target extent s ≡ (err e, t)
        → TriesToDelete id s t
    unfolding ensure_target_extent
    ensure_target_extent-tries id cleanup target extent s e t cleans h =
        step-tries id cleanup C.list_target_extents (maps target extent) _
          (C.create_target_extent (record { target = target; extent = extent })) _ (λ x. tt)
          (report-CleansUp C (Option IscsiTargetExtent) cleanup _)
          (return-CleansUp C IscsiTargetExtent cleanup) cleans
          (λ u. (block.list_target_extents-same u).datasets) (spares.create_target_extent _) s e t h
