-- ===== src/Iscsi/Create/Provided.antt =====
-- What `iscsiCreateVolume` (pkg/driver/iscsi.go) leaves on the server, step by step.
use truenas_scale_csi.Base.{
  String, ◌≡◌, refl, ◌∙◌, ap, some, List, ℤ, ok, first, eq_refl, eq_ℤ_iff, starts_with-append,
}
use truenas_scale_csi.TrueNas.{
  Client, Dataset, IscsiExtent, IscsiInitiator, IscsiTarget, IscsiTargetExtent,
}
use truenas_scale_csi.TrueNas.Laws.{View, IsStore, IsBlockStore, Lists}
use truenas_scale_csi.Iscsi.{
  is_volume_named, has_path, has_comment, target_named, maps, Cleanup, ensure_volume, ensure_extent,
  ensure_initiator, ensure_target, ensure_target_extent, volume_params, extent_params,
  initiator_comment, target_params,
}
use truenas_scale_csi.Iscsi.Steps.{
  step-Done, Done-found, Done-frame, step-again, raise-Fails, clean_and_report-Fails,
  clean_and_return-Fails,
}

module _ (C : Client) (V : View C.Server) (store : IsStore C V) (block : IsBlockStore C V) where
  open C use {Server}

  pub datasets-Lists : Lists C.list_datasets V.datasets
  datasets-Lists = record {
    all = store.list_datasets-all;
    same = λ s. (store.list_datasets-same s).datasets;
  }

  pub extents-Lists : Lists C.list_extents V.extents
  extents-Lists = record {
    all = block.list_extents-all;
    same = λ s. (block.list_extents-same s).extents;
  }

  pub initiators-Lists : Lists C.list_initiators V.initiators
  initiators-Lists = record {
    all = block.list_initiators-all;
    same = λ s. (block.list_initiators-same s).initiators;
  }

  pub targets-Lists : Lists C.list_targets V.targets
  targets-Lists = record {
    all = block.list_targets-all;
    same = λ s. (block.list_targets-same s).targets;
  }

  pub target_extents-Lists : Lists C.list_target_extents V.target_extents
  target_extents-Lists = record {
    all = block.list_target_extents-all;
    same = λ s. (block.list_target_extents-same s).target_extents;
  }

  pub ensure_volume-found :
      (name : String) (size : ℤ) (s : Server) (id : String) (t : Server)
      → ensure_volume C name size s ≡ (ok id, t)
      → (x : Dataset) × (first (is_volume_named name) (V.datasets t) ≡ some x) × (id ≡ x.id)
  unfolding ensure_volume
  ensure_volume-found name size s id t h =
      Done-found C C.list_datasets (is_volume_named name) _
        (C.create_dataset (volume_params name size)) _ (λ x. x.id) datasets-Lists
        (λ u x made.
          let new = store.create_dataset-listed u (volume_params name size) x made in
          (
            record { listed = new.listed; others = new.others },
            rw (new.name, new.type "VOLUME" refl, eq_refl name),
          ))
        s id t (step-Done C _ _ _ _ _ _ (raise-Fails _) (raise-Fails _) s id t h)

  pub ensure_extent-found :
      (cleanup : Cleanup C) (volume_id path : String) (s : Server) (id : ℤ) (t : Server)
      → ensure_extent C cleanup volume_id path s ≡ (ok id, t)
      → (x : IscsiExtent) × (first (has_path path) (V.extents t) ≡ some x)
        × (id ≡ x.id)
        × (V.datasets t ≡ V.datasets s)
  unfolding ensure_extent
  ensure_extent-found cleanup volume_id path s id t h =
      let p = extent_params volume_id path in
      let done =
        step-Done C C.list_extents (has_path path) _ (C.create_extent p) _ (λ x. x.id)
          (clean_and_report-Fails C cleanup _) (clean_and_return-Fails C cleanup) s id t h in
      let (x, found, same) =
        Done-found C C.list_extents (has_path path) _ (C.create_extent p) _ (λ x. x.id)
          extents-Lists
          (λ u x made.
            let (path_eq, added, _) = block.create_extent-listed u p x made in
            (added, rw (path_eq, eq_refl path)))
          s id t done in
      (
        x,
        found,
        same,
        Done-frame C C.list_extents (has_path path) _ (C.create_extent p) _ (λ x. x.id) V.datasets
            (λ s. (block.list_extents-same s).datasets)
            (λ u x made. (block.create_extent-listed u p x made).2) s id t done,
      )

  pub ensure_initiator-found :
      (cleanup : Cleanup C) (volume_id : String) (s : Server) (id : ℤ) (t : Server)
      → ensure_initiator C cleanup volume_id s ≡ (ok id, t)
      → (x : IscsiInitiator) × (first (has_comment volume_id) (V.initiators t) ≡ some x)
        × (id ≡ x.id)
        × (V.datasets t ≡ V.datasets s)
        × (V.extents t ≡ V.extents s)
  unfolding ensure_initiator
  ensure_initiator-found cleanup volume_id s id t h =
      let p = has_comment volume_id in
      let create = C.create_initiator (initiator_comment volume_id) in
      let listed = block.create_initiator-listed in
      let done =
        step-Done C C.list_initiators p _ create _ (λ x. x.id) (clean_and_report-Fails C cleanup _)
          (clean_and_return-Fails C cleanup) s id t h in
      let (x, found, same) =
        Done-found C C.list_initiators p _ create _ (λ x. x.id) initiators-Lists
          (λ u x made.
            let (comment, added, _, _) = listed u _ x made in
            (added, rw (comment, starts_with-append volume_id _)))
          s id t done in
      (
        x,
        found,
        same,
        Done-frame C C.list_initiators p _ create _ (λ x. x.id) V.datasets
            (λ s. (block.list_initiators-same s).datasets) (λ u x made. (listed u _ x made).2) s id
            t done,
        Done-frame C C.list_initiators p _ create _ (λ x. x.id) V.extents
            (λ s. (block.list_initiators-same s).extents) (λ u x made. (listed u _ x made).3) s id t
            done,
      )

  pub ensure_target-found :
      (cleanup : Cleanup C) (portal_id : ℤ) (volume_id : String) (initiator_id : ℤ) (s : Server)
      (id : ℤ) (t : Server)
      → ensure_target C cleanup portal_id volume_id initiator_id s ≡ (ok id, t)
      → (x : IscsiTarget) × (first (target_named volume_id) (V.targets t) ≡ some x)
        × (id ≡ x.id)
        × (V.datasets t ≡ V.datasets s)
        × (V.extents t ≡ V.extents s)
        × (V.initiators t ≡ V.initiators s)
  unfolding ensure_target
  ensure_target-found cleanup portal_id volume_id initiator_id s id t h =
      let p = target_named volume_id in
      let create = C.create_target (target_params portal_id volume_id initiator_id) in
      let listed = block.create_target-listed in
      let done =
        step-Done C C.list_targets p _ create _ (λ x. x.id) (clean_and_report-Fails C cleanup _)
          (clean_and_return-Fails C cleanup) s id t h in
      let (x, found, same) =
        Done-found C C.list_targets p _ create _ (λ x. x.id) targets-Lists
          (λ u x made.
            let (name, added, _, _, _) = listed u _ x made in (added, rw (name, eq_refl volume_id)))
          s id t done in
      (
        x,
        found,
        same,
        Done-frame C C.list_targets p _ create _ (λ x. x.id) V.datasets
            (λ s. (block.list_targets-same s).datasets) (λ u x made. (listed u _ x made).2) s id t
            done,
        Done-frame C C.list_targets p _ create _ (λ x. x.id) V.extents
            (λ s. (block.list_targets-same s).extents) (λ u x made. (listed u _ x made).3) s id t
            done,
        Done-frame C C.list_targets p _ create _ (λ x. x.id) V.initiators
            (λ s. (block.list_targets-same s).initiators) (λ u x made. (listed u _ x made).4) s id t
            done,
      )

  pub ensure_target_extent-found :
      (cleanup : Cleanup C) (target extent : ℤ) (s t : Server)
      → ensure_target_extent C cleanup target extent s ≡ (ok tt, t)
      → (x : IscsiTargetExtent) × (first (maps target extent) (V.target_extents t) ≡ some x)
        × (V.datasets t ≡ V.datasets s)
        × (V.extents t ≡ V.extents s)
        × (V.initiators t ≡ V.initiators s)
        × (V.targets t ≡ V.targets s)
  unfolding ensure_target_extent
  ensure_target_extent-found cleanup target extent s t h =
      let p = maps target extent in
      let create = C.create_target_extent (record { target = target; extent = extent }) in
      let listed = block.create_target_extent-listed in
      let done =
        step-Done C C.list_target_extents p _ create _ (λ x. tt)
          (clean_and_report-Fails C cleanup _) (clean_and_return-Fails C cleanup) s tt t h in
      let (x, found, _) =
        Done-found C C.list_target_extents p _ create _ (λ x. tt) target_extents-Lists
          (λ u x made.
            let (target_eq, extent_eq, added, _, _, _, _) = listed u _ x made in
            (
              added,
              rw ((eq_ℤ_iff x.target target).1 target_eq, (eq_ℤ_iff x.extent extent).1 extent_eq),
            ))
          s tt t done in
      (
        x,
        found,
        Done-frame C C.list_target_extents p _ create _ (λ x. tt) V.datasets
            (λ s. (block.list_target_extents-same s).datasets) (λ u x made. (listed u _ x made).3) s
            tt t done,
        Done-frame C C.list_target_extents p _ create _ (λ x. tt) V.extents
            (λ s. (block.list_target_extents-same s).extents) (λ u x made. (listed u _ x made).4) s
            tt t done,
        Done-frame C C.list_target_extents p _ create _ (λ x. tt) V.initiators
            (λ s. (block.list_target_extents-same s).initiators) (λ u x made. (listed u _ x made).5)
            s tt t done,
        Done-frame C C.list_target_extents p _ create _ (λ x. tt) V.targets
            (λ s. (block.list_target_extents-same s).targets) (λ u x made. (listed u _ x made).6) s
            tt t done,
      )

  pub ensure_volume-again :
      (name : String) (size : ℤ) (s t : Server) (xs : List Dataset) (x : Dataset)
      → C.list_datasets s ≡ (ok xs, t)
      → first (is_volume_named name) (V.datasets s) ≡ some x
      → ensure_volume C name size s ≡ (ok x.id, t)
  unfolding ensure_volume
  ensure_volume-again name size s t xs x up found =
      step-again C C.list_datasets (is_volume_named name) _
        (C.create_dataset (volume_params name size)) _ (λ x. x.id) datasets-Lists s xs x found
        (ap (λ r. r.0) up)
      ∙ ap (λ r. (ok x.id, r.1)) up

  pub ensure_extent-again :
      (cleanup : Cleanup C) (volume_id path : String) (s t : Server) (xs : List IscsiExtent)
      (x : IscsiExtent)
      → C.list_extents s ≡ (ok xs, t)
      → first (has_path path) (V.extents s) ≡ some x
      → ensure_extent C cleanup volume_id path s ≡ (ok x.id, t)
  unfolding ensure_extent
  ensure_extent-again cleanup volume_id path s t xs x up found =
      step-again C C.list_extents (has_path path) _ (C.create_extent (extent_params volume_id path))
        _ (λ x. x.id) extents-Lists s xs x found (ap (λ r. r.0) up)
      ∙ ap (λ r. (ok x.id, r.1)) up

  pub ensure_initiator-again :
      (cleanup : Cleanup C) (volume_id : String) (s t : Server) (xs : List IscsiInitiator)
      (x : IscsiInitiator)
      → C.list_initiators s ≡ (ok xs, t)
      → first (has_comment volume_id) (V.initiators s) ≡ some x
      → ensure_initiator C cleanup volume_id s ≡ (ok x.id, t)
  unfolding ensure_initiator
  ensure_initiator-again cleanup volume_id s t xs x up found =
      step-again C C.list_initiators (has_comment volume_id) _
        (C.create_initiator (initiator_comment volume_id)) _ (λ x. x.id) initiators-Lists s xs x
        found (ap (λ r. r.0) up)
      ∙ ap (λ r. (ok x.id, r.1)) up

  pub ensure_target-again :
      (cleanup : Cleanup C) (portal_id : ℤ) (volume_id : String) (initiator_id : ℤ) (s t : Server)
      (xs : List IscsiTarget) (x : IscsiTarget)
      → C.list_targets s ≡ (ok xs, t)
      → first (target_named volume_id) (V.targets s) ≡ some x
      → ensure_target C cleanup portal_id volume_id initiator_id s ≡ (ok x.id, t)
  unfolding ensure_target
  ensure_target-again cleanup portal_id volume_id initiator_id s t xs x up found =
      step-again C C.list_targets (target_named volume_id) _
        (C.create_target (target_params portal_id volume_id initiator_id)) _ (λ x. x.id)
        targets-Lists s xs x found (ap (λ r. r.0) up)
      ∙ ap (λ r. (ok x.id, r.1)) up

  pub ensure_target_extent-again :
      (cleanup : Cleanup C) (target extent : ℤ) (s t : Server) (xs : List IscsiTargetExtent)
      (x : IscsiTargetExtent)
      → C.list_target_extents s ≡ (ok xs, t)
      → first (maps target extent) (V.target_extents s) ≡ some x
      → ensure_target_extent C cleanup target extent s ≡ (ok tt, t)
  unfolding ensure_target_extent
  ensure_target_extent-again cleanup target extent s t xs x up found =
      step-again C C.list_target_extents (maps target extent) _
        (C.create_target_extent (record { target = target; extent = extent })) _ (λ x. tt)
        target_extents-Lists s xs x found (ap (λ r. r.0) up)
      ∙ ap (λ r. (ok tt, r.1)) up
