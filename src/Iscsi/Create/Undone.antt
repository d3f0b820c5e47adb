-- ===== src/Iscsi/Create/Undone.antt =====
-- What a failing `iscsiCreateVolume` (pkg/driver/iscsi.go) leaves of the volume's dataset.
use truenas_scale_csi.Base.{
  String, ◌<>◌, ◌≡◌, ◌≢◌, sym, ◌∙◌, ◌↔◌, ◌⊎◌, inl, inr, none, ℤ, Elem, ok, err, first_sound,
  Result-cases, with_state, eq_iff, arith,
}
use truenas_scale_csi.Csi.{Error, CreateVolumeRequest}
use truenas_scale_csi.Libraries.{Libraries}
use truenas_scale_csi.Size.{extract_storage}
use truenas_scale_csi.Caps.{iscsi_check_caps}
use truenas_scale_csi.Driver.{Driver}
use truenas_scale_csi.TrueNas.{Client, Dataset}
use truenas_scale_csi.TrueNas.Laws.{View, IsStore, IsBlockStore}
use truenas_scale_csi.Iscsi.{
  get_portal_addr, iscsi_volume_prefix, iscsi_dataset_name, is_volume_named, cleanup1, cleanup2,
  cleanup3, cleanup4, ensure_volume, ensure_extent, ensure_initiator, ensure_target,
  ensure_target_extent,
}
use truenas_scale_csi.Iscsi.Create.{create_objects, iscsi_create_volume}
use truenas_scale_csi.Iscsi.Create.Provided.{
  ensure_volume-found, ensure_extent-found, ensure_initiator-found, ensure_target-found,
}
use truenas_scale_csi.Iscsi.Create.Failed.{
  SparesDatasets, TriesToDelete, TriesToDelete-from, cleanup1-Cleans, cleanup2-Cleans,
  cleanup3-Cleans, cleanup4-Cleans, ensure_extent-tries, ensure_initiator-tries,
  ensure_target-tries, ensure_target_extent-tries,
}

module _ (C : Client) (V : View C.Server) (store : IsStore C V) (block : IsBlockStore C V)
    (spares : SparesDatasets C V) (d : Driver) where
  open C use {Server}

  -- A call that has got a dataset, and then fails, has tried to delete that dataset.
  create_objects-tries :
      (volume_id : String) (size : ℤ) (s s1 : Server) (id : String) (e : Error)
      → ensure_volume C (iscsi_dataset_name d volume_id) size s ≡ (ok id, s1)
      → (create_objects C d volume_id size s).0 ≡ err e
      → TriesToDelete C V id s1 (create_objects C d volume_id size s).1
  unfolding create_objects
  create_objects-tries volume_id size s s1 id e ok1 h =
      let path = "zvol/" <> iscsi_dataset_name d volume_id in
      let r2 = ensure_extent C (cleanup1 C id) volume_id path s1 in
      elim (Result-cases r2.0) [
        | inl (e2, bad) ↦
            rw (ok1, bad)
              (ensure_extent-tries C V block spares id _ volume_id path s1 e2 r2.1
                (cleanup1-Cleans C V block spares id) (with_state r2 (err e2) bad))
        | inr (extent, ok2) ↦
            let r3 = ensure_initiator C (cleanup2 C id extent) volume_id r2.1 in
            let same2 : V.datasets r2.1 ≡ V.datasets s1 =
              (ensure_extent-found C V store block (cleanup1 C id) volume_id path s1 extent r2.1
                (with_state r2 (ok extent) ok2)).3 in
            elim (Result-cases r3.0) [
              | inl (e3, bad) ↦
                  rw (ok1, ok2, bad)
                    (TriesToDelete-from C V id s1 r2.1 r3.1 same2 (
                      ensure_initiator-tries C V block spares id _ volume_id r2.1 e3 r3.1
                        (cleanup2-Cleans C V block spares id extent) (with_state r3 (err e3) bad)))
              | inr (initiator, ok3) ↦
                  let r4 =
                    ensure_target C (cleanup3 C id extent initiator) d.portal_id volume_id initiator
                      r3.1 in
                  let same3 : V.datasets r3.1 ≡ V.datasets s1 =
                    (ensure_initiator-found C V store block (cleanup2 C id extent) volume_id r2.1
                      initiator r3.1 (with_state r3 (ok initiator) ok3)).3
                    ∙ same2 in
                  elim (Result-cases r4.0) [
                    | inl (e4, bad) ↦
                        rw (ok1, ok2, ok3, bad)
                          (TriesToDelete-from C V id s1 r3.1 r4.1 same3 (
                            ensure_target-tries C V block spares id _ d.portal_id volume_id
                              initiator r3.1 e4 r4.1
                              (cleanup3-Cleans C V block spares id extent initiator)
                              (with_state r4 (err e4) bad)))
                    | inr (target, ok4) ↦
                        let r5 =
                          ensure_target_extent C (cleanup4 C id extent initiator target) target
                            extent r4.1 in
                        let same4 : V.datasets r4.1 ≡ V.datasets s1 =
                          (ensure_target-found C V store block (cleanup3 C id extent initiator)
                            d.portal_id volume_id initiator r3.1 target r4.1
                            (with_state r4 (ok target) ok4)).3
                          ∙ same3 in
                        elim (Result-cases r5.0) [
                          | inl (e5, bad) ↦
                              rw (ok1, ok2, ok3, ok4)
                                (TriesToDelete-from C V id s1 r4.1 r5.1 same4 (
                                  ensure_target_extent-tries C V block spares id _ target extent
                                    r4.1 e5 r5.1
                                    (cleanup4-Cleans C V block spares id extent initiator target)
                                    (with_state r5 (err e5) bad)))
                          | inr (v, ok5) ↦ cc (rw (ok1, ok2, ok3, ok4, ok5) at h)
                        ]
                  ]
            ]
      ]

  -- An iSCSI CreateVolume that fails after its checks, the portal's answer and the step that finds or creates
  -- the volume's dataset, tries to delete that dataset, in a state `u` with the datasets that there were after
  -- that step: either the server refuses, and the datasets are what its refusal left; or exactly the dataset of
  -- the volume's name is gone, and every other one is there.
  -- Assumed of the server: `IsStore`, `IsBlockStore`, and that the calls on extents, initiators, targets and
  -- mappings change no dataset.
  pub iscsi_create_volume-tries :
      (L : Libraries) (req : CreateVolumeRequest) (s s1 s2 : Server) (portal : String × String)
      (size : ℤ) (id : String) (e : Error)
      → let name = iscsi_dataset_name d (iscsi_volume_prefix <> req.name) in
        iscsi_check_caps L req.volume_capabilities ≡ none
        → get_portal_addr C d.portal_id s ≡ (ok portal, s1)
        → extract_storage req.capacity_range ≡ ok size
        → ensure_volume C name size s1 ≡ (ok id, s2)
        → (iscsi_create_volume C L d req s).0 ≡ err e
        → let t = (iscsi_create_volume C L d req s).1 in
          (u : Server) × (V.datasets u ≡ V.datasets s2)
          × (((refused : String) × ((C.delete_dataset id u).0 ≡ err refused)
                × (V.datasets t ≡ V.datasets (C.delete_dataset id u).1))
              ⊎ ((x : Dataset)
                  → Elem x (V.datasets t) ↔ (Elem x (V.datasets s2) × (x.name ≢ name))))
  unfolding iscsi_create_volume
  iscsi_create_volume-tries L req s s1 s2 portal size id e caps up accepted made h =
      let volume_id = iscsi_volume_prefix <> req.name in
      let name = iscsi_dataset_name d volume_id in
      let (ds, found, id_eq) = ensure_volume-found C V store block name size s1 id s2 made in
      let (listed, fits) = first_sound (is_volume_named name) ds _ found in
      let ds_name : ds.name ≡ name = ground (arith, eq_iff ds.name name) in
      let id_name : id ≡ name = id_eq ∙ store.dataset_id s2 ds listed ∙ ds_name in
      let r = create_objects C d volume_id size s1 in
      elim (Result-cases r.0) [
        | inr (v, done) ↦ cc (rw (caps, up, accepted, done) at h)
        | inl (e', failed) ↦
            let tried = create_objects-tries volume_id size s1 s2 id e' made failed in
            let u = tried.before in
            rw (caps, up, accepted, failed)
              (
                u,
                tried.unchanged,
                elim (Result-cases (C.delete_dataset id u).0) [
                  | inl (refused, bad) ↦ inl (refused, bad, tried.after)
                  | inr (y, gone) ↦ inr λ x.
                      let both = store.delete_dataset-gone u id x gone in
                      (
                        λ there.
                            let (old, other) = both.0 (rw tried.after at there) in
                            let old' : Elem x (V.datasets s2) = rw tried.unchanged at old in
                            (old', λ same. other (store.dataset_id s2 x old' ∙ same ∙ sym id_name)),
                        λ (old, other).
                            let there = both.1 (
                              rw tried.unchanged old,
                              λ same. other (sym (store.dataset_id s2 x old) ∙ same ∙ id_name),
                            ) in
                            rw tried.after there,
                      )
                ],
              )
      ]
