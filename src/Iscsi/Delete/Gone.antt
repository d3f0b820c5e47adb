-- ===== src/Iscsi/Delete/Gone.antt =====
-- `iscsiDeleteVolume` (pkg/driver/iscsi.go): what is left of a volume.
use truenas_scale_csi.Base.{
  String, ◌≡◌, ◌≢◌, ◌↔◌, inl, inr, true, some, Elem, ok, first, first-Elem, first_sound,
  Option-cases, eq_iff, Bool-cases, Result-cases, with_state, starts_with,
}
use truenas_scale_csi.Driver.{Driver}
use truenas_scale_csi.TrueNas.{Client, Dataset, IscsiInitiator, IscsiTarget}
use truenas_scale_csi.TrueNas.Laws.{View, IsStore, IsBlockStore}
use truenas_scale_csi.Iscsi.{iscsi_volume_prefix, iscsi_dataset_name, has_comment, target_named}
use truenas_scale_csi.Iscsi.Create.Provided.{datasets-Lists, initiators-Lists, targets-Lists}
use truenas_scale_csi.Iscsi.Delete.{
  dataset_named, delete_volume_target, delete_volume_dataset, delete_volume_initiator,
  iscsi_delete_volume,
}
use truenas_scale_csi.Iscsi.Delete.Removal.{
  picked, Removed, removal-Removed, Removed-gone, Removed-frame,
}

module _ (C : Client) (d : Driver) (volume_id : String) where
  open C use {Server}

  -- The three steps of a successful call.
  pub record IsDeleted (s t : Server) : Type 0 where
    pub ours : starts_with volume_id iscsi_volume_prefix ≡ true
    pub s1 : Server
    pub s2 : Server
    pub target : Removed C.list_targets (target_named volume_id) C.delete_target (λ x. x.id) s s1
    pub dataset :
        Removed C.list_datasets
          (dataset_named (iscsi_dataset_name d volume_id))
          C.delete_dataset
          (λ x. x.id)
          s1
          s2
    pub initiator :
        Removed C.list_initiators (has_comment volume_id) C.delete_initiator (λ x. x.id) s2 t

  target-Removed :
      (s t : Server)
      → delete_volume_target C volume_id s ≡ (ok tt, t)
      → Removed C.list_targets (target_named volume_id) C.delete_target (λ x. x.id) s t
  unfolding delete_volume_target
  target-Removed s t h = removal-Removed _ _ _ _ s t h

  dataset-Removed :
      (name : String) (s t : Server)
      → delete_volume_dataset C name s ≡ (ok tt, t)
      → Removed C.list_datasets (dataset_named name) C.delete_dataset (λ x. x.id) s t
  unfolding delete_volume_dataset
  dataset-Removed name s t h = removal-Removed _ _ _ _ s t h

  initiator-Removed :
      (s t : Server)
      → delete_volume_initiator C volume_id s ≡ (ok tt, t)
      → Removed C.list_initiators (has_comment volume_id) C.delete_initiator (λ x. x.id) s t
  unfolding delete_volume_initiator
  initiator-Removed s t h = removal-Removed _ _ _ _ s t h

  pub run-IsDeleted :
      (s : Server)
      → (iscsi_delete_volume C d volume_id s).0 ≡ ok tt
      → IsDeleted s (iscsi_delete_volume C d volume_id s).1
  unfolding iscsi_delete_volume
  run-IsDeleted s h = elim (Bool-cases (starts_with volume_id iscsi_volume_prefix)) [
    | inr other ↦ cc
    | inl ours ↦
        let r1 = delete_volume_target C volume_id s in
        elim (Result-cases r1.0) [
          | inl (e, bad) ↦ cc (rw (ours, bad) at h)
          | inr (a, ok1) ↦
              let r2 = delete_volume_dataset C (iscsi_dataset_name d volume_id) r1.1 in
              elim (Result-cases r2.0) [
                | inl (e, bad) ↦ cc (rw (ours, ok1, bad) at h)
                | inr (b, ok2) ↦
                    let r3 = delete_volume_initiator C volume_id r2.1 in
                    rw (ours, ok1, ok2)
                      (record {
                        ours = ours;
                        s1 = r1.1;
                        s2 = r2.1;
                        target = target-Removed s r1.1 (with_state r1 (ok tt) ok1);
                        dataset = dataset-Removed _ r1.1 r2.1 (with_state r2 (ok tt) ok2);
                        initiator =
                            initiator-Removed r2.1 r3.1
                              (with_state r3 (ok tt) (rw (ours, ok1, ok2) at h));
                      })
              ]
        ]
  ]

module _ (C : Client) (V : View C.Server) (store : IsStore C V) (block : IsBlockStore C V)
    (d : Driver) where
  open C use {Server}

  -- The initiators are those of before, without the first that matches.
  pub initiators-gone :
      (volume_id : String) (s : Server) (z : IscsiInitiator)
      → (iscsi_delete_volume C d volume_id s).0 ≡ ok tt
      → Elem z (V.initiators (iscsi_delete_volume C d volume_id s).1) ↔ (
          Elem z (V.initiators s)
          × (picked (λ z. z.id) (first (has_comment volume_id) (V.initiators s)) ≢ some z.id))
  initiators-gone volume_id s z h =
      let t = (iscsi_delete_volume C d volume_id s).1 in
      let m = run-IsDeleted C d volume_id s h in
      let in1 : V.initiators m.s1 ≡ V.initiators s =
        Removed-frame _ _ _ _ V.initiators (λ s. (block.list_targets-same s).initiators)
          (λ u i done. (block.delete_target-keeps u i done).1) s m.s1 m.target in
      let in2 : V.initiators m.s2 ≡ V.initiators m.s1 =
        Removed-frame _ _ _ _ V.initiators (λ s. (store.list_datasets-same s).initiators)
          (λ u i done. (block.delete_dataset-keeps u i done).1) m.s1 m.s2 m.dataset in
      rw (← in1, ← in2)
        (Removed-gone _ _ _ _ (initiators-Lists C V store block) block.delete_initiator-gone m.s2 t
          z m.initiator)

  datasets-left :
      (volume_id : String) (s : Server) (y : Dataset)
      → (iscsi_delete_volume C d volume_id s).0 ≡ ok tt
      → let dataset = first (dataset_named (iscsi_dataset_name d volume_id)) (V.datasets s) in
        Elem y (V.datasets (iscsi_delete_volume C d volume_id s).1)
        ↔ (Elem y (V.datasets s) × (picked (λ y. y.id) dataset ≢ some y.id))
  datasets-left volume_id s y h =
      let t = (iscsi_delete_volume C d volume_id s).1 in
      let m = run-IsDeleted C d volume_id s h in
      let ds1 : V.datasets m.s1 ≡ V.datasets s =
        Removed-frame _ _ _ _ V.datasets (λ s. (block.list_targets-same s).datasets)
          (λ u i done. (block.delete_target-keeps u i done).0) s m.s1 m.target in
      let ds3 : V.datasets t ≡ V.datasets m.s2 =
        Removed-frame _ _ _ _ V.datasets (λ s. (block.list_initiators-same s).datasets)
          (λ u i done. (block.delete_initiator-keeps u i done).0) m.s2 t m.initiator in
      rw (ds3, ← ds1)
        (Removed-gone _ _ _ _ (datasets-Lists C V store block) store.delete_dataset-gone m.s1 m.s2 y
          m.dataset)

  -- A successful iSCSI delete takes away exactly the first target of the volume's name, the dataset of
  -- the volume's name and the first initiator whose comment begins with the volume's id, by
  -- their ids; no other target, dataset or initiator is touched.
  -- Assumed of the server: `IsStore` and `IsBlockStore`.
  pub iscsi_delete_volume-gone :
      (volume_id : String) (s : Server) (x : IscsiTarget) (y : Dataset) (z : IscsiInitiator)
      → (iscsi_delete_volume C d volume_id s).0 ≡ ok tt
      → let t = (iscsi_delete_volume C d volume_id s).1 in
        let target = first (target_named volume_id) (V.targets s) in
        let dataset = first (dataset_named (iscsi_dataset_name d volume_id)) (V.datasets s) in
        let initiator = first (has_comment volume_id) (V.initiators s) in
        (Elem x (V.targets t) ↔ (Elem x (V.targets s) × (picked (λ x. x.id) target ≢ some x.id)))
        × (Elem y (V.datasets t)
            ↔ (Elem y (V.datasets s) × (picked (λ y. y.id) dataset ≢ some y.id)))
        × (Elem z (V.initiators t)
            ↔ (Elem z (V.initiators s) × (picked (λ z. z.id) initiator ≢ some z.id)))
  iscsi_delete_volume-gone volume_id s x y z h =
      let t = (iscsi_delete_volume C d volume_id s).1 in
      let m = run-IsDeleted C d volume_id s h in
      let tg2 : V.targets m.s2 ≡ V.targets m.s1 =
        Removed-frame _ _ _ _ V.targets (λ s. (store.list_datasets-same s).targets)
          (λ u i done. (block.delete_dataset-keeps u i done).0) m.s1 m.s2 m.dataset in
      let tg3 : V.targets t ≡ V.targets m.s2 =
        Removed-frame _ _ _ _ V.targets (λ s. (block.list_initiators-same s).targets)
          (λ u i done. (block.delete_initiator-keeps u i done).1) m.s2 t m.initiator in
      (
        rw (tg3, tg2)
            (Removed-gone _ _ _ _ (targets-Lists C V store block) block.delete_target-gone s m.s1 x
              m.target),
        datasets-left volume_id s y h,
        initiators-gone volume_id s z h,
      )

  -- The datasets left are those that do not have the volume's name.
  pub datasets-gone :
      (volume_id : String) (s : Server) (x : Dataset)
      → (iscsi_delete_volume C d volume_id s).0 ≡ ok tt
      → Elem x (V.datasets (iscsi_delete_volume C d volume_id s).1)
        ↔ (Elem x (V.datasets s) × (x.name ≢ iscsi_dataset_name d volume_id))
  datasets-gone volume_id s x h =
      let name = iscsi_dataset_name d volume_id in
      let (to, from) = datasets-left volume_id s x h in
      (
        λ e.
            let (old, other) = to e in
            (
              old,
              λ named.
                  let (y, found) =
                    first-Elem (dataset_named name) x (V.datasets s) old
                      ((eq_iff x.name name).1 named) in
                  let (y_old, y_named) = first_sound (dataset_named name) y (V.datasets s) found in
                  other (
                    rw found (
                      cc (
                        store.dataset_id s x old,
                        store.dataset_id s y y_old,
                        named,
                        (eq_iff y.name name).0 y_named,
                      ))),
            ),
        λ (old, other). from (
          old,
          λ is_picked. elim (Option-cases (first (dataset_named name) (V.datasets s))) [
            | inl missing ↦ cc (rw missing at is_picked)
            | inr (y, found) ↦
                let (y_old, y_named) = first_sound (dataset_named name) y (V.datasets s) found in
                let same : some y.id ≡ some x.id = rw found at is_picked in
                other (
                  cc (
                    store.dataset_id s x old,
                    store.dataset_id s y y_old,
                    same,
                    (eq_iff y.name name).0 y_named,
                  ))
          ],
        ),
      )
