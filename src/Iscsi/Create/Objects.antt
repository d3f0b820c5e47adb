-- ===== src/Iscsi/Create/Objects.antt =====
-- The objects that `iscsiCreateVolume` (pkg/driver/iscsi.go) leaves on the server.
use truenas_scale_csi.Base.{String, ◌<>◌, ◌≡◌, ap, subst, inl, inr, ℤ, ok, Result-cases, with_state}
use truenas_scale_csi.Driver.{Driver}
use truenas_scale_csi.TrueNas.{Client}
use truenas_scale_csi.Iscsi.{
  iscsi_dataset_name, cleanup1, cleanup2, cleanup3, cleanup4, ensure_volume, ensure_extent,
  ensure_initiator, ensure_target, ensure_target_extent,
}
use truenas_scale_csi.Iscsi.Create.{create_objects}

module _ (C : Client) (d : Driver) (volume_id : String) (size : ℤ) where
  open C use {Server}

  abbrev dataset_name : String
  dataset_name = iscsi_dataset_name d volume_id

  -- The steps of a successful call, from state to state.
  pub record IsMade (s t : Server) : Type 0 where
    pub dataset_id : String
    pub extent_id : ℤ
    pub initiator_id : ℤ
    pub target_id : ℤ
    pub s1 : Server
    pub s2 : Server
    pub s3 : Server
    pub s4 : Server
    pub dataset : ensure_volume C dataset_name size s ≡ (ok dataset_id, s1)
    pub extent :
        ensure_extent C (cleanup1 C dataset_id) volume_id ("zvol/" <> dataset_name) s1
        ≡ (ok extent_id, s2)
    pub initiator :
        ensure_initiator C (cleanup2 C dataset_id extent_id) volume_id s2 ≡ (ok initiator_id, s3)
    pub target :
        ensure_target C
          (cleanup3 C dataset_id extent_id initiator_id)
          d.portal_id
          volume_id
          initiator_id
          s3
        ≡ (ok target_id, s4)
    pub mapping :
        ensure_target_extent C
          (cleanup4 C dataset_id extent_id initiator_id target_id)
          target_id
          extent_id
          s4
        ≡ (ok tt, t)

  pub IsMade-run : (s t : Server) → IsMade s t → create_objects C d volume_id size s ≡ (ok tt, t)
  unfolding create_objects
  IsMade-run s t m = rw (m.dataset, m.extent, m.initiator, m.target, m.mapping)

  run-IsMade :
      (s : Server)
      → (create_objects C d volume_id size s).0 ≡ ok tt
      → IsMade s (create_objects C d volume_id size s).1
  unfolding create_objects
  run-IsMade s h =
      let r1 = ensure_volume C dataset_name size s in
      elim (Result-cases r1.0) [
        | inl (e, bad) ↦ cc (rw bad at h)
        | inr (dataset_id, ok1) ↦
            let r2 =
              ensure_extent C (cleanup1 C dataset_id) volume_id ("zvol/" <> dataset_name) r1.1 in
            elim (Result-cases r2.0) [
              | inl (e, bad) ↦ cc (rw (ok1, bad) at h)
              | inr (extent_id, ok2) ↦
                  let r3 = ensure_initiator C (cleanup2 C dataset_id extent_id) volume_id r2.1 in
                  elim (Result-cases r3.0) [
                    | inl (e, bad) ↦ cc (rw (ok1, ok2, bad) at h)
                    | inr (initiator_id, ok3) ↦
                        let r4 =
                          ensure_target C (cleanup3 C dataset_id extent_id initiator_id) d.portal_id
                            volume_id initiator_id r3.1 in
                        elim (Result-cases r4.0) [
                          | inl (e, bad) ↦ cc (rw (ok1, ok2, ok3, bad) at h)
                          | inr (target_id, ok4) ↦
                              rw (ok1, ok2, ok3, ok4)
                                (record {
                                  dataset_id = dataset_id;
                                  extent_id = extent_id;
                                  initiator_id = initiator_id;
                                  target_id = target_id;
                                  s1 = r1.1;
                                  s2 = r2.1;
                                  s3 = r3.1;
                                  s4 = r4.1;
                                  dataset = with_state r1 (ok dataset_id) ok1;
                                  extent = with_state r2 (ok extent_id) ok2;
                                  initiator = with_state r3 (ok initiator_id) ok3;
                                  target = with_state r4 (ok target_id) ok4;
                                  mapping = with_state _ (ok tt) (rw (ok1, ok2, ok3, ok4) at h);
                                })
                        ]
                  ]
            ]
      ]

  pub create_objects-IsMade :
      (s t : Server) → create_objects C d volume_id size s ≡ (ok tt, t) → IsMade s t
  create_objects-IsMade s t h = subst (λ r. IsMade s r.1) h (run-IsMade s (ap (λ r. r.0) h))
