-- ===== src/Iscsi/Create/Again.antt =====
-- `iscsiCreateVolume` (pkg/driver/iscsi.go): what a successful call has done, and that it can be repeated.
use truenas_scale_csi.Base.{
  String, ◌<>◌, ◌≡◌, ◌∙◌, ap, subst, none, some, List, ℤ, ok, first, Option-cases, Result-cases,
  with_state, inl, inr,
}
use truenas_scale_csi.Csi.{CreateVolumeRequest, Volume}
use truenas_scale_csi.Libraries.{Libraries}
use truenas_scale_csi.Driver.{Driver}
use truenas_scale_csi.Size.{extract_storage}
use truenas_scale_csi.Caps.{iscsi_check_caps}
use truenas_scale_csi.TrueNas.{
  Client, Dataset, IscsiExtent, IscsiInitiator, IscsiTarget, IscsiTargetExtent,
}
use truenas_scale_csi.TrueNas.Laws.{View, Same, IsStore, IsBlockStore}
use truenas_scale_csi.Iscsi.{
  iscsi_volume_prefix, iscsi_dataset_name, get_portal_addr, is_volume_named, has_path, has_comment,
  target_named, maps,
}
use truenas_scale_csi.Iscsi.Create.{iscsi_volume, create_objects, iscsi_create_volume}
use truenas_scale_csi.Iscsi.Create.Objects.{IsMade, IsMade-run, create_objects-IsMade}
use truenas_scale_csi.Iscsi.Create.Provided.{
  ensure_volume-found, ensure_extent-found, ensure_initiator-found, ensure_target-found,
  ensure_target_extent-found, ensure_volume-again, ensure_extent-again, ensure_initiator-again,
  ensure_target-again, ensure_target_extent-again,
}

module _ (C : Client) (L : Libraries) (d : Driver) (req : CreateVolumeRequest) where
  open C use {Server}

  abbrev id_of : String
  id_of = iscsi_volume_prefix <> req.name

  -- The steps of a successful call.
  pub record IsIssued (s : Server) (v : Volume) (t : Server) : Type 0 where
    pub caps : iscsi_check_caps L req.volume_capabilities ≡ none
    pub iqn_base : String
    pub portal_addr : String
    pub middle : Server
    pub portal : get_portal_addr C d.portal_id s ≡ (ok (iqn_base, portal_addr), middle)
    pub size : ℤ
    pub accepted : extract_storage req.capacity_range ≡ ok size
    pub objects : create_objects C d id_of size middle ≡ (ok tt, t)
    pub volume : v ≡ iscsi_volume id_of size portal_addr iqn_base

  pub IsIssued-run :
      (s : Server) (v : Volume) (t : Server)
      → IsIssued s v t
      → iscsi_create_volume C L d req s ≡ (ok v, t)
  unfolding iscsi_create_volume
  IsIssued-run s v t c = rw (c.caps, c.portal, c.accepted, c.objects, c.volume)

  pub run-IsIssued :
      (s : Server) (v : Volume)
      → (iscsi_create_volume C L d req s).0 ≡ ok v
      → IsIssued s v (iscsi_create_volume C L d req s).1
  unfolding iscsi_create_volume
  run-IsIssued s v h = elim (Option-cases (iscsi_check_caps L req.volume_capabilities)) [
    | inr (e, refused) ↦ cc
    | inl passed ↦
        let portal = get_portal_addr C d.portal_id s in
        elim (Result-cases portal.0) [
          | inl (e, down) ↦ cc (rw (passed, down) at h)
          | inr ((iqn_base, addr), up) ↦ elim (Result-cases (extract_storage req.capacity_range)) [
            | inl (e, bad) ↦ cc (rw (passed, up, bad) at h)
            | inr (size, accepted) ↦
                let made = create_objects C d id_of size portal.1 in
                elim (Result-cases made.0) [
                  | inl (e, down) ↦ cc (rw (passed, up, accepted, down) at h)
                  | inr (u, done) ↦
                      rw (passed, up, accepted, done)
                        (record {
                          caps = passed;
                          iqn_base = iqn_base;
                          portal_addr = addr;
                          middle = portal.1;
                          portal = with_state portal (ok (iqn_base, addr)) up;
                          size = size;
                          accepted = accepted;
                          objects = with_state made (ok tt) done;
                          volume = cc (rw (passed, up, accepted, done) at h);
                        })
                ]
          ]
        ]
  ]

module _ (C : Client) (V : View C.Server) (store : IsStore C V) (block : IsBlockStore C V)
    (L : Libraries) (d : Driver) where
  open C use {Server}

  -- What a volume is on the server: a dataset of its name that is a volume, an extent over it, an
  -- initiator whose comment begins with the volume's id, a target of that name, and a mapping
  -- between the target and the extent; each is the first that the handler's tests find.
  pub record IsProvided (volume_id : String) (t : Server) : Type 0 where
    pub dataset : Dataset
    pub has_dataset :
        first (is_volume_named (iscsi_dataset_name d volume_id)) (V.datasets t) ≡ some dataset
    pub extent : IscsiExtent
    pub has_extent :
        first (has_path ("zvol/" <> iscsi_dataset_name d volume_id)) (V.extents t) ≡ some extent
    pub initiator : IscsiInitiator
    pub has_initiator : first (has_comment volume_id) (V.initiators t) ≡ some initiator
    pub target : IscsiTarget
    pub has_target : first (target_named volume_id) (V.targets t) ≡ some target
    pub mapping : IscsiTargetExtent
    pub has_mapping : first (maps target.id extent.id) (V.target_extents t) ≡ some mapping

  IsMade-IsProvided :
      (volume_id : String) (size : ℤ) (s t : Server)
      → IsMade C d volume_id size s t
      → IsProvided volume_id t
  IsMade-IsProvided volume_id size s t m =
      let (ds, ds_found, _) = ensure_volume-found C V store block _ size s _ m.s1 m.dataset in
      let (ex, ex_found, ex_id, ds2) =
        ensure_extent-found C V store block _ _ _ m.s1 _ m.s2 m.extent in
      let (ini, ini_found, _, ds3, ex3) =
        ensure_initiator-found C V store block _ _ m.s2 _ m.s3 m.initiator in
      let (tg, tg_found, tg_id, ds4, ex4, ini4) =
        ensure_target-found C V store block _ _ _ _ m.s3 _ m.s4 m.target in
      let (mp, mp_found, ds5, ex5, ini5, tg5) =
        ensure_target_extent-found C V store block _ _ _ m.s4 t m.mapping in
      record {
        dataset = ds;
        has_dataset = rw (ds5, ds4, ds3, ds2) ds_found;
        extent = ex;
        has_extent = rw (ex5, ex4, ex3) ex_found;
        initiator = ini;
        has_initiator = rw (ini5, ini4) ini_found;
        target = tg;
        has_target = rw tg5 tg_found;
        mapping = mp;
        has_mapping = rw (← tg_id, ← ex_id) mp_found;
      }

  -- A successful iSCSI CreateVolume answers with "iscsi-" and the requested name, with the size that
  -- `extractStorage` chooses, the portal's first address and the IQN of that id; and then the server
  -- has the dataset, the extent, the initiator, the target and the mapping of the volume.
  -- Assumed of the server: `IsStore` and `IsBlockStore`.
  pub iscsi_create_volume-IsProvided :
      (req : CreateVolumeRequest) (s : Server) (v : Volume)
      → (iscsi_create_volume C L d req s).0 ≡ ok v
      → let volume_id = iscsi_volume_prefix <> req.name in
        (size : ℤ) × (addr : String) × (iqn_base : String) × (extract_storage req.capacity_range
          ≡ ok size)
        × ((get_portal_addr C d.portal_id s).0 ≡ ok (iqn_base, addr))
        × (v ≡ iscsi_volume volume_id size addr iqn_base)
        × IsProvided volume_id (iscsi_create_volume C L d req s).1
  iscsi_create_volume-IsProvided req s v h =
      let c = run-IsIssued C L d req s v h in
      (
        c.size,
        c.portal_addr,
        c.iqn_base,
        c.accepted,
        ap (λ r. r.0) c.portal,
        c.volume,
        IsMade-IsProvided _ c.size c.middle _ (
            create_objects-IsMade C d (iscsi_volume_prefix <> req.name) c.size c.middle _
              c.objects),
      )

  -- The five listings of the handler are answered, one after the other, from `u` to `t`.
  pub record IsAnswered (u t : Server) : Type 0 where
    pub datasets : List Dataset
    pub extents : List IscsiExtent
    pub initiators : List IscsiInitiator
    pub targets : List IscsiTarget
    pub target_extents : List IscsiTargetExtent
    pub u1 : Server
    pub u2 : Server
    pub u3 : Server
    pub u4 : Server
    pub datasets_up : C.list_datasets u ≡ (ok datasets, u1)
    pub extents_up : C.list_extents u1 ≡ (ok extents, u2)
    pub initiators_up : C.list_initiators u2 ≡ (ok initiators, u3)
    pub targets_up : C.list_targets u3 ≡ (ok targets, u4)
    pub target_extents_up : C.list_target_extents u4 ≡ (ok target_extents, t)

  create_objects-again :
      (volume_id : String) (size : ℤ) (s u t : Server)
      → IsProvided volume_id s
      → Same V s u
      → IsAnswered u t
      → create_objects C d volume_id size u ≡ (ok tt, t)
  create_objects-again volume_id size s u t p same a =
      let same1 : Same V u a.u1 =
        subst (λ r. Same V u r.1) a.datasets_up (store.list_datasets-same u) in
      let same2 : Same V a.u1 a.u2 =
        subst (λ r. Same V a.u1 r.1) a.extents_up (block.list_extents-same a.u1) in
      let same3 : Same V a.u2 a.u3 =
        subst (λ r. Same V a.u2 r.1) a.initiators_up (block.list_initiators-same a.u2) in
      let same4 : Same V a.u3 a.u4 =
        subst (λ r. Same V a.u3 r.1) a.targets_up (block.list_targets-same a.u3) in
      IsMade-run C d volume_id size u t (record {
        dataset_id = p.dataset.id;
        extent_id = p.extent.id;
        initiator_id = p.initiator.id;
        target_id = p.target.id;
        s1 = a.u1;
        s2 = a.u2;
        s3 = a.u3;
        s4 = a.u4;
        dataset =
            ensure_volume-again C V store block _ size u a.u1 a.datasets p.dataset a.datasets_up
              (cc (same.datasets, p.has_dataset));
        extent =
            ensure_extent-again C V store block _ volume_id _ a.u1 a.u2 a.extents p.extent
              a.extents_up (cc (same1.extents, same.extents, p.has_extent));
        initiator =
            ensure_initiator-again C V store block _ volume_id a.u2 a.u3 a.initiators p.initiator
              a.initiators_up
              (cc (same2.initiators, same1.initiators, same.initiators, p.has_initiator));
        target =
            ensure_target-again C V store block _ d.portal_id volume_id _ a.u3 a.u4 a.targets
              p.target a.targets_up
              (cc (same3.targets, same2.targets, same1.targets, same.targets, p.has_target));
        mapping =
            ensure_target_extent-again C V store block _ p.target.id p.extent.id a.u4 t
              a.target_extents p.mapping a.target_extents_up
              (cc (
                same4.target_extents, same3.target_extents, same2.target_extents,
                same1.target_extents, same.target_extents, p.has_mapping,
              ));
      })

  -- iSCSI CreateVolume is idempotent: made again where the portal gives the same answer, leaving
  -- a state in which the server holds what the first call left, with its five listings answered, it
  -- gives the same volume, and after the portal does nothing but list.
  -- Assumed of the server: `IsStore` and `IsBlockStore`.
  pub iscsi_create_volume-again :
      (req : CreateVolumeRequest) (s u u1 t : Server) (v : Volume)
      → (iscsi_create_volume C L d req s).0 ≡ ok v
      → get_portal_addr C d.portal_id u ≡ ((get_portal_addr C d.portal_id s).0, u1)
      → Same V (iscsi_create_volume C L d req s).1 u1
      → IsAnswered u1 t
      → iscsi_create_volume C L d req u ≡ (ok v, t)
  iscsi_create_volume-again req s u u1 t v h portal same a =
      let c = run-IsIssued C L d req s v h in
      let volume_id = iscsi_volume_prefix <> req.name in
      IsIssued-run C L d req u v t (record {
        caps = c.caps;
        iqn_base = c.iqn_base;
        portal_addr = c.portal_addr;
        middle = u1;
        portal = portal ∙ ap (λ r. (r.0, u1)) c.portal;
        size = c.size;
        accepted = c.accepted;
        objects =
            create_objects-again volume_id c.size _ u1 t
              (IsMade-IsProvided volume_id c.size c.middle _
                (create_objects-IsMade C d volume_id c.size c.middle _ c.objects))
              same a;
        volume = c.volume;
      })
