-- ===== src/Node/Created.antt =====
-- A volume that the iSCSI controller made, published by the node service (pkg/driver/iscsi.go,
-- pkg/driver/node.go): the two sides of the driver agree on the volume's id and context.
use truenas_scale_csi.Base.{
  String, ◌<>◌, ◌≡◌, ◌∙◌, refl, sym, ap, inl, inr, true, false, Option, none, some, [], ◌∷◌, pos,
  Result, ok, get_or, str_eq, starts_with, starts_with-append, is_some, Bool-cases,
}
use text.Mathlib.TextLemmas.{append_assoc}
use text.Mathlib.TextPositions.{slice-append_left}
use truenas_scale_csi.Csi.{CreateVolumeRequest, Volume}
use truenas_scale_csi.Libraries.{Libraries}
use truenas_scale_csi.Driver.{Driver}
use truenas_scale_csi.Host.{Host}
use truenas_scale_csi.TrueNas.{Client}
use truenas_scale_csi.TrueNas.Laws.{View, IsStore, IsBlockStore}
use truenas_scale_csi.Nfs.{nfs_volume_prefix}
use truenas_scale_csi.Nfs.Node.{PublishRequest}
use truenas_scale_csi.Iscsi.{iscsi_volume_prefix, get_portal_addr}
use truenas_scale_csi.Iscsi.Create.{iscsi_create_volume}
use truenas_scale_csi.Iscsi.Create.Again.{iscsi_create_volume-IsProvided}
use truenas_scale_csi.Iscsi.Info.{
  Json, IscsiDisk, Connector, no_secrets, portal_mounter, build_iscsi_connector, get_iscsi_info,
}
use truenas_scale_csi.Iscsi.Info.Context.{get_iscsi_info-created}
use truenas_scale_csi.Iscsi.Disk.{Initiator}
use truenas_scale_csi.Iscsi.Disk.Laws.{IsInitiator}
use truenas_scale_csi.Iscsi.Node.{iscsi_node_publish_volume}
use truenas_scale_csi.Iscsi.Node.Published.{iscsi_node_publish_volume-IsPublished}
use truenas_scale_csi.Node.{node_publish_volume}

ok-injective : {a b : IscsiDisk} → ◌≡◌ {A = Result String IscsiDisk} (ok a) (ok b) → a ≡ b
ok-injective h = cc h

some-injective : {a b : Connector} → some a ≡ some b → a ≡ b
some-injective h = cc h

-- An id of the iSCSI controller is none of the NFS controller.
other-prefix : (name : String) → starts_with (iscsi_volume_prefix <> name) nfs_volume_prefix ≡ false
other-prefix name =
    ap (λ u. starts_with u nfs_volume_prefix) (append_assoc "iscs" "i-" name)
    ∙ ap (λ v. str_eq v nfs_volume_prefix) (slice-append_left "iscs" ("i-" <> name))

module _ (H : Host) (D : Initiator H) (L : Libraries) (d : Driver) (J : Json) where
  -- A request that succeeds, for the id of an iSCSI volume, was passed on to the iSCSI side.
  node_publish_volume-iscsi :
      (req : PublishRequest) (s : H.State) (name : String)
      → req.volume_id ≡ iscsi_volume_prefix <> name
      → (node_publish_volume H D L d J req s).0 ≡ ok tt
      → node_publish_volume H D L d J req s ≡ iscsi_node_publish_volume H D L J d req s
  unfolding node_publish_volume
  node_publish_volume-iscsi req s name id h =
      let nfs : starts_with req.volume_id nfs_volume_prefix ≡ false =
        ap (λ x. starts_with x nfs_volume_prefix) id ∙ other-prefix name in
      let iscsi : starts_with req.volume_id iscsi_volume_prefix ≡ true =
        ap (λ x. starts_with x iscsi_volume_prefix) id
        ∙ starts_with-append iscsi_volume_prefix name in
      elim (Bool-cases (is_some req.volume_capability)) [
        | inr bare ↦ cc (rw bare at h)
        | inl able ↦ elim (Bool-cases (str_eq req.volume_id "")) [
          | inl bare ↦ cc (rw (able, bare) at h)
          | inr named ↦ elim (Bool-cases (str_eq req.target_path "")) [
            | inl bare ↦ cc (rw (able, named, bare) at h)
            | inr target ↦ rw (able, named, target, nfs, iscsi) refl
          ]
        ]
      ]

module _ (C : Client) (V : View C.Server) (store : IsStore C V) (block : IsBlockStore C V)
    (H : Host) (D : Initiator H) (devices : H.State → String → Option String)
    (files : H.State → String → Option D.Connected) (laws : IsInitiator H D devices files)
    (L : Libraries) (J : Json) where
  -- The device that is attached: connecting to the volume's target, at LUN 0 and the portal's first address,
  -- gave it, and it is mounted at the target path.
  pub record IsServed (iqn_base addr volume_id target_path : String) (s t : H.State) : Type 0 where
    pub device : String
    pub connected : D.Connected
    pub connects :
        (D.connect
          (record {
            volume_name = volume_id;
            target_iqn = iqn_base <> ":" <> volume_id;
            target_portals = portal_mounter addr ∷ [];
            lun = pos 0;
            do_discovery = true;
            session_secrets = no_secrets;
            discovery_secrets = no_secrets;
          })
          s).0
        ≡ ok (device, connected)
    pub mounted : devices t target_path ≡ some device

  -- A volume that iSCSI CreateVolume returned is published by NodePublishVolume, on any node, with its own
  -- id and context at a target path without a mount: where that succeeds, the device of the volume's own target
  -- is mounted there, reached through the portal of the controller; where the JSON text "[]" is the empty list,
  -- and "" is no JSON map.
  -- Assumed of the server: `IsStore` and `IsBlockStore`; of the node: `IsInitiator`.
  pub node_publish_volume-created :
      (d node : Driver) (req : CreateVolumeRequest) (server : C.Server) (v : Volume)
      (pub_req : PublishRequest) (s : H.State)
      → (iscsi_create_volume C L d req server).0 ≡ ok v
      → J.unmarshal_list "[]" ≡ ok []
      → J.unmarshal_map "" ≡ none
      → pub_req.volume_id ≡ v.volume_id
      → pub_req.volume_context ≡ v.volume_context
      → devices s pub_req.target_path ≡ none
      → (node_publish_volume H D L node J pub_req s).0 ≡ ok tt
      → (addr : String) × (iqn_base : String) × ((get_portal_addr C d.portal_id server).0
          ≡ ok (iqn_base, addr))
        × IsServed iqn_base addr v.volume_id pub_req.target_path s
            (node_publish_volume H D L node J pub_req s).1
  node_publish_volume-created d node req server v pub_req s made list map id context bare h =
      let (addr, iqn_base, info, portal, read, built) =
        get_iscsi_info-created C V store block L d J req server v made list map in
      let (_, _, _, _, _, volume, _) =
        iscsi_create_volume-IsProvided C V store block L d req server v made in
      let run =
        node_publish_volume-iscsi H D L node J pub_req s req.name
          (id ∙ ap (λ (v : Volume). v.volume_id) volume) h in
      let p =
        iscsi_node_publish_volume-IsPublished H D devices files laws L J node pub_req s
          (sym (ap (λ x. x.0) run) ∙ h) in
      let a = p.attached in
      let same : p.info ≡ info =
        ok-injective (sym p.read ∙ (λ i. get_iscsi_info J (id i) (context i)) ∙ read) in
      let same' = some-injective (sym p.built ∙ ap build_iscsi_connector same ∙ built) in
      (
        addr,
        iqn_base,
        portal,
        record {
          device = a.device;
          connected = a.connected;
          connects = ap (λ c. (D.connect c s).0) (sym same') ∙ a.connects;
          mounted =
              ap (λ x. devices x.1 pub_req.target_path) run
              ∙ a.mounted
              ∙ ap (λ o. some (get_or o a.device)) bare;
        },
      )
