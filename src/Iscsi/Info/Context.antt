-- ===== src/Iscsi/Info/Context.antt =====
-- The context of a volume that `iscsiCreateVolume` made, as the node reads it (pkg/driver/iscsi.go,
-- pkg/driver/iscsi_node_iscsi.go).
use truenas_scale_csi.Base.{
  ◌+◌, String, ◌<>◌, ◌≡◌, ◌∙◌, ap, inl, inr, true, false, none, some, [], ◌∷◌, ℤ, pos, ok, str_eq,
  eq_iff, Bool-cases, Result-cases, arith, parse_int, decimal_ℤ,
}
use Prim.Native.String.{len}
use text.Mathlib.TextPositions.{len-append}
use truenas_scale_csi.Csi.{CreateVolumeRequest, Volume, lookup}
use truenas_scale_csi.Libraries.{Libraries}
use truenas_scale_csi.Driver.{Driver}
use truenas_scale_csi.TrueNas.{Client, ListenItem}
use truenas_scale_csi.TrueNas.Laws.{View, IsStore, IsBlockStore}
use truenas_scale_csi.Iscsi.{get_portal_addr, portal_addr, iscsi_volume_prefix}
use truenas_scale_csi.Iscsi.Create.{iscsi_create_volume, iscsi_volume}
use truenas_scale_csi.Iscsi.Create.Again.{iscsi_create_volume-IsProvided}
use truenas_scale_csi.Iscsi.Info.{
  Json, IscsiDisk, no_secrets, get_iscsi_info, build_iscsi_connector, portal_mounter, parse_auth,
}

-- A text with a colon in it is not empty.
colon-eq : (a b : String) → str_eq (a <> ":" <> b) "" ≡ false
colon-eq a b = elim (Bool-cases (str_eq (a <> ":" <> b) "")) [
  | inr other ↦ other
  | inl same ↦
      let lengths : len (a <> ":" <> b) ≡ 0 = ap len ((eq_iff (a <> ":" <> b) "").0 same) in
      let sum : len (a <> ":" <> b) ≡ len a + (1 + len b) =
        len-append a (":" <> b) ∙ ap (λ n. len a + n) (len-append ":" b) in
      absurd (omega arith)
]

module _ (C : Client) where
  -- The address is that of a listening item.
  pub get_portal_addr_lem :
      (portal_id : ℤ) (s : C.Server) (iqn_base addr : String)
      → (get_portal_addr C portal_id s).0 ≡ ok (iqn_base, addr)
      → (item : ListenItem) × (addr ≡ portal_addr item)
  unfolding get_portal_addr
  get_portal_addr_lem portal_id s iqn_base addr h =
      elim (Result-cases (C.get_global_basename s).0) [
        | inl (e, down) ↦ cc (rw down at h)
        | inr (base, up) ↦
            elim (Result-cases (C.get_portal portal_id (C.get_global_basename s).1).0) [
              | inl (e, down) ↦ cc (rw (up, down) at h)
              | inr ([], up') ↦ cc (rw (up, up') at h)
              | inr (item ∷ rest, up') ↦ (item, cc (rw (up, up') at h))
            ]
      ]

module _ (J : Json) where
  -- The disk that the node reads from the context of a volume.
  abbrev pub disk_of : String → String → String → IscsiDisk
  disk_of volume_id addr iqn = record {
    portals = portal_mounter addr ∷ [];
    iqn = iqn;
    lun = pos 0;
    iface = "";
    chap_discovery = false;
    chap_session = false;
    secret = [];
    session_secret = no_secrets;
    discovery_secret = no_secrets;
    initiator_name = "";
    vol_name = volume_id;
  }

  get_iscsi_info-iscsi_volume :
      (volume_id addr iqn_base : String) (size : ℤ)
      → str_eq addr "" ≡ false
      → J.unmarshal_list "[]" ≡ ok []
      → J.unmarshal_map "" ≡ none
      → get_iscsi_info J volume_id (iscsi_volume volume_id size addr iqn_base).volume_context
        ≡ ok (disk_of volume_id addr (iqn_base <> ":" <> volume_id))
  unfolding get_iscsi_info lookup parse_int parse_auth
  get_iscsi_info-iscsi_volume volume_id addr iqn_base size named list map =
      rw (named, colon-eq iqn_base volume_id, list, map)

  build-disk_of :
      (volume_id addr iqn_base : String)
      → str_eq volume_id "" ≡ false
      → build_iscsi_connector (disk_of volume_id addr (iqn_base <> ":" <> volume_id))
        ≡ some (record {
          volume_name = volume_id;
          target_iqn = iqn_base <> ":" <> volume_id;
          target_portals = portal_mounter addr ∷ [];
          lun = pos 0;
          do_discovery = true;
          session_secrets = no_secrets;
          discovery_secrets = no_secrets;
        })
  unfolding build_iscsi_connector
  build-disk_of volume_id addr iqn_base named = rw (named, colon-eq iqn_base volume_id)

prefix-eq : (name : String) → str_eq (iscsi_volume_prefix <> name) "" ≡ false
prefix-eq name = elim (Bool-cases (str_eq (iscsi_volume_prefix <> name) "")) [
  | inr other ↦ other
  | inl same ↦
      let lengths : len ("iscsi-" <> name) ≡ 0 = ap len ((eq_iff ("iscsi-" <> name) "").0 same) in
      let sum : len ("iscsi-" <> name) ≡ 6 + len name = len-append "iscsi-" name in
      absurd (omega arith)
]

module _ (C : Client) (V : View C.Server) (store : IsStore C V) (block : IsBlockStore C V)
    (L : Libraries) (d : Driver) (J : Json) where
  -- The context of a volume that iSCSI CreateVolume returned is one that the node can use: it is read
  -- without an error, and gives a connector to the volume's target, at LUN 0 and the portal's first
  -- address, with no secrets; where the JSON text "[]" is the empty list, and "" is no JSON map.
  -- Assumed of the server: `IsStore` and `IsBlockStore`.
  pub get_iscsi_info-created :
      (req : CreateVolumeRequest) (s : C.Server) (v : Volume)
      → (iscsi_create_volume C L d req s).0 ≡ ok v
      → J.unmarshal_list "[]" ≡ ok []
      → J.unmarshal_map "" ≡ none
      → (addr : String) × (iqn_base : String) × (info : IscsiDisk) × ((get_portal_addr C d.portal_id
            s).0
          ≡ ok (iqn_base, addr))
        × (get_iscsi_info J v.volume_id v.volume_context ≡ ok info)
        × (build_iscsi_connector info
            ≡ some (record {
              volume_name = v.volume_id;
              target_iqn = iqn_base <> ":" <> v.volume_id;
              target_portals = portal_mounter addr ∷ [];
              lun = pos 0;
              do_discovery = true;
              session_secrets = no_secrets;
              discovery_secrets = no_secrets;
            }))
  get_iscsi_info-created req s v h list map =
      let volume_id = iscsi_volume_prefix <> req.name in
      let (size, addr, iqn_base, _, up, volume, _) =
        iscsi_create_volume-IsProvided C V store block L d req s v h in
      let (item, addr_eq) = get_portal_addr_lem C d.portal_id s iqn_base addr up in
      let named : str_eq addr "" ≡ false =
        ap (λ a. str_eq a "") addr_eq ∙ colon-eq item.ip (decimal_ℤ item.port) in
      (
        addr,
        iqn_base,
        disk_of J volume_id addr (iqn_base <> ":" <> volume_id),
        up,
        rw volume (get_iscsi_info-iscsi_volume J volume_id addr iqn_base size named list map),
        rw volume (build-disk_of J volume_id addr iqn_base (prefix-eq req.name)),
      )
