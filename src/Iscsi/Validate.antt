-- ===== src/Iscsi/Validate.antt =====
-- `iscsiValidateVolumeCapabilities` (pkg/driver/iscsi.go): when a volume is confirmed.
use truenas_scale_csi.Base.{
  String, ◌<>◌, ◌≡◌, refl, ◌↔◌, inl, inr, true, none, some, List, [], ◌∷◌, map, ok, first,
  first-Elem, first_sound, Elem, eq_iff, Option-cases, Bool-cases, starts_with, starts_with-append,
  nat_eq, arith,
}
use truenas_scale_csi.Csi.{
  VolumeCapability, found_keys, CreateVolumeRequest, Volume, ValidateRequest, Confirmed,
}
use truenas_scale_csi.Csi.Keys.{IsMap, Has, found_keys-four_iff}
use truenas_scale_csi.Caps.Supported.{IsSupported, iscsi_check_caps-eq-none_iff}
use text.Mathlib.TextEquality.{starts_with_iff}
use truenas_scale_csi.Libraries.{Libraries, IsLawful}
use truenas_scale_csi.Driver.{Driver}
use truenas_scale_csi.Caps.{iscsi_volume_capabilities, iscsi_check_caps}
use truenas_scale_csi.Nfs.{capability_of_mode}
use truenas_scale_csi.TrueNas.{Client, Dataset}
use truenas_scale_csi.TrueNas.Laws.{View, Same, IsStore, IsBlockStore}
use truenas_scale_csi.Iscsi.{
  iscsi_volume_prefix, iscsi_dataset_name, is_volume_named, target_portal_param, iqn_param,
  lun_param, portals_param,
}
use truenas_scale_csi.Iscsi.Create.{iscsi_create_volume, iscsi_volume}
use truenas_scale_csi.Iscsi.Create.Again.{iscsi_create_volume-IsProvided}
use truenas_scale_csi.Iscsi.Delete.{dataset_named}
use truenas_scale_csi.Iscsi.Query.{iscsi_context_key, iscsi_validate_volume_capabilities}

-- The answer: the context of the request, and the four modes, with no access type.
abbrev pub iscsi_confirmed : ValidateRequest → Confirmed
iscsi_confirmed req = record {
  volume_context = req.volume_context;
  volume_capabilities = map capability_of_mode iscsi_volume_capabilities;
}

module _ (C : Client) (L : Libraries) (d : Driver) (req : ValidateRequest) (s : C.Server) where
  -- The four tests that the handler makes, in its order.
  record IsTested (ds : List Dataset) : Type 0 where
    pub prefix : starts_with req.volume_id iscsi_volume_prefix ≡ true
    pub caps : iscsi_check_caps L req.volume_capabilities ≡ none
    pub keys : found_keys iscsi_context_key req.volume_context ≡ 4
    pub dataset : Dataset
    pub exists : first (dataset_named (iscsi_dataset_name d req.volume_id)) ds ≡ some dataset

  IsTested-run :
      (ds : List Dataset)
      → (C.list_datasets s).0 ≡ ok ds
      → IsTested ds
      → iscsi_validate_volume_capabilities C L d req s
        ≡ (ok (iscsi_confirmed req), (C.list_datasets s).1)
  unfolding iscsi_validate_volume_capabilities
  IsTested-run ds up v = rw (v.prefix, v.caps, v.keys, up, v.exists)

  run-IsTested :
      (ds : List Dataset) (c : Confirmed)
      → (C.list_datasets s).0 ≡ ok ds
      → (iscsi_validate_volume_capabilities C L d req s).0 ≡ ok c
      → IsTested ds
  unfolding iscsi_validate_volume_capabilities
  run-IsTested ds c up h = elim (Bool-cases (starts_with req.volume_id iscsi_volume_prefix)) [
    | inr other ↦ cc (rw other at h)
    | inl ours ↦ elim (Option-cases (iscsi_check_caps L req.volume_capabilities)) [
      | inr (e, refused) ↦ cc (rw (ours, refused) at h)
      | inl passed ↦
          elim (Bool-cases (nat_eq (found_keys iscsi_context_key req.volume_context) 4)) [
            | inr few ↦ cc (rw (ours, passed, few) at h)
            | inl both ↦
                elim (Option-cases
                  (first (dataset_named (iscsi_dataset_name d req.volume_id)) ds)) [
                    | inl absent ↦ cc (rw (ours, passed, both, up, absent) at h)
                    | inr (x, found) ↦ record {
                      prefix = ours;
                      caps = passed;
                      keys = ground arith;
                      dataset = x;
                      exists = found;
                    }
                  ]
          ]
    ]
  ]

-- A volume that can be confirmed: its id is the prefix and a rest, the capabilities ask for
-- what the driver supports, the context has each of its keys, and a dataset has the volume's name.
pub record IsValid (d : Driver) (req : ValidateRequest) (ds : List Dataset) : Type 0 where
  pub volume : String
  pub id : iscsi_volume_prefix <> volume ≡ req.volume_id
  pub caps : IsSupported iscsi_volume_capabilities req.volume_capabilities
  pub has_target_portal : Has target_portal_param req.volume_context
  pub has_iqn : Has iqn_param req.volume_context
  pub has_lun : Has lun_param req.volume_context
  pub has_portals : Has portals_param req.volume_context
  pub dataset : Dataset
  pub listed : Elem dataset ds
  pub called : dataset.name ≡ iscsi_dataset_name d req.volume_id

module _ (C : Client) (L : Libraries) (lawful : IsLawful L) (d : Driver) (req : ValidateRequest)
    (s : C.Server) (distinct : IsMap req.volume_context) where
  IsTested-IsValid : (ds : List Dataset) → IsTested C L d req s ds ↔ IsValid d req ds
  IsTested-IsValid ds =
      let name = iscsi_dataset_name d req.volume_id in
      let keys =
        found_keys-four_iff target_portal_param iqn_param lun_param portals_param req.volume_context
          distinct refl refl refl in
      let caps = iscsi_check_caps-eq-none_iff L req.volume_capabilities lawful in
      let prefix = starts_with_iff req.volume_id iscsi_volume_prefix in
      (
        λ t.
            let (rest, e) = prefix.0 t.prefix in
            let (k, l, m, n) = (keys.0 t.keys) in
            let (there, fits) = first_sound (dataset_named name) t.dataset ds t.exists in
            record {
              volume = rest;
              id = e;
              caps = caps.0 t.caps;
              has_target_portal = k;
              has_iqn = l;
              has_lun = m;
              has_portals = n;
              dataset = t.dataset;
              listed = there;
              called = (eq_iff t.dataset.name name).0 fits;
            },
        λ v.
            let (x, found) =
              first-Elem (dataset_named name) v.dataset ds v.listed
                ((eq_iff v.dataset.name name).1 v.called) in
            record {
              prefix = prefix.1 (v.volume, v.id);
              caps = caps.1 v.caps;
              keys = keys.1 (v.has_target_portal, v.has_iqn, v.has_lun, v.has_portals);
              dataset = x;
              exists = found;
            },
      )

  -- Where the datasets can be listed, a volume is confirmed exactly if its id begins with "iscsi-", every
  -- capability asks for a file system mount with one of the four modes that the driver lists, the context, in
  -- which no key stands twice, has each of the four keys of an iSCSI volume, the portal, the IQN, the LUN and the further
  -- portals, and a dataset has the volume's name; the answer repeats the
  -- context and lists the four modes. Assumed of the sets of texts: `IsLawful`.
  pub iscsi_validate_volume_capabilities_iff :
      (ds : List Dataset) (c : Confirmed)
      → (C.list_datasets s).0 ≡ ok ds
      → ((iscsi_validate_volume_capabilities C L d req s).0 ≡ ok c)
        ↔ (IsValid d req ds × (c ≡ iscsi_confirmed req))
  iscsi_validate_volume_capabilities_iff ds c up =
      let (to, from) = IsTested-IsValid ds in
      (
        λ h.
            let t = run-IsTested C L d req s ds c up h in
            (to t, cc (h, IsTested-run C L d req s ds up t)),
        λ (v, e). rw (IsTested-run C L d req s ds up (from v), e),
      )

found_keys-created :
    (addr iqn : String)
    → found_keys iscsi_context_key (
        (target_portal_param, addr)
        ∷ (iqn_param, iqn)
        ∷ (lun_param, "0")
        ∷ (portals_param, "[]")
        ∷ [])
      ≡ 4
unfolding found_keys
found_keys-created addr iqn = refl

module _ (C : Client) (V : View C.Server) (store : IsStore C V) (block : IsBlockStore C V)
    (L : Libraries) (d : Driver) where
  -- A volume that iSCSI CreateVolume returned is confirmed, with its own context, for any capabilities
  -- that pass the check, in a state where the server holds what the creation left and answers.
  -- Assumed of the server: `IsStore` and `IsBlockStore`.
  pub iscsi_validate_volume_capabilities-created :
      (req : CreateVolumeRequest) (s u : C.Server) (v : Volume) (caps : List VolumeCapability)
      (ds : List Dataset)
      → (iscsi_create_volume C L d req s).0 ≡ ok v
      → Same V (iscsi_create_volume C L d req s).1 u
      → iscsi_check_caps L caps ≡ none
      → (C.list_datasets u).0 ≡ ok ds
      → let check : ValidateRequest = record {
        volume_id = v.volume_id;
        volume_context = v.volume_context;
        volume_capabilities = caps;
      } in
        iscsi_validate_volume_capabilities C L d check u
        ≡ (ok (iscsi_confirmed check), (C.list_datasets u).1)
  iscsi_validate_volume_capabilities-created req s u v caps ds h same passed up =
      let (size, addr, iqn_base, _, _, volume, provided) =
        iscsi_create_volume-IsProvided C V store block L d req s v h in
      let id = iscsi_volume_prefix <> req.name in
      let name = iscsi_dataset_name d id in
      let (listed, fits) =
        first_sound (is_volume_named name) provided.dataset _ provided.has_dataset in
      let called : dataset_named name provided.dataset ≡ true = ground arith in
      let listed' : Elem provided.dataset ds =
        rw (store.list_datasets-all u ds up, same.datasets) listed in
      let (x, exists) = first-Elem (dataset_named name) provided.dataset ds listed' called in
      rw volume (
        IsTested-run C L d
          (record {
            volume_id = id;
            volume_context = (iscsi_volume id size addr iqn_base).volume_context;
            volume_capabilities = caps;
          })
          u ds up
          (record {
            prefix = starts_with-append iscsi_volume_prefix req.name;
            caps = passed;
            keys = found_keys-created addr (iqn_base <> ":" <> id);
            dataset = x;
            exists = exists;
          }))
