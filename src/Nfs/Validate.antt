-- ===== src/Nfs/Validate.antt =====
-- `nfsValidateVolumeCapabilities` (pkg/driver/nfs.go): when a volume is confirmed.
use truenas_scale_csi.Base.{
  String, ◌<>◌, ◌≡◌, refl, ◌↔◌, inl, inr, true, none, some, List, [], ◌∷◌, map, ok, first,
  first-Elem, first_sound, Elem, eq_iff, Option-cases, Bool-cases, starts_with, starts_with-append,
  nat_eq, arith,
}
use truenas_scale_csi.Csi.{
  VolumeCapability, found_keys, CreateVolumeRequest, Volume, ValidateRequest, Confirmed,
}
use truenas_scale_csi.Csi.Keys.{IsMap, Has, found_keys-both_iff}
use truenas_scale_csi.Caps.Supported.{IsSupported, nfs_check_caps-eq-none_iff}
use text.Mathlib.TextEquality.{starts_with_iff}
use truenas_scale_csi.Libraries.{Libraries, IsLawful}
use truenas_scale_csi.Driver.{Driver}
use truenas_scale_csi.Caps.{nfs_volume_capabilities, nfs_check_caps}
use truenas_scale_csi.TrueNas.{Client, Dataset}
use truenas_scale_csi.TrueNas.Laws.{View, Same, IsStore}
use truenas_scale_csi.Nfs.{
  named, nfs_volume_prefix, nfs_dataset_name, nfs_context_key, capability_of_mode,
  nfs_create_volume, nfs_validate_volume_capabilities, host_param, mount_point_param, nfs_volume,
}
use truenas_scale_csi.Nfs.Create.{nfs_create_volume-IsProvided}

-- The answer: the context of the request, and the seven modes, with no access type.
abbrev pub nfs_confirmed : ValidateRequest → Confirmed
nfs_confirmed req = record {
  volume_context = req.volume_context;
  volume_capabilities = map capability_of_mode nfs_volume_capabilities;
}

module _ (C : Client) (L : Libraries) (d : Driver) (req : ValidateRequest) (s : C.Server) where
  -- The four tests that the handler makes, in its order.
  record IsTested (ds : List Dataset) : Type 0 where
    pub prefix : starts_with req.volume_id nfs_volume_prefix ≡ true
    pub caps : nfs_check_caps L req.volume_capabilities ≡ none
    pub keys : found_keys nfs_context_key req.volume_context ≡ 2
    pub dataset : Dataset
    pub exists : first (named (nfs_dataset_name d req.volume_id)) ds ≡ some dataset

  IsTested-run :
      (ds : List Dataset)
      → (C.list_datasets s).0 ≡ ok ds
      → IsTested ds
      → nfs_validate_volume_capabilities C L d req s
        ≡ (ok (nfs_confirmed req), (C.list_datasets s).1)
  unfolding nfs_validate_volume_capabilities
  IsTested-run ds up v = rw (v.prefix, v.caps, v.keys, up, v.exists)

  run-IsTested :
      (ds : List Dataset) (c : Confirmed)
      → (C.list_datasets s).0 ≡ ok ds
      → (nfs_validate_volume_capabilities C L d req s).0 ≡ ok c
      → IsTested ds
  unfolding nfs_validate_volume_capabilities
  run-IsTested ds c up h = elim (Bool-cases (starts_with req.volume_id nfs_volume_prefix)) [
    | inr other ↦ cc (rw other at h)
    | inl ours ↦ elim (Option-cases (nfs_check_caps L req.volume_capabilities)) [
      | inr (e, refused) ↦ cc (rw (ours, refused) at h)
      | inl passed ↦ elim (Bool-cases (nat_eq (found_keys nfs_context_key req.volume_context) 2)) [
        | inr few ↦ cc (rw (ours, passed, few) at h)
        | inl both ↦ elim (Option-cases (first (named (nfs_dataset_name d req.volume_id)) ds)) [
          | inl absent ↦ cc (rw (ours, passed, both, up, absent) at h)
          | inr (x, found) ↦ record {
            prefix = ours;
            caps = passed;
            keys = ground arith;
            dataset = x;
            exists = found;
          }
        ]
      ]
    ]
  ]

-- A volume that can be confirmed: its id is the prefix and a rest, the capabilities ask for
-- what the driver supports, the context has each of its keys, and a dataset has the volume's name.
pub record IsValid (d : Driver) (req : ValidateRequest) (ds : List Dataset) : Type 0 where
  pub volume : String
  pub id : nfs_volume_prefix <> volume ≡ req.volume_id
  pub caps : IsSupported nfs_volume_capabilities req.volume_capabilities
  pub has_host : Has host_param req.volume_context
  pub has_mount_point : Has mount_point_param req.volume_context
  pub dataset : Dataset
  pub listed : Elem dataset ds
  pub called : dataset.name ≡ nfs_dataset_name d req.volume_id

module _ (C : Client) (L : Libraries) (lawful : IsLawful L) (d : Driver) (req : ValidateRequest)
    (s : C.Server) (distinct : IsMap req.volume_context) where
  IsTested-IsValid : (ds : List Dataset) → IsTested C L d req s ds ↔ IsValid d req ds
  IsTested-IsValid ds =
      let name = nfs_dataset_name d req.volume_id in
      let keys =
        found_keys-both_iff host_param mount_point_param req.volume_context distinct refl in
      let caps = nfs_check_caps-eq-none_iff L req.volume_capabilities lawful in
      let prefix = starts_with_iff req.volume_id nfs_volume_prefix in
      (
        λ t.
            let (rest, e) = prefix.0 t.prefix in
            let (k, l) = (keys.0 t.keys) in
            let (there, fits) = first_sound (named name) t.dataset ds t.exists in
            record {
              volume = rest;
              id = e;
              caps = caps.0 t.caps;
              has_host = k;
              has_mount_point = l;
              dataset = t.dataset;
              listed = there;
              called = (eq_iff t.dataset.name name).0 fits;
            },
        λ v.
            let (x, found) =
              first-Elem (named name) v.dataset ds v.listed
                ((eq_iff v.dataset.name name).1 v.called) in
            record {
              prefix = prefix.1 (v.volume, v.id);
              caps = caps.1 v.caps;
              keys = keys.1 (v.has_host, v.has_mount_point);
              dataset = x;
              exists = found;
            },
      )

  -- Where the datasets can be listed, a volume is confirmed exactly if its id begins with "nfs-", every
  -- capability asks for a file system mount with one of the seven modes that the driver lists, the context, in
  -- which no key stands twice, has each of the two keys of an NFS volume, the server and the mount point, and a dataset has the volume's name; the answer repeats the
  -- context and lists the seven modes. Assumed of the sets of texts: `IsLawful`.
  pub nfs_validate_volume_capabilities_iff :
      (ds : List Dataset) (c : Confirmed)
      → (C.list_datasets s).0 ≡ ok ds
      → ((nfs_validate_volume_capabilities C L d req s).0 ≡ ok c)
        ↔ (IsValid d req ds × (c ≡ nfs_confirmed req))
  nfs_validate_volume_capabilities_iff ds c up =
      let (to, from) = IsTested-IsValid ds in
      (
        λ h.
            let t = run-IsTested C L d req s ds c up h in
            (to t, cc (h, IsTested-run C L d req s ds up t)),
        λ (v, e). rw (IsTested-run C L d req s ds up (from v), e),
      )

found_keys-created :
    (mountpoint address : String)
    → found_keys nfs_context_key ((mount_point_param, mountpoint) ∷ (host_param, address) ∷ []) ≡ 2
unfolding found_keys
found_keys-created mountpoint address = refl

module _ (C : Client) (V : View C.Server) (store : IsStore C V) (L : Libraries) (d : Driver) where
  -- A volume that NFS CreateVolume returned is confirmed, with its own context, for any capabilities
  -- that pass the check, in a state where the server holds what the creation left and answers.
  -- Assumed of the server: `IsStore`.
  pub nfs_validate_volume_capabilities-created :
      (req : CreateVolumeRequest) (s u : C.Server) (v : Volume) (caps : List VolumeCapability)
      (ds : List Dataset)
      → (nfs_create_volume C L d req s).0 ≡ ok v
      → Same V (nfs_create_volume C L d req s).1 u
      → nfs_check_caps L caps ≡ none
      → (C.list_datasets u).0 ≡ ok ds
      → let check : ValidateRequest = record {
        volume_id = v.volume_id;
        volume_context = v.volume_context;
        volume_capabilities = caps;
      } in
        nfs_validate_volume_capabilities C L d check u
        ≡ (ok (nfs_confirmed check), (C.list_datasets u).1)
  nfs_validate_volume_capabilities-created req s u v caps ds h same passed up =
      let (size, mountpoint, _, volume, provided) =
        nfs_create_volume-IsProvided C V store L d req s v h in
      rw volume (
        IsTested-run C L d
          (record {
            volume_id = nfs_volume_prefix <> req.name;
            volume_context =
                (nfs_volume d (nfs_volume_prefix <> req.name) size mountpoint).volume_context;
            volume_capabilities = caps;
          })
          u ds up
          (record {
            prefix = starts_with-append nfs_volume_prefix req.name;
            caps = passed;
            keys = found_keys-created mountpoint d.address;
            dataset = provided.dataset;
            exists = cc (store.list_datasets-all u ds up, same.datasets, provided.named_so);
          }))
