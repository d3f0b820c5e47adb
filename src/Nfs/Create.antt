-- ===== src/Nfs/Create.antt =====
-- `nfsCreateVolume` (pkg/driver/nfs.go): what a successful call has done, and that it can be repeated.
use truenas_scale_csi.Base.{
  String, ◌<>◌, ◌≡◌, inl, inr, none, some, List, ℤ, ok, first, Option-cases, Result-cases,
  with_state,
}
use truenas_scale_csi.Csi.{CreateVolumeRequest, Volume}
use truenas_scale_csi.Libraries.{Libraries}
use truenas_scale_csi.Driver.{Driver}
use truenas_scale_csi.Size.{extract_storage}
use truenas_scale_csi.Caps.{nfs_check_caps}
use truenas_scale_csi.TrueNas.{Client, Dataset, ShareNfs}
use truenas_scale_csi.TrueNas.Laws.{View, Same, IsStore}
use truenas_scale_csi.Nfs.{
  named, shares_path, ensure_dataset, ensure_share, nfs_volume, nfs_volume_prefix, nfs_dataset_name,
  nfs_create_volume,
}
use truenas_scale_csi.Nfs.Steps.{
  ensure_dataset-found, ensure_dataset-again, ensure_share-found, ensure_share-again,
}

module _ (C : Client) (L : Libraries) (d : Driver) (req : CreateVolumeRequest) where
  open C use {Server}

  abbrev id_of : String
  id_of = nfs_volume_prefix <> req.name

  -- The steps of a successful call, from state to state.
  pub record IsCreated (s : Server) (v : Volume) (t : Server) : Type 0 where
    pub caps : nfs_check_caps L req.volume_capabilities ≡ none
    pub size : ℤ
    pub accepted : extract_storage req.capacity_range ≡ ok size
    pub mountpoint : String
    pub middle : Server
    pub dataset : ensure_dataset C (nfs_dataset_name d id_of) size s ≡ (ok mountpoint, middle)
    pub share : ensure_share C req.name mountpoint middle ≡ (ok tt, t)
    pub volume : v ≡ nfs_volume d id_of size mountpoint

  pub IsCreated-run :
      (s : Server) (v : Volume) (t : Server)
      → IsCreated s v t
      → nfs_create_volume C L d req s ≡ (ok v, t)
  unfolding nfs_create_volume
  IsCreated-run s v t c = rw (c.caps, c.accepted, c.dataset, c.share, c.volume)

  pub run-IsCreated :
      (s : Server) (v : Volume)
      → (nfs_create_volume C L d req s).0 ≡ ok v
      → IsCreated s v (nfs_create_volume C L d req s).1
  unfolding nfs_create_volume
  run-IsCreated s v h = elim (Option-cases (nfs_check_caps L req.volume_capabilities)) [
    | inr (e, refused) ↦ cc
    | inl passed ↦ elim (Result-cases (extract_storage req.capacity_range)) [
      | inl (e, bad) ↦ cc (rw (passed, bad) at h)
      | inr (size, accepted) ↦
          let made = ensure_dataset C (nfs_dataset_name d id_of) size s in
          elim (Result-cases made.0) [
            | inl (e, down) ↦ cc (rw (passed, accepted, down) at h)
            | inr (m, found) ↦
                let shared = ensure_share C req.name m made.1 in
                elim (Result-cases shared.0) [
                  | inl (e, down) ↦ cc (rw (passed, accepted, found, down) at h)
                  | inr (u, done) ↦
                      rw (passed, accepted, found, done)
                        (record {
                          caps = passed;
                          size = size;
                          accepted = accepted;
                          mountpoint = m;
                          middle = made.1;
                          dataset = with_state made (ok m) found;
                          share = with_state shared (ok tt) done;
                          volume = cc (rw (passed, accepted, found, done) at h);
                        })
                ]
          ]
    ]
  ]

module _ (C : Client) (V : View C.Server) (store : IsStore C V) (L : Libraries) (d : Driver) where
  -- What a volume is on the server: the first dataset of its name, and a share of its mount point.
  pub record IsProvided (name : String) (mountpoint : String) (t : C.Server) : Type 0 where
    pub dataset : Dataset
    pub named_so :
        first (named (nfs_dataset_name d (nfs_volume_prefix <> name))) (V.datasets t) ≡ some dataset
    pub mounted : dataset.mountpoint ≡ mountpoint
    pub share : ShareNfs
    pub shared : first (shares_path mountpoint) (V.shares t) ≡ some share

  IsCreated-IsProvided :
      (req : CreateVolumeRequest) (s : C.Server) (v : Volume) (t : C.Server)
      (c : IsCreated C L d req s v t)
      → IsProvided req.name c.mountpoint t
  IsCreated-IsProvided req s v t c =
      let dataset_name = nfs_dataset_name d (nfs_volume_prefix <> req.name) in
      let (ds, first_ds, mounted, _) =
        ensure_dataset-found C V store dataset_name c.size s c.mountpoint c.middle c.dataset in
      let (share, first_share, kept) =
        ensure_share-found C V store req.name c.mountpoint c.middle t c.share in
      record {
        dataset = ds;
        named_so = cc (kept, first_ds);
        mounted = mounted;
        share = share;
        shared = first_share;
      }

  -- A successful NFS CreateVolume answers with "nfs-" and the requested name, with the size that
  -- `extractStorage` chooses, and with the address of the server and a mount point; and then the
  -- server has a dataset of that name under the storage path, with that mount point, and a share of it.
  -- Assumed of the server: `IsStore`.
  pub nfs_create_volume-IsProvided :
      (req : CreateVolumeRequest) (s : C.Server) (v : Volume)
      → (nfs_create_volume C L d req s).0 ≡ ok v
      → (size : ℤ) × (mountpoint : String) × (extract_storage req.capacity_range ≡ ok size)
        × (v ≡ nfs_volume d (nfs_volume_prefix <> req.name) size mountpoint)
        × IsProvided req.name mountpoint (nfs_create_volume C L d req s).1
  nfs_create_volume-IsProvided req s v h =
      let c = run-IsCreated C L d req s v h in
      (c.size, c.mountpoint, c.accepted, c.volume, IsCreated-IsProvided req s v _ c)

  -- NFS CreateVolume is idempotent: made again in a state where the server holds what the
  -- first call left, with its two listings answered, it gives the same volume, and does nothing but list.
  -- Assumed of the server: `IsStore`.
  pub nfs_create_volume-again :
      (req : CreateVolumeRequest) (s u : C.Server) (v : Volume) (ds : List Dataset)
      (shares : List ShareNfs)
      → (nfs_create_volume C L d req s).0 ≡ ok v
      → Same V (nfs_create_volume C L d req s).1 u
      → (C.list_datasets u).0 ≡ ok ds
      → (C.list_shares_nfs (C.list_datasets u).1).0 ≡ ok shares
      → nfs_create_volume C L d req u ≡ (ok v, (C.list_shares_nfs (C.list_datasets u).1).1)
  nfs_create_volume-again req s u v ds shares h same up shares_up =
      let c = run-IsCreated C L d req s v h in
      let p = IsCreated-IsProvided req s v _ c in
      let dataset_name = nfs_dataset_name d (nfs_volume_prefix <> req.name) in
      let listing = store.list_datasets-same u in
      IsCreated-run C L d req u v (C.list_shares_nfs (C.list_datasets u).1).1 (record {
        caps = c.caps;
        size = c.size;
        accepted = c.accepted;
        mountpoint = c.mountpoint;
        middle = (C.list_datasets u).1;
        dataset = rw (← p.mounted) (
            ensure_dataset-again C V store dataset_name c.size u p.dataset ds
              (cc (same.datasets, p.named_so)) up);
        share =
            ensure_share-again C V store req.name c.mountpoint (C.list_datasets u).1 p.share shares
              (cc (listing.shares, same.shares, p.shared)) shares_up;
        volume = c.volume;
      })
