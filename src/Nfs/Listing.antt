-- ===== src/Nfs/Listing.antt =====
-- `nfsListVolumes` (pkg/driver/nfs.go): what is listed.
pub mod Mountpoints
pub mod Entries
use truenas_scale_csi.Base.{
  String, ◌<>◌, ◌≡◌, ◌≢◌, refl, ◌∙◌, ◌⊎◌, inl, inr, true, some, List, [], ◌∷◌, ℤ, ok, Elem,
  Elem-select, select, Option-cases, Result-cases, Bool-cases, str_eq, eq_iff, eq_refl, arith,
  starts_with, trim_prefix, parse_int, get_or,
}
use truenas_scale_csi.Csi.{Volume, lookup}
use truenas_scale_csi.Libraries.{Libraries}
use truenas_scale_csi.Driver.{Driver}
use truenas_scale_csi.TrueNas.{Client, Dataset, ShareNfs}
use truenas_scale_csi.TrueNas.Find.{normalise_nfs_share_mountpaths}
use truenas_scale_csi.TrueNas.Laws.{View, IsStore}
use truenas_scale_csi.Nfs.{
  by_mountpoint, has_dataset, no_dataset, below, nfs_entries, nfs_list_volumes,
}
use truenas_scale_csi.Nfs.Listing.Mountpoints.{lookup-by_mountpoint, by_mountpoint-all}
use truenas_scale_csi.Nfs.Listing.Entries.{
  Reads, raw_of, nfs_entries_sound, nfs_entries_complete, nfs_entries_total,
}

-- `v` is what is listed for a share, over the datasets of a server.
pub record IsEntryOf (d : Driver) (datasets : List Dataset) (share : ShareNfs) (v : Volume)
    : Type 0 where
  pub dataset : Dataset
  pub listed : Elem dataset datasets
  pub inside : starts_with dataset.name (d.nfs_storage_path <> "/") ≡ true
  pub mounted : dataset.mountpoint ≡ normalise_nfs_share_mountpaths share
  pub not_empty : normalise_nfs_share_mountpaths share ≢ ""
  pub id : v.volume_id ≡ trim_prefix dataset.name (d.nfs_storage_path <> "/")
  pub quota : parse_int dataset.refquota ≡ some v.capacity_bytes
  pub context : v.volume_context ≡ []

-- What a share that passes the filter has in the map.
has_dataset_lem :
    (m : List (String × Dataset)) (share : ShareNfs)
    → has_dataset m share ≡ true
    → (x : Dataset) × (lookup (normalise_nfs_share_mountpaths share) m ≡ some x)
      × (normalise_nfs_share_mountpaths share ≢ "")
unfolding has_dataset
has_dataset_lem m share h = elim (Bool-cases (str_eq (normalise_nfs_share_mountpaths share) "")) [
  | inl bare ↦ cc (rw bare at h)
  | inr full ↦ elim (Option-cases (lookup (normalise_nfs_share_mountpaths share) m)) [
    | inl missing ↦ cc (rw (full, missing) at h)
    | inr (x, found) ↦
        (x, found, λ e. cc (full, (eq_iff (normalise_nfs_share_mountpaths share) "").1 e))
  ]
]

has_dataset-found :
    (m : List (String × Dataset)) (share : ShareNfs) (x : Dataset)
    → lookup (normalise_nfs_share_mountpaths share) m ≡ some x
    → normalise_nfs_share_mountpaths share ≢ ""
    → has_dataset m share ≡ true
unfolding has_dataset
has_dataset-found m share x found ne =
    ground (arith, eq_iff (normalise_nfs_share_mountpaths share) "")

module _ (C : Client) (V : View C.Server) (store : IsStore C V) (L : Libraries) (d : Driver) where
  abbrev prefix : String
  prefix = d.nfs_storage_path <> "/"

  -- The datasets of the volumes, and the map that the handler makes of them.
  abbrev volumes_at : C.Server → List Dataset
  volumes_at s = select (below prefix) (V.datasets s)

  abbrev map_at : C.Server → List (String × Dataset)
  map_at s = by_mountpoint [] (volumes_at s)

  abbrev shares_at : C.Server → List ShareNfs
  shares_at s = select (has_dataset (map_at s)) (V.shares s)

  -- With both listings answered, the result is that of the last loop.
  nfs_list_volumes-run :
      (s : C.Server) (ds : List Dataset) (shares : List ShareNfs)
      → (C.list_datasets s).0 ≡ ok ds
      → (C.list_shares_nfs (C.list_datasets s).1).0 ≡ ok shares
      → (nfs_list_volumes C L d s).0 ≡ nfs_entries L d (map_at s) (shares_at s)
  unfolding nfs_list_volumes
  nfs_list_volumes-run s ds shares up shares_up = rw (
    up,
    shares_up,
    store.list_datasets-all s ds up,
    store.list_shares-all (C.list_datasets s).1 shares shares_up,
    (store.list_datasets-same s).shares,
  )

  -- What the map holds at the path of a share that passes the filter.
  mapped :
      (s : C.Server) (share : ShareNfs)
      → Elem share (shares_at s)
      → (x : Dataset) × (lookup (normalise_nfs_share_mountpaths share) (map_at s) ≡ some x)
        × (normalise_nfs_share_mountpaths share ≢ "")
        × Elem share (V.shares s)
        × Elem x (V.datasets s)
        × (below prefix x ≡ true)
        × (x.mountpoint ≡ normalise_nfs_share_mountpaths share)
  mapped s share h =
      let (listed, passes) = (Elem-select (has_dataset (map_at s)) share (V.shares s)).0 h in
      let (x, found, ne) = has_dataset_lem (map_at s) share passes in
      elim (lookup-by_mountpoint [] (volumes_at s) (normalise_nfs_share_mountpaths share) x found) [
        | inl (inside, mounted) ↦
            let (in_s, fits) = (Elem-select (below prefix) x (V.datasets s)).0 inside in
            (x, found, ne, listed, in_s, fits, mounted)
        | inr e ↦ unfold lookup in cc e
      ]

  Reads-IsEntryOf :
      (s : C.Server) (share : ShareNfs) (v : Volume)
      → Elem share (shares_at s)
      → Reads L d (map_at s) share v
      → IsEntryOf d (V.datasets s) share v
  Reads-IsEntryOf s share v h r =
      let (x, found, ne, _, listed, inside, mounted) = mapped s share h in
      record {
        dataset = x;
        listed = listed;
        inside = inside;
        mounted = mounted;
        not_empty = ne;
        id = rw found at r.id;
        quota = rw found at r.quota;
        context = r.context;
      }

  -- Every volume that NFS ListVolumes lists belongs to a share on the server and to a dataset under the
  -- storage path whose mount point is the path of the share; its id is the dataset's name without
  -- the storage path, its capacity the dataset's quota, and its context is empty.
  -- Assumed of the server: `IsStore`.
  pub nfs_list_volumes_sound :
      (s : C.Server) (ds : List Dataset) (shares : List ShareNfs) (es : List Volume) (v : Volume)
      → (C.list_datasets s).0 ≡ ok ds
      → (C.list_shares_nfs (C.list_datasets s).1).0 ≡ ok shares
      → (nfs_list_volumes C L d s).0 ≡ ok es
      → Elem v es
      → (share : ShareNfs) × Elem share (V.shares s) × IsEntryOf d (V.datasets s) share v
  nfs_list_volumes_sound s ds shares es v up shares_up h e =
      let (share, listed, reads) =
        nfs_entries_sound L d (map_at s) (shares_at s) es v
          (rw (nfs_list_volumes-run s ds shares up shares_up) at h) e in
      (
        share,
        ((Elem-select (has_dataset (map_at s)) share (V.shares s)).0 listed).0,
        Reads-IsEntryOf s share v listed reads,
      )

  -- The quota of every dataset under the storage path is the text of a number.
  pub record HasQuotas (s : C.Server) : Type 0 where
    pub readable :
        (x : Dataset)
        → Elem x (V.datasets s)
        → starts_with x.name prefix ≡ true
        → (q : ℤ) × (parse_int x.refquota ≡ some q)

  -- With both listings answered and every quota under the storage path a number, NFS ListVolumes
  -- succeeds, and lists an entry for every share whose path, not empty, is the mount point of a dataset under it.
  -- Assumed of the server: `IsStore`.
  pub nfs_list_volumes_complete :
      (s : C.Server) (ds : List Dataset) (shares : List ShareNfs) (share : ShareNfs) (x : Dataset)
      → (C.list_datasets s).0 ≡ ok ds
      → (C.list_shares_nfs (C.list_datasets s).1).0 ≡ ok shares
      → HasQuotas s
      → Elem share (V.shares s)
      → Elem x (V.datasets s)
      → starts_with x.name prefix ≡ true
      → x.mountpoint ≡ normalise_nfs_share_mountpaths share
      → x.mountpoint ≢ ""
      → (es : List Volume) × ((nfs_list_volumes C L d s).0 ≡ ok es)
        × (v : Volume) × Elem v es
        × IsEntryOf d (V.datasets s) share v
  nfs_list_volumes_complete s ds shares share x up shares_up quotas listed in_s inside mounted ne =
      let (es, done) = nfs_entries_total L d (map_at s) (shares_at s) readable in
      let (v, in_es, is_entry) = entry es done share x listed in_s inside mounted ne in
      (es, rw (nfs_list_volumes-run s ds shares up shares_up) done, v, in_es, is_entry)
    where
      readable :
          (share : ShareNfs)
          → Elem share (shares_at s)
          → (q : ℤ) × (parse_int (raw_of L d (map_at s) share) ≡ some q)
      readable share h =
          let (x, found, _, _, listed, inside, _) = mapped s share h in
          let (q, parsed) = quotas.readable x listed inside in (q, cc (found, parsed))

      entry :
          (es : List Volume)
          → nfs_entries L d (map_at s) (shares_at s) ≡ ok es
          → (share : ShareNfs) (x : Dataset) → Elem share (V.shares s)
          → Elem x (V.datasets s)
          → starts_with x.name prefix ≡ true
          → x.mountpoint ≡ normalise_nfs_share_mountpaths share
          → x.mountpoint ≢ ""
          → (v : Volume) × Elem v es × IsEntryOf d (V.datasets s) share v
      entry es done share x listed in_s inside mounted ne =
          let (y, found) =
            by_mountpoint-all [] (volumes_at s) x
              ((Elem-select (below prefix) x (V.datasets s)).1 (in_s, inside)) in
          let passes =
            has_dataset-found (map_at s) share y (rw mounted at found) (λ e. ne (mounted ∙ e)) in
          let kept = (Elem-select (has_dataset (map_at s)) share (V.shares s)).1 (listed, passes) in
          let (v, in_es, reads) =
            nfs_entries_complete L d (map_at s) (shares_at s) es share done kept in
          (v, in_es, Reads-IsEntryOf s share v kept reads)
