-- ===== src/Nfs/Lifecycle.antt =====
-- From `nfsCreateVolume` to `nfsListVolumes` and `nfsDeleteVolume` (pkg/driver/nfs.go).
use truenas_scale_csi.Base.{
  String, ◌<>◌, ◌≡◌, ◌≢◌, ◌∙◌, sym, ap, true, List, ok, Elem, first_sound, eq_iff, starts_with,
  starts_with-append, trim_prefix, trim_prefix-append, join,
}
use text.Mathlib.TextLemmas.{append_assoc}
use truenas_scale_csi.Csi.{CreateVolumeRequest, Volume}
use truenas_scale_csi.Libraries.{Libraries}
use truenas_scale_csi.Driver.{Driver}
use truenas_scale_csi.TrueNas.{Client, Dataset, ShareNfs}
use truenas_scale_csi.TrueNas.Find.{normalise_nfs_share_mountpaths}
use truenas_scale_csi.TrueNas.Laws.{View, Same, IsStore}
use truenas_scale_csi.Nfs.{
  named, shares_path, nfs_volume_prefix, nfs_dataset_name, nfs_create_volume, nfs_list_volumes,
}
use truenas_scale_csi.Nfs.Create.{nfs_create_volume-IsProvided}
use truenas_scale_csi.Nfs.Listing.{HasQuotas, nfs_list_volumes_complete}

-- The name of a volume's dataset is its id behind the storage path.
nfs_dataset_name_lem :
    (d : Driver) (id : String) → nfs_dataset_name d id ≡ (d.nfs_storage_path <> "/") <> id
unfolding join
nfs_dataset_name_lem d id = sym (append_assoc d.nfs_storage_path "/" id)

pub trim-nfs_dataset_name :
    (d : Driver) (id : String)
    → trim_prefix (nfs_dataset_name d id) (d.nfs_storage_path <> "/") ≡ id
trim-nfs_dataset_name d id =
    rw nfs_dataset_name_lem (trim_prefix-append (d.nfs_storage_path <> "/") id)

inside-nfs_dataset_name :
    (d : Driver) (id : String)
    → starts_with (nfs_dataset_name d id) (d.nfs_storage_path <> "/") ≡ true
inside-nfs_dataset_name d id =
    rw nfs_dataset_name_lem (starts_with-append (d.nfs_storage_path <> "/") id)

module _ (C : Client) (V : View C.Server) (store : IsStore C V) (L : Libraries) (d : Driver) where
  -- The datasets under the storage path have mount points, each its own.
  pub record HasMounts (s : C.Server) : Type 0 where
    pub mounted :
        (x : Dataset)
        → Elem x (V.datasets s)
        → starts_with x.name (d.nfs_storage_path <> "/") ≡ true
        → x.mountpoint ≢ ""
    pub apart :
        (x y : Dataset)
        → Elem x (V.datasets s)
        → Elem y (V.datasets s)
        → x.mountpoint ≡ y.mountpoint
        → x.name ≡ y.name

  -- A volume that NFS CreateVolume returned is listed under its id by NFS ListVolumes, in a state
  -- where the server holds what the creation left and answers its listings, its quotas under
  -- the storage path are numbers and its datasets have mount points of their own.
  -- Assumed of the server: `IsStore`.
  pub nfs_list_volumes-created :
      (req : CreateVolumeRequest) (s u : C.Server) (v : Volume) (ds : List Dataset)
      (shares : List ShareNfs)
      → (nfs_create_volume C L d req s).0 ≡ ok v
      → Same V (nfs_create_volume C L d req s).1 u
      → (C.list_datasets u).0 ≡ ok ds
      → (C.list_shares_nfs (C.list_datasets u).1).0 ≡ ok shares
      → HasQuotas C V store L d u
      → HasMounts u
      → (es : List Volume) × ((nfs_list_volumes C L d u).0 ≡ ok es)
        × (w : Volume) × Elem w es
        × (w.volume_id ≡ v.volume_id)
  nfs_list_volumes-created req s u v ds shares h same up shares_up quotas mounts =
      let (size, m, _, volume, provided) = nfs_create_volume-IsProvided C V store L d req s v h in
      let id = nfs_volume_prefix <> req.name in
      let name = nfs_dataset_name d id in
      let share = provided.share in
      let (share_in_t, path) = first_sound (shares_path m) share _ provided.shared in
      let (x_in_t, called) = first_sound (named name) provided.dataset _ provided.named_so in
      let x_name : provided.dataset.name ≡ name = (eq_iff provided.dataset.name name).0 called in
      let inside : starts_with provided.dataset.name (d.nfs_storage_path <> "/") ≡ true =
        rw x_name (inside-nfs_dataset_name d id) in
      let share_path : normalise_nfs_share_mountpaths share ≡ m =
        (eq_iff (normalise_nfs_share_mountpaths share) m).0 path in
      let in_u : Elem provided.dataset (V.datasets u) = rw same.datasets x_in_t in
      let (es, done, w, listed, entry) =
        nfs_list_volumes_complete C V store L d u ds shares share provided.dataset up shares_up
          quotas (rw same.shares share_in_t) in_u inside (provided.mounted ∙ sym share_path)
          (mounts.mounted provided.dataset in_u inside) in
      let same_name : entry.dataset.name ≡ name =
        mounts.apart entry.dataset provided.dataset entry.listed in_u
          (entry.mounted ∙ share_path ∙ sym provided.mounted)
        ∙ x_name in
      (
        es,
        done,
        w,
        listed,
        entry.id
            ∙ ap (λ n. trim_prefix n (d.nfs_storage_path <> "/")) same_name
            ∙ trim-nfs_dataset_name d id
            ∙ sym (ap (λ (w : Volume). w.volume_id) volume),
      )
