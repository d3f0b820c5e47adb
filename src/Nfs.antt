-- ===== src/Nfs.antt =====
-- The controller's NFS operations: pkg/driver/nfs.go, the node operations apart. Logging is left out.
pub mod Steps
pub mod Create
pub mod Delete
pub mod Validate
pub mod Listing
pub mod Lifecycle
pub mod Refinement
pub mod Node
use truenas_scale_csi.Base.{
  ℕ, String, ◌<>◌, Bool, true, false, Option, none, some, List, [], ◌∷◌, map, ℤ, pos, Result, ok,
  err, Exec, pure, raise, lift, ◌>>=◌, ◌>>◌, ◌on_error◌, str_eq, starts_with, if◌then◌else◌, length,
  nat_eq, is_some, get_or, ◌||◌, contains, join, trim_prefix, parse_int, select,
}
use truenas_scale_csi.Csi.{
  Code, invalid_argument, not_found, internal, out_of_range, Error, status, plain, AccessMode,
  unset, VolumeCapability, Dict, lookup, found_keys, CreateVolumeRequest, Volume, ValidateRequest,
  Confirmed, GetCapacityResponse,
}
use truenas_scale_csi.Libraries.{Libraries}
use truenas_scale_csi.Driver.{Driver}
use truenas_scale_csi.Size.{extract_storage, minimum_volume_size_in_bytes}
use truenas_scale_csi.Caps.{nfs_volume_capabilities, nfs_check_caps}
use truenas_scale_csi.TrueNas.{Client, Dataset, ShareNfs, CreateDatasetParams, CreateShareNfsParams}
use truenas_scale_csi.TrueNas.Find.{
  find_dataset, find_all_datasets, find_nfs_share, find_all_nfs_shares,
  normalise_nfs_share_mountpaths,
}

abbrev pub nfs_volume_prefix : String
nfs_volume_prefix = "nfs-"

abbrev pub mount_point_param : String
mount_point_param = "mountPoint"

abbrev pub host_param : String
host_param = "host"

-- The check of a request's capabilities, as the first step of a handler.
abbrev pub refuse : {S : Type 0} → Option Error → Exec S Error (Unit {0})
refuse none s = (ok tt, s)
refuse (some e) s = (err e, s)

-- `extractStorage` and the wrapping of its error, as both back ends write it.
abbrev pub out_of_range_error : Result String ℤ → Result Error ℤ
out_of_range_error (ok size) = ok size
out_of_range_error (err e) = err (status out_of_range ("invalid capacity range: " <> e))

abbrev pub dataset_params : String → ℤ → CreateDatasetParams
dataset_params name size = record {
  name = name;
  type = none;
  casesensitivity = some "SENSITIVE";
  copies = some (pos 1);
  inherit_encryption = some true;
  share_type = some "GENERIC";
  refquota = some size;
  volblocksize = none;
  volsize = none;
}

abbrev share_params : Option String → List String → String → CreateShareNfsParams
share_params path paths name = record {
  path = path;
  paths = paths;
  comment = "Share for Kubernetes PV " <> name;
  enabled = true;
  ro = false;
  maproot_group = "root";
  maproot_user = "root";
}

-- The steps of a handler that look for a dataset by its name.
abbrev named : String → Dataset → Bool
named dataset_name dataset = str_eq dataset.name dataset_name

abbrev pub look_for_datasets : String → Error
look_for_datasets e = status internal ("failed to look for existing datasets: " <> e)

-- `strings.Join([]string{d.nfsStoragePath, volumeID}, "/")`
abbrev pub nfs_dataset_name : Driver → String → String
nfs_dataset_name d volume_id = join "/" (d.nfs_storage_path ∷ volume_id ∷ [])

abbrev shares_path : String → ShareNfs → Bool
shares_path mountpoint share = str_eq (normalise_nfs_share_mountpaths share) mountpoint

abbrev nfs_context_key : String → Bool
nfs_context_key k = str_eq k host_param || str_eq k mount_point_param

abbrev pub capability_of_mode : AccessMode → VolumeCapability
capability_of_mode mode = record { access_mode = mode; access_type = unset }

-- `strings.HasPrefix(dataset.GetName(), prefix)`
abbrev below : String → Dataset → Bool
below prefix dataset = starts_with dataset.name prefix

-- The map from mount points to datasets: a later dataset takes the place of an earlier one.
unfoldable pub by_mountpoint : List (String × Dataset) → List Dataset → List (String × Dataset)
by_mountpoint found [] = found
by_mountpoint found (ds ∷ datasets) = by_mountpoint ((ds.mountpoint, ds) ∷ found) datasets

unfoldable pub has_dataset : List (String × Dataset) → ShareNfs → Bool
has_dataset mountpoint_dataset share =
    let path = normalise_nfs_share_mountpaths share in
    if str_eq path "" then false else is_some (lookup path mountpoint_dataset)

-- The zero value of a dataset, which a map answers for a missing key.
abbrev pub no_dataset : Dataset
no_dataset = record {
  id = "";
  name = "";
  type = "";
  mountpoint = "";
  available = "";
  refquota = "";
  volsize = "";
}

-- One more entry of a listing; a size that does not parse ends it with an error.
abbrev pub add_parsed :
    String → String → Option ℤ → Result Error (List Volume) → Result Error (List Volume)
add_parsed volume_id e none rest = err (plain e)
add_parsed volume_id e (some quota) (err e') = err e'
add_parsed volume_id e (some quota) (ok entries) =
    ok (record { volume_id = volume_id; capacity_bytes = quota; volume_context = [] } ∷ entries)

abbrev pub add_entry :
    Libraries → String → String → Result Error (List Volume) → Result Error (List Volume)
add_entry L volume_id raw rest = add_parsed volume_id (L.parse_error_text raw) (parse_int raw) rest

abbrev look_for_shares : String → Error
look_for_shares e = status internal ("failed to look for existing NFS shares: " <> e)

module _ (C : Client) where
  open C use {Server}

  -- The mount point of the volume's dataset, which is created if it is not there.
  unfoldable pub ensure_dataset : String → ℤ → Exec Server Error String
  unfolding find_dataset
  ensure_dataset dataset_name size = do
    existing ← find_dataset C (named dataset_name) on_error λ e. raise (look_for_datasets e)
    elim existing [
      | some dataset ↦ pure dataset.mountpoint
      | none ↦ do
        dataset ← C.create_dataset (dataset_params dataset_name size) on_error λ e. raise (plain e)
        pure dataset.mountpoint
    ]

  -- A first attempt with `Path`; on an HTTP 422 a second with `Paths`, for older servers.
  unfoldable pub create_share : String → String → Exec Server Error (Unit {0})
  unfolding contains
  create_share name mountpoint =
      (do C.create_share_nfs (share_params (some mountpoint) [] name); pure tt) on_error λ e.
      if contains e "422 Unprocessable Entity"
      then ((do C.create_share_nfs (share_params none (mountpoint ∷ []) name); pure tt)
          on_error (λ e2. raise (plain e2)))
      else raise (plain e)

  -- The share of the mount point, which is created if it is not there.
  unfoldable pub ensure_share : String → String → Exec Server Error (Unit {0})
  unfolding find_nfs_share create_share
  ensure_share name mountpoint = do
    existing ← find_nfs_share C (shares_path mountpoint) on_error λ e. raise (look_for_shares e)
    elim existing [ some share ↦ pure tt | none ↦ create_share name mountpoint ]

module _ (L : Libraries) (d : Driver) where
  -- The last loop of `nfsListVolumes`: an entry for each share, or the first parse error.
  unfoldable pub nfs_entries : List (String × Dataset) → List ShareNfs → Result Error (List Volume)
  nfs_entries mountpoint_dataset [] = ok []
  nfs_entries mountpoint_dataset (share ∷ shares) =
      let path = normalise_nfs_share_mountpaths share in
      let dataset = get_or (lookup path mountpoint_dataset) no_dataset in
      let volume_id = trim_prefix dataset.name (d.nfs_storage_path <> "/") in
      add_entry L volume_id dataset.refquota (nfs_entries mountpoint_dataset shares)

-- The volume of a response.
abbrev pub nfs_volume : Driver → String → ℤ → String → Volume
nfs_volume d volume_id size mountpoint = record {
  volume_id = volume_id;
  capacity_bytes = size;
  volume_context = (mount_point_param, mountpoint) ∷ (host_param, d.address) ∷ [];
}

module _ (C : Client) (L : Libraries) (d : Driver) where
  open C use {Server}

  unfoldable pub nfs_create_volume : CreateVolumeRequest → Exec Server Error Volume
  nfs_create_volume req = do
    refuse (nfs_check_caps L req.volume_capabilities)
    let volume_id = nfs_volume_prefix <> req.name
    size ← lift (out_of_range_error (extract_storage req.capacity_range))
    let dataset_name = nfs_dataset_name d volume_id
    mountpoint ← ensure_dataset C dataset_name size
    ensure_share C req.name mountpoint
    pure (nfs_volume d volume_id size mountpoint)

  unfoldable pub nfs_delete_volume : String → Exec Server Error (Unit {0})
  unfolding find_dataset
  nfs_delete_volume volume_id =
      if starts_with volume_id nfs_volume_prefix
      then (do
        let dataset_name = nfs_dataset_name d volume_id
        existing ← find_dataset C (named dataset_name) on_error λ e. raise (plain e)
        elim existing [
          | none ↦ pure tt
          | some dataset ↦ C.delete_dataset dataset.id on_error λ e. raise (plain e)
        ])
      else raise (status not_found ("Volume ID " <> volume_id <> " not found"))

  unfoldable pub nfs_validate_volume_capabilities : ValidateRequest → Exec Server Error Confirmed
  unfolding find_dataset
  nfs_validate_volume_capabilities req =
      let missing : Error =
        status not_found
          ("ValidateVolumeCapabilities Volume ID " <> req.volume_id <> " not found") in
      if starts_with req.volume_id nfs_volume_prefix
      then (do
        refuse (nfs_check_caps L req.volume_capabilities)
        let dataset_name = nfs_dataset_name d req.volume_id
        if nat_eq (found_keys nfs_context_key req.volume_context) 2
            then pure tt
            else raise (
                status invalid_argument
                  (host_param <> ", " <> mount_point_param <> " keys missing from volume context"))
        existing ← find_dataset C (named dataset_name) on_error λ e. raise (look_for_datasets e)
        elim existing [
          | none ↦ raise missing
          | some dataset ↦ pure (record {
            volume_context = req.volume_context;
            volume_capabilities = map capability_of_mode nfs_volume_capabilities;
          })
        ])
      else raise missing

  unfoldable pub nfs_get_capacity : Exec Server Error GetCapacityResponse
  nfs_get_capacity = do
    resp ← C.get_dataset d.nfs_storage_path on_error λ e.
        raise (status internal ("Failed to get NFS dataset: " <> e))
    elim (parse_int resp.available) [
      | none ↦ raise (
          status internal
            ("Failed to parse available bytes: " <> L.parse_error_text resp.available))
      | some available ↦ pure (record {
        available_capacity = available;
        minimum_volume_size = minimum_volume_size_in_bytes;
      })
    ]

  unfoldable pub nfs_list_volumes : Exec Server Error (List Volume)
  unfolding find_all_datasets find_all_nfs_shares
  nfs_list_volumes = do
    datasets ← find_all_datasets C (below (d.nfs_storage_path <> "/")) on_error λ e. raise (plain e)
    let mountpoint_dataset = by_mountpoint [] datasets
    shares ← find_all_nfs_shares C (has_dataset mountpoint_dataset) on_error λ e. raise (plain e)
    lift (nfs_entries L d mountpoint_dataset shares)
