-- ===== src/Iscsi/Query.antt =====
-- The iSCSI operations that change nothing: `iscsiValidateVolumeCapabilities`, `iscsiGetCapacity` and
-- `iscsiListVolumes` (pkg/driver/iscsi.go).
use truenas_scale_csi.Base.{
  String, ◌<>◌, Bool, none, some, List, [], ◌∷◌, map, ℤ, Result, ok, Exec, pure, raise, lift, ◌>>=◌,
  ◌>>◌, ◌on_error◌, str_eq, starts_with, if◌then◌else◌, nat_eq, is_some, get_or, ◌||◌, ◌&&◌,
  parse_int,
}
use truenas_scale_csi.Csi.{
  invalid_argument, not_found, internal, Error, status, plain, lookup, lookup_id, put_all,
  found_keys, Volume, ValidateRequest, Confirmed, GetCapacityResponse,
}
use truenas_scale_csi.Libraries.{Libraries}
use truenas_scale_csi.Driver.{Driver}
use truenas_scale_csi.Size.{minimum_volume_size_in_bytes}
use truenas_scale_csi.Caps.{iscsi_volume_capabilities, iscsi_check_caps}
use truenas_scale_csi.Nfs.{refuse, look_for_datasets, capability_of_mode, add_entry, no_dataset}
use truenas_scale_csi.TrueNas.{Client, Dataset, IscsiExtent, IscsiTarget, IscsiTargetExtent}
use truenas_scale_csi.TrueNas.Find.{
  find_dataset, find_all_datasets, find_all_iscsi_extents, find_all_iscsi_target_extents,
  find_all_iscsi_targets,
}
use truenas_scale_csi.Iscsi.{
  iscsi_volume_prefix, iscsi_dataset_name, target_portal_param, iqn_param, lun_param, portals_param,
}
use truenas_scale_csi.Iscsi.Delete.{dataset_named}

abbrev pub iscsi_context_key : String → Bool
iscsi_context_key k =
    str_eq k target_portal_param
    || str_eq k iqn_param
    || str_eq k lun_param
    || str_eq k portals_param

-- The datasets of the listing, by the path of their block device.
abbrev pub is_volume_below : String → Dataset → Bool
is_volume_below prefix dataset = str_eq dataset.type "VOLUME" && starts_with dataset.name prefix

abbrev pub by_zvol_path : Dataset → String × Dataset
by_zvol_path ds = ("zvol/" <> ds.name, ds)

abbrev pub by_extent_id : List (String × Dataset) → IscsiExtent → ℤ × Dataset
by_extent_id dataset_map extent = (extent.id, get_or (lookup extent.path dataset_map) no_dataset)

abbrev pub by_target_id : List (ℤ × Dataset) → IscsiTargetExtent → ℤ × Dataset
by_target_id extent_map mapping =
    (mapping.target, get_or (lookup_id mapping.extent extent_map) no_dataset)

-- The last loop of `iscsiListVolumes`: an entry for each target, or the first parse error.
unfoldable pub iscsi_entries :
    Libraries → List (ℤ × Dataset) → List IscsiTarget → Result Error (List Volume)
iscsi_entries L extent_target_map [] = ok []
iscsi_entries L extent_target_map (target ∷ targets) =
    let dataset = get_or (lookup_id target.id extent_target_map) no_dataset in
    add_entry L target.name dataset.volsize (iscsi_entries L extent_target_map targets)

module _ (C : Client) (L : Libraries) (d : Driver) where
  open C use {Server}

  unfoldable pub iscsi_validate_volume_capabilities : ValidateRequest → Exec Server Error Confirmed
  unfolding find_dataset
  iscsi_validate_volume_capabilities req =
      let missing : Error =
        status not_found
          ("ValidateVolumeCapabilities Volume ID " <> req.volume_id <> " not found") in
      if starts_with req.volume_id iscsi_volume_prefix
      then (do
        refuse (iscsi_check_caps L req.volume_capabilities)
        let dataset_name = iscsi_dataset_name d req.volume_id
        if nat_eq (found_keys iscsi_context_key req.volume_context) 4
            then pure tt
            else raise (
                status invalid_argument (
                  target_portal_param <> ", " <> iqn_param <> ", " <> lun_param <> ", "
                  <> portals_param <> " keys missing from volume context"))
        existing ←
            find_dataset C (dataset_named dataset_name) on_error λ e. raise (look_for_datasets e)
        elim existing [
          | none ↦ raise missing
          | some dataset ↦ pure (record {
            volume_context = req.volume_context;
            volume_capabilities = map capability_of_mode iscsi_volume_capabilities;
          })
        ])
      else raise missing

  unfoldable pub iscsi_get_capacity : Exec Server Error GetCapacityResponse
  iscsi_get_capacity = do
    resp ← C.get_dataset d.iscsi_storage_path on_error λ e.
        raise (status internal ("Failed to get iSCSI dataset: " <> e))
    elim (parse_int resp.available) [
      | none ↦ raise (
          status internal
            ("Failed to parse available bytes: " <> L.parse_error_text resp.available))
      | some available ↦ pure (record {
        available_capacity = available;
        minimum_volume_size = minimum_volume_size_in_bytes;
      })
    ]

  -- Datasets, the extents over them, the mappings of those, and the targets mapped.
  unfoldable pub iscsi_list_volumes : Exec Server Error (List Volume)
  unfolding find_all_datasets find_all_iscsi_extents find_all_iscsi_target_extents
      find_all_iscsi_targets
  iscsi_list_volumes = do
    datasets ← find_all_datasets C (is_volume_below (d.iscsi_storage_path <> "/")) on_error λ e.
        raise (plain e)
    let dataset_map = put_all by_zvol_path [] datasets
    extents ←
        find_all_iscsi_extents C (λ extent. is_some (lookup extent.path dataset_map)) on_error λ e.
        raise (plain e)
    let extent_map = put_all (by_extent_id dataset_map) [] extents
    extent_mappings ←
        find_all_iscsi_target_extents C (λ mapping. is_some (lookup_id mapping.extent extent_map))
        on_error λ e. raise (plain e)
    let extent_target_map = put_all (by_target_id extent_map) [] extent_mappings
    targets ←
        find_all_iscsi_targets C (λ target. is_some (lookup_id target.id extent_target_map))
        on_error λ e. raise (plain e)
    lift (iscsi_entries L extent_target_map targets)
