-- ===== src/Controller.antt =====
-- The controller service: pkg/driver/controller.go, which checks a request and passes it on to a back end.
pub mod Dispatch
pub mod Delete
use truenas_scale_csi.Base.{
  ℕ, zero, suc, String, ◌<>◌, Bool, true, false, List, [], ◌∷◌, Result, ok, err, Exec, pure, raise,
  ◌>>=◌, ◌>>◌, ◌on_error◌, str_eq, starts_with, if◌then◌else◌, length, nat_eq,
}
use truenas_scale_csi.Csi.{
  Code, invalid_argument, internal, unknown, unimplemented, Error, status, plain,
  CreateVolumeRequest, Volume, ValidateRequest, Confirmed, GetCapacityResponse, ListVolumesResponse,
}
use truenas_scale_csi.Libraries.{Libraries, error_text}
use truenas_scale_csi.Driver.{Driver}
use truenas_scale_csi.TrueNas.{Client}
use truenas_scale_csi.Nfs.{
  nfs_volume_prefix, nfs_create_volume, nfs_delete_volume, nfs_validate_volume_capabilities,
  nfs_get_capacity, nfs_list_volumes,
}
use truenas_scale_csi.Iscsi.{iscsi_volume_prefix}
use truenas_scale_csi.Iscsi.Create.{iscsi_create_volume}
use truenas_scale_csi.Iscsi.Delete.{iscsi_delete_volume}
use truenas_scale_csi.Iscsi.Query.{
  iscsi_validate_volume_capabilities, iscsi_get_capacity, iscsi_list_volumes,
}

-- The capabilities that the driver announces, of `ControllerServiceCapability_RPC_Type`.
pub data ControllerCapability : Type 0 where
  create_delete_volume list_volumes_rpc get_capacity_rpc : ControllerCapability

abbrev pub controller_capabilities : List ControllerCapability
controller_capabilities = create_delete_volume ∷ list_volumes_rpc ∷ get_capacity_rpc ∷ []

-- The calls that the driver does not offer: snapshots, expansion, `ControllerGetVolume`, publishing,
-- unpublishing and modification.
abbrev pub not_implemented : {S A : Type 0} → Exec S Error A
not_implemented = raise (status unimplemented "not implemented")

module _ (C : Client) (L : Libraries) (d : Driver) where
  open C use {Server}

  unfoldable pub create_volume : CreateVolumeRequest → Exec Server Error Volume
  create_volume req =
      if str_eq req.name ""
      then raise (status invalid_argument "CreateVolume Name must be provided")
      else if nat_eq (length req.volume_capabilities) 0
      then raise (status invalid_argument "CreateVolume Volume capabilities must be provided")
      else if d.is_nfs
      then nfs_create_volume C L d req
      else iscsi_create_volume C L d req

  -- What `DeleteVolume` makes of a back end's error.
  abbrev pub delete_failed : String → Error → Error
  delete_failed volume_id e =
      status internal
        ("Caught error while deleting volume: " <> volume_id <> ". " <> error_text L e)

  unfoldable pub delete_volume : String → Exec Server Error (Unit {0})
  delete_volume volume_id =
      if str_eq volume_id ""
      then raise (status invalid_argument "DeleteVolume Volume ID must be provided")
      else if starts_with volume_id nfs_volume_prefix
      then (nfs_delete_volume C L d volume_id on_error λ e. raise (delete_failed volume_id e))
      else if starts_with volume_id iscsi_volume_prefix
      then (iscsi_delete_volume C d volume_id on_error λ e. raise (delete_failed volume_id e))
      else raise (status unknown ("Unknown volume type: " <> volume_id))

  unfoldable pub validate_volume_capabilities : ValidateRequest → Exec Server Error Confirmed
  validate_volume_capabilities req =
      if d.is_nfs
      then nfs_validate_volume_capabilities C L d req
      else iscsi_validate_volume_capabilities C L d req

  -- `ListVolumes`, for a request with `MaxEntries` set to `max_entries`.
  unfoldable pub list_volumes : ℕ → Exec Server Error ListVolumesResponse
  list_volumes max_entries = do
    volumes ← (if d.is_nfs then nfs_list_volumes C L d else iscsi_list_volumes C L d) on_error λ e.
        raise (status internal "Failed to list NFS shares")
    if nat_eq max_entries 0
        then pure (record { entries = volumes; next_token = "" })
        else raise (status unimplemented "Pagination isnt implemented")

  unfoldable pub get_capacity : Exec Server Error GetCapacityResponse
  get_capacity = if d.is_nfs then nfs_get_capacity C L d else iscsi_get_capacity C L d
