-- ===== src/Iscsi/Node.antt =====
-- `iscsiNodePublishVolume` and `iscsiNodeUnpublishVolume` (pkg/driver/iscsi.go).
pub mod Published
pub mod Panics
pub mod Unpublished
pub mod Tracked
use truenas_scale_csi.Base.{
  ◌+◌, String, ◌<>◌, Bool, true, false, ◌||◌, Result, ok, err, Exec, pure, raise, ◌>>=◌, ◌>>◌,
  ◌on_error◌, nat_eq, str_eq, if◌then◌else◌,
}
use truenas_scale_csi.Csi.{
  invalid_argument, internal, Code, Error, status, plain, Stop, returned, panicked, found_keys,
}
use truenas_scale_csi.Libraries.{Libraries, error_text}
use truenas_scale_csi.Driver.{Driver, get_iscsi_lib_config_path}
use truenas_scale_csi.Host.{Host}
use truenas_scale_csi.Nfs.Node.{PublishRequest}
use truenas_scale_csi.Iscsi.{target_portal_param, iqn_param, lun_param, portals_param}
use truenas_scale_csi.Iscsi.Query.{iscsi_context_key}
use truenas_scale_csi.Iscsi.Info.{Json, IscsiDisk, get_iscsi_info}
use truenas_scale_csi.Iscsi.Disk.{Initiator, get_iscsi_disk_mounter, attach_disk, detach_disk}

abbrev pub keys_missing : String
keys_missing =
    target_portal_param <> ", " <> iqn_param <> ", " <> lun_param <> ", " <> portals_param
    <> " keys missing from volume context"

-- What the handlers make of an error of the two disk operations; a panic goes on.
abbrev pub internal_of : Libraries → Stop → Stop
internal_of L (returned e) = returned (status internal (error_text L e))
internal_of L panicked = panicked

module _ (H : Host) (D : Initiator H) (L : Libraries) (J : Json) (d : Driver) where
  open H use {State}

  unfoldable pub attach_info : PublishRequest → Result String IscsiDisk → Exec State Stop (Unit {0})
  attach_info req (err e) = raise (returned (status internal e))
  attach_info req (ok info) = do
    device ←
        attach_disk H D (get_iscsi_disk_mounter info req)
          (get_iscsi_lib_config_path d req.volume_id)
        on_error λ e. raise (internal_of L e)
    pure tt

  unfoldable pub iscsi_node_publish_volume : PublishRequest → Exec State Stop (Unit {0})
  iscsi_node_publish_volume req =
      if nat_eq (found_keys iscsi_context_key req.volume_context) 4
      then attach_info req (get_iscsi_info J req.volume_id req.volume_context)
      else raise (returned (status invalid_argument keys_missing))

module _ (H : Host) (D : Initiator H) (L : Libraries) (d : Driver) where
  open H use {State}

  -- Of the request's volume id and target path.
  unfoldable pub iscsi_node_unpublish_volume : String → String → Exec State Error (Unit {0})
  iscsi_node_unpublish_volume volume_id target_path =
      detach_disk H D target_path (get_iscsi_lib_config_path d volume_id) on_error λ e.
      raise (status internal (error_text L e))
