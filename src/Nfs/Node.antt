-- ===== src/Nfs/Node.antt =====
-- `nfsNodePublishVolume` and `nfsNodeUnpublishVolume` (pkg/driver/nfs.go).
pub mod Published
use truenas_scale_csi.Base.{
  String, ◌<>◌, Bool, true, false, Option, none, some, List, [], ◌∷◌, ◌++◌, Exec, pure, raise,
  ◌>>=◌, ◌>>◌, ◌on_error◌, str_eq, contains, get_or, if◌then◌else◌,
}
use truenas_scale_csi.Csi.{
  invalid_argument, internal, permission_denied, Code, Error, status, VolumeCapability, AccessType,
  mount, block, unset, Dict, lookup,
}
use truenas_scale_csi.Libraries.{Libraries}
use truenas_scale_csi.Size.{get_server_from_source}
use truenas_scale_csi.Host.{Host, OsError}
use truenas_scale_csi.Nfs.{host_param, mount_point_param}

-- What the NFS node operation reads of a `NodePublishVolumeRequest`.
pub record PublishRequest : Type 0 where
  pub volume_id : String
  pub target_path : String
  pub volume_capability : Option VolumeCapability
  pub readonly : Bool
  pub volume_context : Dict

-- `GetMount().GetMountFlags()` of an access type.
abbrev pub flags_of_type : AccessType → List String
flags_of_type (mount fs_type flags) = flags
flags_of_type block = []
flags_of_type unset = []

abbrev pub mount_flags : Option VolumeCapability → List String
mount_flags none = []
mount_flags (some cap) = flags_of_type cap.access_type

abbrev pub option_if : Bool → String → List String
option_if true text = text ∷ []
option_if false text = []

-- What the loop over the context leaves in a variable: the value of a key, or "".
abbrev pub context_value : String → Dict → String
context_value k context = get_or (lookup k context) ""

-- The code of an error of `Mount`.
abbrev pub mount_error : OsError → Error
mount_error e =
    if e.is_permission
    then status permission_denied e.text
    else if contains e.text "invalid argument"
    then status invalid_argument e.text
    else status internal e.text

module _ (H : Host) where
  open H use {State}

  abbrev pub mount_options : PublishRequest → List String
  mount_options req =
      (mount_flags req.volume_capability ++ option_if req.readonly "ro")
      ++ option_if (str_eq (H.getenv "NFS_NOLOCK") "true") "nolock"

  -- Whether the path has no mount; a path that does not exist is made.
  unfoldable pub ensure_target_path : String → Exec State Error Bool
  ensure_target_path target_path = H.is_likely_not_mount_point target_path on_error λ e.
      if e.is_not_exist
      then (do H.mkdir_all target_path on_error λ e'. raise (status internal e'.text); pure true)
      else raise (status internal e.text)

  unfoldable pub mount_if : Bool → String → String → List String → Exec State Error (Unit {0})
  mount_if false source target_path options = pure tt
  mount_if true source target_path options =
      H.mount source target_path "nfs" options on_error λ e. raise (mount_error e)

  unfoldable pub nfs_node_publish_volume : Libraries → PublishRequest → Exec State Error (Unit {0})
  nfs_node_publish_volume L req =
      let server = context_value host_param req.volume_context in
      let base_dir = context_value mount_point_param req.volume_context in
      if str_eq server ""
      then raise (status invalid_argument (host_param <> " is a required parameter"))
      else if str_eq base_dir ""
      then raise (status invalid_argument (mount_point_param <> " is a required parameter"))
      else (do
        let source = get_server_from_source L.is_ipv6_string server <> ":" <> base_dir
        not_mnt ← ensure_target_path req.target_path
        mount_if not_mnt source req.target_path (mount_options req))

  -- `%q` of the target path is a parameter of the text only.
  unfoldable pub nfs_node_unpublish_volume :
      (String → String) → String → Exec State Error (Unit {0})
  nfs_node_unpublish_volume quote target_path = H.cleanup_mount_point target_path true on_error λ e.
      raise (status internal ("failed to unmount target " <> quote target_path <> ": " <> e.text))
