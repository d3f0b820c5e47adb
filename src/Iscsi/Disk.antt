-- ===== src/Iscsi/Disk.antt =====
-- `AttachDisk` and `DetachDisk` (pkg/driver/iscsi_node_utils.go), and the mounter they are given
-- (`getISCSIDiskMounter`, `getISCSIDiskUnmounter` of pkg/driver/iscsi_node_iscsi.go).
pub mod Laws
pub mod Attached
pub mod Detached
pub mod Table
use truenas_scale_csi.Base.{
  String, ◌<>◌, Bool, true, false, not, ◌&&◌, Option, none, some, List, [], ◌∷◌, ℤ, pos, negsuc,
  Exec, pure, raise, ◌>>=◌, ◌>>◌, ◌on_error◌, attempt, str_eq, eq_ℤ, if◌then◌else◌,
}
use truenas_scale_csi.Csi.{
  internal, Code, Error, status, plain, Stop, returned, panicked, VolumeCapability, AccessType,
  mount, block, unset,
}
use truenas_scale_csi.Host.{Host, OsError}
use truenas_scale_csi.Nfs.Node.{PublishRequest, mount_flags, option_if}
use truenas_scale_csi.Iscsi.Info.{IscsiDisk, Connector, build_iscsi_connector}

-- What the iSCSI node operations call besides: github.com/kubernetes-csi/csi-lib-iscsi, k8s.io/utils/mount,
-- and more of the os package.
pub record Initiator (H : Host) : Type 1 where
  -- The library's connector, once it is connected or loaded: it then knows the devices.
  pub Connected : Type 0
  pub target_iqn : Connected → String
  pub target_portals : Connected → List String
  -- `Connect()`: the path of the device.
  pub connect : Connector → Exec H.State OsError (String × Connected)
  -- `PersistConnector(c, path)` and `GetConnectorFromFile(path)`
  pub persist_connector : Connected → String → Exec H.State OsError (Unit {0})
  pub get_connector_from_file : String → Exec H.State OsError Connected
  -- `DisconnectVolume()`, and `Disconnect(iqn, portals)`, which tells nothing.
  pub disconnect_volume : Connected → Exec H.State OsError (Unit {0})
  pub disconnect : String → List String → H.State → H.State
  -- `IsLikelyNotMountPoint` gives a value beside an error.
  pub is_likely_not_mount_point : String → H.State → (Bool × Option OsError) × H.State
  -- `FormatAndMount(source, target, fstype, options)`
  pub format_and_mount : String → String → String → List String → Exec H.State OsError (Unit {0})
  pub unmount : String → Exec H.State OsError (Unit {0})
  -- `GetDeviceNameFromMount`: the device of a mount, and how many mounts it has.
  pub get_device_name_from_mount : String → Exec H.State OsError (String × ℤ)
  pub path_exists : String → Exec H.State OsError Bool
  pub remove_all : String → Exec H.State OsError (Unit {0})
  pub remove : String → Exec H.State OsError (Unit {0})

-- `iscsiDiskMounter`, without its handles on the libraries.
pub record IscsiDiskMounter : Type 0 where
  pub disk : IscsiDisk
  pub read_only : Bool
  pub fs_type : String
  pub mount_options : List String
  pub target_path : String
  pub connector : Option Connector

-- `GetMount().GetFsType()` of a capability.
abbrev pub fs_type_of : AccessType → String
fs_type_of (mount fs_type flags) = fs_type
fs_type_of block = ""
fs_type_of unset = ""

abbrev pub fs_type_in : Option VolumeCapability → String
fs_type_in none = ""
fs_type_in (some cap) = fs_type_of cap.access_type

-- `getISCSIDiskMounter`
abbrev pub get_iscsi_disk_mounter : IscsiDisk → PublishRequest → IscsiDiskMounter
get_iscsi_disk_mounter info req = record {
  disk = info;
  read_only = req.readonly;
  fs_type = fs_type_in req.volume_capability;
  mount_options = mount_flags req.volume_capability;
  target_path = req.target_path;
  connector = build_iscsi_connector info;
}

abbrev pub disk_options : IscsiDiskMounter → List String
disk_options b = (if b.read_only then "ro" else "rw") ∷ b.mount_options

-- An `error` that is not a status.
abbrev pub fails : {S A : Type 0} → String → Exec S Stop A
fails text = raise (returned (plain text))

-- `cnt-- ; cnt != 0`
abbrev pub in_use : ℤ → Bool
in_use cnt = not (eq_ℤ cnt (pos 1))

module _ (H : Host) (D : Initiator H) where
  open H use {State}

  -- What `AttachDisk` makes of the answer about the target: an error that does not say that the path is
  -- missing ends it, else the answer's value counts.
  abbrev pub not_mounted_of : Bool × Option OsError → Exec State Stop Bool
  not_mounted_of (not_mnt, none) = pure not_mnt
  not_mounted_of (not_mnt, some e) =
      if e.is_not_exist
      then pure not_mnt
      else fails ("heuristic determination of mount point failed:" <> e.text)

  unfoldable pub ask_mount_point : String → Exec State Stop Bool
  ask_mount_point path s =
      let (answer, s') = D.is_likely_not_mount_point path s in not_mounted_of answer s'

  -- Where the target has no mount: the directory, the file for the detachment, and the mount.
  unfoldable pub mount_device :
      IscsiDiskMounter → String → D.Connected → String → Exec State Stop String
  mount_device b device connected info_path = do
    H.mkdir_all b.target_path on_error λ e. fails e.text
    D.persist_connector connected info_path on_error λ e.
        fails "unable to create persistence file for connection"
    D.format_and_mount device b.target_path b.fs_type (disk_options b) on_error λ e. fails e.text
    pure device

  unfoldable pub mount_unless :
      IscsiDiskMounter → String → D.Connected → String → Bool → Exec State Stop String
  mount_unless b device connected info_path true = mount_device b device connected info_path
  mount_unless b device connected info_path false = pure ""

  unfoldable pub attach_connected :
      IscsiDiskMounter → String → String × D.Connected → Exec State Stop String
  attach_connected b info_path (device, connected) =
      if str_eq device "" then fails "connect reported success, but no path returned" else (do
        not_mnt ← ask_mount_point b.target_path
        mount_unless b device connected info_path not_mnt)

  -- `AttachDisk`: the device, or "" where the target is mounted already. A nil connector is dereferenced.
  abbrev pub attach_with : IscsiDiskMounter → String → Option Connector → Exec State Stop String
  attach_with b info_path none = raise panicked
  attach_with b info_path (some c) = do
    found ← D.connect c on_error λ e. fails e.text
    attach_connected b info_path found

  unfoldable pub attach_disk : IscsiDiskMounter → String → Exec State Stop String
  attach_disk b info_path = attach_with b info_path b.connector

  -- The last use of the device is gone: the session and the file go too. An error of removing the
  -- mount path is only logged.
  unfoldable pub detach_session : String → String → D.Connected → Exec State Error (Unit {0})
  detach_session target_path info_path c = do
    D.disconnect_volume c on_error λ e. raise (plain e.text)
    λ s. pure tt (D.disconnect (D.target_iqn c) (D.target_portals c) s)
    ignored ← attempt (D.remove_all target_path)
    D.remove info_path on_error λ e. raise (plain e.text)

  unfoldable pub detach_loaded : String → String → ℤ → D.Connected → Exec State Error (Unit {0})
  detach_loaded target_path info_path cnt c = do
    D.unmount target_path on_error λ e. raise (plain e.text)
    if in_use cnt then pure tt else detach_session target_path info_path c

  -- The connector of the file; `none` where the file is missing.
  unfoldable pub load_connector : String → Exec State Error (Option D.Connected)
  load_connector info_path =
      (do c ← D.get_connector_from_file info_path; pure (some c)) on_error λ e.
      if e.is_not_exist then pure none else raise (status internal e.text)

  unfoldable pub detach_if_loaded :
      String → String → ℤ → Option D.Connected → Exec State Error (Unit {0})
  detach_if_loaded target_path info_path cnt none = pure tt
  detach_if_loaded target_path info_path cnt (some c) = detach_loaded target_path info_path cnt c

  unfoldable pub detach_if_exists : String → String → ℤ → Bool → Exec State Error (Unit {0})
  detach_if_exists target_path info_path cnt false = pure tt
  detach_if_exists target_path info_path cnt true = do
    loaded ← load_connector info_path
    detach_if_loaded target_path info_path cnt loaded

  -- `DetachDisk`
  unfoldable pub detach_disk : String → String → Exec State Error (Unit {0})
  detach_disk target_path info_path = do
    device ← D.get_device_name_from_mount target_path on_error λ e. raise (plain e.text)
    exists' ← D.path_exists target_path on_error λ e.
        raise (plain ("error checking if path exists: " <> e.text))
    detach_if_exists target_path info_path device.1 exists'
