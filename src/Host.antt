-- ===== src/Host.antt =====
-- The node that the driver runs on, as a parameter: the calls of the os package and of k8s.io/mount-utils
-- that the node operations make, over an unknown state.
pub mod Laws
pub mod Table
use truenas_scale_csi.Base.{String, Bool, List, Exec}

-- A Go `error` of these calls: its text, and what `os.IsNotExist` and `os.IsPermission` answer.
pub record OsError : Type 0 where
  pub text : String
  pub is_not_exist : Bool
  pub is_permission : Bool

pub record Host : Type 1 where
  pub State : Type 0
  -- `os.Getenv`; the environment does not change.
  pub getenv : String → String
  pub is_likely_not_mount_point : String → Exec State OsError Bool
  pub mkdir_all : String → Exec State OsError (Unit {0})
  -- `Mount(source, target, fstype, options)`
  pub mount : String → String → String → List String → Exec State OsError (Unit {0})
  -- `CleanupMountPoint(path, mounter, extensiveMountPointCheck)`
  pub cleanup_mount_point : String → Bool → Exec State OsError (Unit {0})
