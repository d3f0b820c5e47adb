-- ===== src/Driver.antt =====
-- The driver's own state: `Driver` of pkg/driver/driver.go, without what belongs to the libraries (the API
-- client, the gRPC server, the mounter and the mutex).
pub mod New
pub mod Version
pub mod Run
pub mod Life
use truenas_scale_csi.Base.{String, ◌<>◌, Bool, ℤ, join_path}

pub record Driver : Type 0 where
  pub name : String
  pub base_url : String
  pub address : String
  pub nfs_storage_path : String
  pub iscsi_storage_path : String
  pub node_id : String
  pub is_controller : Bool
  pub is_nfs : Bool
  pub portal_id : ℤ
  pub iscsi_config_dir : String
  pub endpoint : String
  pub ready : Bool

-- `getISCSILibConfigPath`
abbrev pub get_iscsi_lib_config_path : Driver → String → String
get_iscsi_lib_config_path d id = join_path d.iscsi_config_dir (id <> ".json")

-- `setReady`
abbrev pub set_ready : Bool → Driver → Driver
set_ready state d = record d { ready = state }
