-- ===== src/Command/Plugin.antt =====
-- `main` of cmd/truenas-csi-plugin/main.go up to `run`: from the flags to a driver. Parsing the flags and
-- logging are left out.
pub mod Started
use truenas_scale_csi.Base.{
  ℕ, String, ◌<>◌, Bool, true, false, not, ◌&&◌, ℤ, negsuc, Result, ok, err, str_eq, eq_ℤ, ltb,
  if◌then◌else◌,
}
use truenas_scale_csi.Driver.{Driver}
use truenas_scale_csi.Driver.New.{Url, Settings, new_driver}
use truenas_scale_csi.Driver.Version.{VersionInfo, Build, Runtime, get_version_json}

pub record Flags : Type 0 where
  pub endpoint : String
  pub truenas_url : String
  pub nfs_storage_path : String
  pub version : Bool
  pub controller : Bool
  pub node_id : String
  pub csi_type : String
  pub iscsi_storage_path : String
  pub portal_id : ℤ
  pub ignore_tls : Bool
  pub driver_name : String
  -- The verbosity of the logging flags.
  pub verbosity : ℕ

-- Why the program ends before `run`: the version is printed, or an error is logged, and the status is 1.
pub data Exit : Type 0 where
  printed : String → Exit
  failed : String → Exit

-- A flag that is missing ends the program.
unfoldable pub need : {A : Type 0} → Bool → String → Result Exit A → Result Exit A
need true message rest = err (failed message)
need false message rest = rest

-- The arguments of `NewDriver`: only the controller has the token of the environment.
abbrev pub settings_of : String → Flags → Settings
settings_of token fl = record {
  endpoint = fl.endpoint;
  base_url = fl.truenas_url;
  nfs_storage_path = fl.nfs_storage_path;
  iscsi_storage_path = fl.iscsi_storage_path;
  portal_id = fl.portal_id;
  is_controller = fl.controller;
  node_id = fl.node_id;
  is_nfs = str_eq fl.csi_type "nfs";
  driver_name = fl.driver_name;
  access_token = if fl.controller then token else "";
  debug_logging = ltb 4 fl.verbosity;
  ignore_tls = fl.ignore_tls;
}

-- The flags of the back end.
unfoldable pub need_back_end : {A : Type 0} → Flags → Bool → Result Exit A → Result Exit A
need_back_end fl true rest =
    need (str_eq fl.nfs_storage_path "") "--nfs-storage-path must be specified" rest
need_back_end fl false rest =
    need (eq_ℤ fl.portal_id (negsuc 0)) "--portal must be specified"
      (need (str_eq fl.iscsi_storage_path "") "--iscsi-storage-path must be specified" rest)

abbrev pub driver_of : Result String Driver → Result Exit Driver
driver_of (err e) = err (failed "failed to init CSI driver")
driver_of (ok d) = ok d

-- The checks of the flags, and the driver.
unfoldable pub start_driver : (String → Result String Url) → String → Flags → Result Exit Driver
start_driver parse_url token fl = need (str_eq fl.node_id "") "--node-id must be specified" (
    need (not (str_eq fl.csi_type "nfs") && not (str_eq fl.csi_type "iscsi"))
      "--type must be either NFS or ISCSI"
      (need_back_end fl (str_eq fl.csi_type "nfs") (
        need (str_eq fl.endpoint "") "--endpoint must be specified" (
          need (str_eq fl.driver_name "") "--driver-name must be specified"
            (driver_of (new_driver parse_url (settings_of token fl)))))))

abbrev pub print_version : Result String String → Exit
print_version (ok text) = printed text
print_version (err e) = failed "failed to get version"

-- `main` up to `run`; `token` is TRUENAS_TOKEN of the environment.
unfoldable pub plugin_main :
    (String → Result String Url)
    → (VersionInfo → Result String String)
    → Build
    → Runtime
    → String
    → Flags
    → Result Exit Driver
plugin_main parse_url marshal b r token fl =
    if fl.version
    then err (print_version (get_version_json marshal b r))
    else start_driver parse_url token fl
