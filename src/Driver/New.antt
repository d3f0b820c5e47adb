-- ===== src/Driver/New.antt =====
-- `NewDriver` (pkg/driver/driver.go), without the client that it configures. `url.Parse` is a parameter.
use truenas_scale_csi.Base.{
  String, ◌<>◌, Bool, false, ℤ, Result, ok, err, has_suffix, if◌then◌else◌,
}
use truenas_scale_csi.Driver.{Driver}

-- The parts of a `url.URL` that are read.
pub record Url : Type 0 where
  pub scheme : String
  pub host : String
  pub path : String

-- The arguments of `NewDriver`; the last three configure the client.
pub record Settings : Type 0 where
  pub endpoint : String
  pub base_url : String
  pub nfs_storage_path : String
  pub iscsi_storage_path : String
  pub portal_id : ℤ
  pub is_controller : Bool
  pub node_id : String
  pub is_nfs : Bool
  pub driver_name : String
  pub access_token : String
  pub debug_logging : Bool
  pub ignore_tls : Bool

-- The driver for a base URL with this host.
abbrev pub driver_at : Settings → Url → Driver
driver_at x u = record {
  name = x.driver_name;
  base_url = x.base_url;
  address = u.host;
  nfs_storage_path = x.nfs_storage_path;
  iscsi_storage_path = x.iscsi_storage_path;
  node_id = x.node_id;
  is_controller = x.is_controller;
  is_nfs = x.is_nfs;
  portal_id = x.portal_id;
  iscsi_config_dir = "";
  endpoint = x.endpoint;
  ready = false;
}

abbrev pub new_driver_of : Settings → Result String Url → Result String Driver
new_driver_of x (err e) = err ("unable to parse address: " <> e)
new_driver_of x (ok u) =
    if has_suffix u.path "api/v2.0"
    then ok (driver_at x u)
    else err ("base URL should end with \"api/v2.0\": " <> u.path)

-- `NewDriver`, of what `url.Parse` gives for a text: its parts, or the text of an error.
unfoldable pub new_driver : (String → Result String Url) → Settings → Result String Driver
new_driver parse_url x = new_driver_of x (parse_url x.base_url)
