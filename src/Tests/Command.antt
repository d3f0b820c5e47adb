-- ===== src/Tests/Command.antt =====
-- The flags of a node's program.
use truenas_scale_csi.Base.{false, ◌≡◌, ◌↔◌, pos, ok}
use truenas_scale_csi.Driver.New.{Url, driver_at}
use truenas_scale_csi.Driver.Version.{Build, Runtime}
use truenas_scale_csi.Command.Plugin.{Flags, settings_of, plugin_main}
use truenas_scale_csi.Command.Plugin.Started.{IsComplete, Built, plugin_main_iff}

abbrev flags : Flags
flags = record {
  endpoint = "unix:///csi/csi.sock";
  truenas_url = "https://nas.local/api/v2.0";
  nfs_storage_path = "";
  version = false;
  controller = false;
  node_id = "node-1";
  csi_type = "iscsi";
  iscsi_storage_path = "tank/iscsi";
  portal_id = pos 1;
  ignore_tls = false;
  driver_name = "iscsi.truenas-scale.terricain.github.com";
  verbosity = 0;
}

abbrev url : Url
url = record { scheme = "https"; host = "nas.local"; path = "/api/v2.0" }

abbrev build : Build
build = record { driver_version = "v1"; git_commit = "0"; build_date = "today" }

abbrev runtime : Runtime
runtime = record { version = "go1"; compiler = "gc"; goos = "linux"; goarch = "amd64" }

plugin_main_iff_example :
    (plugin_main (λ text. ok url) (λ info. ok info.driver_version) build runtime "token" flags
      ≡ ok (driver_at (settings_of "token" flags) url))
    ↔ (IsComplete flags
        × Built (λ text. ok url) "token" flags (driver_at (settings_of "token" flags) url))
plugin_main_iff_example =
    plugin_main_iff (λ text. ok url) "token" flags (λ info. ok info.driver_version) build runtime
      (driver_at (settings_of "token" flags) url)
