-- ===== src/Driver/Version.antt =====
-- The version information of pkg/driver/driver.go. The build sets the first three texts, `runtime` the others;
-- `json.MarshalIndent` is a parameter.
use truenas_scale_csi.Base.{String, ◌<>◌, Result}

pub record VersionInfo : Type 0 where
  pub driver_version : String
  pub git_commit : String
  pub build_date : String
  pub go_version : String
  pub compiler : String
  pub platform : String

pub record Build : Type 0 where
  pub driver_version : String
  pub git_commit : String
  pub build_date : String

-- What package `runtime` tells of the running program.
pub record Runtime : Type 0 where
  pub version : String
  pub compiler : String
  pub goos : String
  pub goarch : String

-- `GetVersion`
abbrev pub get_version : Build → Runtime → VersionInfo
get_version b r = record {
  driver_version = b.driver_version;
  git_commit = b.git_commit;
  build_date = b.build_date;
  go_version = r.version;
  compiler = r.compiler;
  platform = r.goos <> "/" <> r.goarch;
}

-- `GetVersionJSON`
abbrev pub get_version_json :
    (VersionInfo → Result String String) → Build → Runtime → Result String String
get_version_json marshal b r = marshal (get_version b r)
