-- ===== src/Driver/Run.antt =====
-- `Driver.Run` (pkg/driver/driver.go) up to the listener, and the identity service of
-- pkg/driver/identity.go.
pub mod Prepared
use truenas_scale_csi.Base.{
  String, ◌<>◌, Bool, true, false, List, [], ◌∷◌, Result, ok, err, Exec, pure, raise, lift, ◌>>=◌,
  ◌>>◌, ◌on_error◌, str_eq, join_path, dir_path, if◌then◌else◌,
}
use truenas_scale_csi.Driver.{Driver}
use truenas_scale_csi.Driver.New.{Url}
use truenas_scale_csi.Host.{Host, OsError}

-- What `Run` calls besides: `url.Parse`, `os.Remove` and `net.Listen`, with the text of an error.
pub record Network (H : Host) : Type 0 where
  pub parse_url : String → Result String Url
  pub remove : String → Exec H.State OsError (Unit {0})
  pub listen : String → String → Exec H.State String (Unit {0})

-- The address of the socket: `filepath.FromSlash` changes nothing on Unix.
abbrev pub grpc_addr : Url → String
grpc_addr u = if str_eq u.host "" then u.path else join_path u.host u.path

abbrev pub config_dir : Url → String
config_dir u = join_path (dir_path u.path) "iscsi_config"

abbrev pub with_config : Url → Driver → Driver
with_config u d = record d { iscsi_config_dir = config_dir u }

module _ (H : Host) (N : Network H) where
  open H use {State}

  abbrev pub on_host : {E A : Type 0} → Exec State E A → Exec (Driver × State) E A
  on_host m (d, s) = let (r, s') = m s in (r, (d, s'))

  -- The directory of the connection files, for iSCSI only; the driver keeps its name before it is made.
  unfoldable pub make_config_dir : Bool → Url → Exec (Driver × State) String (Unit {0})
  make_config_dir true u x = (ok tt, x)
  make_config_dir false u (d, s) =
      (on_host (H.mkdir_all (config_dir u)) on_error λ e.
      raise ("failed to make directories for config, error: " <> e.text))
        (with_config u d, s)

  unfoldable pub remove_socket : Url → Exec (Driver × State) String (Unit {0})
  remove_socket u = on_host (N.remove (grpc_addr u)) on_error λ e.
      if e.is_not_exist
      then pure tt
      else raise
          ("failed to remove old unix domain socket file " <> grpc_addr u <> ", error: " <> e.text)

  abbrev pub make_sock_dir : Url → Exec (Driver × State) String (Unit {0})
  make_sock_dir u = on_host (H.mkdir_all (dir_path u.path)) on_error λ e.
      raise ("failed to make directories for sock, error: " <> e.text)

  abbrev pub open_socket : Url → Exec (Driver × State) String (Unit {0})
  open_socket u =
      on_host (N.listen u.scheme (grpc_addr u)) on_error λ e. raise ("failed to listen: " <> e)

  unfoldable pub listen_at : Bool → Url → Exec (Driver × State) String (Unit {0})
  listen_at is_nfs u =
      if str_eq u.scheme "unix"
      then (do remove_socket u; make_sock_dir u; make_config_dir is_nfs u; open_socket u)
      else raise ("currently only unix domain sockets are supported, have: " <> u.scheme)

  -- `Run` up to the listener, with the driver that it changes.
  unfoldable pub prepare_run : Exec (Driver × State) String (Unit {0})
  prepare_run (d, s) =
      ((lift (N.parse_url d.endpoint) on_error λ e. raise ("unable to parse address: " <> e))
          >>= listen_at d.is_nfs)
        (d, s)

-- The capabilities of the plugin that `GetPluginCapabilities` lists.
pub data PluginCapability : Type 0 where
  controller_service volume_accessibility_constraints expansion_unknown : PluginCapability

-- `GetPluginInfo`: the name, and the version, which the build sets.
abbrev pub get_plugin_info : String → Driver → String × String
get_plugin_info driver_version d = (d.name, driver_version)

abbrev pub get_plugin_capabilities : List PluginCapability
get_plugin_capabilities =
    controller_service ∷ volume_accessibility_constraints ∷ expansion_unknown ∷ []

-- `Probe`
abbrev pub probe : Driver → Bool
probe d = d.ready
