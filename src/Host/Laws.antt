-- ===== src/Host/Laws.antt =====
-- What the node operations rely on of the mounter, over a view of what is mounted where.
use truenas_scale_csi.Base.{
  String, Bool, true, not, ◌≡◌, ◌≢◌, Option, none, some, List, ok, err, is_some,
}
use truenas_scale_csi.Host.{Host, OsError}

pub record Mounted : Type 0 where
  pub source : String
  pub fstype : String
  pub options : List String

-- Asking changes no mount, and a path of which it is said that it does not exist has none; an answer
-- tells whether the path has none. Making directories changes no mount. A mount that succeeds is there,
-- and changes no other; a clean-up that succeeds leaves no mount at its path, and changes no other.
pub record IsMounter (H : Host) (mounts : H.State → String → Option Mounted) : Type 0 where
  pub is_likely-keeps :
      (s : H.State) (path p : String) → mounts (H.is_likely_not_mount_point path s).1 p ≡ mounts s p
  pub is_likely-answers :
      (s : H.State) (path : String) (b : Bool)
      → (H.is_likely_not_mount_point path s).0 ≡ ok b
      → b ≡ not (is_some (mounts s path))
  pub is_likely-missing :
      (s : H.State) (path : String) (e : OsError)
      → (H.is_likely_not_mount_point path s).0 ≡ err e
      → e.is_not_exist ≡ true
      → mounts s path ≡ none
  pub mkdir_all-keeps :
      (s : H.State) (path p : String) → mounts (H.mkdir_all path s).1 p ≡ mounts s p
  pub mount-mounts :
      (s : H.State) (source target fstype : String) (options : List String)
      → (H.mount source target fstype options s).0 ≡ ok tt
      → mounts (H.mount source target fstype options s).1 target
        ≡ some (record { source = source; fstype = fstype; options = options })
  pub mount-keeps :
      (s : H.State) (source target fstype : String) (options : List String) (p : String)
      → (H.mount source target fstype options s).0 ≡ ok tt
      → p ≢ target
      → mounts (H.mount source target fstype options s).1 p ≡ mounts s p
  pub cleanup-unmounts :
      (s : H.State) (path : String) (extensive : Bool)
      → (H.cleanup_mount_point path extensive s).0 ≡ ok tt
      → mounts (H.cleanup_mount_point path extensive s).1 path ≡ none
  pub cleanup-keeps :
      (s : H.State) (path : String) (extensive : Bool) (p : String)
      → (H.cleanup_mount_point path extensive s).0 ≡ ok tt
      → p ≢ path
      → mounts (H.cleanup_mount_point path extensive s).1 p ≡ mounts s p
