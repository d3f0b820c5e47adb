-- ===== src/Iscsi/Disk/Laws.antt =====
-- What the iSCSI node operations rely on of the libraries (`Initiator`), over two views of the node: the
-- device that is mounted at a path, and the connector that a file holds.
use truenas_scale_csi.Base.{
  String, Bool, true, false, not, ◌≡◌, ◌≢◌, ◌∙◌, Option, none, some, starts_with, List, ℤ, pos, ok,
  err, is_some, ◌⊎◌, inl, inr, Bool-cases, str_eq, eq_iff,
}
use truenas_scale_csi.Host.{Host, OsError}
use truenas_scale_csi.Iscsi.Info.{Connector}
use truenas_scale_csi.Iscsi.Disk.{Initiator}

-- What holds of a path that is not the given one.
pub unless-same : {B : Type 0} (p path : String) → (p ≢ path → B) → (p ≡ path) ⊎ B
unless-same p path f = elim (Bool-cases (str_eq p path)) [
  | inl here ↦ inl ((eq_iff p path).0 here)
  | inr there ↦ inr (f (λ e. cc (there, (eq_iff p path).1 e)))
]

module _ (H : Host) (D : Initiator H) (devices : H.State → String → Option String)
    (files : H.State → String → Option D.Connected) where
  pub record Keeps (s t : H.State) : Type 0 where
    pub same_devices : (p : String) → devices t p ≡ devices s p
    pub same_files : (p : String) → files t p ≡ files s p

  -- Of the answer about a mount point: without an error it tells whether the path has no mount; with an
  -- error that says that the path is missing, its value is true, and the path has no mount.
  pub record IsAsked : Type 0 where
    pub is_likely-Keeps :
        (s : H.State) (path : String) → Keeps s (D.is_likely_not_mount_point path s).1
    pub is_likely-answers :
        (s : H.State) (path : String) (b : Bool)
        → (D.is_likely_not_mount_point path s).0 ≡ (b, none)
        → b ≡ not (is_some (devices s path))
    pub is_likely-missing :
        (s : H.State) (path : String) (b : Bool) (e : OsError)
        → (D.is_likely_not_mount_point path s).0 ≡ (b, some e)
        → e.is_not_exist ≡ true
        → (b ≡ true) × (devices s path ≡ none)
    pub path_exists-Keeps : (s : H.State) (path : String) → Keeps s (D.path_exists path s).1
    pub path_exists-missing :
        (s : H.State) (path : String) → (D.path_exists path s).0 ≡ ok false → devices s path ≡ none

  -- Mounts: connecting and making directories mounts nothing; a mount that succeeds is there; a device has
  -- one use exactly if it is mounted nowhere else.
  pub record IsBlockMounter : Type 0 where
    pub connect-Keeps : (s : H.State) (c : Connector) → Keeps s (D.connect c s).1
    pub mkdir_all-Keeps : (s : H.State) (path : String) → Keeps s (H.mkdir_all path s).1
    pub mount-mounts :
        (s : H.State) (source target fstype : String) (options : List String)
        → (D.format_and_mount source target fstype options s).0 ≡ ok tt
        → devices (D.format_and_mount source target fstype options s).1 target ≡ some source
    pub mount-devices :
        (s : H.State) (source target fstype : String) (options : List String) (p : String)
        → (D.format_and_mount source target fstype options s).0 ≡ ok tt
        → p ≢ target
        → devices (D.format_and_mount source target fstype options s).1 p ≡ devices s p
    pub mount-files :
        (s : H.State) (source target fstype : String) (options : List String) (p : String)
        → files (D.format_and_mount source target fstype options s).1 p ≡ files s p
    pub unmount-unmounts :
        (s : H.State) (path : String)
        → (D.unmount path s).0 ≡ ok tt
        → devices (D.unmount path s).1 path ≡ none
    pub unmount-devices :
        (s : H.State) (path p : String)
        → (D.unmount path s).0 ≡ ok tt
        → p ≢ path
        → devices (D.unmount path s).1 p ≡ devices s p
    pub unmount-files : (s : H.State) (path p : String) → files (D.unmount path s).1 p ≡ files s p
    pub count-Keeps :
        (s : H.State) (path : String) → Keeps s (D.get_device_name_from_mount path s).1
    pub count-one :
        (s : H.State) (path device device' : String) (p : String)
        → (D.get_device_name_from_mount path s).0 ≡ ok (device', pos 1)
        → devices s path ≡ some device
        → devices s p ≡ some device
        → p ≡ path
    pub count-more :
        (s : H.State) (path device device' : String) (cnt : ℤ)
        → (D.get_device_name_from_mount path s).0 ≡ ok (device', cnt)
        → devices s path ≡ some device
        → cnt ≢ pos 1
        → (p : String) × (p ≢ path) × (devices s p ≡ some device)

  -- Files: a connector that is persisted is in its file; a file that is read holds what is given, and one
  -- that is said to be missing holds none; a file that is removed is gone. Ending a session changes neither a
  -- mount nor a file; removing a path without a mount, and what is below it, leaves the mounts, and the files
  -- whose paths do not begin with it.
  pub record IsFiling : Type 0 where
    pub persist-saves :
        (s : H.State) (c : D.Connected) (path : String)
        → (D.persist_connector c path s).0 ≡ ok tt
        → files (D.persist_connector c path s).1 path ≡ some c
    pub persist-devices :
        (s : H.State) (c : D.Connected) (path p : String)
        → devices (D.persist_connector c path s).1 p ≡ devices s p
    pub persist-others :
        (s : H.State) (c : D.Connected) (path p : String)
        → p ≢ path
        → files (D.persist_connector c path s).1 p ≡ files s p
    pub load-Keeps : (s : H.State) (path : String) → Keeps s (D.get_connector_from_file path s).1
    pub load-missing :
        (s : H.State) (path : String) (e : OsError)
        → (D.get_connector_from_file path s).0 ≡ err e
        → e.is_not_exist ≡ true
        → files s path ≡ none
    pub disconnect_volume-Keeps :
        (s : H.State) (c : D.Connected) → Keeps s (D.disconnect_volume c s).1
    pub disconnect-Keeps :
        (s : H.State) (iqn : String) (portals : List String) → Keeps s (D.disconnect iqn portals s)
    pub remove_all-devices :
        (s : H.State) (path p : String)
        → devices s path ≡ none
        → devices (D.remove_all path s).1 p ≡ devices s p
    pub remove_all-files :
        (s : H.State) (path p : String)
        → starts_with p path ≡ false
        → files (D.remove_all path s).1 p ≡ files s p
    pub remove-others :
        (s : H.State) (path p : String) → p ≢ path → files (D.remove path s).1 p ≡ files s p
    pub remove-removes :
        (s : H.State) (path : String)
        → (D.remove path s).0 ≡ ok tt
        → files (D.remove path s).1 path ≡ none
    pub remove-devices :
        (s : H.State) (path p : String) → devices (D.remove path s).1 p ≡ devices s p

  pub record IsInitiator : Type 0 where
    pub asked : IsAsked
    pub mounter : IsBlockMounter
    pub filing : IsFiling

  pub Keeps-trans : {s t u : H.State} → Keeps s t → Keeps t u → Keeps s u
  Keeps-trans k l = record {
    same_devices = λ p. l.same_devices p ∙ k.same_devices p;
    same_files = λ p. l.same_files p ∙ k.same_files p;
  }
