-- ===== src/Iscsi/Disk/Table.antt =====
-- A node whose mounts and files are lists, at which the iSCSI node operations are run in tests.
use truenas_scale_csi.Base.{
  String, ◌<>◌, ◌≡◌, ◌≢◌, ◌∙◌, sym, ap, refl, inl, inr, Bool, true, false, not, ◌&&◌, Option, none,
  some, List, [], ◌∷◌, ℤ, pos, Result, ok, err, Elem, first, select, first_sound, first-eq-none,
  is_some, str_eq, eq_iff, eq_refl, Bool-cases, Option-cases,
}
use truenas_scale_csi.Csi.{lookup}
use truenas_scale_csi.Host.{Host, OsError}
use truenas_scale_csi.Iscsi.Info.{Connector}
use truenas_scale_csi.Iscsi.Disk.{Initiator}
use truenas_scale_csi.Iscsi.Disk.Laws.{Keeps, IsAsked, IsBlockMounter, IsFiling, IsInitiator}

module _ {A : Type 0} where
  abbrev is_other : String → String × A → Bool
  is_other path e = not (str_eq e.0 path)

  abbrev without : String → List (String × A) → List (String × A)
  without path entries = select (is_other path) entries

  lookup-without :
      (path : String) (entries : List (String × A)) → lookup path (without path entries) ≡ none
  unfolding lookup
  lookup-without path [] = refl
  lookup-without path ((j, v) ∷ rest) = elim (Bool-cases (str_eq j path)) [
    | inl here ↦ rw here (lookup-without path rest)
    | inr there ↦ rw (there, there) (lookup-without path rest)
  ]

  lookup_other-without :
      (path p : String) (entries : List (String × A))
      → p ≢ path
      → lookup p (without path entries) ≡ lookup p entries
  unfolding lookup
  lookup_other-without path p [] other = refl
  lookup_other-without path p ((j, v) ∷ rest) other = elim (Bool-cases (str_eq j path)) [
    | inl here ↦ elim (Bool-cases (str_eq j p)) [
      | inl same ↦ absurd (other (sym ((eq_iff j p).0 same) ∙ (eq_iff j path).0 here))
      | inr differs ↦ rw (here, differs) (lookup_other-without path p rest other)
    ]
    | inr there ↦ elim (Bool-cases (str_eq j p)) [
      | inl same ↦ rw (there, same) refl
      | inr differs ↦ rw (there, differs) (lookup_other-without path p rest other)
    ]
  ]

  lookup-Elem :
      (p : String) (v : A) (entries : List (String × A))
      → lookup p entries ≡ some v
      → Elem (p, v) entries
  unfolding lookup
  lookup-Elem p v [] h = cc h
  lookup-Elem p v ((j, w) ∷ rest) h = elim (Bool-cases (str_eq j p)) [
    | inl here ↦ inl (
        let value : w ≡ v = cc (rw here at h) in
        let key = (eq_iff j p).0 here in λ i. (sym key i, sym value i))
    | inr there ↦ inr (lookup-Elem p v rest (rw there at h))
  ]

pub record Disks : Type 0 where
  pub mounts : List (String × String)
  pub saved : List (String × Connector)

abbrev pub device_at : Disks → String → Option String
device_at s path = lookup path s.mounts

abbrev pub file_at : Disks → String → Option Connector
file_at s path = lookup path s.saved

abbrev missing : OsError
missing = record { text = "file does not exist"; is_not_exist = true; is_permission = false }

abbrev not_mounted : OsError
not_mounted = record { text = "not mounted"; is_not_exist = false; is_permission = false }

abbrev pub disk_host : Host
disk_host = record {
  State = Disks;
  getenv = λ name. "";
  is_likely_not_mount_point = λ path s. (ok (not (is_some (device_at s path))), s);
  mkdir_all = λ path s. (ok tt, s);
  mount = λ source target fstype options s. (err not_mounted, s);
  cleanup_mount_point = λ path extensive s. (err not_mounted, s);
}

-- Another mount of the device.
abbrev is_also : String → String → Disks → String × String → Bool
is_also path device s e =
    not (str_eq e.0 path) && elim (device_at s e.0) [ none ↦ false | some x ↦ str_eq x device ]

abbrev count_of : Option (String × String) → ℤ
count_of none = pos 1
count_of (some e) = pos 2

abbrev count_at : String → Disks → Option String → String × ℤ
count_at path s none = ("", pos 0)
count_at path s (some device) = (device, count_of (first (is_also path device s) s.mounts))

abbrev unmount_at : String → Disks → Option String → Result OsError (Unit {0}) × Disks
unmount_at path s none = (err not_mounted, s)
unmount_at path s (some device) = (ok tt, record s { mounts = without path s.mounts })

abbrev load_of : {A : Type 0} → Option A → Result OsError A
load_of none = err missing
load_of (some c) = ok c

abbrev pub disk_initiator : Initiator disk_host
disk_initiator = record {
  Connected = Connector;
  target_iqn = λ c. c.target_iqn;
  target_portals = λ c. c.target_portals;
  connect = λ c s. (ok ("/dev/disk/by-path/" <> c.target_iqn, c), s);
  persist_connector = λ c path s. (ok tt, record s { saved = (path, c) ∷ s.saved });
  get_connector_from_file = λ path s. (load_of (file_at s path), s);
  disconnect_volume = λ c s. (ok tt, s);
  disconnect = λ iqn portals s. s;
  is_likely_not_mount_point = λ path s. ((not (is_some (device_at s path)), none), s);
  format_and_mount = λ source target fstype options s.
      (ok tt, record s { mounts = (target, source) ∷ without target s.mounts });
  unmount = λ path s. unmount_at path s (device_at s path);
  get_device_name_from_mount = λ path s. (ok (count_at path s (device_at s path)), s);
  path_exists = λ path s. (ok true, s);
  remove_all = λ path s. (ok tt, s);
  remove = λ path s. (ok tt, record s { saved = without path s.saved });
}

abbrev Same : Disks → Disks → Type 0
Same s t = Keeps disk_host disk_initiator device_at file_at s t

keeps : (s : Disks) → Same s s
keeps s = record { same_devices = λ p. refl; same_files = λ p. refl }

disk-IsAsked : IsAsked disk_host disk_initiator device_at file_at
disk-IsAsked = record {
  is_likely-Keeps = λ s path. keeps s;
  is_likely-answers = λ s path b h. cc h;
  is_likely-missing = λ s path b e h gone. cc h;
  path_exists-Keeps = λ s path. keeps s;
  path_exists-missing = λ s path h. cc h;
}

disk-IsFiling : IsFiling disk_host disk_initiator device_at file_at
unfolding lookup
disk-IsFiling = record {
  persist-saves = λ s c path h. rw (eq_refl path) refl;
  persist-devices = λ s c path p. refl;
  persist-others = λ s c path p other. elim (Bool-cases (str_eq path p)) [
    | inl same ↦ absurd (other (sym ((eq_iff path p).0 same)))
    | inr differs ↦ rw differs refl
  ];
  load-Keeps = λ s path. keeps s;
  load-missing = λ s path e h gone. elim (Option-cases (file_at s path)) [
    | inl none' ↦ none'
    | inr (c, there) ↦ cc (rw there at h)
  ];
  disconnect_volume-Keeps = λ s c. keeps s;
  disconnect-Keeps = λ s iqn portals. keeps s;
  remove_all-devices = λ s path p bare. refl;
  remove_all-files = λ s path p clear. refl;
  remove-others = λ s path p other. lookup_other-without path p s.saved other;
  remove-removes = λ s path h. lookup-without path s.saved;
  remove-devices = λ s path p. refl;
}

also-sole :
    (s : Disks) (path device : String) (p : String)
    → first (is_also path device s) s.mounts ≡ none
    → device_at s p ≡ some device
    → p ≡ path
also-sole s path device p alone here =
    let n =
      first-eq-none (is_also path device s) (p, device) s.mounts alone
        (lookup-Elem p device s.mounts here) in
    elim (Bool-cases (str_eq p path)) [
      | inl same ↦ (eq_iff p path).0 same
      | inr other ↦ cc (rw (other, here, eq_refl device) at n)
    ]

also-other :
    (s : Disks) (path device : String) (e : String × String)
    → first (is_also path device s) s.mounts ≡ some e
    → (p : String) × (p ≢ path) × (device_at s p ≡ some device)
also-other s path device (p, x) found =
    let (_, also) = first_sound (is_also path device s) (p, x) s.mounts found in
    elim (Bool-cases (str_eq p path)) [
      | inl same ↦ cc (rw same at also)
      | inr other ↦ elim (Option-cases (device_at s p)) [
        | inl bare ↦ cc (rw (other, bare) at also)
        | inr (y, there) ↦
            let same : str_eq y device ≡ true = rw (other, there) at also in
            (p, λ e. cc (other, (eq_iff p path).1 e), there ∙ ap some ((eq_iff y device).0 same))
      ]
    ]

disk-IsBlockMounter : IsBlockMounter disk_host disk_initiator device_at file_at
unfolding lookup
disk-IsBlockMounter = record {
  connect-Keeps = λ s c. keeps s;
  mkdir_all-Keeps = λ s path. keeps s;
  mount-mounts = λ s source target fstype options h. rw (eq_refl target) refl;
  mount-devices = λ s source target fstype options p h other. elim (Bool-cases (str_eq target p)) [
    | inl same ↦ absurd (other (sym ((eq_iff target p).0 same)))
    | inr differs ↦ rw differs (lookup_other-without target p s.mounts other)
  ];
  mount-files = λ s source target fstype options p. refl;
  unmount-unmounts = λ s path h. elim (Option-cases (device_at s path)) [
    | inl bare ↦ cc (rw bare at h)
    | inr (x, there) ↦ rw there (lookup-without path s.mounts)
  ];
  unmount-devices = λ s path p h other. elim (Option-cases (device_at s path)) [
    | inl bare ↦ cc (rw bare at h)
    | inr (x, there) ↦ rw there (lookup_other-without path p s.mounts other)
  ];
  unmount-files = λ s path p. elim (Option-cases (device_at s path)) [
    | inl bare ↦ rw bare refl
    | inr (x, there) ↦ rw there refl
  ];
  count-Keeps = λ s path. keeps s;
  count-one = λ s path device device' p h there here.
      elim (Option-cases (first (is_also path device s) s.mounts)) [
        | inl alone ↦ also-sole s path device p alone here
        | inr (e, found) ↦ cc (rw (there, found) at h)
      ];
  count-more = λ s path device device' cnt h there more.
      elim (Option-cases (first (is_also path device s) s.mounts)) [
        | inl alone ↦ absurd (more (cc (rw (there, alone) at h)))
        | inr (e, found) ↦ also-other s path device e found
      ];
}

pub disk-IsInitiator : IsInitiator disk_host disk_initiator device_at file_at
disk-IsInitiator = record {
  asked = disk-IsAsked;
  mounter = disk-IsBlockMounter;
  filing = disk-IsFiling;
}
