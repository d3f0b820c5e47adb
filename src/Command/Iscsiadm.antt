-- ===== src/Command/Iscsiadm.antt =====
-- `main` of cmd/iscsiadm/main.go, which runs the host's own iscsiadm in its root directory.
use truenas_scale_csi.Base.{
  String, ◌≡◌, refl, true, false, none, some, List, [], ◌∷◌, ok, err, Exec, pure, raise, ◌>>=◌,
  ◌>>◌, ◌on_error◌, attempt, Bool, inl, inr, Bool-cases, first, get_or, str_eq, if◌then◌else◌,
}

-- The calls of `os` and `syscall`. `Exec` replaces the program, or fails.
pub record System : Type 1 where
  pub State : Type 0
  pub getenv : String → String
  pub chroot : String → Exec State String (Unit {0})
  pub stat : String → Exec State String (Unit {0})
  pub exec : String → List String → Exec State String (Unit {0})

abbrev pub iscsi_paths : List String
iscsi_paths =
    "/sbin/iscsiadm" ∷ "/usr/local/sbin/iscsiadm" ∷ "/bin/iscsiadm" ∷ "/usr/local/bin/iscsiadm" ∷ []

abbrev pub chroot_dir : String → String
chroot_dir host_dir = if str_eq host_dir "" then "/host" else host_dir

module _ (S : System) where
  open S use {State}

  -- The first path that is there, or "".
  unfoldable pub find_iscsiadm : List String → Exec State String String
  find_iscsiadm [] = pure ""
  find_iscsiadm (path ∷ paths) = do
    missing ← attempt (S.stat path)
    elim missing [ none ↦ pure path | some e ↦ find_iscsiadm paths ]

  unfoldable pub iscsiadm_path : String → Exec State String String
  iscsiadm_path given = if str_eq given "" then find_iscsiadm iscsi_paths else pure given

  -- `main`, of the arguments after the program's name; an error is logged, and the status is 1.
  unfoldable pub iscsiadm_main : List String → Exec State String (Unit {0})
  iscsiadm_main args = do
    S.chroot (chroot_dir (S.getenv "HOST_DIR")) on_error λ e. raise "failed to chroot"
    path ← iscsiadm_path (S.getenv "ISCSIADM_PATH")
    if str_eq path ""
        then raise "iscsiadm binary not found, consider specifying ISCSIADM_PATH"
        else (S.exec path (path ∷ args) on_error λ e. raise "failed to exec")

module _ (S : System) where
  open S use {State}

  -- The files that are there, by a test that asking does not change.
  pub record IsStat (is_there : String → Bool) (s : State) : Type 0 where
    pub there : (path : String) → is_there path ≡ true → S.stat path s ≡ (ok tt, s)
    pub missing :
        (path : String) → is_there path ≡ false → (e : String) × (S.stat path s ≡ (err e, s))

  -- The search gives the first of the paths that is there, or "" where none is, and changes nothing.
  -- Assumed of the host: asking whether a file is there changes nothing.
  pub find_iscsiadm-first :
      (is_there : String → Bool) (s : State) (paths : List String)
      → IsStat is_there s
      → find_iscsiadm S paths s ≡ (ok (get_or (first is_there paths) ""), s)
  unfolding find_iscsiadm
  find_iscsiadm-first is_there s [] stat = refl
  find_iscsiadm-first is_there s (path ∷ paths) stat = elim (Bool-cases (is_there path)) [
    | inl yes' ↦ rw (yes', stat.there path yes') refl
    | inr no' ↦
        let (e, gone) = stat.missing path no' in
        rw (no', gone) (find_iscsiadm-first is_there s paths stat)
  ]
