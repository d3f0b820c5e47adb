-- ===== src/Host/Table.antt =====
-- A node whose mounts are a function from paths, at which the node operations are run in tests.
use truenas_scale_csi.Base.{
  String, not, ◌≡◌, ◌≢◌, refl, Option, none, some, ok, is_some, str_eq, eq_iff, eq_refl,
  if◌then◌else◌, arith,
}
use truenas_scale_csi.Host.{Host}
use truenas_scale_csi.Host.Laws.{Mounted, IsMounter}

abbrev pub Mounts : Type 0
Mounts = String → Option Mounted

abbrev pub put : String → Option Mounted → Mounts → Mounts
put path m mounts p = if str_eq p path then m else mounts p

abbrev pub table : Host
table = record {
  State = Mounts;
  getenv = λ name. "";
  is_likely_not_mount_point = λ path s. (ok (not (is_some (s path))), s);
  mkdir_all = λ path s. (ok tt, s);
  mount = λ source target fstype options s.
      (ok tt, put target (some (record { source = source; fstype = fstype; options = options })) s);
  cleanup_mount_point = λ path extensive s. (ok tt, put path none s);
}

put-same : (path : String) (m : Option Mounted) (s : Mounts) → put path m s path ≡ m
put-same path m s = rw (eq_refl path) refl

put-other : (path p : String) (m : Option Mounted) (s : Mounts) → p ≢ path → put path m s p ≡ s p
put-other path p m s other = ground (arith, eq_iff p path)

pub table-IsMounter : IsMounter table (λ s. s)
table-IsMounter = record {
  is_likely-keeps = λ s path p. refl;
  is_likely-answers = λ s path b h. cc h;
  is_likely-missing = λ s path e h missing. cc h;
  mkdir_all-keeps = λ s path p. refl;
  mount-mounts = λ s source target fstype options h. put-same target _ s;
  mount-keeps = λ s source target fstype options p h other. put-other target p _ s other;
  cleanup-unmounts = λ s path extensive h. put-same path none s;
  cleanup-keeps = λ s path extensive p h other. put-other path p none s other;
}
