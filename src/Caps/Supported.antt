-- ===== src/Caps/Supported.antt =====
-- When the capabilities of a request are accepted (pkg/driver/nfs.go, pkg/driver/iscsi.go).
use truenas_scale_csi.Base.{
  ◌<◌, String, ◌≡◌, refl, ◌↔◌, ◌⊎◌, inl, inr, Bool, true, false, none, some, List, [], ◌∷◌,
  Bool-cases, Elem, arith,
}
use truenas_scale_csi.Libraries.{Libraries, IsLawful}
use truenas_scale_csi.Csi.{
  invalid_argument, Error, status, plain, AccessMode, AccessType, mount, block, unset,
  VolumeCapability,
}
use truenas_scale_csi.Caps.{
  nfs_volume_capabilities, iscsi_volume_capabilities, mode_eq, has_capability, nfs_has_capability,
  iscsi_has_capability, is_mount, violations_of, all_violations, check_caps, nfs_check_caps,
  iscsi_check_caps,
}

-- A file system mount, whatever its type and flags.
abbrev pub IsMount : AccessType → Type 0
IsMount (mount fs_type flags) = Unit
IsMount _ = ⊥

abbrev pub IsSupported : List AccessMode → List VolumeCapability → Type 0
IsSupported modes [] = Unit
IsSupported modes (cap ∷ caps) =
    (Elem cap.access_mode modes × IsMount cap.access_type) × IsSupported modes caps

mode_eq_iff : (a b : AccessMode) → (mode_eq a b ≡ true) ↔ (a ≡ b)
mode_eq_iff a b = ground arith

has_capability_iff :
    (modes : List AccessMode) (m : AccessMode) → (has_capability modes m ≡ true) ↔ Elem m modes
unfolding has_capability
has_capability_iff [] m = (λ h. cc, λ h. absurd h)
has_capability_iff (c ∷ modes) m = ground (arith, has_capability_iff modes m, mode_eq_iff c m)

is_mount-cases :
    (t : AccessType) → ((is_mount t ≡ true) × IsMount t) ⊎ ((is_mount t ≡ false) × (¬ IsMount t))
is_mount-cases (mount fs_type flags) = inl (refl, tt)
is_mount-cases block = inr (refl, λ h. absurd h)
is_mount-cases unset = inr (refl, λ h. absurd h)

abbrev Passes : (AccessMode → Bool) → VolumeCapability → Type 0
Passes has cap = (has cap.access_mode ≡ true) × IsMount cap.access_type

abbrev AllPass : (AccessMode → Bool) → List VolumeCapability → Type 0
AllPass has [] = Unit
AllPass has (cap ∷ caps) = Passes has cap × AllPass has caps

module _ (L : Libraries) (lawful : IsLawful L) (has : AccessMode → Bool) where
  violations_of-keeps :
      (cap : VolumeCapability) (v : L.StringSet)
      → 0 < L.len v
      → 0 < L.len (violations_of L has cap v)
  unfolding violations_of
  violations_of-keeps cap v h = elim (Bool-cases (is_mount cap.access_type)) [
    | inl m ↦ elim (Bool-cases (has cap.access_mode)) [
      | inl k ↦ rw (m, k) h
      | inr k ↦ rw (m, k) (lawful.len-insert _ _)
    ]
    | inr m ↦ rw m (lawful.len-insert _ _)
  ]

  -- A capability passes and adds nothing, or it leaves a violation.
  violations_of-cases :
      (cap : VolumeCapability)
      → (Passes has cap × ((v : L.StringSet) → violations_of L has cap v ≡ v))
        ⊎ ((¬ Passes has cap) × ((v : L.StringSet) → 0 < L.len (violations_of L has cap v)))
  unfolding violations_of
  violations_of-cases cap = elim (is_mount-cases cap.access_type) [
    | inl (m, mounted) ↦ elim (Bool-cases (has cap.access_mode)) [
      | inl k ↦ inl ((k, mounted), λ v. rw (m, k))
      | inr k ↦ inr (λ h. cc (h.0, k), λ v. rw (m, k) (lawful.len-insert _ _))
    ]
    | inr (m, other_type) ↦ inr (λ h. other_type h.1, λ v. rw m (lawful.len-insert _ _))
  ]

  -- A violation, once noted, stays.
  all_violations-keeps :
      (caps : List VolumeCapability) (v : L.StringSet)
      → 0 < L.len v
      → 0 < L.len (all_violations L has caps v)
  unfolding all_violations
  all_violations-keeps [] v h = h
  all_violations-keeps (cap ∷ caps) v h = all_violations-keeps caps _ (violations_of-keeps cap v h)

  all_violations-clean :
      (caps : List VolumeCapability) (v : L.StringSet)
      → AllPass has caps
      → all_violations L has caps v ≡ v
  unfolding all_violations
  all_violations-clean [] v h = refl
  all_violations-clean (cap ∷ caps) v h = elim (violations_of-cases cap) [
    | inl (_, same) ↦ rw same (all_violations-clean caps v h.1)
    | inr (fails, _) ↦ absurd (fails h.0)
  ]

  all_violations-AllPass :
      (caps : List VolumeCapability) (v : L.StringSet)
      → L.len (all_violations L has caps v) ≡ 0
      → AllPass has caps
  unfolding all_violations
  all_violations-AllPass [] v h = tt
  all_violations-AllPass (cap ∷ caps) v h = elim (violations_of-cases cap) [
    | inl (passes, _) ↦ (passes, all_violations-AllPass caps _ h)
    | inr (_, left) ↦ absurd (omega (arith, all_violations-keeps caps _ (left v)))
  ]

  check_caps-eq-none_iff :
      (caps : List VolumeCapability) → (check_caps L has caps ≡ none) ↔ AllPass has caps
  unfolding check_caps
  check_caps-eq-none_iff caps = (
    λ h. all_violations-AllPass caps L.new_string (ground arith),
    λ h. rw (all_violations-clean caps L.new_string h, lawful.len-new_string),
  )

-- What a check refuses, it refuses with the code `InvalidArgument`.
check_caps-code :
    (L : Libraries) (has : AccessMode → Bool) (caps : List VolumeCapability) (e : Error)
    → check_caps L has caps ≡ some e
    → (text : String) × (e ≡ status invalid_argument text)
unfolding check_caps
check_caps-code L has caps (status c text) h = (text, ground arith)
check_caps-code L has caps (plain text) h = absurd (ground arith)

AllPass-IsSupported :
    (modes : List AccessMode) (caps : List VolumeCapability)
    → AllPass (has_capability modes) caps ↔ IsSupported modes caps
AllPass-IsSupported modes [] = (λ h. h, λ h. h)
AllPass-IsSupported modes (cap ∷ caps) =
    ground (arith, has_capability_iff modes cap.access_mode, AllPass-IsSupported modes caps)

-- The NFS check passes exactly if every capability asks for a file system mount with one of the
-- seven modes that the driver lists for NFS.
pub nfs_check_caps-eq-none_iff :
    (L : Libraries) (caps : List VolumeCapability)
    → IsLawful L
    → (nfs_check_caps L caps ≡ none) ↔ IsSupported nfs_volume_capabilities caps
unfolding nfs_check_caps
nfs_check_caps-eq-none_iff L caps lawful =
    let (to, from) = check_caps-eq-none_iff L lawful nfs_has_capability caps in
    let (there, back) = AllPass-IsSupported nfs_volume_capabilities caps in
    (λ h. there (to h), λ h. from (back h))

-- The iSCSI check passes exactly if every capability asks for a file system mount with one of the
-- four single-node modes that the driver lists for iSCSI.
pub iscsi_check_caps-eq-none_iff :
    (L : Libraries) (caps : List VolumeCapability)
    → IsLawful L
    → (iscsi_check_caps L caps ≡ none) ↔ IsSupported iscsi_volume_capabilities caps
unfolding iscsi_check_caps
iscsi_check_caps-eq-none_iff L caps lawful =
    let (to, from) = check_caps-eq-none_iff L lawful iscsi_has_capability caps in
    let (there, back) = AllPass-IsSupported iscsi_volume_capabilities caps in
    (λ h. there (to h), λ h. from (back h))

Elem-nfs_of_iscsi :
    (m : AccessMode) → Elem m iscsi_volume_capabilities → Elem m nfs_volume_capabilities
Elem-nfs_of_iscsi m h = ground arith

IsSupported-nfs_of_iscsi :
    (caps : List VolumeCapability)
    → IsSupported iscsi_volume_capabilities caps
    → IsSupported nfs_volume_capabilities caps
IsSupported-nfs_of_iscsi [] h = tt
IsSupported-nfs_of_iscsi (cap ∷ caps) ((m, t), h) =
    ((Elem-nfs_of_iscsi cap.access_mode m, t), IsSupported-nfs_of_iscsi caps h)

-- What passes the iSCSI check passes the NFS check.
pub nfs_check_caps_of_iscsi :
    (L : Libraries) (caps : List VolumeCapability)
    → IsLawful L
    → iscsi_check_caps L caps ≡ none
    → nfs_check_caps L caps ≡ none
nfs_check_caps_of_iscsi L caps lawful h =
    (nfs_check_caps-eq-none_iff L caps lawful).1
      (IsSupported-nfs_of_iscsi caps ((iscsi_check_caps-eq-none_iff L caps lawful).0 h))
