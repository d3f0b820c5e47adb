-- ===== src/Caps.antt =====
-- Access modes and the checks of volume capabilities: the first parts of pkg/driver/nfs.go and
-- pkg/driver/iscsi.go, which differ in the list of modes.
pub mod Supported
use truenas_scale_csi.Base.{
  ℕ, zero, String, ◌<>◌, Bool, true, false, not, Option, none, some, List, [], ◌∷◌, ltb, nat_eq,
  if◌then◌else◌, join,
}
use truenas_scale_csi.Libraries.{Libraries}
use truenas_scale_csi.Csi.{
  Code, invalid_argument, Error, status, AccessMode, single_node_writer, single_node_reader_only,
  multi_node_reader_only, multi_node_single_writer, multi_node_multi_writer,
  single_node_single_writer, single_node_multi_writer, other, AccessType, mount, block, unset,
  VolumeCapability,
}

abbrev pub nfs_volume_capabilities : List AccessMode
nfs_volume_capabilities =
    single_node_writer ∷ single_node_reader_only ∷ multi_node_reader_only ∷ multi_node_single_writer
    ∷ multi_node_multi_writer ∷ single_node_single_writer ∷ single_node_multi_writer ∷ []

abbrev pub iscsi_volume_capabilities : List AccessMode
iscsi_volume_capabilities =
    single_node_writer ∷ single_node_reader_only ∷ single_node_single_writer
    ∷ single_node_multi_writer ∷ []

-- `==` on access modes.
abbrev pub mode_eq : AccessMode → AccessMode → Bool
mode_eq single_node_writer single_node_writer = true
mode_eq single_node_reader_only single_node_reader_only = true
mode_eq multi_node_reader_only multi_node_reader_only = true
mode_eq multi_node_single_writer multi_node_single_writer = true
mode_eq multi_node_multi_writer multi_node_multi_writer = true
mode_eq single_node_single_writer single_node_single_writer = true
mode_eq single_node_multi_writer single_node_multi_writer = true
mode_eq (other m) (other n) = nat_eq m n
mode_eq _ _ = false

-- The loop of `nfsHasCapability` and of `iscsiHasCapability`, over the list of each.
unfoldable pub has_capability : List AccessMode → AccessMode → Bool
has_capability [] capability = false
has_capability (cs ∷ rest) capability =
    let later = has_capability rest capability in if mode_eq cs capability then true else later

unfoldable pub nfs_has_capability : AccessMode → Bool
unfolding has_capability
nfs_has_capability = has_capability nfs_volume_capabilities

unfoldable pub iscsi_has_capability : AccessMode → Bool
unfolding has_capability
iscsi_has_capability = has_capability iscsi_volume_capabilities

abbrev is_mount : AccessType → Bool
is_mount (mount fs_type flags) = true
is_mount _ = false

module _ (L : Libraries) (has : AccessMode → Bool) where
  -- One round of the loop: what it inserts for a capability.
  violations_of : VolumeCapability → L.StringSet → L.StringSet
  violations_of cap violations =
      let cap_mode = cap.access_mode in
      let found =
        if has cap_mode
        then violations
        else L.insert violations ("unsupported access mode " <> L.mode_text cap_mode) in
      if is_mount cap.access_type
      then found
      else L.insert found ("unsupported access type " <> L.access_type_text cap.access_type)

  all_violations : List VolumeCapability → L.StringSet → L.StringSet
  all_violations [] violations = violations
  all_violations (cap ∷ caps) violations = all_violations caps (violations_of cap violations)

  -- `nil` is `none`.
  unfoldable pub check_caps : List VolumeCapability → Option Error
  unfolding all_violations violations_of
  check_caps caps =
      let violations = all_violations caps L.new_string in
      if ltb 0 (L.len violations)
      then some (
          status invalid_argument
            ("volume capabilities cannot be satisified: " <> join "; " (L.list violations)))
      else none

unfoldable pub nfs_check_caps : Libraries → List VolumeCapability → Option Error
unfolding check_caps nfs_has_capability
nfs_check_caps L = check_caps L nfs_has_capability

unfoldable pub iscsi_check_caps : Libraries → List VolumeCapability → Option Error
unfolding check_caps iscsi_has_capability
iscsi_check_caps L = check_caps L iscsi_has_capability
