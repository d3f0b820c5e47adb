-- ===== src/Tests/Caps.antt =====
-- Capabilities at concrete requests.
use truenas_scale_csi.Base.{◌≡◌, refl, ◌↔◌, none, some, List, [], ◌∷◌, arith}
use truenas_scale_csi.Csi.{
  VolumeCapability, multi_node_multi_writer, block, status, invalid_argument,
}
use truenas_scale_csi.Caps.{
  nfs_check_caps, iscsi_check_caps, nfs_volume_capabilities, iscsi_volume_capabilities,
}
use truenas_scale_csi.Caps.Supported.{
  IsSupported, nfs_check_caps-eq-none_iff, iscsi_check_caps-eq-none_iff,
}
use truenas_scale_csi.Tests.{libs, libs-IsLawful, mount_cap}

abbrev shared_block : VolumeCapability
shared_block = record { access_mode = multi_node_multi_writer; access_type = block }

two_violations :
    iscsi_check_caps libs (shared_block ∷ [])
    ≡ some (
        status invalid_argument
          "volume capabilities cannot be satisified: unsupported access type type; unsupported access mode mode")
unfolding iscsi_check_caps truenas_scale_csi.Base.join
two_violations = refl

nfs_check_caps-eq-none_iff_example :
    (nfs_check_caps libs (shared_block ∷ []) ≡ none)
    ↔ IsSupported nfs_volume_capabilities (shared_block ∷ [])
nfs_check_caps-eq-none_iff_example =
    nfs_check_caps-eq-none_iff libs (shared_block ∷ []) libs-IsLawful

iscsi_check_caps-eq-none_iff_example :
    (iscsi_check_caps libs (mount_cap ∷ []) ≡ none)
    ↔ IsSupported iscsi_volume_capabilities (mount_cap ∷ [])
iscsi_check_caps-eq-none_iff_example =
    iscsi_check_caps-eq-none_iff libs (mount_cap ∷ []) libs-IsLawful
