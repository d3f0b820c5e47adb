-- ===== src/Iscsi/Create.antt =====
-- `iscsiCreateVolume` (pkg/driver/iscsi.go), from its steps.
pub mod Objects
pub mod Provided
pub mod Again
pub mod Failed
pub mod Undone
use truenas_scale_csi.Base.{String, ◌<>◌, List, [], ◌∷◌, ℤ, Exec, pure, lift, attempt, ◌>>=◌, ◌>>◌}
use truenas_scale_csi.Csi.{Error, CreateVolumeRequest, Volume}
use truenas_scale_csi.Libraries.{Libraries}
use truenas_scale_csi.Driver.{Driver}
use truenas_scale_csi.Size.{extract_storage}
use truenas_scale_csi.Caps.{iscsi_check_caps}
use truenas_scale_csi.Nfs.{refuse, out_of_range_error}
use truenas_scale_csi.TrueNas.{Client}
use truenas_scale_csi.Iscsi.{
  iscsi_volume_prefix, target_portal_param, iqn_param, lun_param, portals_param, iscsi_dataset_name,
  get_portal_addr, Cleanup, cleanup1, cleanup2, cleanup3, cleanup4, ensure_volume, ensure_extent,
  ensure_initiator, ensure_target, ensure_target_extent,
}

-- The volume of a response; the LUN is always 0, and there are no further portals.
abbrev pub iscsi_volume : String → ℤ → String → String → Volume
iscsi_volume volume_id size portal_addr iqn_base = record {
  volume_id = volume_id;
  capacity_bytes = size;
  volume_context =
      (target_portal_param, portal_addr)
      ∷ (iqn_param, iqn_base <> ":" <> volume_id)
      ∷ (lun_param, "0")
      ∷ (portals_param, "[]")
      ∷ [];
}

module _ (C : Client) (d : Driver) where
  open C use {Server}

  -- The steps from the dataset on.
  unfoldable pub create_objects : String → ℤ → Exec Server Error (Unit {0})
  create_objects volume_id size = do
    let dataset_name = iscsi_dataset_name d volume_id
    dataset_id ← ensure_volume C dataset_name size
    extent_id ← ensure_extent C (cleanup1 C dataset_id) volume_id ("zvol/" <> dataset_name)
    initiator_id ← ensure_initiator C (cleanup2 C dataset_id extent_id) volume_id
    target_id ←
        ensure_target C (cleanup3 C dataset_id extent_id initiator_id) d.portal_id volume_id
          initiator_id
    ensure_target_extent C (cleanup4 C dataset_id extent_id initiator_id target_id) target_id
        extent_id

module _ (C : Client) (L : Libraries) (d : Driver) where
  open C use {Server}

  unfoldable pub iscsi_create_volume : CreateVolumeRequest → Exec Server Error Volume
  iscsi_create_volume req = do
    refuse (iscsi_check_caps L req.volume_capabilities)
    (iqn_base, portal_addr) ← get_portal_addr C d.portal_id
    let volume_id = iscsi_volume_prefix <> req.name
    size ← lift (out_of_range_error (extract_storage req.capacity_range))
    create_objects C d volume_id size
    pure (iscsi_volume volume_id size portal_addr iqn_base)
