-- ===== src/Tests/Controller.antt =====
-- The controller service on the server in memory, for a driver of the NFS kind.
use truenas_scale_csi.Base.{String, ◌≡◌, refl, ◌≢◌, ◌↔◌, Elem, pos, ◌∷◌, [], join, decimal_ℤ}
use truenas_scale_csi.Csi.{status, unknown, Volume}
use truenas_scale_csi.Size.{extract_storage}
use truenas_scale_csi.Caps.{nfs_check_caps}
use truenas_scale_csi.TrueNas.{Dataset}
use truenas_scale_csi.TrueNas.Memory.{Memory, memory, memory_view, datasets_of}
use truenas_scale_csi.TrueNas.Memory.Lawful.{memory-IsStore}
use truenas_scale_csi.TrueNas.Memory.Blocks.{memory-IsBlockStore}
use truenas_scale_csi.Nfs.{
  nfs_create_volume, nfs_delete_volume, nfs_volume, ensure_dataset, ensure_share,
}
use truenas_scale_csi.Iscsi.Delete.{
  delete_volume_target, delete_volume_dataset, delete_volume_initiator, iscsi_delete_volume,
}
use truenas_scale_csi.Controller.{create_volume, delete_volume}
use truenas_scale_csi.Controller.Dispatch.{IsAnswer, create_volume-IsAnswer}
use truenas_scale_csi.Controller.Delete.{
  dataset_name_of, delete_code, delete_volume-delete_code, delete_volume-gone,
}
use truenas_scale_csi.Tests.{all_up, libs, driver, request, empty_server}

opened : Unit {0}
unfolding create_volume delete_volume nfs_create_volume nfs_check_caps extract_storage
    ensure_dataset ensure_share nfs_delete_volume join decimal_ℤ iscsi_delete_volume
    delete_volume_target delete_volume_dataset delete_volume_initiator
opened = tt

abbrev volume : Volume
volume = nfs_volume driver "nfs-pvc-1" (pos 2147483648) "/mnt/tank/nfs/nfs-pvc-1"

create_volume-IsAnswer_example :
    IsAnswer
      (memory all_up)
      memory_view
      (memory-IsStore all_up)
      (memory-IsBlockStore all_up)
      libs
      driver
      request
      volume
unfolding opened
create_volume-IsAnswer_example =
    create_volume-IsAnswer (memory all_up) memory_view (memory-IsStore all_up)
      (memory-IsBlockStore all_up) libs driver request empty_server volume refl

delete_volume-delete_code_example :
    (text : String) × (status unknown "Unknown volume type: pvc-1"
      ≡ status (delete_code "pvc-1") text)
unfolding opened
delete_volume-delete_code_example =
    delete_volume-delete_code (memory all_up) libs driver "pvc-1" empty_server
      (status unknown "Unknown volume type: pvc-1") refl

abbrev block_volume : Dataset
block_volume = record {
  id = "tank/iscsi/iscsi-a";
  name = "tank/iscsi/iscsi-a";
  type = "VOLUME";
  mountpoint = "";
  available = "0";
  refquota = "";
  volsize = "1073741824";
}

abbrev with_block_volume : Memory
with_block_volume = record empty_server {
  stored =
      record {
        name = "tank/iscsi/iscsi-a";
        type = "VOLUME";
        mountpoint = "";
        available = "0";
        refquota = "";
        volsize = "1073741824";
      }
      ∷ [];
}

delete_volume-gone_example :
    Elem block_volume
      (datasets_of (delete_volume (memory all_up) libs driver "iscsi-a" with_block_volume).1.stored)
    ↔ (Elem block_volume (datasets_of with_block_volume.stored)
        × (block_volume.name ≢ dataset_name_of driver "iscsi-a"))
unfolding opened
delete_volume-gone_example =
    delete_volume-gone (memory all_up) memory_view (memory-IsStore all_up)
      (memory-IsBlockStore all_up) libs driver "iscsi-a" with_block_volume block_volume refl
