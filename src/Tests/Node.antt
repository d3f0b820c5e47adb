-- ===== src/Tests/Node.antt =====
-- Publishing NFS volumes on a node whose mounts are a table.
use truenas_scale_csi.Base.{
  String, ◌<>◌, true, false, ◌≡◌, refl, ◌⊎◌, none, some, ok, get_or, join, pos, decimal_ℤ,
}
use truenas_scale_csi.Csi.{lookup, Volume}
use truenas_scale_csi.Size.{extract_storage, get_server_from_source}
use truenas_scale_csi.Caps.{nfs_check_caps}
use truenas_scale_csi.Host.Table.{Mounts, table, table-IsMounter}
use truenas_scale_csi.TrueNas.Memory.{memory, memory_view}
use truenas_scale_csi.TrueNas.Memory.Lawful.{memory-IsStore}
use truenas_scale_csi.Nfs.{nfs_create_volume, nfs_volume, ensure_dataset, ensure_share}
use truenas_scale_csi.Nfs.Create.{IsProvided}
use truenas_scale_csi.Nfs.Node.{
  PublishRequest, mount_options, ensure_target_path, mount_if, nfs_node_publish_volume,
  nfs_node_unpublish_volume,
}
use truenas_scale_csi.Nfs.Node.Published.{
  wanted, nfs_node_publish_volume-mounted, nfs_node_publish_volume-again,
  nfs_node_publish_volume-created, nfs_node_unpublish_volume-publish,
}
use truenas_scale_csi.Tests.{all_up, libs, driver, request, mount_cap, empty_server}

opened : Unit {0}
unfolding nfs_node_publish_volume nfs_node_unpublish_volume ensure_target_path mount_if lookup
    get_server_from_source nfs_create_volume nfs_check_caps extract_storage ensure_dataset
    ensure_share join decimal_ℤ
opened = tt

abbrev volume : Volume
volume = nfs_volume driver "nfs-pvc-1" (pos 2147483648) "/mnt/tank/nfs/nfs-pvc-1"

abbrev publish : PublishRequest
publish = record {
  volume_id = "nfs-pvc-1";
  target_path = "/var/lib/kubelet/pvc-1";
  volume_capability = some mount_cap;
  readonly = true;
  volume_context = volume.volume_context;
}

abbrev target_path : String
target_path = "/var/lib/kubelet/pvc-1"

abbrev other_path : String
other_path = "/other"

abbrev nothing_mounted : Mounts
nothing_mounted path = none

abbrev published : Mounts
published = (nfs_node_publish_volume table libs publish nothing_mounted).1

nfs_node_publish_volume-mounted_example :
    (published target_path
      ≡ some (get_or (nothing_mounted target_path) (wanted table libs publish)))
    × ((other_path ≡ target_path) ⊎ (published other_path ≡ nothing_mounted other_path))
unfolding opened
nfs_node_publish_volume-mounted_example =
    nfs_node_publish_volume-mounted table (λ s. s) table-IsMounter libs publish nothing_mounted
      other_path refl

nfs_node_publish_volume-again_example :
    nfs_node_publish_volume table libs publish published ≡ (ok tt, published)
unfolding opened
nfs_node_publish_volume-again_example =
    nfs_node_publish_volume-again table (λ s. s) table-IsMounter libs publish nothing_mounted
      published false refl refl refl

nfs_node_unpublish_volume-publish_example :
    (nfs_node_unpublish_volume table (λ path. path) target_path published).1 other_path
    ≡ nothing_mounted other_path
unfolding opened
nfs_node_unpublish_volume-publish_example =
    nfs_node_unpublish_volume-publish table (λ s. s) table-IsMounter libs (λ path. path) publish
      nothing_mounted other_path refl refl refl

nfs_node_publish_volume-created_example :
    (mountpoint : String) × IsProvided
      (memory all_up)
      memory_view
      (memory-IsStore all_up)
      libs
      driver
      "pvc-1"
      mountpoint
      (nfs_create_volume (memory all_up) libs driver request empty_server).1
    × (published target_path
        ≡ some (record {
          source = get_server_from_source libs.is_ipv6_string "nas.local" <> ":" <> mountpoint;
          fstype = "nfs";
          options = mount_options table publish;
        }))
unfolding opened
nfs_node_publish_volume-created_example =
    nfs_node_publish_volume-created table (λ s. s) table-IsMounter (memory all_up) memory_view
      (memory-IsStore all_up) libs driver request empty_server volume publish nothing_mounted refl
      refl refl refl
