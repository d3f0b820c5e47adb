-- ===== src/Tests/Disk.antt =====
-- iSCSI volumes on a node whose mounts and files are lists.
mod Tracked
use truenas_scale_csi.Base.{
  String, ◌<>◌, ◌≡◌, ◌≢◌, refl, ◌⊎◌, true, false, none, some, [], ◌∷◌, pos, ok, join, decimal_ℤ,
  parse_int, contains, join_path, clean_path,
}
use truenas_scale_csi.Csi.{lookup, found_keys, Volume}
use truenas_scale_csi.Size.{extract_storage}
use truenas_scale_csi.Caps.{iscsi_check_caps}
use truenas_scale_csi.Driver.{get_iscsi_lib_config_path}
use truenas_scale_csi.TrueNas.Memory.{memory, memory_view}
use truenas_scale_csi.TrueNas.Memory.Lawful.{memory-IsStore}
use truenas_scale_csi.TrueNas.Memory.Blocks.{memory-IsBlockStore}
use truenas_scale_csi.Nfs.Node.{PublishRequest}
use truenas_scale_csi.Iscsi.{
  get_portal_addr, ensure_volume, ensure_extent, ensure_initiator, ensure_target,
  ensure_target_extent,
}
use truenas_scale_csi.Iscsi.Create.{create_objects, iscsi_create_volume, iscsi_volume}
use truenas_scale_csi.Iscsi.Info.{
  Json, Connector, no_secrets, parse_auth, get_iscsi_info, build_iscsi_connector, portal_mounter,
}
use truenas_scale_csi.Iscsi.Disk.{
  attach_disk, attach_connected, ask_mount_point, mount_unless, mount_device, detach_disk,
  detach_if_exists, detach_if_loaded, detach_loaded, detach_session, load_connector,
}
use truenas_scale_csi.Iscsi.Disk.Detached.{IsDetached}
use truenas_scale_csi.Iscsi.Disk.Table.{
  Disks, device_at, file_at, disk_host, disk_initiator, disk-IsInitiator,
}
use truenas_scale_csi.Iscsi.Node.{
  attach_info, iscsi_node_publish_volume, iscsi_node_unpublish_volume,
}
use truenas_scale_csi.Iscsi.Node.Published.{IsPublished, iscsi_node_publish_volume-IsPublished}
use truenas_scale_csi.Iscsi.Node.Unpublished.{
  iscsi_node_unpublish_volume-IsDetached, iscsi_node_unpublish_volume-publish,
}
use truenas_scale_csi.Iscsi.Node.Panics.{Safe}
use truenas_scale_csi.Node.{node_publish_volume}
use truenas_scale_csi.Node.Served.{node_publish_volume-Safe}
use truenas_scale_csi.Node.Created.{IsServed, node_publish_volume-created}
use truenas_scale_csi.Tests.{all_up, libs, driver, request, mount_cap, empty_server}

pub opened : Unit {0}
unfolding iscsi_create_volume create_objects iscsi_check_caps extract_storage get_portal_addr
    ensure_volume ensure_extent ensure_initiator ensure_target ensure_target_extent join decimal_ℤ
    parse_int contains join_path clean_path lookup found_keys parse_auth get_iscsi_info
    build_iscsi_connector portal_mounter attach_disk attach_connected ask_mount_point mount_unless
    mount_device detach_disk detach_if_exists detach_if_loaded detach_loaded detach_session
    load_connector attach_info iscsi_node_publish_volume iscsi_node_unpublish_volume
    node_publish_volume
opened = tt

-- A reader that knows no other text.
abbrev pub no_json : Json
no_json = record {
  unmarshal_list = λ text. ok [];
  unmarshal_map = λ text. none;
  atoi_error_text = λ text. "strconv.Atoi: parsing " <> text;
}

abbrev pub volume : Volume
volume = iscsi_volume "iscsi-pvc-1" (pos 2147483648) "10.0.0.1:3260" "iqn.2005-10.org.freenas.ctl"

abbrev pub target_path : String
target_path = "/var/lib/kubelet/pvc-1"

abbrev pub publish : PublishRequest
publish = record {
  volume_id = "iscsi-pvc-1";
  target_path = target_path;
  volume_capability = some mount_cap;
  readonly = false;
  volume_context = volume.volume_context;
}

abbrev pub empty_node : Disks
empty_node = record { mounts = []; saved = [] }

abbrev published : Disks
published =
    (iscsi_node_publish_volume disk_host disk_initiator libs no_json driver publish empty_node).1

abbrev connector : Connector
connector = record {
  volume_name = "iscsi-pvc-1";
  target_iqn = "iqn.2005-10.org.freenas.ctl:iscsi-pvc-1";
  target_portals = "10.0.0.1:3260" ∷ [];
  lun = pos 0;
  do_discovery = true;
  session_secrets = no_secrets;
  discovery_secrets = no_secrets;
}

abbrev device : String
device = "/dev/disk/by-path/iqn.2005-10.org.freenas.ctl:iscsi-pvc-1"

published_test : published ≡ record {
  mounts = (target_path, device) ∷ [];
  saved = ("/csi/iscsi_config/iscsi-pvc-1.json", connector) ∷ [];
}
unfolding opened
published_test = refl

iscsi_node_publish_volume-IsPublished_example :
    IsPublished disk_host disk_initiator device_at file_at disk-IsInitiator libs no_json driver
      publish empty_node published
unfolding opened
iscsi_node_publish_volume-IsPublished_example =
    iscsi_node_publish_volume-IsPublished disk_host disk_initiator device_at file_at
      disk-IsInitiator libs no_json driver publish empty_node refl

abbrev unpublished : Disks
unpublished =
    (iscsi_node_unpublish_volume disk_host disk_initiator libs driver "iscsi-pvc-1" target_path
      published).1

iscsi_node_unpublish_volume-publish_example :
    (device_at unpublished "/other" ≡ device_at empty_node "/other")
    × ((file_at unpublished (get_iscsi_lib_config_path driver "iscsi-pvc-1") ≡ none)
        ⊎ ((x : String) × (q : String) × (q ≢ target_path)
            × (device_at published target_path ≡ some x)
            × (device_at empty_node q ≡ some x)))
unfolding opened
iscsi_node_unpublish_volume-publish_example =
    iscsi_node_unpublish_volume-publish disk_host disk_initiator device_at file_at disk-IsInitiator
      libs no_json driver publish empty_node "/other" refl refl refl

node_publish_volume-Safe_example :
    Safe (node_publish_volume disk_host disk_initiator libs driver no_json publish)
node_publish_volume-Safe_example =
    node_publish_volume-Safe disk_host disk_initiator libs driver no_json publish

node_publish_volume-created_example :
    (addr : String) × (iqn_base : String) × ((get_portal_addr
        (memory all_up)
        driver.portal_id
        empty_server).0
      ≡ ok (iqn_base, addr))
    × IsServed
        (memory all_up)
        memory_view
        (memory-IsStore all_up)
        (memory-IsBlockStore all_up)
        disk_host
        disk_initiator
        device_at
        file_at
        disk-IsInitiator
        libs
        no_json
        iqn_base
        addr
        "iscsi-pvc-1"
        target_path
        empty_node
        published
unfolding opened
node_publish_volume-created_example =
    node_publish_volume-created (memory all_up) memory_view (memory-IsStore all_up)
      (memory-IsBlockStore all_up) disk_host disk_initiator device_at file_at disk-IsInitiator libs
      no_json driver driver request empty_server volume publish empty_node refl refl refl refl refl
      refl refl
