-- ===== src/Tests/Disk/Tracked.antt =====
-- Two iSCSI volumes on a node that has another mount, and then one of them.
use truenas_scale_csi.Base.{
  String, ◌<>◌, ◌≡◌, ◌∙◌, refl, sym, Bool, true, ◌||◌, inl, inr, pos, some, [], ◌∷◌, str_eq, eq_iff,
  Bool-cases, none, false, ap, ◌≢◌, ◌⊎◌,
}
use truenas_scale_csi.Driver.{get_iscsi_lib_config_path}
use truenas_scale_csi.Nfs.Node.{PublishRequest}
use truenas_scale_csi.Iscsi.Create.{iscsi_volume}
use truenas_scale_csi.Iscsi.Disk.Table.{
  Disks, device_at, file_at, disk_host, disk_initiator, disk-IsInitiator,
}
use truenas_scale_csi.Iscsi.Node.{iscsi_node_publish_volume, iscsi_node_unpublish_volume}
use truenas_scale_csi.Iscsi.Node.Tracked.{
  Entry, Table, nothing, put, FilesApart, ClearOf, Runs, start, published, unpublished, Tracks,
}
use truenas_scale_csi.Iscsi.Node.Tracked.Reached.{Runs-Tracks}
use truenas_scale_csi.Tests.{libs, driver}
use truenas_scale_csi.Tests.Disk.{opened, no_json, publish, target_path}

abbrev is_volume : String → Bool
is_volume id = str_eq id "iscsi-pvc-1" || str_eq id "iscsi-pvc-2"

is_volume-cases : (id : String) → is_volume id ≡ true → (id ≡ "iscsi-pvc-1") ⊎ (id ≡ "iscsi-pvc-2")
is_volume-cases id h = elim (Bool-cases (str_eq id "iscsi-pvc-1")) [
  | inl first ↦ inl ((eq_iff id "iscsi-pvc-1").0 first)
  | inr other ↦ inr ((eq_iff id "iscsi-pvc-2").0 (rw other at h))
]

files_differ :
    get_iscsi_lib_config_path driver "iscsi-pvc-1" ≢ get_iscsi_lib_config_path driver "iscsi-pvc-2"
unfolding opened
files_differ same =
    let bad : true ≡ false = ap (λ p. str_eq p "/csi/iscsi_config/iscsi-pvc-1.json") same in cc bad

apart :
    FilesApart disk_host disk_initiator device_at file_at disk-IsInitiator libs no_json driver
      is_volume
unfolding opened
apart a b here there same = elim (is_volume-cases a here) [
  | inl e ↦ elim (is_volume-cases b there) [
    | inl f ↦ e ∙ sym f
    | inr f ↦ absurd (files_differ (rw (e, f) at same))
  ]
  | inr e ↦ elim (is_volume-cases b there) [
    | inl f ↦ absurd (files_differ (sym (rw (e, f) at same)))
    | inr f ↦ e ∙ sym f
  ]
]

abbrev second_path : String
second_path = "/var/lib/kubelet/pvc-2"

abbrev second : PublishRequest
second = record publish {
  volume_id = "iscsi-pvc-2";
  target_path = second_path;
  volume_context =
      (iscsi_volume "iscsi-pvc-2" (pos 2147483648) "10.0.0.1:3260"
        "iqn.2005-10.org.freenas.ctl").volume_context;
}

-- The node has another mount.
abbrev node : Disks
node = record { mounts = ("/data", "/dev/sda1") ∷ []; saved = [] }

abbrev one_mount : Disks
one_mount = (iscsi_node_publish_volume disk_host disk_initiator libs no_json driver publish node).1

abbrev two_mounts : Disks
two_mounts =
    (iscsi_node_publish_volume disk_host disk_initiator libs no_json driver second one_mount).1

abbrev one_left : Disks
one_left =
    (iscsi_node_unpublish_volume disk_host disk_initiator libs driver "iscsi-pvc-1" target_path
      two_mounts).1

abbrev device : String
device = "/dev/disk/by-path/iqn.2005-10.org.freenas.ctl:"

abbrev entry : String → Entry
entry id = record { id = id; device = device <> id }

abbrev both : Table
both =
    put second_path (some (entry "iscsi-pvc-2"))
      (put target_path (some (entry "iscsi-pvc-1")) nothing)

clear :
    ClearOf disk_host disk_initiator device_at file_at disk-IsInitiator libs no_json driver
      is_volume target_path
unfolding opened
clear id h = elim (is_volume-cases id h) [ inl e ↦ rw e refl | inr e ↦ rw e refl ]

entry-other : (e : Entry) → some (entry "iscsi-pvc-1") ≡ some e → e.id ≢ "iscsi-pvc-2"
entry-other e h same =
    let h' : entry "iscsi-pvc-1" ≡ e = cc h in
    let ids : "iscsi-pvc-1" ≡ "iscsi-pvc-2" = ap (λ (x : Entry). x.id) h' ∙ same in
    let bad : true ≡ false = ap (λ id. str_eq id "iscsi-pvc-1") ids in cc bad

run :
    Runs disk_host disk_initiator device_at file_at disk-IsInitiator libs no_json driver is_volume
      node
      (put target_path none both)
      one_left
unfolding opened
run =
    unpublished target_path (entry "iscsi-pvc-1")
      (published second (device <> "iscsi-pvc-2")
        (published publish (device <> "iscsi-pvc-1") start refl refl (λ p e h. cc h) refl refl) refl
        refl
        (λ p e h. elim (Bool-cases (str_eq p target_path)) [
          | inl here ↦ entry-other e (rw here at h)
          | inr there ↦ cc (rw there at h)
        ])
        refl refl)
      refl clear refl

Runs-Tracks_example :
    Tracks disk_host disk_initiator device_at file_at disk-IsInitiator libs no_json driver is_volume
      node
      (put target_path none both)
      one_left
Runs-Tracks_example =
    Runs-Tracks disk_host disk_initiator device_at file_at disk-IsInitiator libs no_json driver
      is_volume apart node (put target_path none both) one_left run
