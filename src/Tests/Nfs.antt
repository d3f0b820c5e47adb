-- ===== src/Tests/Nfs.antt =====
-- NFS volumes on the server in memory, which is of the older kind: its shares are created by the second call.
use truenas_scale_csi.Base.{
  String, ◌≡◌, refl, ◌≢◌, ◌↔◌, List, [], ◌∷◌, ℤ, pos, ok, Elem, join, inl, inr, sym, ap, ◌∙◌,
  parse_int, decimal_ℤ, trim_prefix,
}
use truenas_scale_csi.Csi.{Volume, ValidateRequest}
use truenas_scale_csi.Size.{extract_storage}
use truenas_scale_csi.Caps.{nfs_check_caps}
use truenas_scale_csi.TrueNas.{Dataset, ShareNfs}
use truenas_scale_csi.TrueNas.Laws.{Same-refl}
use truenas_scale_csi.TrueNas.Memory.{Memory, memory, memory_view, datasets_of}
use truenas_scale_csi.TrueNas.Memory.Lawful.{memory-IsStore}
use truenas_scale_csi.Nfs.{
  nfs_create_volume, nfs_delete_volume, nfs_validate_volume_capabilities, nfs_volume,
  ensure_dataset, ensure_share, nfs_dataset_name, nfs_list_volumes, nfs_entries, by_mountpoint,
  has_dataset,
}
use truenas_scale_csi.Nfs.Listing.{
  IsEntryOf, HasQuotas, nfs_list_volumes_sound, nfs_list_volumes_complete,
}
use truenas_scale_csi.Nfs.Lifecycle.{HasMounts, nfs_list_volumes-created}
use truenas_scale_csi.TrueNas.Find.{normalise_nfs_share_mountpaths}
use truenas_scale_csi.Csi.{lookup, found_keys}
use truenas_scale_csi.Nfs.Create.{IsProvided, nfs_create_volume-IsProvided, nfs_create_volume-again}
use truenas_scale_csi.Nfs.Delete.{nfs_delete_volume-gone}
use truenas_scale_csi.Nfs.Validate.{
  IsValid, nfs_confirmed, nfs_validate_volume_capabilities_iff,
  nfs_validate_volume_capabilities-created,
}
use truenas_scale_csi.Csi.Keys.{IsMap}
use truenas_scale_csi.Tests.{libs-IsLawful, all_up, libs, driver, request, mount_cap, empty_server}

opened : Unit {0}
unfolding nfs_create_volume nfs_check_caps extract_storage ensure_dataset ensure_share
    nfs_delete_volume nfs_validate_volume_capabilities join nfs_list_volumes nfs_entries
    by_mountpoint has_dataset normalise_nfs_share_mountpaths lookup found_keys parse_int decimal_ℤ
    trim_prefix
opened = tt

abbrev created : Memory
created = (nfs_create_volume (memory all_up) libs driver request empty_server).1

abbrev volume : Volume
volume = nfs_volume driver "nfs-pvc-1" (pos 2147483648) "/mnt/tank/nfs/nfs-pvc-1"

abbrev deleted : Memory
deleted = record created { stored = [] }

abbrev dataset : Dataset
dataset = record {
  id = "tank/nfs/nfs-pvc-1";
  name = "tank/nfs/nfs-pvc-1";
  type = "FILESYSTEM";
  mountpoint = "/mnt/tank/nfs/nfs-pvc-1";
  available = "0";
  refquota = "2147483648";
  volsize = "";
}

abbrev the_share : ShareNfs
the_share = record { id = pos 1; path = ""; paths = "/mnt/tank/nfs/nfs-pvc-1" ∷ [] }

abbrev check : ValidateRequest
check = record {
  volume_id = "nfs-pvc-1";
  volume_context = volume.volume_context;
  volume_capabilities = mount_cap ∷ [];
}

volume_created : (nfs_create_volume (memory all_up) libs driver request empty_server).0 ≡ ok volume
unfolding opened
volume_created = refl

nfs_create_volume-again_example :
    nfs_create_volume (memory all_up) libs driver request created ≡ (ok volume, created)
unfolding opened
nfs_create_volume-again_example =
    nfs_create_volume-again (memory all_up) memory_view (memory-IsStore all_up) libs driver request
      empty_server created volume _ _ refl (Same-refl memory_view created) refl refl

nfs_create_volume-IsProvided_example :
    (size : ℤ) × (mountpoint : String) × (extract_storage request.capacity_range ≡ ok size)
    × (volume ≡ nfs_volume driver "nfs-pvc-1" size mountpoint)
    × IsProvided
        (memory all_up)
        memory_view
        (memory-IsStore all_up)
        libs
        driver
        "pvc-1"
        mountpoint
        created
unfolding opened
nfs_create_volume-IsProvided_example =
    nfs_create_volume-IsProvided (memory all_up) memory_view (memory-IsStore all_up) libs driver
      request empty_server volume refl

nfs_delete_volume-gone_example :
    Elem dataset
      (datasets_of (nfs_delete_volume (memory all_up) libs driver "nfs-pvc-1" created).1.stored)
    ↔ (Elem dataset (datasets_of created.stored)
        × (dataset.name ≢ nfs_dataset_name driver "nfs-pvc-1"))
unfolding opened
nfs_delete_volume-gone_example =
    nfs_delete_volume-gone (memory all_up) memory_view (memory-IsStore all_up) libs driver
      "nfs-pvc-1" created dataset refl

check-IsMap : IsMap check.volume_context
unfolding opened
check-IsMap = (refl, (refl, tt))

nfs_validate_volume_capabilities_iff_example :
    ((nfs_validate_volume_capabilities (memory all_up) libs driver check created).0
      ≡ ok (nfs_confirmed check))
    ↔ (IsValid driver check (dataset ∷ []) × (nfs_confirmed check ≡ nfs_confirmed check))
unfolding opened
nfs_validate_volume_capabilities_iff_example =
    nfs_validate_volume_capabilities_iff (memory all_up) libs libs-IsLawful driver check created
      check-IsMap (dataset ∷ []) (nfs_confirmed check) refl

nfs_validate_volume_capabilities-created_example :
    nfs_validate_volume_capabilities (memory all_up) libs driver check created
    ≡ (ok (nfs_confirmed check), created)
unfolding opened
nfs_validate_volume_capabilities-created_example =
    nfs_validate_volume_capabilities-created (memory all_up) memory_view (memory-IsStore all_up)
      libs driver request empty_server created volume (mount_cap ∷ []) (dataset ∷ []) refl
      (Same-refl memory_view created) refl refl

abbrev listed_volume : Volume
listed_volume = record {
  volume_id = "nfs-pvc-1";
  capacity_bytes = pos 2147483648;
  volume_context = [];
}

nfs_list_volumes_sound_example :
    (share : ShareNfs) × Elem share created.shares
    × IsEntryOf driver (datasets_of created.stored) share listed_volume
unfolding opened
nfs_list_volumes_sound_example =
    nfs_list_volumes_sound (memory all_up) memory_view (memory-IsStore all_up) libs driver created _
      _ (listed_volume ∷ []) listed_volume refl refl refl (inl refl)

-- The only dataset is the volume's.
only_dataset : (x : Dataset) → Elem x (datasets_of created.stored) → x ≡ dataset
unfolding opened
only_dataset x (inl e) = e
only_dataset x (inr none') = absurd none'

quotas : HasQuotas (memory all_up) memory_view (memory-IsStore all_up) libs driver created
unfolding opened
quotas = record {
  readable =
      λ x e inside. (pos 2147483648, ap (λ (y : Dataset). parse_int y.refquota) (only_dataset x e));
}

mounts : HasMounts (memory all_up) memory_view (memory-IsStore all_up) libs driver created
unfolding opened
mounts = record {
  mounted = λ x e inside bare. cc (ap (λ (y : Dataset). y.mountpoint) (only_dataset x e), bare);
  apart =
      λ x y e e' same. ap (λ (z : Dataset). z.name) (only_dataset x e ∙ sym (only_dataset y e'));
}

nfs_list_volumes_complete_example :
    (es : List Volume) × ((nfs_list_volumes (memory all_up) libs driver created).0 ≡ ok es)
    × (v : Volume) × Elem v es
    × IsEntryOf driver (datasets_of created.stored) the_share v
unfolding opened
nfs_list_volumes_complete_example =
    nfs_list_volumes_complete (memory all_up) memory_view (memory-IsStore all_up) libs driver
      created _ _ the_share dataset refl refl quotas (inl refl) (inl refl) refl refl (λ e. cc e)

nfs_list_volumes-created_example :
    (es : List Volume) × ((nfs_list_volumes (memory all_up) libs driver created).0 ≡ ok es)
    × (w : Volume) × Elem w es
    × (w.volume_id ≡ "nfs-pvc-1")
unfolding opened
nfs_list_volumes-created_example =
    nfs_list_volumes-created (memory all_up) memory_view (memory-IsStore all_up) libs driver request
      empty_server created volume _ _ refl (Same-refl memory_view created) refl refl quotas mounts
