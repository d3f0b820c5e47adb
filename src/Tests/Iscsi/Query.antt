-- ===== src/Tests/Iscsi/Query.antt =====
-- Validating and listing iSCSI volumes on the server in memory.
use truenas_scale_csi.Base.{◌≡◌, refl, ◌↔◌, List, [], ◌∷◌, pos, ok, Elem, inl, inr, ap, parse_int}
use truenas_scale_csi.Csi.{Volume, ValidateRequest}
use truenas_scale_csi.TrueNas.{Dataset, IscsiTarget}
use truenas_scale_csi.TrueNas.Laws.{Same-refl}
use truenas_scale_csi.TrueNas.Memory.{memory, memory_view, datasets_of}
use truenas_scale_csi.TrueNas.Memory.Lawful.{memory-IsStore}
use truenas_scale_csi.TrueNas.Memory.Blocks.{memory-IsBlockStore}
use truenas_scale_csi.Iscsi.Query.{iscsi_list_volumes, iscsi_validate_volume_capabilities}
use truenas_scale_csi.Iscsi.Validate.{
  IsValid, iscsi_confirmed, iscsi_validate_volume_capabilities_iff,
  iscsi_validate_volume_capabilities-created,
}
use truenas_scale_csi.Iscsi.Listing.{
  IsListed, IsEntryOf, HasSizes, iscsi_list_volumes_sound, iscsi_list_volumes_complete,
}
use truenas_scale_csi.Iscsi.Listing.Chain.{Leads}
use truenas_scale_csi.Csi.Keys.{IsMap}
use truenas_scale_csi.Tests.{libs-IsLawful, all_up, libs, driver, request, mount_cap, empty_server}
use truenas_scale_csi.Tests.Iscsi.{opened, created, volume, dataset, target}

abbrev check : ValidateRequest
check = record {
  volume_id = "iscsi-pvc-1";
  volume_context = volume.volume_context;
  volume_capabilities = mount_cap ∷ [];
}

check-IsMap : IsMap check.volume_context
unfolding opened
check-IsMap = (refl, (refl, (refl, (refl, tt))))

iscsi_validate_volume_capabilities_iff_example :
    ((iscsi_validate_volume_capabilities (memory all_up) libs driver check created).0
      ≡ ok (iscsi_confirmed check))
    ↔ (IsValid driver check (dataset ∷ []) × (iscsi_confirmed check ≡ iscsi_confirmed check))
unfolding opened
iscsi_validate_volume_capabilities_iff_example =
    iscsi_validate_volume_capabilities_iff (memory all_up) libs libs-IsLawful driver check created
      check-IsMap (dataset ∷ []) (iscsi_confirmed check) refl

iscsi_validate_volume_capabilities-created_example :
    iscsi_validate_volume_capabilities (memory all_up) libs driver check created
    ≡ (ok (iscsi_confirmed check), created)
unfolding opened
iscsi_validate_volume_capabilities-created_example =
    iscsi_validate_volume_capabilities-created (memory all_up) memory_view (memory-IsStore all_up)
      (memory-IsBlockStore all_up) libs driver request empty_server created volume (mount_cap ∷ [])
      (dataset ∷ []) refl (Same-refl memory_view created) refl refl

abbrev listed_volume : Volume
listed_volume = record {
  volume_id = "iscsi-pvc-1";
  capacity_bytes = pos 2147483648;
  volume_context = [];
}

is_listed :
    IsListed
      (memory all_up)
      memory_view
      (memory-IsStore all_up)
      (memory-IsBlockStore all_up)
      libs
      driver
      created
unfolding opened
is_listed = record {
  datasets = _;
  extents = _;
  mappings = _;
  targets = _;
  s1 = created;
  s2 = created;
  s3 = created;
  s4 = created;
  datasets_up = refl;
  extents_up = refl;
  mappings_up = refl;
  targets_up = refl;
}

iscsi_list_volumes_sound_example :
    (target : IscsiTarget) × Elem target created.targets
    × IsEntryOf
        (memory all_up)
        memory_view
        (memory-IsStore all_up)
        (memory-IsBlockStore all_up)
        libs
        driver
        created
        target
        listed_volume
unfolding opened
iscsi_list_volumes_sound_example =
    iscsi_list_volumes_sound (memory all_up) memory_view (memory-IsStore all_up)
      (memory-IsBlockStore all_up) libs driver created (listed_volume ∷ []) listed_volume is_listed
      refl (inl refl)

only_dataset : (x : Dataset) → Elem x (datasets_of created.stored) → x ≡ dataset
unfolding opened
only_dataset x (inl e) = e
only_dataset x (inr none') = absurd none'

sizes :
    HasSizes
      (memory all_up)
      memory_view
      (memory-IsStore all_up)
      (memory-IsBlockStore all_up)
      libs
      driver
      created
unfolding opened
sizes = record {
  readable =
      λ x e below. (pos 2147483648, ap (λ (y : Dataset). parse_int y.volsize) (only_dataset x e));
}

leads :
    Leads "tank/iscsi/"
      (datasets_of created.stored)
      created.extents
      created.target_extents
      target.id
      dataset
unfolding opened
leads = record {
  dataset = inl refl;
  below = refl;
  extent = record { id = pos 1; name = "iscsi-pvc-1"; path = "zvol/tank/iscsi/iscsi-pvc-1" };
  extent_listed = inl refl;
  path = refl;
  mapping = record { id = pos 4; target = pos 3; extent = pos 1 };
  mapping_listed = inl refl;
  mapped = refl;
  to = refl;
}

iscsi_list_volumes_complete_example :
    (es : List Volume) × ((iscsi_list_volumes (memory all_up) libs driver created).0 ≡ ok es)
    × (v : Volume) × Elem v es
    × IsEntryOf
        (memory all_up)
        memory_view
        (memory-IsStore all_up)
        (memory-IsBlockStore all_up)
        libs
        driver
        created
        target
        v
unfolding opened
iscsi_list_volumes_complete_example =
    iscsi_list_volumes_complete (memory all_up) memory_view (memory-IsStore all_up)
      (memory-IsBlockStore all_up) libs driver created target dataset is_listed sizes (inl refl)
      leads
