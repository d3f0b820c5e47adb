-- ===== src/Tests/Iscsi.antt =====
-- iSCSI volumes on the server in memory.
mod Query
use truenas_scale_csi.Base.{
  String, Bool, true, false, ◌≡◌, refl, ◌≢◌, ◌↔◌, some, List, [], ◌∷◌, ℤ, pos, ok, err, Elem, join,
  inl, inr, ap, ◌⊎◌, parse_int, decimal_ℤ, first,
}
use truenas_scale_csi.Csi.{
  status, internal, Volume, ValidateRequest, found_keys, lookup, lookup_id, put_all,
}
use truenas_scale_csi.Size.{extract_storage}
use truenas_scale_csi.Caps.{iscsi_check_caps}
use truenas_scale_csi.TrueNas.{Dataset, IscsiTarget, IscsiInitiator}
use truenas_scale_csi.TrueNas.Laws.{Same-refl}
use truenas_scale_csi.TrueNas.Memory.{
  Call, on_list_extents, on_create_target_extent, Memory, memory, memory_view, datasets_of,
}
use truenas_scale_csi.TrueNas.Memory.Lawful.{memory-IsStore}
use truenas_scale_csi.TrueNas.Memory.Blocks.{memory-IsBlockStore}
use truenas_scale_csi.Iscsi.{
  get_portal_addr, ensure_volume, ensure_extent, ensure_initiator, ensure_target,
  ensure_target_extent, iscsi_dataset_name, target_named, has_comment,
}
use truenas_scale_csi.Iscsi.Create.{iscsi_volume, create_objects, iscsi_create_volume}
use truenas_scale_csi.Iscsi.Create.Again.{
  IsProvided, IsAnswered, iscsi_create_volume-IsProvided, iscsi_create_volume-again,
}
use truenas_scale_csi.Iscsi.Create.Failed.{SparesDatasets}
use truenas_scale_csi.Iscsi.Create.Undone.{iscsi_create_volume-tries}
use truenas_scale_csi.Iscsi.Cleanup.{iscsi_create_volume-destroys, iscsi_delete_volume-prefix}
use truenas_scale_csi.Iscsi.Delete.{
  dataset_named, delete_volume_target, delete_volume_dataset, delete_volume_initiator,
  iscsi_delete_volume,
}
use truenas_scale_csi.Iscsi.Delete.Removal.{picked}
use truenas_scale_csi.Iscsi.Delete.Gone.{iscsi_delete_volume-gone}
use truenas_scale_csi.Iscsi.Query.{
  iscsi_entries, iscsi_list_volumes, iscsi_validate_volume_capabilities,
}
use truenas_scale_csi.Iscsi.Validate.{
  IsValid, iscsi_confirmed, iscsi_validate_volume_capabilities_iff,
  iscsi_validate_volume_capabilities-created,
}
use truenas_scale_csi.Iscsi.Listing.{
  IsListed, IsEntryOf, HasSizes, iscsi_list_volumes_sound, iscsi_list_volumes_complete,
}
use truenas_scale_csi.Iscsi.Listing.Chain.{Leads}
use truenas_scale_csi.Tests.{all_up, libs, driver, request, mount_cap, empty_server}

pub opened : Unit {0}
unfolding iscsi_create_volume create_objects iscsi_check_caps extract_storage get_portal_addr
    ensure_volume ensure_extent ensure_initiator ensure_target ensure_target_extent join decimal_ℤ
    parse_int iscsi_delete_volume delete_volume_target delete_volume_dataset delete_volume_initiator
    iscsi_validate_volume_capabilities found_keys lookup lookup_id put_all iscsi_entries
    iscsi_list_volumes
opened = tt

abbrev pub created : Memory
created = (iscsi_create_volume (memory all_up) libs driver request empty_server).1

abbrev pub volume : Volume
volume = iscsi_volume "iscsi-pvc-1" (pos 2147483648) "10.0.0.1:3260" "iqn.2005-10.org.freenas.ctl"

abbrev pub dataset : Dataset
dataset = record {
  id = "tank/iscsi/iscsi-pvc-1";
  name = "tank/iscsi/iscsi-pvc-1";
  type = "VOLUME";
  mountpoint = "";
  available = "0";
  refquota = "";
  volsize = "2147483648";
}

abbrev pub target : IscsiTarget
target = record { id = pos 3; name = "iscsi-pvc-1" }

abbrev pub initiator : IscsiInitiator
initiator = record { id = pos 2; comment = "iscsi-pvc-1: Kubernetes managed iSCSI initiator" }

iscsi_create_volume-IsProvided_example :
    (size : ℤ) × (addr : String) × (iqn_base : String) × (extract_storage request.capacity_range
      ≡ ok size)
    × ((get_portal_addr (memory all_up) driver.portal_id empty_server).0 ≡ ok (iqn_base, addr))
    × (volume ≡ iscsi_volume "iscsi-pvc-1" size addr iqn_base)
    × IsProvided
        (memory all_up)
        memory_view
        (memory-IsStore all_up)
        (memory-IsBlockStore all_up)
        libs
        driver
        "iscsi-pvc-1"
        created
unfolding opened
iscsi_create_volume-IsProvided_example =
    iscsi_create_volume-IsProvided (memory all_up) memory_view (memory-IsStore all_up)
      (memory-IsBlockStore all_up) libs driver request empty_server volume refl

answered :
    IsAnswered
      (memory all_up)
      memory_view
      (memory-IsStore all_up)
      (memory-IsBlockStore all_up)
      libs
      driver
      created
      created
unfolding opened
answered = record {
  datasets = _;
  extents = _;
  initiators = _;
  targets = _;
  target_extents = _;
  u1 = created;
  u2 = created;
  u3 = created;
  u4 = created;
  datasets_up = refl;
  extents_up = refl;
  initiators_up = refl;
  targets_up = refl;
  target_extents_up = refl;
}

iscsi_create_volume-again_example :
    iscsi_create_volume (memory all_up) libs driver request created ≡ (ok volume, created)
unfolding opened
iscsi_create_volume-again_example =
    iscsi_create_volume-again (memory all_up) memory_view (memory-IsStore all_up)
      (memory-IsBlockStore all_up) libs driver request empty_server created created created volume
      refl refl (Same-refl memory_view created) answered

-- The mapping cannot be created.
abbrev no_mapping : Call → Bool
no_mapping on_create_target_extent = true
no_mapping c = false

spares : SparesDatasets (memory no_mapping) memory_view
spares = record {
  create_extent = λ p s. refl;
  create_initiator = λ comment s. refl;
  create_target = λ p s. refl;
  create_target_extent = λ p s. refl;
  delete_extent = λ id s. refl;
  delete_initiator = λ id s. refl;
  delete_target = λ id s. refl;
}

abbrev unrelated : Dataset
unrelated = record dataset { id = "tank/other"; name = "tank/other" }

abbrev with_unrelated : Memory
with_unrelated = record empty_server {
  stored =
      record {
        name = "tank/other";
        type = "VOLUME";
        mountpoint = "";
        available = "0";
        refquota = "";
        volsize = "2147483648";
      }
      ∷ [];
}

abbrev with_volume : Memory
with_volume = record with_unrelated {
  stored =
      record {
        name = "tank/iscsi/iscsi-pvc-1";
        type = "VOLUME";
        mountpoint = "";
        available = "0";
        refquota = "";
        volsize = "2147483648";
      }
      ∷ with_unrelated.stored;
}

iscsi_create_volume-tries_example :
    let t = (iscsi_create_volume (memory no_mapping) libs driver request with_unrelated).1 in
    (u : Memory) × (datasets_of u.stored ≡ datasets_of with_volume.stored)
    × (((refused : String) × (((memory no_mapping).delete_dataset "tank/iscsi/iscsi-pvc-1" u).0
            ≡ err refused)
          × (datasets_of t.stored
              ≡ datasets_of
                  ((memory no_mapping).delete_dataset "tank/iscsi/iscsi-pvc-1" u).1.stored))
        ⊎ ((x : Dataset)
            → Elem x (datasets_of t.stored) ↔ (
                Elem x (datasets_of with_volume.stored)
                × (x.name ≢ iscsi_dataset_name driver "iscsi-pvc-1"))))
unfolding opened
iscsi_create_volume-tries_example =
    iscsi_create_volume-tries (memory no_mapping) memory_view (memory-IsStore no_mapping)
      (memory-IsBlockStore no_mapping) spares driver libs request with_unrelated with_unrelated
      with_volume _ (pos 2147483648) "tank/iscsi/iscsi-pvc-1" _ refl refl refl refl refl

-- The extents cannot be listed.
abbrev no_extents : Call → Bool
no_extents on_list_extents = true
no_extents c = false

iscsi_create_volume-destroys_example :
    let (r, t) = iscsi_create_volume (memory no_extents) libs driver request created in
    (r ≡ err (status internal "failed to look for existing iSCSI extents: <nil>"))
    × (¬ Elem dataset (datasets_of t.stored))
unfolding opened
iscsi_create_volume-destroys_example =
    iscsi_create_volume-destroys (memory no_extents) memory_view (memory-IsStore no_extents)
      (memory-IsBlockStore no_extents) libs driver request created created created created
      "iqn.2005-10.org.freenas.ctl" "10.0.0.1:3260" "down" (pos 2147483648) (dataset ∷ []) dataset
      refl refl refl refl refl refl refl

-- "iscsi-pvc-1" is deleted; before it, "iscsi-pvc-10" was created, and its initiator stands first.
abbrev neighbour : IscsiInitiator
neighbour = record { id = pos 9; comment = "iscsi-pvc-10: Kubernetes managed iSCSI initiator" }

abbrev with_neighbour : Memory
with_neighbour = record created { initiators = neighbour ∷ created.initiators }

iscsi_delete_volume-prefix_example :
    ¬ Elem neighbour
      (iscsi_delete_volume (memory all_up) driver "iscsi-pvc-1" with_neighbour).1.initiators
unfolding opened
iscsi_delete_volume-prefix_example =
    iscsi_delete_volume-prefix (memory all_up) memory_view (memory-IsStore all_up)
      (memory-IsBlockStore all_up) libs driver "iscsi-pvc-1" "0" with_neighbour neighbour
      (initiator ∷ []) refl refl refl

iscsi_delete_volume-gone_example :
    let t = (iscsi_delete_volume (memory all_up) driver "iscsi-pvc-1" created).1 in
    (Elem target t.targets ↔ (
      Elem target created.targets
      × (picked (λ x. x.id) (first (target_named "iscsi-pvc-1") created.targets) ≢ some target.id)))
    × (Elem dataset (datasets_of t.stored) ↔ (
        Elem dataset (datasets_of created.stored)
        × (picked
              (λ y. y.id)
              (first
                (dataset_named (iscsi_dataset_name driver "iscsi-pvc-1"))
                (datasets_of created.stored))
            ≢ some dataset.id)))
    × (Elem initiator t.initiators ↔ (
        Elem initiator created.initiators
        × (picked (λ z. z.id) (first (has_comment "iscsi-pvc-1") created.initiators)
            ≢ some initiator.id)))
unfolding opened
iscsi_delete_volume-gone_example =
    iscsi_delete_volume-gone (memory all_up) memory_view (memory-IsStore all_up)
      (memory-IsBlockStore all_up) driver "iscsi-pvc-1" created target dataset initiator refl
