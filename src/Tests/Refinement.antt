-- ===== src/Tests/Refinement.antt =====
-- Creating an NFS volume and deleting it again, at an empty server.
use truenas_scale_csi.Base.{false, refl, [], ◌∷◌, pos, join, decimal_ℤ}
use truenas_scale_csi.Size.{extract_storage}
use truenas_scale_csi.Caps.{nfs_check_caps}
use truenas_scale_csi.TrueNas.Memory.{Memory, memory, memory_view}
use truenas_scale_csi.TrueNas.Memory.Lawful.{memory-IsStore}
use truenas_scale_csi.Nfs.{
  nfs_create_volume, nfs_delete_volume, nfs_volume, ensure_dataset, ensure_share,
}
use truenas_scale_csi.Nfs.Refinement.{
  Names, create, delete, apply_all, Represents, Runs, created, deleted, done, Runs-Represents,
}
use truenas_scale_csi.Tests.{all_up, libs, driver, request, empty_server}

opened : Unit {0}
unfolding nfs_create_volume nfs_delete_volume nfs_check_caps extract_storage ensure_dataset
    ensure_share join decimal_ℤ
opened = tt

abbrev nothing : Names
nothing name = false

abbrev stored : Memory
stored = (nfs_create_volume (memory all_up) libs driver request empty_server).1

abbrev emptied : Memory
emptied = (nfs_delete_volume (memory all_up) libs driver "nfs-pvc-1" stored).1

run :
    Runs
      (memory all_up)
      memory_view
      (memory-IsStore all_up)
      libs
      driver
      (create request ∷ delete "pvc-1" ∷ [])
      empty_server
      emptied
unfolding opened
run =
    created request (nfs_volume driver "nfs-pvc-1" (pos 2147483648) "/mnt/tank/nfs/nfs-pvc-1") refl
      (deleted "pvc-1" refl done)

empty-Represents :
    Represents (memory all_up) memory_view (memory-IsStore all_up) libs driver nothing empty_server
empty-Represents = record { holds = λ name. (λ (x, e, n). absurd e, λ h. cc h) }

Runs-Represents_example :
    Represents
      (memory all_up)
      memory_view
      (memory-IsStore all_up)
      libs
      driver
      (apply_all (create request ∷ delete "pvc-1" ∷ []) nothing)
      emptied
Runs-Represents_example =
    Runs-Represents (memory all_up) memory_view (memory-IsStore all_up) libs driver
      (create request ∷ delete "pvc-1" ∷ []) nothing empty_server emptied empty-Represents run
