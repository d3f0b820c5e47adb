-- ===== src/Iscsi/Delete.antt =====
-- `iscsiDeleteVolume` (pkg/driver/iscsi.go).
pub mod Removal
pub mod Gone
use truenas_scale_csi.Base.{
  String, ◌<>◌, Bool, true, false, Option, none, some, ℤ, Exec, pure, raise, ◌>>=◌, ◌>>◌,
  ◌on_error◌, str_eq, starts_with, if◌then◌else◌,
}
use truenas_scale_csi.Csi.{not_found, Error, status, plain}
use truenas_scale_csi.Driver.{Driver}
use truenas_scale_csi.TrueNas.{Client, Dataset}
use truenas_scale_csi.TrueNas.Find.{find_dataset, find_iscsi_initiator, find_iscsi_target}
use truenas_scale_csi.Iscsi.{iscsi_volume_prefix, iscsi_dataset_name, has_comment, target_named}

-- Here the type of the dataset is not looked at.
abbrev pub dataset_named : String → Dataset → Bool
dataset_named name dataset = str_eq dataset.name name

module _ (C : Client) where
  open C use {Server}

  unfoldable pub delete_volume_target : String → Exec Server Error (Unit {0})
  unfolding find_iscsi_target
  delete_volume_target volume_id = do
    existing ← find_iscsi_target C (target_named volume_id) on_error λ e. raise (plain e)
    elim existing [
      | none ↦ pure tt
      | some target ↦ C.delete_target target.id on_error λ e. raise (plain e)
    ]

  unfoldable pub delete_volume_dataset : String → Exec Server Error (Unit {0})
  unfolding find_dataset
  delete_volume_dataset dataset_name = do
    existing ← find_dataset C (dataset_named dataset_name) on_error λ e. raise (plain e)
    elim existing [
      | none ↦ pure tt
      | some dataset ↦ C.delete_dataset dataset.id on_error λ e. raise (plain e)
    ]

  unfoldable pub delete_volume_initiator : String → Exec Server Error (Unit {0})
  unfolding find_iscsi_initiator
  delete_volume_initiator volume_id = do
    existing ← find_iscsi_initiator C (has_comment volume_id) on_error λ e. raise (plain e)
    elim existing [
      | none ↦ pure tt
      | some initiator ↦ C.delete_initiator initiator.id on_error λ e. raise (plain e)
    ]

  -- First the target, then the dataset, then the initiator; the first error ends it.
  unfoldable pub iscsi_delete_volume : Driver → String → Exec Server Error (Unit {0})
  iscsi_delete_volume d volume_id =
      if starts_with volume_id iscsi_volume_prefix
      then (do
        delete_volume_target volume_id
        delete_volume_dataset (iscsi_dataset_name d volume_id)
        delete_volume_initiator volume_id)
      else raise (status not_found ("Volume ID " <> volume_id <> " not found"))
