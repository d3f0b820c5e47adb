-- ===== src/Controller/Delete.antt =====
-- `DeleteVolume` (pkg/driver/controller.go): the datasets that it leaves, and its errors.
use truenas_scale_csi.Base.{
  String, ◌<>◌, ◌≡◌, ◌≢◌, refl, ◌↔◌, inl, inr, true, false, ◌||◌, ok, err, Elem, str_eq,
  starts_with, Bool-cases, Result-cases, if◌then◌else◌,
}
use truenas_scale_csi.Csi.{Code, invalid_argument, internal, unknown, Error, status}
use truenas_scale_csi.Libraries.{error_text, Libraries}
use truenas_scale_csi.Driver.{Driver}
use truenas_scale_csi.TrueNas.{Client, Dataset}
use truenas_scale_csi.TrueNas.Laws.{View, IsStore, IsBlockStore}
use truenas_scale_csi.Nfs.{nfs_volume_prefix, nfs_delete_volume, nfs_dataset_name}
use truenas_scale_csi.Nfs.Delete.{nfs_delete_volume-gone}
use truenas_scale_csi.Iscsi.{iscsi_volume_prefix, iscsi_dataset_name}
use truenas_scale_csi.Iscsi.Delete.{iscsi_delete_volume}
use truenas_scale_csi.Iscsi.Delete.Gone.{datasets-gone}
use truenas_scale_csi.Controller.{delete_volume}

-- The dataset that belongs to a volume's id: the prefix says under which storage path it stands.
abbrev pub dataset_name_of : Driver → String → String
dataset_name_of d volume_id =
    if starts_with volume_id nfs_volume_prefix
    then nfs_dataset_name d volume_id
    else iscsi_dataset_name d volume_id

-- The code that belongs to a volume's id, when deleting fails.
abbrev pub delete_code : String → Code
delete_code volume_id =
    if str_eq volume_id ""
    then invalid_argument
    else if starts_with volume_id nfs_volume_prefix || starts_with volume_id iscsi_volume_prefix
    then internal
    else unknown

module _ (C : Client) (L : Libraries) (d : Driver) (volume_id : String) (s : C.Server) where
  -- How a successful delete went: by the back end that the prefix names, whatever the driver's kind.
  pub data WentTo : Type 0 where
    nfs :
        starts_with volume_id nfs_volume_prefix ≡ true
        → (nfs_delete_volume C L d volume_id s).0 ≡ ok tt
        → (delete_volume C L d volume_id s).1 ≡ (nfs_delete_volume C L d volume_id s).1
        → WentTo
    iscsi :
        starts_with volume_id nfs_volume_prefix ≡ false
        → (iscsi_delete_volume C d volume_id s).0 ≡ ok tt
        → (delete_volume C L d volume_id s).1 ≡ (iscsi_delete_volume C d volume_id s).1
        → WentTo

  pub delete_volume-WentTo : (delete_volume C L d volume_id s).0 ≡ ok tt → WentTo
  unfolding delete_volume
  delete_volume-WentTo h = elim (Bool-cases (str_eq volume_id "")) [
    | inl bare ↦ cc (rw bare at h)
    | inr full ↦ elim (Bool-cases (starts_with volume_id nfs_volume_prefix)) [
      | inl ours ↦ elim (Result-cases (nfs_delete_volume C L d volume_id s).0) [
        | inl (e, failed) ↦ cc (rw (full, ours, failed) at h)
        | inr (u, done) ↦ nfs ours done (rw (full, ours, done) refl)
      ]
      | inr other ↦ elim (Bool-cases (starts_with volume_id iscsi_volume_prefix)) [
        | inr foreign ↦ cc (rw (full, other, foreign) at h)
        | inl ours ↦ elim (Result-cases (iscsi_delete_volume C d volume_id s).0) [
          | inl (e, failed) ↦ cc (rw (full, other, ours, failed) at h)
          | inr (u, done) ↦ iscsi other done (rw (full, other, ours, done) refl)
        ]
      ]
    ]
  ]

  abbrev failed_text : Error → String
  failed_text e = "Caught error while deleting volume: " <> volume_id <> ". " <> error_text L e

  -- When DeleteVolume fails, its code is InvalidArgument for an empty id, Internal for an id with one of
  -- the two prefixes, and Unknown for any other.
  pub delete_volume-delete_code :
      (e : Error)
      → (delete_volume C L d volume_id s).0 ≡ err e
      → (text : String) × (e ≡ status (delete_code volume_id) text)
  unfolding delete_volume
  delete_volume-delete_code e h = elim (Bool-cases (str_eq volume_id "")) [
    | inl bare ↦ rw bare ("DeleteVolume Volume ID must be provided", cc (rw bare at h))
    | inr full ↦ elim (Bool-cases (starts_with volume_id nfs_volume_prefix)) [
      | inl ours ↦ elim (Result-cases (nfs_delete_volume C L d volume_id s).0) [
        | inl (e', failed) ↦ rw (full, ours) (failed_text e', cc (rw (full, ours, failed) at h))
        | inr (u, done) ↦ cc (rw (full, ours, done) at h)
      ]
      | inr other ↦ elim (Bool-cases (starts_with volume_id iscsi_volume_prefix)) [
        | inr foreign ↦
            rw (full, other, foreign)
              ("Unknown volume type: " <> volume_id, cc (rw (full, other, foreign) at h))
        | inl ours ↦ elim (Result-cases (iscsi_delete_volume C d volume_id s).0) [
          | inl (e', failed) ↦
              rw (full, other, ours) (failed_text e', cc (rw (full, other, ours, failed) at h))
          | inr (u, done) ↦ cc (rw (full, other, ours, done) at h)
        ]
      ]
    ]
  ]

module _ (C : Client) (V : View C.Server) (store : IsStore C V) (block : IsBlockStore C V)
    (L : Libraries) (d : Driver) where
  -- A successful DeleteVolume leaves exactly the datasets that are not the volume's: the one of its
  -- name under the storage path of the kind that its id's prefix says, whatever kind the
  -- driver itself is of.
  -- Assumed of the server: `IsStore` and `IsBlockStore`.
  pub delete_volume-gone :
      (volume_id : String) (s : C.Server) (x : Dataset)
      → (delete_volume C L d volume_id s).0 ≡ ok tt
      → Elem x (V.datasets (delete_volume C L d volume_id s).1)
        ↔ (Elem x (V.datasets s) × (x.name ≢ dataset_name_of d volume_id))
  delete_volume-gone volume_id s x h = elim (delete_volume-WentTo C L d volume_id s h) [
    | nfs ours done same ↦ rw (ours, same) (nfs_delete_volume-gone C V store L d volume_id s x done)
    | iscsi other done same ↦ rw (other, same) (datasets-gone C V store block d volume_id s x done)
  ]
