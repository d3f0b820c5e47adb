-- ===== src/Iscsi.antt =====
-- The steps of creating an iSCSI volume: `iscsiCreateVolume` of pkg/driver/iscsi.go, with its
-- clean-up functions. Logging is left out.
pub mod Steps
pub mod Cleanup
pub mod Create
pub mod Delete
pub mod Query
pub mod Info
pub mod Disk
pub mod Node
pub mod Validate
pub mod Listing
use truenas_scale_csi.Base.{
  ℕ, String, ◌<>◌, Bool, true, false, ◌&&◌, Option, none, some, List, [], ◌∷◌, ℤ, pos, Exec, pure,
  raise, attempt, ◌>>=◌, ◌>>◌, ◌on_error◌, str_eq, eq_ℤ, starts_with, join, decimal_ℤ,
}
use truenas_scale_csi.Csi.{internal, Error, status, plain}
use truenas_scale_csi.Driver.{Driver}
use truenas_scale_csi.TrueNas.{
  Client, Dataset, IscsiExtent, IscsiInitiator, IscsiTarget, IscsiTargetExtent, ListenItem,
  CreateDatasetParams, CreateExtentParams, CreateTargetParams, CreateTargetExtentParams,
}
use truenas_scale_csi.TrueNas.Find.{
  find_dataset, find_iscsi_extent, find_iscsi_initiator, find_iscsi_target,
  find_iscsi_target_extent,
}

abbrev pub iscsi_volume_prefix : String
iscsi_volume_prefix = "iscsi-"

abbrev pub target_portal_param : String
target_portal_param = "targetPortal"

abbrev pub iqn_param : String
iqn_param = "iqn"

abbrev pub lun_param : String
lun_param = "lun"

abbrev pub portals_param : String
portals_param = "portals"

-- `strings.Join([]string{d.iscsiStoragePath, volumeID}, "/")`
abbrev pub iscsi_dataset_name : Driver → String → String
iscsi_dataset_name d volume_id = join "/" (d.iscsi_storage_path ∷ volume_id ∷ [])

-- What `%v` prints of an error that may be nil.
abbrev pub error_value : Option String → String
error_value none = "<nil>"
error_value (some e) = e

-- `fmt.Sprintf("%s:%d", item.GetIp(), item.GetPort())`
abbrev pub portal_addr : ListenItem → String
portal_addr item = item.ip <> ":" <> decimal_ℤ item.port

abbrev pub volume_params : String → ℤ → CreateDatasetParams
volume_params name size = record {
  name = name;
  type = some "VOLUME";
  casesensitivity = none;
  copies = none;
  inherit_encryption = none;
  share_type = none;
  refquota = none;
  volblocksize = some "16K";
  volsize = some size;
}

abbrev pub extent_params : String → String → CreateExtentParams
extent_params volume_id extent_path = record {
  name = volume_id;
  rpm = "SSD";
  type = "DISK";
  insecure_tpc = true;
  xen = false;
  comment = volume_id <> ": Kubernetes managed iSCSI extent";
  blocksize = pos 512;
  disk = extent_path;
}

abbrev pub initiator_comment : String → String
initiator_comment volume_id = volume_id <> ": Kubernetes managed iSCSI initiator"

abbrev pub target_params : ℤ → String → ℤ → CreateTargetParams
target_params portal_id volume_id initiator_id = record {
  name = volume_id;
  alias = volume_id <> ": Kubernetes managed iSCSI initiator";
  mode = "ISCSI";
  groups = record { portal = portal_id; initiator = initiator_id; authmethod = "NONE" } ∷ [];
}

-- The tests by which the handler finds what is there.
abbrev pub is_volume_named : String → Dataset → Bool
is_volume_named name dataset = str_eq dataset.name name && str_eq dataset.type "VOLUME"

abbrev pub has_path : String → IscsiExtent → Bool
has_path path extent = str_eq extent.path path

abbrev pub has_comment : String → IscsiInitiator → Bool
has_comment volume_id initiator = starts_with initiator.comment volume_id

abbrev pub target_named : String → IscsiTarget → Bool
target_named name target = str_eq target.name name

abbrev pub maps : ℤ → ℤ → IscsiTargetExtent → Bool
maps target extent t = eq_ℤ t.target target && eq_ℤ t.extent extent

module _ (C : Client) where
  open C use {Server}

  -- The base name of the IQNs, and the address of the first listening item of the portal. The handler
  -- prints a nil error where there is none.
  unfoldable pub get_portal_addr : ℤ → Exec Server Error (String × String)
  get_portal_addr portal_id = do
    iqn_base ← C.get_global_basename on_error λ e.
        raise (status internal ("failed to get global iSCSI config: " <> e))
    listen ← C.get_portal portal_id on_error λ e.
        raise (status internal ("failed to get portal info: " <> e))
    elim listen [
      | [] ↦ raise (status internal "failed to get active iSCSI portal: <nil>")
      | item ∷ rest ↦ pure (iqn_base, portal_addr item)
    ]

  -- A clean-up answers with what it leaves in the handler's variable `err`, which its functions share
  -- with the handler: the error of the last call that it makes, or nil.
  abbrev pub Cleanup : Type 0
  Cleanup = Exec Server Error (Option String)

  abbrev pub remove_dataset : String → Cleanup
  remove_dataset id = attempt (C.delete_dataset id)

  abbrev pub remove_extent : ℤ → Cleanup
  remove_extent id = attempt (C.delete_extent id)

  abbrev pub remove_initiator : ℤ → Cleanup
  remove_initiator id = attempt (C.delete_initiator id)

  abbrev pub remove_target : ℤ → Cleanup
  remove_target id = attempt (C.delete_target id)

  -- `cleanupFunc`, as the handler sets it after each step: each also undoes what the one before undoes.
  abbrev pub cleanup1 : String → Cleanup
  cleanup1 dataset_id = remove_dataset dataset_id

  abbrev pub cleanup2 : String → ℤ → Cleanup
  cleanup2 dataset_id extent_id = cleanup1 dataset_id >>= λ _. remove_extent extent_id

  abbrev pub cleanup3 : String → ℤ → ℤ → Cleanup
  cleanup3 dataset_id extent_id initiator_id =
      cleanup2 dataset_id extent_id >>= λ _. remove_initiator initiator_id

  abbrev pub cleanup4 : String → ℤ → ℤ → ℤ → Cleanup
  cleanup4 dataset_id extent_id initiator_id target_id =
      cleanup3 dataset_id extent_id initiator_id >>= λ _. remove_target target_id

  -- `cleanupFunc(); return nil, status.Errorf(codes.Internal, text, err)`: by then `err` is the clean-up's.
  abbrev pub clean_and_report : {A : Type 0} → Cleanup → String → Exec Server Error A
  clean_and_report cleanup text = do
    err ← cleanup
    raise (status internal (text <> error_value err))

  -- `cleanupFunc(); return nil, err2`
  abbrev pub clean_and_return : {A : Type 0} → Cleanup → String → Exec Server Error A
  clean_and_return cleanup err2 = do cleanup; raise (plain err2)

  -- `existing, exists, err := Find…; if err != nil { … }; if exists { id = existing.Id } else { resp,
  -- err2 := Create…; if err2 != nil { … }; id = resp.Id }`, which the handler writes out for each kind
  -- of object, with what it does on either error.
  unfoldable pub find_or_create :
      {X B : Type 0}
      → Exec Server String (Option X)
      → (String → Exec Server Error (Option X))
      → Exec Server String X
      → (String → Exec Server Error X)
      → (X → B)
      → Exec Server Error B
  find_or_create find on_find create on_create id = do
    existing ← find on_error on_find
    elim existing [ some x ↦ pure (id x) | none ↦ do x ← create on_error on_create; pure (id x) ]

  -- The id of the volume's dataset. Nothing is cleaned up yet.
  unfoldable pub ensure_volume : String → ℤ → Exec Server Error String
  unfolding find_or_create find_dataset
  ensure_volume dataset_name size =
      find_or_create (find_dataset C (is_volume_named dataset_name))
        (λ e. raise (status internal ("failed to look for existing datasets: " <> e)))
        (C.create_dataset (volume_params dataset_name size)) (λ e. raise (plain e))
        (λ dataset. dataset.id)

  unfoldable pub ensure_extent : Cleanup → String → String → Exec Server Error ℤ
  unfolding find_or_create find_iscsi_extent
  ensure_extent cleanup volume_id extent_path =
      find_or_create (find_iscsi_extent C (has_path extent_path))
        (λ e. clean_and_report cleanup "failed to look for existing iSCSI extents: ")
        (C.create_extent (extent_params volume_id extent_path)) (clean_and_return cleanup)
        (λ extent. extent.id)

  unfoldable pub ensure_initiator : Cleanup → String → Exec Server Error ℤ
  unfolding find_or_create find_iscsi_initiator
  ensure_initiator cleanup volume_id =
      find_or_create (find_iscsi_initiator C (has_comment volume_id))
        (λ e. clean_and_report cleanup "failed to look for existing iSCSI initiators: ")
        (C.create_initiator (initiator_comment volume_id)) (clean_and_return cleanup)
        (λ initiator. initiator.id)

  unfoldable pub ensure_target : Cleanup → ℤ → String → ℤ → Exec Server Error ℤ
  unfolding find_or_create find_iscsi_target
  ensure_target cleanup portal_id volume_id initiator_id =
      find_or_create (find_iscsi_target C (target_named volume_id))
        (λ e. clean_and_report cleanup "failed to look for existing iSCSI targets: ")
        (C.create_target (target_params portal_id volume_id initiator_id))
        (clean_and_return cleanup) (λ target. target.id)

  unfoldable pub ensure_target_extent : Cleanup → ℤ → ℤ → Exec Server Error (Unit {0})
  unfolding find_or_create find_iscsi_target_extent
  ensure_target_extent cleanup target_id extent_id =
      find_or_create (find_iscsi_target_extent C (maps target_id extent_id))
        (λ e. clean_and_report cleanup "failed to look for existing iSCSI target extents: ")
        (C.create_target_extent (record { target = target_id; extent = extent_id }))
        (clean_and_return cleanup) (λ target_extent. tt)
