-- ===== src/TrueNas.antt =====
-- The TrueNAS API client (github.com/terricain/truenas-go-sdk), as a parameter: its messages, with
-- the fields that the driver reads or sets, and its calls over an unknown server. A call may fail,
-- with the text of its error, and may change the server either way.
pub mod Find
pub mod Laws
pub mod Memory
use truenas_scale_csi.Base.{ℕ, String, Bool, Option, List, ℤ, Exec}

-- A getter answers "" where its field is nil; a composite value is given by its raw value.
pub record Dataset : Type 0 where
  pub id : String
  pub name : String
  pub type : String
  pub mountpoint : String
  pub available : String
  pub refquota : String
  pub volsize : String

pub record ShareNfs : Type 0 where
  pub id : ℤ
  pub path : String
  pub paths : List String

pub record IscsiExtent : Type 0 where
  pub id : ℤ
  pub name : String
  pub path : String

pub record IscsiInitiator : Type 0 where
  pub id : ℤ
  pub comment : String

pub record IscsiTarget : Type 0 where
  pub id : ℤ
  pub name : String

pub record IscsiTargetExtent : Type 0 where
  pub id : ℤ
  pub target : ℤ
  pub extent : ℤ

pub record ListenItem : Type 0 where
  pub ip : String
  pub port : ℤ

-- The parameters of the calls that create; `none` is a pointer left nil.
pub record CreateDatasetParams : Type 0 where
  pub name : String
  pub type : Option String
  pub casesensitivity : Option String
  pub copies : Option ℤ
  pub inherit_encryption : Option Bool
  pub share_type : Option String
  pub refquota : Option ℤ
  pub volblocksize : Option String
  pub volsize : Option ℤ

pub record CreateShareNfsParams : Type 0 where
  pub path : Option String
  pub paths : List String
  pub comment : String
  pub enabled : Bool
  pub ro : Bool
  pub maproot_group : String
  pub maproot_user : String

pub record CreateExtentParams : Type 0 where
  pub name : String
  pub rpm : String
  pub type : String
  pub insecure_tpc : Bool
  pub xen : Bool
  pub comment : String
  pub blocksize : ℤ
  pub disk : String

pub record TargetGroup : Type 0 where
  pub portal : ℤ
  pub initiator : ℤ
  pub authmethod : String

pub record CreateTargetParams : Type 0 where
  pub name : String
  pub alias : String
  pub mode : String
  pub groups : List TargetGroup

pub record CreateTargetExtentParams : Type 0 where
  pub target : ℤ
  pub extent : ℤ

pub record Client : Type 1 where
  pub Server : Type 0
  pub list_datasets : Exec Server String (List Dataset)
  pub get_dataset : String → Exec Server String Dataset
  pub create_dataset : CreateDatasetParams → Exec Server String Dataset
  pub delete_dataset : String → Exec Server String (Unit {0})
  pub list_shares_nfs : Exec Server String (List ShareNfs)
  pub create_share_nfs : CreateShareNfsParams → Exec Server String ShareNfs
  -- The `Basename` of the global iSCSI configuration.
  pub get_global_basename : Exec Server String String
  -- The `Listen` addresses of a portal.
  pub get_portal : ℤ → Exec Server String (List ListenItem)
  pub list_extents : Exec Server String (List IscsiExtent)
  pub create_extent : CreateExtentParams → Exec Server String IscsiExtent
  -- With `Remove` and `Force` set.
  pub delete_extent : ℤ → Exec Server String (Unit {0})
  pub list_initiators : Exec Server String (List IscsiInitiator)
  -- With the comment.
  pub create_initiator : String → Exec Server String IscsiInitiator
  pub delete_initiator : ℤ → Exec Server String (Unit {0})
  pub list_targets : Exec Server String (List IscsiTarget)
  pub create_target : CreateTargetParams → Exec Server String IscsiTarget
  -- With the body `true`: by force.
  pub delete_target : ℤ → Exec Server String (Unit {0})
  pub list_target_extents : Exec Server String (List IscsiTargetExtent)
  pub create_target_extent : CreateTargetExtentParams → Exec Server String IscsiTargetExtent
