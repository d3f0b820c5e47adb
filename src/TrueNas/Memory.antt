-- ===== src/TrueNas/Memory.antt =====
-- A server kept in memory, which shows that what is assumed of the TrueNAS API can hold, and at which the
-- driver is run in tests. Any of its calls can be switched off.
pub mod Lawful
pub mod Blocks
use truenas_scale_csi.Base.{
  ℕ, ◌+◌, String, ◌<>◌, Bool, true, false, Option, none, some, List, [], ◌∷◌, ◌++◌, map, ℤ, pos,
  negsuc, Result, ok, err, Exec, str_eq, eq_ℤ, is_some, get_or, select, not, ◌||◌, ◌&&◌, decimal_ℤ,
  if◌then◌else◌,
}
use truenas_scale_csi.TrueNas.{
  Client, CreateDatasetParams, CreateShareNfsParams, CreateExtentParams, CreateTargetParams,
  CreateTargetExtentParams, Dataset, ShareNfs, IscsiExtent, IscsiInitiator, IscsiTarget,
  IscsiTargetExtent, ListenItem,
}
use truenas_scale_csi.TrueNas.Laws.{View}

pub data Call : Type 0 where
  on_list_datasets on_get_dataset on_create_dataset on_delete_dataset : Call
  on_list_shares on_create_share on_basename on_portal : Call
  on_list_extents on_create_extent on_delete_extent : Call
  on_list_initiators on_create_initiator on_delete_initiator : Call
  on_list_targets on_create_target on_delete_target : Call
  on_list_target_extents on_create_target_extent : Call

-- A dataset without its id, which is its name.
pub record Stored : Type 0 where
  pub name : String
  pub type : String
  pub mountpoint : String
  pub available : String
  pub refquota : String
  pub volsize : String

pub record Memory : Type 0 where
  pub stored : List Stored
  pub shares : List ShareNfs
  pub extents : List IscsiExtent
  pub initiators : List IscsiInitiator
  pub targets : List IscsiTarget
  pub target_extents : List IscsiTargetExtent
  pub next : ℕ
  pub old_api : Bool

abbrev pub dataset_of : Stored → Dataset
dataset_of k = record {
  id = k.name;
  name = k.name;
  type = k.type;
  mountpoint = k.mountpoint;
  available = k.available;
  refquota = k.refquota;
  volsize = k.volsize;
}

abbrev pub datasets_of : List Stored → List Dataset
datasets_of [] = []
datasets_of (k ∷ stored) = dataset_of k ∷ datasets_of stored

abbrev pub memory_view : View Memory
memory_view = record {
  datasets = λ s. datasets_of s.stored;
  shares = λ s. s.shares;
  extents = λ s. s.extents;
  initiators = λ s. s.initiators;
  targets = λ s. s.targets;
  target_extents = λ s. s.target_extents;
}

abbrev size_text : Option ℤ → String
size_text none = ""
size_text (some n) = decimal_ℤ n

-- A volume has no mount point.
abbrev store_of : CreateDatasetParams → Stored
store_of p = record {
  name = p.name;
  type = get_or p.type "FILESYSTEM";
  mountpoint = if is_some p.type then "" else "/mnt/" <> p.name;
  available = "0";
  refquota = size_text p.refquota;
  volsize = size_text p.volsize;
}

abbrev without_name : String → List Stored → List Stored
without_name id [] = []
without_name id (k ∷ stored) =
    let rest = without_name id stored in if str_eq k.name id then rest else k ∷ rest

-- A call that is switched off fails and changes nothing.
abbrev pub answer :
    {A : Type 0} → (Call → Bool) → Call → (Memory → A) → (Memory → Memory) → Exec Memory String A
answer down call value change s = if down call then (err "down", s) else (ok (value s), change s)

abbrev share_of : Memory → CreateShareNfsParams → ShareNfs
share_of s p = elim p.path [
  | some path ↦ record { id = pos s.next; path = path; paths = [] }
  | none ↦ record { id = pos s.next; path = ""; paths = p.paths }
]

abbrev create_share : (Call → Bool) → CreateShareNfsParams → Exec Memory String ShareNfs
create_share down p s =
    if down on_create_share
    then (err "down", s)
    else if s.old_api && is_some p.path
    then (err "422 Unprocessable Entity", s)
    else (ok (share_of s p), record s { shares = share_of s p ∷ s.shares; next = s.next + 1 })

-- What each call of the block back end makes, and what it makes of the state.
abbrev pub extent_of : CreateExtentParams → Memory → IscsiExtent
extent_of p s = record { id = pos s.next; name = p.name; path = p.disk }

abbrev pub add_extent : CreateExtentParams → Memory → Memory
add_extent p s = record s { extents = extent_of p s ∷ s.extents; next = s.next + 1 }

abbrev pub initiator_of : String → Memory → IscsiInitiator
initiator_of comment s = record { id = pos s.next; comment = comment }

abbrev pub add_initiator : String → Memory → Memory
add_initiator comment s = record s {
  initiators = initiator_of comment s ∷ s.initiators;
  next = s.next + 1;
}

abbrev pub target_of : CreateTargetParams → Memory → IscsiTarget
target_of p s = record { id = pos s.next; name = p.name }

abbrev pub add_target : CreateTargetParams → Memory → Memory
add_target p s = record s { targets = target_of p s ∷ s.targets; next = s.next + 1 }

abbrev pub target_extent_of : CreateTargetExtentParams → Memory → IscsiTargetExtent
target_extent_of p s = record { id = pos s.next; target = p.target; extent = p.extent }

abbrev pub add_target_extent : CreateTargetExtentParams → Memory → Memory
add_target_extent p s = record s {
  target_extents = target_extent_of p s ∷ s.target_extents;
  next = s.next + 1;
}

abbrev pub without_dataset : String → Memory → Memory
without_dataset id s = record s { stored = without_name id s.stored }

abbrev pub without_extent : ℤ → Memory → Memory
without_extent id s = record s { extents = select (λ x. not (eq_ℤ x.id id)) s.extents }

abbrev pub without_initiator : ℤ → Memory → Memory
without_initiator id s = record s { initiators = select (λ x. not (eq_ℤ x.id id)) s.initiators }

abbrev pub without_target : ℤ → Memory → Memory
without_target id s = record s {
  targets = select (λ x. not (eq_ℤ x.id id)) s.targets;
  target_extents = select (λ x. not (eq_ℤ x.target id)) s.target_extents;
}

-- The server, with the calls that are switched off.
abbrev pub memory : (Call → Bool) → Client
memory down = record {
  Server = Memory;
  list_datasets = answer down on_list_datasets (λ s. datasets_of s.stored) (λ s. s);
  get_dataset = λ id.
      answer down on_get_dataset
        (λ s. dataset_of (record {
          name = id;
          type = "FILESYSTEM";
          mountpoint = "";
          available = "1099511627776";
          refquota = "";
          volsize = "";
        }))
        (λ s. s);
  create_dataset = λ p.
      answer down on_create_dataset (λ s. dataset_of (store_of p))
        (λ s. record s { stored = store_of p ∷ s.stored });
  delete_dataset = λ id. answer down on_delete_dataset (λ s. tt) (without_dataset id);
  list_shares_nfs = answer down on_list_shares (λ s. s.shares) (λ s. s);
  create_share_nfs = create_share down;
  get_global_basename = answer down on_basename (λ s. "iqn.2005-10.org.freenas.ctl") (λ s. s);
  get_portal =
      λ id. answer down on_portal (λ s. record { ip = "10.0.0.1"; port = pos 3260 } ∷ []) (λ s. s);
  list_extents = answer down on_list_extents (λ s. s.extents) (λ s. s);
  create_extent = λ p. answer down on_create_extent (extent_of p) (add_extent p);
  delete_extent = λ id. answer down on_delete_extent (λ s. tt) (without_extent id);
  list_initiators = answer down on_list_initiators (λ s. s.initiators) (λ s. s);
  create_initiator =
      λ comment. answer down on_create_initiator (initiator_of comment) (add_initiator comment);
  delete_initiator = λ id. answer down on_delete_initiator (λ s. tt) (without_initiator id);
  list_targets = answer down on_list_targets (λ s. s.targets) (λ s. s);
  create_target = λ p. answer down on_create_target (target_of p) (add_target p);
  delete_target = λ id. answer down on_delete_target (λ s. tt) (without_target id);
  list_target_extents = answer down on_list_target_extents (λ s. s.target_extents) (λ s. s);
  create_target_extent =
      λ p. answer down on_create_target_extent (target_extent_of p) (add_target_extent p);
}
