-- ===== src/Node.antt =====
-- The node service: pkg/driver/node.go.
pub mod Served
pub mod Created
use truenas_scale_csi.Base.{
  String, ◌<>◌, Bool, true, false, Option, none, some, List, [], ◌∷◌, ℤ, Exec, pure, raise, ◌>>=◌,
  ◌>>◌, ◌on_error◌, str_eq, starts_with, is_some, if◌then◌else◌,
}
use truenas_scale_csi.Csi.{
  invalid_argument, internal, not_found, unimplemented, Code, Error, status, Stop, returned,
  VolumeCapability,
}
use truenas_scale_csi.Libraries.{Libraries}
use truenas_scale_csi.Driver.{Driver}
use truenas_scale_csi.Host.{Host, OsError}
use truenas_scale_csi.Nfs.{nfs_volume_prefix}
use truenas_scale_csi.Nfs.Node.{PublishRequest, nfs_node_publish_volume, nfs_node_unpublish_volume}
use truenas_scale_csi.Iscsi.{iscsi_volume_prefix}
use truenas_scale_csi.Iscsi.Info.{Json}
use truenas_scale_csi.Iscsi.Disk.{Initiator}
use truenas_scale_csi.Iscsi.Node.{iscsi_node_publish_volume, iscsi_node_unpublish_volume}

-- `resource.Quantity`: what `AsInt64` gives, `none` where it does not fit, and its text.
pub record Quantity : Type 0 where
  pub as_int64 : Option ℤ
  pub text : String

-- `volume.Metrics`, with the fields that are read.
pub record Metrics : Type 0 where
  pub available : Quantity
  pub capacity : Quantity
  pub used : Quantity
  pub inodes_free : Quantity
  pub inodes : Quantity
  pub inodes_used : Quantity

-- What the statistics are read with: `os.Lstat`, and `NewMetricsStatFS(path).GetMetrics()` of k8s.io/kubernetes.
pub record StatFs (H : Host) : Type 0 where
  pub lstat : String → Exec H.State OsError (Unit {0})
  pub get_metrics : String → Exec H.State OsError Metrics

pub data UsageUnit : Type 0 where
  bytes inode_count : UsageUnit

pub record VolumeUsage : Type 0 where
  pub unit : UsageUnit
  pub available : ℤ
  pub total : ℤ
  pub used : ℤ

-- The capabilities that the node announces, of `NodeServiceCapability_RPC_Type`.
pub data NodeCapability : Type 0 where
  get_volume_stats unknown_rpc : NodeCapability

-- `NodeGetInfo` and `NodeGetCapabilities`
abbrev pub node_get_info : Driver → String
node_get_info d = d.node_id

abbrev pub node_get_capabilities : List NodeCapability
node_get_capabilities = get_volume_stats ∷ unknown_rpc ∷ []

-- `NodeStageVolume`, `NodeUnstageVolume` and `NodeExpandVolume`
abbrev pub node_not_implemented : {S A : Type 0} → Exec S Error A
node_not_implemented = raise (status unimplemented "")

-- `quantity.AsInt64()`
abbrev pub int64_of : {S : Type 0} → String → String → Option ℤ → Exec S Error ℤ
int64_of what text none =
    raise (status internal ("failed to transform " <> what <> "(" <> text <> ")"))
int64_of what text (some n) = pure n

abbrev pub size_in : {S : Type 0} → String → Quantity → Exec S Error ℤ
size_in what q = int64_of what q.text q.as_int64

module _ (H : Host) (F : StatFs H) where
  open H use {State}

  unfoldable pub usage_of : Metrics → Exec State Error (List VolumeUsage)
  usage_of m = do
    available ← size_in "volume available size" m.available
    capacity ← size_in "volume capacity size" m.capacity
    used ← size_in "volume used size" m.used
    inodes_free ← size_in "disk inodes free" m.inodes_free
    inodes ← size_in "disk inodes" m.inodes
    inodes_used ← size_in "disk inodes used" m.inodes_used
    pure (
        record { unit = bytes; available = available; total = capacity; used = used }
        ∷ record { unit = inode_count; available = inodes_free; total = inodes; used = inodes_used }
        ∷ [])

  -- `NodeGetVolumeStats`, of the request's volume id and path.
  unfoldable pub node_get_volume_stats : String → String → Exec State Error (List VolumeUsage)
  node_get_volume_stats volume_id volume_path =
      if str_eq volume_id ""
      then raise (status invalid_argument "NodeGetVolumeStats volume ID was empty")
      else if str_eq volume_path ""
      then raise (status invalid_argument "NodeGetVolumeStats volume path was empty")
      else (do
        F.lstat volume_path on_error λ e.
            if e.is_not_exist
            then raise (status not_found ("path " <> volume_path <> " does not exist"))
            else raise (status internal ("failed to stat file " <> volume_path <> ": " <> e.text))
        metrics ← F.get_metrics volume_path on_error λ e.
            raise (status internal ("failed to get metrics: " <> e.text))
        usage_of metrics)

abbrev pub not_supported : String → Error
not_supported volume_id = status unimplemented ("Volume type: " <> volume_id <> " not supported")

module _ (H : Host) (D : Initiator H) (L : Libraries) (d : Driver) where
  open H use {State}

  unfoldable pub node_publish_volume : Json → PublishRequest → Exec State Stop (Unit {0})
  node_publish_volume J req =
      if is_some req.volume_capability
      then if str_eq req.volume_id ""
        then raise (returned (status invalid_argument "Volume ID missing in request"))
        else if str_eq req.target_path ""
        then raise (returned (status invalid_argument "Target path not provided"))
        else if starts_with req.volume_id nfs_volume_prefix
        then (nfs_node_publish_volume H L req on_error λ e. raise (returned e))
        else if starts_with req.volume_id iscsi_volume_prefix
        then iscsi_node_publish_volume H D L J d req
        else raise (returned (not_supported req.volume_id))
      else raise (returned (status invalid_argument "Volume capability missing in request"))

  -- Of the request's volume id and target path; `quote` is `%q`.
  unfoldable pub node_unpublish_volume :
      (String → String) → String → String → Exec State Error (Unit {0})
  node_unpublish_volume quote volume_id target_path =
      if str_eq volume_id ""
      then raise (status invalid_argument "Volume ID missing in request")
      else if str_eq target_path ""
      then raise (status invalid_argument "Target path missing in request")
      else if starts_with volume_id nfs_volume_prefix
      then nfs_node_unpublish_volume H quote target_path
      else if starts_with volume_id iscsi_volume_prefix
      then iscsi_node_unpublish_volume H D L d volume_id target_path
      else raise (not_supported volume_id)
