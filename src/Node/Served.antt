-- ===== src/Node/Served.antt =====
-- `NodePublishVolume` (pkg/driver/node.go) does not panic, whatever the request.
use truenas_scale_csi.Base.{
  str_eq, starts_with, is_some, refl, ◌≡◌, false, true, raise, Exec, Bool, ◌on_error◌,
  if◌then◌else◌,
}
use truenas_scale_csi.Csi.{status, invalid_argument, returned, Stop}
use truenas_scale_csi.Libraries.{Libraries}
use truenas_scale_csi.Driver.{Driver}
use truenas_scale_csi.Host.{Host}
use truenas_scale_csi.Nfs.{nfs_volume_prefix}
use truenas_scale_csi.Nfs.Node.{PublishRequest, nfs_node_publish_volume}
use truenas_scale_csi.Iscsi.{iscsi_volume_prefix}
use truenas_scale_csi.Iscsi.Info.{Json}
use truenas_scale_csi.Iscsi.Disk.{Initiator}
use truenas_scale_csi.Iscsi.Node.{iscsi_node_publish_volume}
use truenas_scale_csi.Iscsi.Node.Panics.{
  Safe, if-Safe, raise-Safe, on_error-Safe, iscsi_node_publish_volume-Safe,
}
use truenas_scale_csi.Node.{not_supported, node_publish_volume}

module _ (H : Host) (D : Initiator H) (L : Libraries) (d : Driver) (J : Json) where
  -- NodePublishVolume never panics, whatever the request and the state of the node: the connector that an iSCSI
  -- publish dereferences is never nil, since a request without a volume id is refused before.
  pub node_publish_volume-Safe : (req : PublishRequest) → Safe (node_publish_volume H D L d J req)
  unfolding node_publish_volume
  node_publish_volume-Safe req =
      if-Safe (is_some req.volume_capability) _ _ (named-Safe (str_eq req.volume_id "") refl)
        (raise-Safe _)
    where
      iscsi-Safe : str_eq req.volume_id "" ≡ false → Safe (iscsi_node_publish_volume H D L J d req)
      iscsi-Safe named = iscsi_node_publish_volume-Safe H D L J d req named

      served : Exec H.State Stop (Unit {0})
      served =
          if str_eq req.target_path ""
          then raise (returned (status invalid_argument "Target path not provided"))
          else if starts_with req.volume_id nfs_volume_prefix
          then (nfs_node_publish_volume H L req on_error λ e. raise (returned e))
          else if starts_with req.volume_id iscsi_volume_prefix
          then iscsi_node_publish_volume H D L J d req
          else raise (returned (not_supported req.volume_id))

      named-Safe :
          (b : Bool)
          → str_eq req.volume_id "" ≡ b
          → Safe (
              if b
              then raise (returned (status invalid_argument "Volume ID missing in request"))
              else served)
      named-Safe true bare = raise-Safe _
      named-Safe false named = if-Safe (str_eq req.target_path "") _ _ (raise-Safe _) (
          if-Safe (starts_with req.volume_id nfs_volume_prefix) _ _
            (on_error-Safe (nfs_node_publish_volume H L req) _ (λ e. raise-Safe e))
            (if-Safe (starts_with req.volume_id iscsi_volume_prefix) _ _ (iscsi-Safe named)
              (raise-Safe _)))
