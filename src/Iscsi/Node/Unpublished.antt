-- ===== src/Iscsi/Node/Unpublished.antt =====
-- What `iscsiNodeUnpublishVolume` (pkg/driver/iscsi.go) does to the node, and how it undoes a publish.
use truenas_scale_csi.Base.{
  String, ◌≡◌, ◌≢◌, ◌∙◌, sym, ap, ◌⊎◌, inl, inr, Option, none, some, ok, Result-cases, get_or,
  is_some, if◌then◌else◌,
}
use truenas_scale_csi.Libraries.{Libraries}
use truenas_scale_csi.Driver.{Driver, get_iscsi_lib_config_path}
use truenas_scale_csi.Host.{Host}
use truenas_scale_csi.Nfs.Node.{PublishRequest}
use truenas_scale_csi.Iscsi.Info.{Json}
use truenas_scale_csi.Iscsi.Disk.{Initiator, detach_disk}
use truenas_scale_csi.Iscsi.Disk.Laws.{IsInitiator}
use truenas_scale_csi.Iscsi.Disk.Detached.{IsDetached, detach_disk-IsDetached}
use truenas_scale_csi.Iscsi.Node.{iscsi_node_publish_volume, iscsi_node_unpublish_volume}
use truenas_scale_csi.Iscsi.Node.Published.{iscsi_node_publish_volume-IsPublished}

module _ (H : Host) (D : Initiator H) (devices : H.State → String → Option String)
    (files : H.State → String → Option D.Connected) (laws : IsInitiator H D devices files)
    (L : Libraries) (d : Driver) where
  open H use {State}

  -- A successful iSCSI unpublish of a mounted target path whose volume has a connector in its file
  -- leaves the target path without a mount and changes no other mount. The file is then gone, if the device
  -- was mounted nowhere else, and as it was, if it was mounted at another path.
  -- Assumed of the node: `IsInitiator`.
  pub iscsi_node_unpublish_volume-IsDetached :
      (volume_id target device : String) (c : D.Connected) (s : State)
      → devices s target ≡ some device
      → files s (get_iscsi_lib_config_path d volume_id) ≡ some c
      → (iscsi_node_unpublish_volume H D L d volume_id target s).0 ≡ ok tt
      → IsDetached H D devices files laws target
          (get_iscsi_lib_config_path d volume_id)
          device
          s
          (iscsi_node_unpublish_volume H D L d volume_id target s).1
  unfolding iscsi_node_unpublish_volume
  iscsi_node_unpublish_volume-IsDetached volume_id target device c s there filed h =
      let path = get_iscsi_lib_config_path d volume_id in
      elim (Result-cases (detach_disk H D target path s).0) [
        | inl (e, bad) ↦ cc (rw bad at h)
        | inr (_, up) ↦
            rw up
              (detach_disk-IsDetached H D devices files laws target path device c s there filed up)
      ]

module _ (H : Host) (D : Initiator H) (devices : H.State → String → Option String)
    (files : H.State → String → Option D.Connected) (laws : IsInitiator H D devices files)
    (L : Libraries) (J : Json) (d : Driver) where
  -- An iSCSI volume is published at a target path without a mount, and unpublished there again by the same
  -- driver: where both calls succeed, every path has the mount that it had before, and the volume's file is
  -- gone, unless its device is mounted at another path.
  -- Assumed of the node: `IsInitiator`.
  pub iscsi_node_unpublish_volume-publish :
      (req : PublishRequest) (s : H.State) (p : String)
      → devices s req.target_path ≡ none
      → (iscsi_node_publish_volume H D L J d req s).0 ≡ ok tt
      → let t = (iscsi_node_publish_volume H D L J d req s).1 in
        (iscsi_node_unpublish_volume H D L d req.volume_id req.target_path t).0 ≡ ok tt
        → let t = (iscsi_node_publish_volume H D L J d req s).1 in
          let u = (iscsi_node_unpublish_volume H D L d req.volume_id req.target_path t).1 in
          (devices u p ≡ devices s p)
          × ((files u (get_iscsi_lib_config_path d req.volume_id) ≡ none)
              ⊎ ((device : String) × (q : String) × (q ≢ req.target_path)
                  × (devices t req.target_path ≡ some device)
                  × (devices s q ≡ some device)))
  iscsi_node_unpublish_volume-publish req s p bare h h' =
      let a =
        (iscsi_node_publish_volume-IsPublished H D devices files laws L J d req s h).attached in
      let t = (iscsi_node_publish_volume H D L J d req s).1 in
      let there : devices t req.target_path ≡ some a.device =
        a.mounted ∙ ap (λ o. some (get_or o a.device)) bare in
      let saved : files t (get_iscsi_lib_config_path d req.volume_id) ≡ some a.connected =
        a.saved
        ∙ ap
            (λ o.
              if is_some o
              then files s (get_iscsi_lib_config_path d req.volume_id)
              else some a.connected)
            bare in
      let r =
        iscsi_node_unpublish_volume-IsDetached H D devices files laws L d req.volume_id
          req.target_path a.device a.connected t there saved h' in
      (
        elim (r.gone.others p) [
          | inl here ↦
              ap (devices (iscsi_node_unpublish_volume H D L d req.volume_id req.target_path t).1)
                here
              ∙ r.gone.unmounted
              ∙ sym bare
              ∙ sym (ap (devices s) here)
          | inr kept ↦ elim (a.others p) [
            | inl here ↦
                ap (devices (iscsi_node_unpublish_volume H D L d req.volume_id req.target_path t).1)
                  here
                ∙ r.gone.unmounted
                ∙ sym bare
                ∙ sym (ap (devices s) here)
            | inr kept' ↦ kept ∙ kept'
          ]
        ],
        elim r.filed [
          | inl (removed, _) ↦ inl removed
          | inr (_, (q, other, same)) ↦ elim (a.others q) [
            | inl here ↦ absurd (other here)
            | inr kept ↦ inr (a.device, q, other, there, sym kept ∙ same)
          ]
        ],
      )
