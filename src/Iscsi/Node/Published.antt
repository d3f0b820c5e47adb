-- ===== src/Iscsi/Node/Published.antt =====
-- What `iscsiNodePublishVolume` (pkg/driver/iscsi.go) leaves on the node.
use truenas_scale_csi.Base.{
  String, ◌≡◌, ap, subst, inl, inr, true, none, some, Option, ok, Bool-cases, Result-cases,
  Option-cases, nat_eq, with_state,
}
use truenas_scale_csi.Csi.{found_keys}
use truenas_scale_csi.Libraries.{Libraries}
use truenas_scale_csi.Driver.{Driver, get_iscsi_lib_config_path}
use truenas_scale_csi.Host.{Host}
use truenas_scale_csi.Nfs.Node.{PublishRequest}
use truenas_scale_csi.Iscsi.Query.{iscsi_context_key}
use truenas_scale_csi.Iscsi.Info.{Json, IscsiDisk, Connector, get_iscsi_info, build_iscsi_connector}
use truenas_scale_csi.Iscsi.Disk.{Initiator, get_iscsi_disk_mounter, attach_disk}
use truenas_scale_csi.Iscsi.Disk.Laws.{IsInitiator}
use truenas_scale_csi.Iscsi.Disk.Attached.{IsAttached, attach_disk-nil, attach_disk-IsAttached}
use truenas_scale_csi.Iscsi.Node.{attach_info, iscsi_node_publish_volume}

module _ (H : Host) (D : Initiator H) (L : Libraries) (J : Json) (d : Driver) where
  open H use {State}

  -- The steps of a call that succeeds.
  record IsRun (req : PublishRequest) (s t : State) : Type 0 where
    pub keys : nat_eq (found_keys iscsi_context_key req.volume_context) 4 ≡ true
    pub info : IscsiDisk
    pub read : get_iscsi_info J req.volume_id req.volume_context ≡ ok info
    pub device : String
    pub attached :
        attach_disk H D
          (get_iscsi_disk_mounter info req)
          (get_iscsi_lib_config_path d req.volume_id)
          s
        ≡ (ok device, t)

  iscsi_node_publish_volume-IsRun :
      (req : PublishRequest) (s : State)
      → (iscsi_node_publish_volume H D L J d req s).0 ≡ ok tt
      → IsRun req s (iscsi_node_publish_volume H D L J d req s).1
  unfolding iscsi_node_publish_volume attach_info
  iscsi_node_publish_volume-IsRun req s h =
      elim (Bool-cases (nat_eq (found_keys iscsi_context_key req.volume_context) 4)) [
        | inr few ↦ cc (rw few at h)
        | inl keys ↦ elim (Result-cases (get_iscsi_info J req.volume_id req.volume_context)) [
          | inl (e, bad) ↦ cc (rw (keys, bad) at h)
          | inr (info, read) ↦
              let r =
                attach_disk H D (get_iscsi_disk_mounter info req)
                  (get_iscsi_lib_config_path d req.volume_id) s in
              elim (Result-cases r.0) [
                | inl (e, bad) ↦ cc (rw (keys, read, bad) at h)
                | inr (device, up) ↦
                    rw (keys, read, up)
                      (record {
                        keys = keys;
                        info = info;
                        read = read;
                        device = device;
                        attached = with_state r (ok device) up;
                      })
              ]
        ]
      ]

module _ (H : Host) (D : Initiator H) (devices : H.State → String → Option String)
    (files : H.State → String → Option D.Connected) (laws : IsInitiator H D devices files)
    (L : Libraries) (J : Json) (d : Driver) where
  open H use {State}

  -- The context was read, a connector was built from it, and the disk was attached with it.
  pub record IsPublished (req : PublishRequest) (s t : State) : Type 0 where
    pub info : IscsiDisk
    pub read : get_iscsi_info J req.volume_id req.volume_context ≡ ok info
    pub connector : Connector
    pub built : build_iscsi_connector info ≡ some connector
    pub attached :
        IsAttached H D devices files laws
          (get_iscsi_disk_mounter info req)
          connector
          (get_iscsi_lib_config_path d req.volume_id)
          s
          t

  -- A successful iSCSI publish has read a disk from the context and connected to its target, and leaves the
  -- target path mounted: with the device that it has already, if it has one, else with the device that
  -- connecting gave, whose connector is then in the volume's file. No other mount changes.
  -- Assumed of the node: `IsInitiator`.
  pub iscsi_node_publish_volume-IsPublished :
      (req : PublishRequest) (s : State)
      → (iscsi_node_publish_volume H D L J d req s).0 ≡ ok tt
      → IsPublished req s (iscsi_node_publish_volume H D L J d req s).1
  iscsi_node_publish_volume-IsPublished req s h =
      let r = iscsi_node_publish_volume-IsRun H D L J d req s h in
      elim (Option-cases (build_iscsi_connector r.info)) [
        | inl bare ↦ absurd (nil r bare)
        | inr (c, built) ↦ record {
          info = r.info;
          read = r.read;
          connector = c;
          built = built;
          attached =
              subst
                (IsAttached H D devices files laws (get_iscsi_disk_mounter r.info req) c
                  (get_iscsi_lib_config_path d req.volume_id) s)
                (ap (λ x. x.1) r.attached)
                (attach_disk-IsAttached H D devices files laws (get_iscsi_disk_mounter r.info req) c
                  (get_iscsi_lib_config_path d req.volume_id) s r.device built
                  (ap (λ x. x.0) r.attached));
        }
      ]
    where
      nil : {t : State} (r : IsRun H D L J d req s t) → build_iscsi_connector r.info ≡ none → ⊥
      nil r bare = cc (
        attach_disk-nil H D (get_iscsi_disk_mounter r.info req)
            (get_iscsi_lib_config_path d req.volume_id) s bare,
        r.attached,
      )
