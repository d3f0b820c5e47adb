-- ===== src/Iscsi/Node/Panics.antt =====
-- Attaching a disk with a connector does not panic, and publishing an iSCSI volume always has one
-- (pkg/driver/iscsi.go, pkg/driver/iscsi_node_utils.go).
use truenas_scale_csi.Base.{
  String, ◌≡◌, ◌≢◌, refl, sym, subst, ◌∙◌, inl, inr, Bool, true, false, Option, none, some, Result,
  ok, err, Exec, pure, raise, ◌>>=◌, ◌on_error◌, str_eq, Result-cases, nat_eq, if◌then◌else◌,
}
use truenas_scale_csi.Csi.{Error, plain, Stop, returned, panicked, found_keys}
use truenas_scale_csi.Libraries.{Libraries}
use truenas_scale_csi.Driver.{Driver, get_iscsi_lib_config_path}
use truenas_scale_csi.Host.{Host, OsError}
use truenas_scale_csi.Nfs.Node.{PublishRequest}
use truenas_scale_csi.Iscsi.Query.{iscsi_context_key}
use truenas_scale_csi.Iscsi.Info.{Json, Connector, IscsiDisk, get_iscsi_info}
use truenas_scale_csi.Iscsi.Info.Built.{get_iscsi_info-built}
use truenas_scale_csi.Iscsi.Disk.{
  Initiator, IscsiDiskMounter, disk_options, get_iscsi_disk_mounter, not_mounted_of,
  ask_mount_point, mount_device, mount_unless, attach_connected, attach_with, attach_disk,
}
use truenas_scale_csi.Iscsi.Node.{internal_of, attach_info, iscsi_node_publish_volume}

-- A run never panics.
pub record Safe {S A : Type 0} (m : Exec S Stop A) : Type 0 where
  pub safe : (s : S) → (m s).0 ≢ err panicked

module _ {S A : Type 0} where
  pub raise-Safe : (e : Error) → Safe {S = S} {A = A} (raise (returned e))
  raise-Safe e = record { safe = λ s h. cc h }

  pub pure-Safe : (a : A) → Safe {S = S} {A = A} (pure a)
  pure-Safe a = record { safe = λ s h. cc h }

  pub if-Safe : (b : Bool) (m n : Exec S Stop A) → Safe m → Safe n → Safe (if b then m else n)
  if-Safe true m n p q = p
  if-Safe false m n p q = q

  pub on_error-Safe :
      {E : Type 0} (m : Exec S E A) (h : E → Exec S Stop A)
      → ((e : E) → Safe (h e))
      → Safe (m on_error h)
  on_error-Safe m h p = record {
    safe = λ s bad. elim (Result-cases (m s).0) [
      | inl (e, failed) ↦ (p e).safe (m s).1 (rw failed at bad)
      | inr (a, fine) ↦ cc (rw fine at bad)
    ];
  }

module _ {S A B : Type 0} where
  bind-Safe :
      (m : Exec S Stop A) (f : A → Exec S Stop B) → Safe m → ((a : A) → Safe (f a)) → Safe (m >>= f)
  bind-Safe m f p q = record {
    safe = λ s bad. elim (Result-cases (m s).0) [
      | inl (e, failed) ↦
          let same : err e ≡ err panicked = rw failed at bad in p.safe s (failed ∙ cc same)
      | inr (a, fine) ↦ (q a).safe (m s).1 (rw fine at bad)
    ];
  }

  -- A call whose error is reported, and what follows it.
  step-Safe :
      {E : Type 0} (m : Exec S E A) (report : E → Error) (f : A → Exec S Stop B)
      → ((a : A) → Safe (f a))
      → Safe ((m on_error λ e. raise (returned (report e))) >>= f)
  step-Safe m report f p =
      bind-Safe (m on_error λ e. raise (returned (report e))) f
        (on_error-Safe m (λ e. raise (returned (report e))) (λ e. raise-Safe (report e))) p

module _ {S A : Type 0} where
  -- The handlers keep a panic as it is, and make no other error one.
  internal-Safe :
      (m : Exec S Stop A) (L : Libraries) → Safe m → Safe (m on_error λ e. raise (internal_of L e))
  internal-Safe m L p = record {
    safe = λ s bad. elim (Result-cases (m s).0) [
      | inl (returned e, failed) ↦ cc (rw failed at bad)
      | inl (panicked, failed) ↦ p.safe s failed
      | inr (a, fine) ↦ cc (rw fine at bad)
    ];
  }

module _ (H : Host) (D : Initiator H) where
  open H use {State}

  ask_mount_point-Safe : (path : String) → Safe (ask_mount_point H D path)
  unfolding ask_mount_point
  ask_mount_point-Safe path = record {
    safe = λ s.
        answer-safe (D.is_likely_not_mount_point path s).0 (D.is_likely_not_mount_point path s).1;
  }
    where
      answer-safe :
          (answer : Bool × Option OsError) (s : State)
          → (not_mounted_of H D answer s).0 ≢ err panicked
      answer-safe (b, none) s h = cc h
      answer-safe (b, some e) s h =
          (if-Safe e.is_not_exist _ _ (pure-Safe b) (raise-Safe _)).safe s h

  mount_unless-Safe :
      (b : IscsiDiskMounter) (device : String) (connected : D.Connected) (path : String)
      (free : Bool)
      → Safe (mount_unless H D b device connected path free)
  unfolding mount_unless mount_device
  mount_unless-Safe b device connected path false = pure-Safe ""
  mount_unless-Safe b device connected path true =
      step-Safe (H.mkdir_all b.target_path) (λ e. plain e.text) _
        λ u.
          step-Safe (D.persist_connector connected path)
            (λ e. plain "unable to create persistence file for connection") _
            λ u'.
              step-Safe (D.format_and_mount device b.target_path b.fs_type (disk_options b))
                (λ e. plain e.text) _ λ u''. pure-Safe device

  attach_disk-Safe :
      (b : IscsiDiskMounter) (c : Connector) (path : String)
      → b.connector ≡ some c
      → Safe (attach_disk H D b path)
  unfolding attach_disk attach_connected
  attach_disk-Safe b c path built =
      subst (λ o. Safe (attach_with H D b path o)) (sym built)
        (step-Safe (D.connect c) (λ e. plain e.text) _
          λ found. if-Safe (str_eq found.0 "") _ _ (raise-Safe _) (
            bind-Safe _ _ (ask_mount_point-Safe b.target_path)
              λ free. mount_unless-Safe b found.0 found.1 path free))

module _ (H : Host) (D : Initiator H) (L : Libraries) (J : Json) (d : Driver) where
  -- The volume id has text: an iSCSI publish does not panic, since a disk that was read has a connector.
  pub iscsi_node_publish_volume-Safe :
      (req : PublishRequest)
      → str_eq req.volume_id "" ≡ false
      → Safe (iscsi_node_publish_volume H D L J d req)
  unfolding iscsi_node_publish_volume attach_info
  iscsi_node_publish_volume-Safe req named =
      if-Safe (nat_eq (found_keys iscsi_context_key req.volume_context) 4) _ _
        (attach_info-Safe (get_iscsi_info J req.volume_id req.volume_context) refl) (raise-Safe _)
    where
      attach_info-Safe :
          (r : Result String IscsiDisk)
          → get_iscsi_info J req.volume_id req.volume_context ≡ r
          → Safe (attach_info H D L J d req r)
      attach_info-Safe (err e) same = raise-Safe _
      attach_info-Safe (ok info) same =
          let (c, built) =
            get_iscsi_info-built J req.volume_id req.volume_context info named same in
          let a =
            attach_disk-Safe H D (get_iscsi_disk_mounter info req) c
              (get_iscsi_lib_config_path d req.volume_id) built in
          bind-Safe _ _ (internal-Safe _ L a) λ device. pure-Safe tt
