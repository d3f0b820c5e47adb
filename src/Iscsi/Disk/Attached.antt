-- ===== src/Iscsi/Disk/Attached.antt =====
-- What `AttachDisk` and `iscsiNodePublishVolume` do to the mounts and the files of the node.
use truenas_scale_csi.Base.{
  String, ◌≡◌, ◌∙◌, sym, ap, subst, ◌⊎◌, inl, inr, Bool, true, false, not, Option, none, some, ok,
  err, get_or, is_some, str_eq, Option-cases, Result, Bool-cases, Result-cases, if◌then◌else◌,
}
use truenas_scale_csi.Csi.{Stop, panicked}
use truenas_scale_csi.Host.{Host}
use truenas_scale_csi.Iscsi.Info.{Connector}
use truenas_scale_csi.Iscsi.Disk.{
  Initiator, IscsiDiskMounter, disk_options, ask_mount_point, mount_device, mount_unless,
  attach_connected, attach_with, attach_disk,
}
use truenas_scale_csi.Iscsi.Disk.Laws.{Keeps, IsInitiator, unless-same}

ok-injective : {a b : Bool} → ◌≡◌ {A = Result Stop Bool} (ok a) (ok b) → a ≡ b
ok-injective h = cc h

module _ (H : Host) (D : Initiator H) where
  -- A nil connector is dereferenced.
  pub attach_disk-nil :
      (b : IscsiDiskMounter) (info_path : String) (s : H.State)
      → b.connector ≡ none
      → attach_disk H D b info_path s ≡ (err panicked, s)
  unfolding attach_disk
  attach_disk-nil b info_path s bare = ap (λ o. attach_with H D b info_path o s) bare

module _ (H : Host) (D : Initiator H) (devices : H.State → String → Option String)
    (files : H.State → String → Option D.Connected) (laws : IsInitiator H D devices files) where
  open H use {State}

  -- A path is asked about without an error: the answer says whether it has no mount.
  ask_mount_point_lem :
      (path : String) (s : State) (free : Bool)
      → (ask_mount_point H D path s).0 ≡ ok free
      → (free ≡ not (is_some (devices s path)))
        × Keeps H D devices files s (ask_mount_point H D path s).1
  unfolding ask_mount_point
  ask_mount_point_lem path s free h =
      let r = D.is_likely_not_mount_point path s in
      elim (Option-cases r.0.1) [
        | inl fine ↦
            let e : ok r.0.0 ≡ ok free = rw fine at h in
            rw fine (
              sym (ok-injective e)
                  ∙ laws.asked.is_likely-answers s path r.0.0 (λ i. (r.0.0, fine i)),
              laws.asked.is_likely-Keeps s path,
            )
        | inr (e, bad) ↦ elim (Bool-cases e.is_not_exist) [
          | inr other ↦ cc (rw (bad, other) at h)
          | inl missing ↦
              let same : ok r.0.0 ≡ ok free = rw (bad, missing) at h in
              let (yes', bare) =
                laws.asked.is_likely-missing s path r.0.0 e (λ i. (r.0.0, bad i)) missing in
              rw (bad, missing)
                (
                  sym (ok-injective same) ∙ yes' ∙ ap (λ o. not (is_some o)) (sym bare),
                  laws.asked.is_likely-Keeps s path,
                )
        ]
      ]

  record IsMounted (b : IscsiDiskMounter) (device : String) (connected : D.Connected)
      (info_path : String) (s t : State) : Type 0 where
    mounted : devices t b.target_path ≡ some device
    saved : files t info_path ≡ some connected
    others : (p : String) → (p ≡ b.target_path) ⊎ (devices t p ≡ devices s p)
    other_files : (p : String) → (p ≡ info_path) ⊎ (files t p ≡ files s p)

  mount_device-IsMounted :
      (b : IscsiDiskMounter) (device : String) (connected : D.Connected) (info_path : String)
      (s : State) (x : String)
      → (mount_device H D b device connected info_path s).0 ≡ ok x
      → IsMounted b device connected info_path s (mount_device H D b device connected info_path s).1
  unfolding mount_device
  mount_device-IsMounted b device connected info_path s x h =
      let m = H.mkdir_all b.target_path s in
      elim (Result-cases m.0) [
        | inl (e, bad) ↦ cc (rw bad at h)
        | inr (_, made) ↦
            let q = D.persist_connector connected info_path m.1 in
            elim (Result-cases q.0) [
              | inl (e, bad) ↦ cc (rw (made, bad) at h)
              | inr (_, saved) ↦
                  elim (Result-cases
                    (D.format_and_mount device b.target_path b.fs_type (disk_options b) q.1).0) [
                      | inl (e, bad) ↦ cc (rw (made, saved, bad) at h)
                      | inr (_, done) ↦
                          rw (made, saved, done)
                            (record {
                              mounted =
                                  laws.mounter.mount-mounts q.1 device b.target_path b.fs_type _
                                    done;
                              saved =
                                  laws.mounter.mount-files q.1 device b.target_path b.fs_type _
                                    info_path
                                  ∙ laws.filing.persist-saves m.1 connected info_path saved;
                              others = λ p. unless-same p b.target_path λ other.
                                  laws.mounter.mount-devices q.1 device b.target_path b.fs_type _ p
                                    done other
                                  ∙ laws.filing.persist-devices m.1 connected info_path p
                                  ∙ (laws.mounter.mkdir_all-Keeps s b.target_path).same_devices p;
                              other_files = λ p. unless-same p info_path λ other.
                                  laws.mounter.mount-files q.1 device b.target_path b.fs_type _ p
                                  ∙ laws.filing.persist-others m.1 connected info_path p other
                                  ∙ (laws.mounter.mkdir_all-Keeps s b.target_path).same_files p;
                            })
                    ]
            ]
      ]

  -- What a successful attachment leaves: the target has the mount that it had, or else one of the device that
  -- connecting gave, and then the connector is in its file.
  pub record IsAttached (b : IscsiDiskMounter) (c : Connector) (info_path : String) (s t : State)
      : Type 0 where
    pub device : String
    pub connected : D.Connected
    pub connects : (D.connect c s).0 ≡ ok (device, connected)
    pub found : str_eq device "" ≡ false
    pub mounted : devices t b.target_path ≡ some (get_or (devices s b.target_path) device)
    pub saved :
        files t info_path
        ≡ (if is_some (devices s b.target_path) then files s info_path else some connected)
    pub others : (p : String) → (p ≡ b.target_path) ⊎ (devices t p ≡ devices s p)
    pub other_files : (p : String) → (p ≡ info_path) ⊎ (files t p ≡ files s p)

  -- From the state in which the target was asked about.
  mount_unless-IsAttached :
      (b : IscsiDiskMounter) (c : Connector) (info_path device : String) (connected : D.Connected)
      (s m : State) (free : Bool) (x : String)
      → (D.connect c s).0 ≡ ok (device, connected)
      → str_eq device "" ≡ false
      → free ≡ not (is_some (devices s b.target_path))
      → Keeps H D devices files s m
      → (mount_unless H D b device connected info_path free m).0 ≡ ok x
      → IsAttached b c info_path s (mount_unless H D b device connected info_path free m).1
  unfolding mount_unless
  mount_unless-IsAttached b c info_path device connected s m free x up found answer kept h =
      elim (Option-cases (devices s b.target_path)) [
        | inl bare ↦
            let f : free ≡ true = answer ∙ ap (λ o. not (is_some o)) bare in
            let d = mount_device-IsMounted b device connected info_path m x (rw f at h) in
            rw f (record {
              device = device;
              connected = connected;
              connects = up;
              found = found;
              mounted = rw bare d.mounted;
              saved = rw bare d.saved;
              others = λ p. elim (d.others p) [
                | inl same ↦ inl same
                | inr stays ↦ inr (stays ∙ kept.same_devices p)
              ];
              other_files = λ p. elim (d.other_files p) [
                | inl same ↦ inl same
                | inr stays ↦ inr (stays ∙ kept.same_files p)
              ];
            })
        | inr (y, there) ↦
            let f : free ≡ false = answer ∙ ap (λ o. not (is_some o)) there in
            rw f (record {
              device = device;
              connected = connected;
              connects = up;
              found = found;
              mounted = rw there (kept.same_devices b.target_path ∙ there);
              saved = rw there (kept.same_files info_path);
              others = λ p. inr (kept.same_devices p);
              other_files = λ p. inr (kept.same_files p);
            })
      ]

  attach_with-IsAttached :
      (b : IscsiDiskMounter) (c : Connector) (info_path : String) (s : State) (x : String)
      → (attach_with H D b info_path (some c) s).0 ≡ ok x
      → IsAttached b c info_path s (attach_with H D b info_path (some c) s).1
  unfolding attach_connected
  attach_with-IsAttached b c info_path s x h =
      let r = D.connect c s in
      let path = b.target_path in
      let k = laws.mounter.connect-Keeps s c in
      elim (Result-cases r.0) [
        | inl (e, bad) ↦ cc (rw bad at h)
        | inr ((device, connected), up) ↦ elim (Bool-cases (str_eq device "")) [
          | inl bare ↦ cc (rw (up, bare) at h)
          | inr found ↦
              let a = ask_mount_point H D path r.1 in
              elim (Result-cases a.0) [
                | inl (e, bad) ↦ cc (rw (up, found, bad) at h)
                | inr (free, asked) ↦
                    let (answer, kept) = ask_mount_point_lem path r.1 free asked in
                    rw (up, found, asked)
                      (mount_unless-IsAttached b c info_path device connected s a.1 free x up found
                        (answer ∙ ap (λ o. not (is_some o)) (k.same_devices path))
                        (record {
                          same_devices = λ p. kept.same_devices p ∙ k.same_devices p;
                          same_files = λ p. kept.same_files p ∙ k.same_files p;
                        })
                        (rw (up, found, asked) at h))
              ]
        ]
      ]

  pub attach_disk-IsAttached :
      (b : IscsiDiskMounter) (c : Connector) (info_path : String) (s : State) (x : String)
      → b.connector ≡ some c
      → (attach_disk H D b info_path s).0 ≡ ok x
      → IsAttached b c info_path s (attach_disk H D b info_path s).1
  unfolding attach_disk
  attach_disk-IsAttached b c info_path s x built h =
      subst
        (λ o.
          (attach_with H D b info_path o s).0 ≡ ok x
          → IsAttached b c info_path s (attach_with H D b info_path o s).1)
        (sym built) (attach_with-IsAttached b c info_path s x) h
