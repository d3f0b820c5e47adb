-- ===== src/Iscsi/Disk/Detached.antt =====
-- What `DetachDisk` (pkg/driver/iscsi_node_utils.go) does to the mounts and the files of the node.
use truenas_scale_csi.Base.{
  String, ◌≡◌, ◌≢◌, ◌∙◌, refl, ap, ◌⊎◌, inl, inr, true, false, Option, none, some, ℤ, pos, ok,
  str_eq, eq_iff, starts_with, eq_ℤ, eq_ℤ_iff, Bool-cases, Result-cases,
}
use truenas_scale_csi.Host.{Host}
use truenas_scale_csi.Iscsi.Disk.{
  Initiator, in_use, detach_session, detach_loaded, load_connector, detach_if_loaded,
  detach_if_exists, detach_disk,
}
use truenas_scale_csi.Iscsi.Disk.Laws.{Keeps, Keeps-trans, IsInitiator, unless-same}

in_use-false : (cnt : ℤ) → in_use cnt ≡ false → cnt ≡ pos 1
in_use-false cnt h = elim (Bool-cases (eq_ℤ cnt (pos 1))) [
  | inl one ↦ (eq_ℤ_iff cnt (pos 1)).0 one
  | inr more ↦ cc (rw more at h)
]

in_use-true : (cnt : ℤ) → in_use cnt ≡ true → cnt ≢ pos 1
in_use-true cnt h one = cc (rw ((eq_ℤ_iff cnt (pos 1)).1 one) at h)

module _ (H : Host) (D : Initiator H) (devices : H.State → String → Option String)
    (files : H.State → String → Option D.Connected) (laws : IsInitiator H D devices files) where
  open H use {State}

  -- Only what is mounted at the target is gone.
  pub record IsUnmounted (target : String) (s t : State) : Type 0 where
    pub unmounted : devices t target ≡ none
    pub others : (p : String) → (p ≡ target) ⊎ (devices t p ≡ devices s p)

  -- Of the files that are not below the target, only the one at a path has changed.
  abbrev pub KeepsFiles : String → String → State → State → Type 0
  KeepsFiles target info_path s t =
      (p : String) → starts_with p target ≡ false → (p ≡ info_path) ⊎ (files t p ≡ files s p)

  -- The state in which the session is ended: from a target without a mount, the mounts stay, and the file goes.
  detach_session_lem :
      (target info_path : String) (c : D.Connected) (s : State)
      → devices s target ≡ none
      → (detach_session H D target info_path c s).0 ≡ ok tt
      → let t = (detach_session H D target info_path c s).1 in
        ((p : String) → devices t p ≡ devices s p)
        × (files t info_path ≡ none)
        × KeepsFiles target info_path s t
  unfolding detach_session
  detach_session_lem target info_path c s bare h =
      let r = D.disconnect_volume c s in
      let k = laws.filing.disconnect_volume-Keeps s c in
      elim (Result-cases r.0) [
        | inl (e, bad) ↦ cc (rw bad at h)
        | inr (_, ended) ↦
            let d = D.disconnect (D.target_iqn c) (D.target_portals c) r.1 in
            let k' = laws.filing.disconnect-Keeps r.1 (D.target_iqn c) (D.target_portals c) in
            let a = (D.remove_all target d).1 in
            let same : (p : String) → devices d p ≡ devices s p =
              λ p. k'.same_devices p ∙ k.same_devices p in
            elim (Result-cases (D.remove info_path a).0) [
              | inl (e, bad) ↦ cc (rw (ended, bad) at h)
              | inr (_, removed) ↦
                  rw (ended, removed)
                    (
                      λ p.
                          laws.filing.remove-devices a info_path p
                          ∙ laws.filing.remove_all-devices d target p (same target ∙ bare)
                          ∙ same p,
                      laws.filing.remove-removes a info_path removed,
                      λ p clear. unless-same p info_path λ other.
                          laws.filing.remove-others a info_path p other
                          ∙ laws.filing.remove_all-files d target p clear
                          ∙ k'.same_files p
                          ∙ k.same_files p,
                    )
            ]
      ]

  -- Unmounting, and then either the device is in use, and the file stays, or the session ends, and it goes.
  detach_loaded_lem :
      (target info_path : String) (cnt : ℤ) (c : D.Connected) (s : State)
      → (detach_loaded H D target info_path cnt c s).0 ≡ ok tt
      → let t = (detach_loaded H D target info_path cnt c s).1 in
        IsUnmounted target s t
        × KeepsFiles target info_path s t
        × (((in_use cnt ≡ true) × (files t info_path ≡ files s info_path))
            ⊎ ((in_use cnt ≡ false) × (files t info_path ≡ none)))
  unfolding detach_loaded
  detach_loaded_lem target info_path cnt c s h =
      let r = D.unmount target s in
      elim (Result-cases r.0) [
        | inl (e, bad) ↦ cc (rw bad at h)
        | inr (_, up) ↦
            let bare = laws.mounter.unmount-unmounts s target up in
            let others : (p : String) → (p ≡ target) ⊎ (devices r.1 p ≡ devices s p) =
              λ p. unless-same p target λ other. laws.mounter.unmount-devices s target p up other in
            elim (Bool-cases (in_use cnt)) [
              | inl busy ↦
                  rw (up, busy)
                    (
                      record { unmounted = bare; others = others },
                      λ p clear. inr (laws.mounter.unmount-files s target p),
                      inl (refl, laws.mounter.unmount-files s target info_path),
                    )
              | inr last ↦
                  let (same, gone, filed) =
                    detach_session_lem target info_path c r.1 bare (rw (up, last) at h) in
                  rw (up, last)
                    (
                      record {
                        unmounted = same target ∙ bare;
                        others = λ p. elim (others p) [
                          | inl here ↦ inl here
                          | inr kept ↦ inr (same p ∙ kept)
                        ];
                      },
                      λ p clear. elim (filed p clear) [
                        | inl here ↦ inl here
                        | inr kept ↦ inr (kept ∙ laws.mounter.unmount-files s target p)
                      ],
                      inr (refl, gone),
                    )
            ]
      ]

  -- What is left of a mounted device after the detachment of one of its mounts.
  pub record IsDetached (target info_path device : String) (s t : State) : Type 0 where
    pub gone : IsUnmounted target s t
    pub other_files : KeepsFiles target info_path s t
    -- The file is gone, and the device was mounted nowhere else; or the file is as it was, and it was.
    pub filed :
        ((files t info_path ≡ none) × ((p : String) → (p ≡ target) ⊎ (devices s p ≢ some device)))
        ⊎ ((files t info_path ≡ files s info_path)
            × ((p : String) × (p ≢ target) × (devices s p ≡ some device)))

  -- From the state in which the file was read, with the count of the first state.
  detach_loaded-IsDetached :
      (target info_path device device' : String) (cnt : ℤ) (c : D.Connected) (s m : State)
      → devices s target ≡ some device
      → (D.get_device_name_from_mount target s).0 ≡ ok (device', cnt)
      → Keeps H D devices files s m
      → (detach_loaded H D target info_path cnt c m).0 ≡ ok tt
      → IsDetached target info_path device s (detach_loaded H D target info_path cnt c m).1
  detach_loaded-IsDetached target info_path device device' cnt c s m there counted kept h =
      let (u, other_files, filed) = detach_loaded_lem target info_path cnt c m h in
      record {
        gone = record {
          unmounted = u.unmounted;
          others = λ p. elim (u.others p) [
            | inl here ↦ inl here
            | inr same ↦ inr (same ∙ kept.same_devices p)
          ];
        };
        other_files = λ p clear. elim (other_files p clear) [
          | inl here ↦ inl here
          | inr same ↦ inr (same ∙ kept.same_files p)
        ];
        filed = elim filed [
          | inl (busy, same) ↦ inr (
            same ∙ kept.same_files info_path,
            laws.mounter.count-more s target device device' cnt counted there
                (in_use-true cnt busy),
          )
          | inr (last, removed) ↦ inl (
            removed,
            λ p. elim (Bool-cases (str_eq p target)) [
              | inl here ↦ inl ((eq_iff p target).0 here)
              | inr other ↦ inr λ same. cc (
                other,
                (eq_iff p target).1 (
                    laws.mounter.count-one s target device device' p
                      (counted ∙ ap (λ n. ok (device', n)) (in_use-false cnt last)) there same),
              )
            ],
          )
        ];
      }

  pub detach_disk-IsDetached :
      (target info_path device : String) (c : D.Connected) (s : State)
      → devices s target ≡ some device
      → files s info_path ≡ some c
      → (detach_disk H D target info_path s).0 ≡ ok tt
      → IsDetached target info_path device s (detach_disk H D target info_path s).1
  unfolding detach_disk detach_if_exists detach_if_loaded load_connector
  detach_disk-IsDetached target info_path device c s there filed h =
      let r = D.get_device_name_from_mount target s in
      let k = laws.mounter.count-Keeps s target in
      elim (Result-cases r.0) [
        | inl (e, bad) ↦ cc (rw bad at h)
        | inr ((device', cnt), counted) ↦
            let x = D.path_exists target r.1 in
            let k' = Keeps-trans H D devices files k (laws.asked.path_exists-Keeps r.1 target) in
            elim (Result-cases x.0) [
              | inl (e, bad) ↦ cc (rw (counted, bad) at h)
              | inr (false, missing) ↦
                  cc (
                    laws.asked.path_exists-missing r.1 target missing,
                    k.same_devices target,
                    there,
                  )
              | inr (true, found) ↦
                  let l = D.get_connector_from_file info_path x.1 in
                  let k'' =
                    Keeps-trans H D devices files k' (laws.filing.load-Keeps x.1 info_path) in
                  elim (Result-cases l.0) [
                    | inl (e, bad) ↦ elim (Bool-cases e.is_not_exist) [
                      | inl lost ↦ cc (
                        laws.filing.load-missing x.1 info_path e bad lost,
                        k'.same_files info_path,
                        filed,
                      )
                      | inr other ↦ cc (rw (counted, found, bad, other) at h)
                    ]
                    | inr (c', loaded) ↦
                        rw (counted, found, loaded)
                          (detach_loaded-IsDetached target info_path device device' cnt c' s l.1
                            there counted k'' (rw (counted, found, loaded) at h))
                  ]
            ]
      ]
