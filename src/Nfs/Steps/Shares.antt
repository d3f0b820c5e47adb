-- ===== src/Nfs/Steps/Shares.antt =====
-- Finding or creating the share of an NFS volume (pkg/driver/nfs.go): what a step that succeeded has left,
-- and that the step finds it when it is made again.
use truenas_scale_csi.Base.{
  String, ◌≡◌, refl, ◌∙◌, ap, subst, inl, inr, Bool, true, false, none, some, List, [], ◌∷◌, ok,
  err, Elem, first, first-Elem, Option-cases, Bool-cases, Result-cases, contains, eq_refl,
}
use truenas_scale_csi.Csi.{plain}
use truenas_scale_csi.TrueNas.{Client, ShareNfs, CreateShareNfsParams}
use truenas_scale_csi.TrueNas.Find.{normalise_nfs_share_mountpaths}
use truenas_scale_csi.TrueNas.Laws.{View, IsStore}
use truenas_scale_csi.Nfs.{look_for_shares, share_params, shares_path, create_share, ensure_share}

module _ (C : Client) (name mountpoint : String) (s : C.Server) where
  ensure_share-down :
      (e : String)
      → (C.list_shares_nfs s).0 ≡ err e
      → ensure_share C name mountpoint s ≡ (err (look_for_shares e), (C.list_shares_nfs s).1)
  unfolding ensure_share
  ensure_share-down e h = rw h

  ensure_share-existing :
      (shares : List ShareNfs) (share : ShareNfs)
      → (C.list_shares_nfs s).0 ≡ ok shares
      → first (shares_path mountpoint) shares ≡ some share
      → ensure_share C name mountpoint s ≡ (ok tt, (C.list_shares_nfs s).1)
  unfolding ensure_share
  ensure_share-existing shares share h found = rw (h, found)

  ensure_share-missing :
      (shares : List ShareNfs)
      → (C.list_shares_nfs s).0 ≡ ok shares
      → first (shares_path mountpoint) shares ≡ none
      → ensure_share C name mountpoint s ≡ create_share C name mountpoint (C.list_shares_nfs s).1
  unfolding ensure_share
  ensure_share-missing shares h missing = rw (h, missing)

abbrev by_path : String → String → CreateShareNfsParams
by_path name mountpoint = share_params (some mountpoint) [] name

abbrev by_paths : String → String → CreateShareNfsParams
by_paths name mountpoint = share_params none (mountpoint ∷ []) name

abbrev is_unprocessable : String → Bool
is_unprocessable e = contains e "422 Unprocessable Entity"

module _ (C : Client) (name mountpoint : String) (s : C.Server) where
  create_share-by_path :
      (share : ShareNfs)
      → (C.create_share_nfs (by_path name mountpoint) s).0 ≡ ok share
      → create_share C name mountpoint s
        ≡ (ok tt, (C.create_share_nfs (by_path name mountpoint) s).1)
  unfolding create_share
  create_share-by_path share h = rw h

  create_share-refused :
      (e : String)
      → (C.create_share_nfs (by_path name mountpoint) s).0 ≡ err e
      → is_unprocessable e ≡ false
      → (create_share C name mountpoint s).0 ≡ err (plain e)
  unfolding create_share
  create_share-refused e h final = rw (h, final)

  create_share-by_paths :
      (e : String) (share : ShareNfs)
      → (C.create_share_nfs (by_path name mountpoint) s).0 ≡ err e
      → is_unprocessable e ≡ true
      → let s1 = (C.create_share_nfs (by_path name mountpoint) s).1 in
        (C.create_share_nfs (by_paths name mountpoint) s1).0 ≡ ok share
        → create_share C name mountpoint s
          ≡ (ok tt, (C.create_share_nfs (by_paths name mountpoint) s1).1)
  unfolding create_share
  create_share-by_paths e share h old made = rw (h, old, made)

  create_share-refused_twice :
      (e e2 : String)
      → (C.create_share_nfs (by_path name mountpoint) s).0 ≡ err e
      → is_unprocessable e ≡ true
      → let s1 = (C.create_share_nfs (by_path name mountpoint) s).1 in
        (C.create_share_nfs (by_paths name mountpoint) s1).0 ≡ err e2
        → (create_share C name mountpoint s).0 ≡ err (plain e2)
  unfolding create_share
  create_share-refused_twice e e2 h old refused = rw (h, old, refused)

module _ (C : Client) (V : View C.Server) (store : IsStore C V) where
  -- The server has a share of the path, and the datasets that it had.
  abbrev pub HasShareOf : String → C.Server → C.Server → Type 0
  HasShareOf mountpoint s t =
      (share : ShareNfs) × (first (shares_path mountpoint) (V.shares t) ≡ some share)
      × (V.datasets t ≡ V.datasets s)

  first-new :
      (mountpoint : String) (s t : C.Server) (share : ShareNfs)
      → Elem share (V.shares t)
      → normalise_nfs_share_mountpaths share ≡ mountpoint
      → V.datasets t ≡ V.datasets s
      → HasShareOf mountpoint s t
  first-new mountpoint s t share listed path same =
      let (found, e) =
        first-Elem (shares_path mountpoint) share (V.shares t) listed
          (rw path (eq_refl mountpoint)) in
      (found, e, same)

  create_share-found :
      (name mountpoint : String) (s : C.Server)
      → (create_share C name mountpoint s).0 ≡ ok tt
      → HasShareOf mountpoint s (create_share C name mountpoint s).1
  create_share-found name mountpoint s h =
      elim (Result-cases (C.create_share_nfs (by_path name mountpoint) s).0) [
        | inr (share, made) ↦
            let run = create_share-by_path C name mountpoint s share made in
            let new = store.create_share-listed s (by_path name mountpoint) share made in
            rw run
              (first-new mountpoint s _ share new.listed (new.by_path mountpoint refl) new.datasets)
        | inl (e, refused) ↦ elim (Bool-cases (is_unprocessable e)) [
          | inr final ↦ cc (h, create_share-refused C name mountpoint s e refused final)
          | inl old ↦
              let s1 = (C.create_share_nfs (by_path name mountpoint) s).1 in
              elim (Result-cases (C.create_share_nfs (by_paths name mountpoint) s1).0) [
                | inl (e2, again) ↦
                    cc (h, create_share-refused_twice C name mountpoint s e e2 refused old again)
                | inr (share, made) ↦
                    let run = create_share-by_paths C name mountpoint s e share refused old made in
                    let same = store.create_share-refused s (by_path name mountpoint) e refused in
                    let new = store.create_share-listed s1 (by_paths name mountpoint) share made in
                    rw run (
                      first-new mountpoint s _ share new.listed (new.by_paths mountpoint refl refl)
                        (new.datasets ∙ same.datasets))
              ]
        ]
      ]

  ensure_share-found_run :
      (name mountpoint : String) (s : C.Server)
      → (ensure_share C name mountpoint s).0 ≡ ok tt
      → HasShareOf mountpoint s (ensure_share C name mountpoint s).1
  ensure_share-found_run name mountpoint s h = elim (Result-cases (C.list_shares_nfs s).0) [
    | inl (e, down) ↦ cc (h, ap (λ r. r.0) (ensure_share-down C name mountpoint s e down))
    | inr (shares, listed) ↦ elim (Option-cases (first (shares_path mountpoint) shares)) [
      | inr (share, found) ↦
          let run = ensure_share-existing C name mountpoint s shares share listed found in
          let same = store.list_shares-same s in
          rw run
            (share, cc (same.shares, store.list_shares-all s shares listed, found), same.datasets)
      | inl missing ↦
          let run = ensure_share-missing C name mountpoint s shares listed missing in
          let same = store.list_shares-same s in
          let (share, found, kept) = create_share-found name mountpoint _ (rw run at h) in
          rw run (share, found, kept ∙ same.datasets)
    ]
  ]

  -- A share of the mount point that the step has found or created is on the server.
  pub ensure_share-found :
      (name mountpoint : String) (s t : C.Server)
      → ensure_share C name mountpoint s ≡ (ok tt, t)
      → HasShareOf mountpoint s t
  ensure_share-found name mountpoint s t e =
      subst (HasShareOf mountpoint s) (ap (λ r. r.1) e)
        (ensure_share-found_run name mountpoint s (ap (λ r. r.0) e))

  pub ensure_share-again :
      (name mountpoint : String) (u : C.Server) (share : ShareNfs) (shares : List ShareNfs)
      → first (shares_path mountpoint) (V.shares u) ≡ some share
      → (C.list_shares_nfs u).0 ≡ ok shares
      → ensure_share C name mountpoint u ≡ (ok tt, (C.list_shares_nfs u).1)
  ensure_share-again name mountpoint u share shares found listed =
      ensure_share-existing C name mountpoint u shares share listed
        (cc (store.list_shares-all u shares listed, found))
