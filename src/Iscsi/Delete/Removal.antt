-- ===== src/Iscsi/Delete/Removal.antt =====
-- Finding an object and deleting it by its id (pkg/driver/iscsi.go), whatever its kind.
use truenas_scale_csi.Base.{
  String, ◌≡◌, ◌≢◌, refl, ◌∙◌, ap, ◌↔◌, inl, inr, Bool, Option, none, some, List, Elem, ok, err,
  Exec, pure, raise, ◌>>=◌, ◌on_error◌, first, Option-cases, Result-cases,
}
use truenas_scale_csi.Csi.{Error, plain}
use truenas_scale_csi.TrueNas.Laws.{Lists}

-- The id of what was found.
abbrev pub picked : {X I : Type 0} → (X → I) → Option X → Option I
picked id none = none
picked id (some y) = some (id y)

picked_iff :
    {X I : Type 0} (id : X → I) (o : Option X) (i : I)
    → ((y : X) → o ≡ some y → i ≢ id y) ↔ (picked id o ≢ some i)
picked_iff id none i = (λ h. cc, λ h y. cc)
picked_iff id (some z) i = (λ h e. h z refl (cc e), λ h y e same. h (cc (e, same)))

module _ {S X I : Type 0} (list : Exec S String (List X)) (p : X → Bool)
    (delete : I → Exec S String (Unit {0})) (id : X → I) where
  abbrev pub removal : Exec S Error (Unit {0})
  removal = do
    existing ← (list >>= λ xs. pure (first p xs)) on_error λ e. raise (plain e)
    elim existing [ none ↦ pure tt | some x ↦ delete (id x) on_error λ e. raise (plain e) ]

  removal-down : (s : S) (e : String) → (list s).0 ≡ err e → (removal s).0 ≡ err (plain e)
  removal-down s e down = rw down

  removal-absent :
      (s : S) (xs : List X)
      → (list s).0 ≡ ok xs
      → first p xs ≡ none
      → removal s ≡ (ok tt, (list s).1)
  removal-absent s xs up absent = rw (up, absent)

  removal-refused :
      (s : S) (xs : List X) (x : X) (e : String)
      → (list s).0 ≡ ok xs
      → first p xs ≡ some x
      → (delete (id x) (list s).1).0 ≡ err e
      → (removal s).0 ≡ err (plain e)
  removal-refused s xs x e up found refused = rw (up, found, refused)

  removal-deleted :
      (s : S) (xs : List X) (x : X)
      → (list s).0 ≡ ok xs
      → first p xs ≡ some x
      → (delete (id x) (list s).1).0 ≡ ok tt
      → removal s ≡ (ok tt, (delete (id x) (list s).1).1)
  removal-deleted s xs x up found gone = rw (up, found, gone)

  -- How a removal that succeeded has gone.
  pub data Removed (s t : S) : Type 0 where
    absent : (xs : List X) → (list s).0 ≡ ok xs → first p xs ≡ none → t ≡ (list s).1 → Removed s t
    deleted :
        (xs : List X) (x : X)
        → (list s).0 ≡ ok xs
        → first p xs ≡ some x
        → (delete (id x) (list s).1).0 ≡ ok tt
        → t ≡ (delete (id x) (list s).1).1
        → Removed s t

  pub removal-Removed : (s t : S) → removal s ≡ (ok tt, t) → Removed s t
  removal-Removed s t h = elim (Result-cases (list s).0) [
    | inl (e, down) ↦ cc (h, removal-down s e down)
    | inr (xs, up) ↦ elim (Option-cases (first p xs)) [
      | inl none' ↦ absent xs up none' (cc (h, removal-absent s xs up none'))
      | inr (x, found) ↦ elim (Result-cases (delete (id x) (list s).1).0) [
        | inl (e, refused) ↦ cc (h, removal-refused s xs x e up found refused)
        | inr (u, gone) ↦ deleted xs x up found gone (cc (h, removal-deleted s xs x up found gone))
      ]
    ]
  ]

  -- What is left is what was listed, without the first match, by its id.
  pub Removed-gone :
      {view : S → List X}
      → Lists list view
      → ((u : S) (i : I) (x : X)
          → (delete i u).0 ≡ ok tt
          → Elem x (view (delete i u).1) ↔ (Elem x (view u) × (id x ≢ i)))
      → (s t : S) (x : X) → Removed s t
      → Elem x (view t) ↔ (Elem x (view s) × (picked id (first p (view s)) ≢ some (id x)))
  Removed-gone {view} lists gone s t x (absent xs up none' t_eq) =
      let same : view t ≡ view s = ap view t_eq ∙ lists.same s in
      (
        λ e.
            (rw same at e, (picked_iff id _ _).0 (λ y found. cc (found, none', lists.all s xs up))),
        λ (e, _). rw same e,
      )
  Removed-gone {view} lists gone s t x (deleted xs y up found done t_eq) =
      let (to, from) = gone (list s).1 (id y) x done in
      let all = lists.all s xs up in
      (
        λ e.
            let (old, other) = to (rw t_eq at e) in
            (
              rw (lists.same s) at old,
              (picked_iff id _ _).0 (λ z found' same. other (cc (found, found', all, same))),
            ),
        λ (e, others).
            rw t_eq (from (rw (lists.same s) e, (picked_iff id _ _).1 others y (cc (all, found)))),
      )

  -- What neither call changes is as it was.
  pub Removed-frame :
      {W : Type 0} (w : S → W)
      → ((s : S) → w (list s).1 ≡ w s)
      → ((u : S) (i : I) → (delete i u).0 ≡ ok tt → w (delete i u).1 ≡ w u)
      → (s t : S) → Removed s t
      → w t ≡ w s
  Removed-frame w lists keeps s t (absent xs up none' t_eq) = ap w t_eq ∙ lists s
  Removed-frame w lists keeps s t (deleted xs y up found done t_eq) =
      ap w t_eq ∙ keeps (list s).1 (id y) done ∙ lists s
