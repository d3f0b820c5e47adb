-- ===== src/Iscsi/Steps.antt =====
-- Finding an object or creating it (pkg/driver/iscsi.go), whatever its kind.
use truenas_scale_csi.Base.{
  String, ◌≡◌, ◌≢◌, ◌∙◌, ap, inl, inr, Bool, true, Option, none, some, List, ok, Exec, pure, raise,
  ◌>>=◌, first, first-added, Option-cases, Result-cases,
}
use truenas_scale_csi.Csi.{Error}
use truenas_scale_csi.TrueNas.{Client}
use truenas_scale_csi.TrueNas.Laws.{Lists, Added}
use truenas_scale_csi.Iscsi.{Cleanup, clean_and_report, clean_and_return, find_or_create}

-- An error handler that answers with an error.
abbrev pub Fails : {S E A : Type 0} → (E → Exec S Error A) → Type 0
Fails {S} {E} {A} h = (e : E) (s : S) (a : A) → (h e s).0 ≢ ok a

pub raise-Fails : {S E A : Type 0} (f : E → Error) → Fails {S = S} {A = A} (λ e. raise (f e))
raise-Fails f e s a h = cc

module _ (C : Client) {A : Type 0} (cleanup : Cleanup C) where
  pub clean_and_report-Fails :
      (text : String) → Fails {E = String} {A = A} (λ e. clean_and_report C cleanup text)
  clean_and_report-Fails text e s a h = elim (Result-cases (cleanup s).0) [
    | inl (x, bad) ↦ cc (rw bad at h)
    | inr (x, done) ↦ cc (rw done at h)
  ]

  pub clean_and_return-Fails : Fails {A = A} (clean_and_return C cleanup)
  clean_and_return-Fails e s a h = elim (Result-cases (cleanup s).0) [
    | inl (x, bad) ↦ cc (rw bad at h)
    | inr (x, done) ↦ cc (rw done at h)
  ]

module _ (C : Client) {X B : Type 0} (list : Exec C.Server String (List X)) (p : X → Bool)
    (on_find : String → Exec C.Server Error (Option X)) (create : Exec C.Server String X)
    (on_create : String → Exec C.Server Error X) (id : X → B) where
  abbrev step : Exec C.Server Error B
  step = find_or_create C (list >>= λ xs. pure (first p xs)) on_find create on_create id

  -- What is listed is used as it is.
  pub step-existing :
      (s : C.Server) (xs : List X) (x : X)
      → (list s).0 ≡ ok xs
      → first p xs ≡ some x
      → step s ≡ (ok (id x), (list s).1)
  unfolding find_or_create
  step-existing s xs x up found = rw (up, found)

  step-created :
      (s : C.Server) (xs : List X) (x : X)
      → (list s).0 ≡ ok xs
      → first p xs ≡ none
      → (create (list s).1).0 ≡ ok x
      → step s ≡ (ok (id x), (create (list s).1).1)
  unfolding find_or_create
  step-created s xs x up missing made = rw (up, missing, made)

  -- How a step that succeeded has gone.
  pub data Done (s : C.Server) (b : B) (t : C.Server) : Type 0 where
    existing :
        (xs : List X) (x : X)
        → (list s).0 ≡ ok xs
        → first p xs ≡ some x
        → b ≡ id x
        → t ≡ (list s).1
        → Done s b t
    created :
        (xs : List X) (x : X)
        → (list s).0 ≡ ok xs
        → first p xs ≡ none
        → (create (list s).1).0 ≡ ok x
        → b ≡ id x
        → t ≡ (create (list s).1).1
        → Done s b t

  pub step-Done :
      Fails on_find
      → Fails on_create
      → (s : C.Server) (b : B) (t : C.Server) → step s ≡ (ok b, t)
      → Done s b t
  unfolding find_or_create
  step-Done fails fails' s b t h = elim (Result-cases (list s).0) [
    | inl (e, down) ↦ elim (Result-cases (on_find e (list s).1).0) [
      | inr (a, recovered) ↦ absurd (fails e (list s).1 a recovered)
      | inl (e', failed) ↦ cc (rw (down, failed) at h)
    ]
    | inr (xs, up) ↦ elim (Option-cases (first p xs)) [
      | inr (x, found) ↦
          let run = step-existing s xs x up found in
          existing xs x up found (cc (h, run)) (cc (h, run))
      | inl missing ↦ elim (Result-cases (create (list s).1).0) [
        | inr (x, made) ↦
            let run = step-created s xs x up missing made in
            created xs x up missing made (cc (h, run)) (cc (h, run))
        | inl (e, down) ↦ elim (Result-cases (on_create e (create (list s).1).1).0) [
          | inr (a, recovered) ↦ absurd (fails' e (create (list s).1).1 a recovered)
          | inl (e', failed) ↦ cc (rw (up, missing, down, failed) at h)
        ]
      ]
    ]
  ]

  -- What a step that succeeded answers with is the id of the first match on the list then.
  pub Done-found :
      {view : C.Server → List X}
      → Lists list view
      → ((u : C.Server) (x : X)
          → (create u).0 ≡ ok x
          → Added (view u) x (view (create u).1) × (p x ≡ true))
      → (s : C.Server) (b : B) (t : C.Server) → Done s b t
      → (x : X) × (first p (view t) ≡ some x) × (b ≡ id x)
  Done-found {view} lists makes s b t (existing xs x up found b_eq t_eq) =
      (x, cc (t_eq, lists.same s, lists.all s xs up, found), b_eq)
  Done-found {view} lists makes s b t (created xs x up missing made b_eq t_eq) =
      let (new, fits) = makes (list s).1 x made in
      let missing' : first p (view (list s).1) ≡ none =
        cc (lists.same s, lists.all s xs up, missing) in
      (
        x,
        rw t_eq (
            first-added p x (view (list s).1) (view (create (list s).1).1) missing' new.listed fits
              new.others),
        b_eq,
      )

  -- What neither call changes is as it was.
  pub Done-frame :
      {W : Type 0} (w : C.Server → W)
      → ((s : C.Server) → w (list s).1 ≡ w s)
      → ((u : C.Server) (x : X) → (create u).0 ≡ ok x → w (create u).1 ≡ w u)
      → (s : C.Server) (b : B) (t : C.Server) → Done s b t
      → w t ≡ w s
  Done-frame w lists makes s b t (existing xs x up found b_eq t_eq) = ap w t_eq ∙ lists s
  Done-frame w lists makes s b t (created xs x up missing made b_eq t_eq) =
      ap w t_eq ∙ makes (list s).1 x made ∙ lists s

  -- A step whose object is there only lists.
  pub step-again :
      {view : C.Server → List X}
      → Lists list view
      → (u : C.Server) (xs : List X) (x : X) → first p (view u) ≡ some x
      → (list u).0 ≡ ok xs
      → step u ≡ (ok (id x), (list u).1)
  step-again lists u xs x found up = step-existing u xs x up (cc (lists.all u xs up, found))
