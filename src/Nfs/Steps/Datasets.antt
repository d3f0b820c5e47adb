-- ===== src/Nfs/Steps/Datasets.antt =====
-- Finding or creating the dataset of an NFS volume (pkg/driver/nfs.go): what a step that succeeded has left,
-- and that the step finds it when it is made again.
use truenas_scale_csi.Base.{
  String, ◌≡◌, ◌∙◌, ap, subst, ◌⊎◌, inl, inr, Elem, none, some, List, ℤ, ok, err, first,
  first-added, Option-cases, Result-cases, eq_refl,
}
use truenas_scale_csi.Csi.{plain}
use truenas_scale_csi.TrueNas.{Client, Dataset}
use truenas_scale_csi.TrueNas.Laws.{View, IsStore}
use truenas_scale_csi.Nfs.{named, look_for_datasets, dataset_params, ensure_dataset}

module _ (C : Client) (name : String) (size : ℤ) (s : C.Server) where
  ensure_dataset-down :
      (e : String)
      → (C.list_datasets s).0 ≡ err e
      → ensure_dataset C name size s ≡ (err (look_for_datasets e), (C.list_datasets s).1)
  unfolding ensure_dataset
  ensure_dataset-down e h = rw h

  ensure_dataset-existing :
      (ds : List Dataset) (d : Dataset)
      → (C.list_datasets s).0 ≡ ok ds
      → first (named name) ds ≡ some d
      → ensure_dataset C name size s ≡ (ok d.mountpoint, (C.list_datasets s).1)
  unfolding ensure_dataset
  ensure_dataset-existing ds d h found = rw (h, found)

  ensure_dataset-refused :
      (ds : List Dataset) (e : String)
      → (C.list_datasets s).0 ≡ ok ds
      → first (named name) ds ≡ none
      → (C.create_dataset (dataset_params name size) (C.list_datasets s).1).0 ≡ err e
      → (ensure_dataset C name size s).0 ≡ err (plain e)
  unfolding ensure_dataset
  ensure_dataset-refused ds e h missing refused = rw (h, missing, refused)

  ensure_dataset-created :
      (ds : List Dataset) (d : Dataset)
      → (C.list_datasets s).0 ≡ ok ds
      → first (named name) ds ≡ none
      → (C.create_dataset (dataset_params name size) (C.list_datasets s).1).0 ≡ ok d
      → ensure_dataset C name size s
        ≡ (ok d.mountpoint, (C.create_dataset (dataset_params name size) (C.list_datasets s).1).1)
  unfolding ensure_dataset
  ensure_dataset-created ds d h missing created = rw (h, missing, created)

module _ (C : Client) (V : View C.Server) (store : IsStore C V) where
  -- The dataset that the step has found or created is the first of its name.
  abbrev pub HasDatasetOf : String → String → C.Server → C.Server → Type 0
  HasDatasetOf name m s t =
      (d : Dataset) × (first (named name) (V.datasets t) ≡ some d)
      × (d.mountpoint ≡ m)
      × (V.shares t ≡ V.shares s)

  ensure_dataset-found_run :
      (name : String) (size : ℤ) (s : C.Server) (m : String)
      → (ensure_dataset C name size s).0 ≡ ok m
      → HasDatasetOf name m s (ensure_dataset C name size s).1
  ensure_dataset-found_run name size s m h = elim (Result-cases (C.list_datasets s).0) [
    | inl (e, down) ↦ cc (h, ap (λ r. r.0) (ensure_dataset-down C name size s e down))
    | inr (ds, listed) ↦ elim (Option-cases (first (named name) ds)) [
      | inl missing ↦
          elim (Result-cases
            (C.create_dataset (dataset_params name size) (C.list_datasets s).1).0) [
              | inl (e, refused) ↦
                  cc (h, ensure_dataset-refused C name size s ds e listed missing refused)
              | inr (d, made) ↦
                  let run = ensure_dataset-created C name size s ds d listed missing made in
                  let p = dataset_params name size in
                  let s1 = (C.list_datasets s).1 in
                  let same = store.list_datasets-same s in
                  let new = store.create_dataset-listed s1 p d made in
                  (
                    d,
                    rw run (
                        first-added (named name) d (V.datasets s1)
                          (V.datasets (C.create_dataset p s1).1)
                          (cc (same.datasets, store.list_datasets-all s ds listed, missing))
                          new.listed (rw new.name (eq_refl name)) new.others),
                    cc (h, run),
                    rw run (new.shares ∙ same.shares),
                  )
            ]
      | inr (d, found) ↦
          let run = ensure_dataset-existing C name size s ds d listed found in
          (
            d,
            cc (
              run,
              (store.list_datasets-same s).datasets,
              store.list_datasets-all s ds listed,
              found,
            ),
            cc (h, run),
            rw run (store.list_datasets-same s).shares,
          )
    ]
  ]

  pub ensure_dataset-found :
      (name : String) (size : ℤ) (s : C.Server) (m : String) (t : C.Server)
      → ensure_dataset C name size s ≡ (ok m, t)
      → HasDatasetOf name m s t
  ensure_dataset-found name size s m t e =
      subst (HasDatasetOf name m s) (ap (λ r. r.1) e)
        (ensure_dataset-found_run name size s m (ap (λ r. r.0) e))

  -- A dataset that is there is found again, and nothing is created.
  pub ensure_dataset-again :
      (name : String) (size : ℤ) (u : C.Server) (d : Dataset) (ds : List Dataset)
      → first (named name) (V.datasets u) ≡ some d
      → (C.list_datasets u).0 ≡ ok ds
      → ensure_dataset C name size u ≡ (ok d.mountpoint, (C.list_datasets u).1)
  ensure_dataset-again name size u d ds found listed =
      ensure_dataset-existing C name size u ds d listed
        (cc (store.list_datasets-all u ds listed, found))

  -- Finding or creating a dataset keeps those that are there, and adds at most one of the name.
  abbrev pub Extends : String → C.Server → C.Server → Type 0
  Extends name s t =
      ((x : Dataset) → Elem x (V.datasets s) → Elem x (V.datasets t))
      × ((x : Dataset) → Elem x (V.datasets t) → (x.name ≡ name) ⊎ Elem x (V.datasets s))

  ensure_dataset-Extends_run :
      (name : String) (size : ℤ) (s : C.Server) (m : String)
      → (ensure_dataset C name size s).0 ≡ ok m
      → Extends name s (ensure_dataset C name size s).1
  ensure_dataset-Extends_run name size s m h = elim (Result-cases (C.list_datasets s).0) [
    | inl (e, down) ↦ cc (h, ap (λ r. r.0) (ensure_dataset-down C name size s e down))
    | inr (ds, listed) ↦
        let same = (store.list_datasets-same s).datasets in
        elim (Option-cases (first (named name) ds)) [
          | inr (d, found) ↦
              rw (ensure_dataset-existing C name size s ds d listed found, same)
                (λ x e. e, λ x e. inr e)
          | inl missing ↦
              let p = dataset_params name size in
              let s1 = (C.list_datasets s).1 in
              elim (Result-cases (C.create_dataset p s1).0) [
                | inl (e, refused) ↦
                    cc (h, ensure_dataset-refused C name size s ds e listed missing refused)
                | inr (d, made) ↦
                    let new = store.create_dataset-listed s1 p d made in
                    rw (ensure_dataset-created C name size s ds d listed missing made) (
                      λ x e. new.kept x (rw same e),
                      λ x e. elim (new.others x e) [
                        | inl d_eq ↦ inl (ap (λ (y : Dataset). y.name) d_eq ∙ new.name)
                        | inr old ↦ inr (rw same at old)
                      ],
                    )
              ]
        ]
  ]

  pub ensure_dataset-Extends :
      (name : String) (size : ℤ) (s : C.Server) (m : String) (t : C.Server)
      → ensure_dataset C name size s ≡ (ok m, t)
      → Extends name s t
  ensure_dataset-Extends name size s m t e =
      subst (Extends name s) (ap (λ r. r.1) e)
        (ensure_dataset-Extends_run name size s m (ap (λ r. r.0) e))
