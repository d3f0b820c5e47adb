-- ===== src/Nfs/Delete.antt =====
-- `nfsDeleteVolume` (pkg/driver/nfs.go): which datasets are left, and that it can be repeated.
use truenas_scale_csi.Base.{
  String, ◌≡◌, ◌≢◌, ◌↔◌, inl, inr, true, false, none, some, List, ok, err, Elem, first, first_sound,
  first-eq-none, Option-cases, Bool-cases, Result-cases, starts_with, eq_iff,
}
use truenas_scale_csi.Csi.{plain}
use truenas_scale_csi.Libraries.{Libraries}
use truenas_scale_csi.Driver.{Driver}
use truenas_scale_csi.TrueNas.{Client, Dataset}
use truenas_scale_csi.TrueNas.Laws.{View, IsStore}
use truenas_scale_csi.Nfs.{named, nfs_volume_prefix, nfs_dataset_name, nfs_delete_volume}

module _ (C : Client) (L : Libraries) (d : Driver) (volume_id : String) (s : C.Server) where
  nfs_delete_volume-down :
      (e : String)
      → starts_with volume_id nfs_volume_prefix ≡ true
      → (C.list_datasets s).0 ≡ err e
      → (nfs_delete_volume C L d volume_id s).0 ≡ err (plain e)
  unfolding nfs_delete_volume
  nfs_delete_volume-down e ours down = rw (ours, down)

  -- Where no dataset has the volume's name, deleting succeeds and only lists.
  nfs_delete_volume-absent :
      (ds : List Dataset)
      → starts_with volume_id nfs_volume_prefix ≡ true
      → (C.list_datasets s).0 ≡ ok ds
      → first (named (nfs_dataset_name d volume_id)) ds ≡ none
      → nfs_delete_volume C L d volume_id s ≡ (ok tt, (C.list_datasets s).1)
  unfolding nfs_delete_volume
  nfs_delete_volume-absent ds ours up absent = rw (ours, up, absent)

  nfs_delete_volume-refused :
      (ds : List Dataset) (x : Dataset) (e : String)
      → starts_with volume_id nfs_volume_prefix ≡ true
      → (C.list_datasets s).0 ≡ ok ds
      → first (named (nfs_dataset_name d volume_id)) ds ≡ some x
      → (C.delete_dataset x.id (C.list_datasets s).1).0 ≡ err e
      → (nfs_delete_volume C L d volume_id s).0 ≡ err (plain e)
  unfolding nfs_delete_volume
  nfs_delete_volume-refused ds x e ours up found refused = rw (ours, up, found, refused)

  nfs_delete_volume-deleted :
      (ds : List Dataset) (x : Dataset)
      → starts_with volume_id nfs_volume_prefix ≡ true
      → (C.list_datasets s).0 ≡ ok ds
      → first (named (nfs_dataset_name d volume_id)) ds ≡ some x
      → (C.delete_dataset x.id (C.list_datasets s).1).0 ≡ ok tt
      → nfs_delete_volume C L d volume_id s
        ≡ (ok tt, (C.delete_dataset x.id (C.list_datasets s).1).1)
  unfolding nfs_delete_volume
  nfs_delete_volume-deleted ds x ours up found gone = rw (ours, up, found, gone)

  nfs_delete_volume-foreign :
      starts_with volume_id nfs_volume_prefix ≡ false
      → (nfs_delete_volume C L d volume_id s).0 ≢ ok tt
  unfolding nfs_delete_volume
  nfs_delete_volume-foreign other h = cc (rw other at h)

module _ (C : Client) (V : View C.Server) (store : IsStore C V) (L : Libraries) (d : Driver) where
  -- Deleting by the id of a dataset deletes by its name.
  gone-by_name :
      (name : String) (x y : Dataset) (s s1 t : C.Server)
      → V.datasets s1 ≡ V.datasets s
      → Elem y (V.datasets s)
      → y.name ≡ name
      → Elem x (V.datasets t) ↔ (Elem x (V.datasets s1) × (x.id ≢ y.id))
      → Elem x (V.datasets t) ↔ (Elem x (V.datasets s) × (x.name ≢ name))
  gone-by_name name x y s s1 t same in_s named_so (to, from) = (
    λ e.
        let (old, other) = to e in
        let old' : Elem x (V.datasets s) = rw same at old in
        (old', λ n. other (cc (store.dataset_id s x old', store.dataset_id s y in_s, n, named_so))),
    λ (old, other). from (
      rw same old,
      λ i. other (cc (store.dataset_id s x old, store.dataset_id s y in_s, i, named_so)),
    ),
  )

  -- A successful NFS delete leaves exactly the datasets that do not have the volume's name.
  -- Assumed of the server: `IsStore`.
  pub nfs_delete_volume-gone :
      (volume_id : String) (s : C.Server) (x : Dataset)
      → (nfs_delete_volume C L d volume_id s).0 ≡ ok tt
      → Elem x (V.datasets (nfs_delete_volume C L d volume_id s).1)
        ↔ (Elem x (V.datasets s) × (x.name ≢ nfs_dataset_name d volume_id))
  nfs_delete_volume-gone volume_id s x h =
      elim (Bool-cases (starts_with volume_id nfs_volume_prefix)) [
        | inr other ↦ absurd (nfs_delete_volume-foreign C L d volume_id s other h)
        | inl ours ↦ elim (Result-cases (C.list_datasets s).0) [
          | inl (e, down) ↦ cc (h, nfs_delete_volume-down C L d volume_id s e ours down)
          | inr (ds, up) ↦
              let name = nfs_dataset_name d volume_id in
              let all = store.list_datasets-all s ds up in
              let same = (store.list_datasets-same s).datasets in
              elim (Option-cases (first (named name) ds)) [
                | inl absent ↦
                    let gone = first-eq-none (named name) x ds absent in
                    rw (nfs_delete_volume-absent C L d volume_id s ds ours up absent, same)
                      (λ e. (e, λ n. cc (gone (rw all e), (eq_iff x.name name).1 n)), λ e. e.0)
                | inr (y, found) ↦
                    let s1 = (C.list_datasets s).1 in
                    elim (Result-cases (C.delete_dataset y.id s1).0) [
                      | inl (e, refused) ↦ cc (
                        h,
                        nfs_delete_volume-refused C L d volume_id s ds y e ours up found refused,
                      )
                      | inr (u, deleted) ↦
                          rw
                            (nfs_delete_volume-deleted C L d volume_id s ds y ours up found deleted)
                            (gone-by_name name x y s s1 (C.delete_dataset y.id s1).1 same
                              (rw (← all) (first_sound (named name) y ds found).0)
                              ((eq_iff y.name name).0 (first_sound (named name) y ds found).1)
                              (store.delete_dataset-gone s1 y.id x deleted))
                    ]
              ]
        ]
      ]
