-- ===== src/TrueNas/Memory/Lawful.antt =====
-- The server in memory meets what is assumed of the TrueNAS API.
use truenas_scale_csi.Base.{
  ℕ, ◌^◌, ◌<◌, String, Bool, ◌≡◌, ◌≢◌, refl, ◌↔◌, inl, inr, Option, some, List, [], ◌∷◌, ℤ, pos,
  Elem, ok, err, eq_iff, arith, parse_int, decimal_ℤ, Bool-cases, ◌&&◌, is_some,
}
use truenas_scale_csi.Base.Text.Decimal.{parse_int-decimal}
use truenas_scale_csi.TrueNas.{CreateDatasetParams, CreateShareNfsParams, Dataset, ShareNfs}
use truenas_scale_csi.TrueNas.Find.{normalise_nfs_share_mountpaths}
use truenas_scale_csi.TrueNas.Laws.{Same, Same-refl, IsStore, HasDataset, HasShare}
use truenas_scale_csi.TrueNas.Memory.{
  Memory, Call, on_list_datasets, on_list_shares, on_create_dataset, on_create_share,
  on_delete_dataset, store_of, size_text, share_of, Stored, dataset_of, datasets_of, memory_view,
  without_name, memory,
}

module _ (down : Call → Bool) where
  Elem-without_name :
      (id : String) (d : Dataset) (stored : List Stored)
      → Elem d (datasets_of (without_name id stored)) ↔ (Elem d (datasets_of stored) × (d.id ≢ id))
  Elem-without_name id d [] = (λ h. absurd h, λ h. absurd h.0)
  Elem-without_name id d (k ∷ stored) =
      ground (arith, eq_iff k.name id, Elem-without_name id d stored)

  dataset_id-memory :
      (d : Dataset) (stored : List Stored) → Elem d (datasets_of stored) → d.id ≡ d.name
  dataset_id-memory d [] h = absurd h
  dataset_id-memory d (k ∷ stored) h = ground (arith, dataset_id-memory d stored)

  list_datasets-Same : (s : Memory) → Same memory_view s ((memory down).list_datasets s).1
  list_datasets-Same s = elim (Bool-cases (down on_list_datasets)) [
    | inl off ↦ rw off (Same-refl memory_view s)
    | inr on ↦ rw on (Same-refl memory_view s)
  ]

  list_shares-Same : (s : Memory) → Same memory_view s ((memory down).list_shares_nfs s).1
  list_shares-Same s = elim (Bool-cases (down on_list_shares)) [
    | inl off ↦ rw off (Same-refl memory_view s)
    | inr on ↦ rw on (Same-refl memory_view s)
  ]

  quota-memory :
      (o : Option ℤ) (q : ℕ)
      → o ≡ some (pos q)
      → q < 2 ^ 63
      → parse_int (size_text o) ≡ some (pos q)
  unfolding decimal_ℤ
  quota-memory o q h below = rw h (parse_int-decimal q below)

  create_dataset-listed :
      (s : Memory) (p : CreateDatasetParams) (d : Dataset)
      → ((memory down).create_dataset p s).0 ≡ ok d
      → HasDataset memory_view p d s ((memory down).create_dataset p s).1
  create_dataset-listed s p d h = elim (Bool-cases (down on_create_dataset)) [
    | inl off ↦ cc (rw off at h)
    | inr on ↦
        let made : dataset_of (store_of p) ≡ d = cc (rw on at h) in
        rw (on, ← made)
          (record {
            name = refl;
            listed = inl refl;
            others = λ x e. e;
            kept = λ x e. inr e;
            shares = refl;
            type = λ t e. rw e;
            quota = quota-memory p.refquota;
          })
  ]

  module _ (s : Memory) (p : CreateShareNfsParams) where
    create_share-listed :
        (share : ShareNfs)
        → ((memory down).create_share_nfs p s).0 ≡ ok share
        → HasShare memory_view p share s ((memory down).create_share_nfs p s).1
    create_share-listed share h = elim (Bool-cases (down on_create_share)) [
      | inl off ↦ cc (rw off at h)
      | inr on ↦ elim (Bool-cases (s.old_api && is_some p.path)) [
        | inl old ↦ cc (rw (on, old) at h)
        | inr new ↦
            let made : share_of s p ≡ share = cc (rw (on, new) at h) in
            rw (on, new, ← made)
              (record {
                listed = inl refl;
                kept = λ x e. inr e;
                by_path = λ path e.
                    rw e (unfold normalise_nfs_share_mountpaths in ground (arith, eq_iff path ""));
                by_paths = λ path e e'.
                    rw (e, e')
                      (unfold normalise_nfs_share_mountpaths in ground (arith, eq_iff path ""));
                datasets = refl;
              })
      ]
    ]

    create_share-refused :
        (e : String)
        → ((memory down).create_share_nfs p s).0 ≡ err e
        → Same memory_view s ((memory down).create_share_nfs p s).1
    create_share-refused e h = elim (Bool-cases (down on_create_share)) [
      | inl off ↦ rw off (Same-refl memory_view s)
      | inr on ↦ elim (Bool-cases (s.old_api && is_some p.path)) [
        | inl old ↦ rw (on, old) (Same-refl memory_view s)
        | inr new ↦ cc (rw (on, new) at h)
      ]
    ]

  delete_dataset-gone :
      (s : Memory) (id : String) (d : Dataset)
      → ((memory down).delete_dataset id s).0 ≡ ok tt
      → Elem d (datasets_of ((memory down).delete_dataset id s).1.stored)
        ↔ (Elem d (datasets_of s.stored) × (d.id ≢ id))
  delete_dataset-gone s id d h = elim (Bool-cases (down on_delete_dataset)) [
    | inl off ↦ cc (rw off at h)
    | inr on ↦ rw on (Elem-without_name id d s.stored)
  ]

  pub memory-IsStore : IsStore (memory down) memory_view
  memory-IsStore = record {
    list_datasets-same = list_datasets-Same;
    list_datasets-all = λ s ds h. ground arith;
    list_shares-same = list_shares-Same;
    list_shares-all = λ s shares h. ground arith;
    dataset_id = λ s d. dataset_id-memory d s.stored;
    create_dataset-listed = create_dataset-listed;
    create_share-listed = create_share-listed;
    create_share-refused = create_share-refused;
    delete_dataset-gone = delete_dataset-gone;
  }
