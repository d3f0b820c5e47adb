-- ===== src/Iscsi/Listing/Chain.antt =====
-- The three maps of `iscsiListVolumes` (pkg/driver/iscsi.go): from paths, extents and targets to datasets.
use truenas_scale_csi.Base.{
  String, ◌<>◌, ◌≡◌, sym, ap, inl, inr, Bool, true, some, List, [], ℤ, Elem, Elem-select, select,
  Option-cases, is_some,
}
use truenas_scale_csi.Csi.{lookup, lookup_id, put_all}
use truenas_scale_csi.Csi.Maps.{
  lookup-Elem, Elem-lookup, lookup_id-Elem, Elem-lookup_id, Elem-put_all, put_all-Elem,
}
use truenas_scale_csi.TrueNas.{Dataset, IscsiExtent, IscsiTargetExtent}
use truenas_scale_csi.Iscsi.Query.{is_volume_below, by_zvol_path, by_extent_id, by_target_id}

module _ (prefix : String) (datasets : List Dataset) (extents : List IscsiExtent)
    (mappings : List IscsiTargetExtent) where
  abbrev pub dataset_map : List (String × Dataset)
  dataset_map = put_all by_zvol_path [] (select (is_volume_below prefix) datasets)

  abbrev pub has_volume : IscsiExtent → Bool
  has_volume extent = is_some (lookup extent.path dataset_map)

  abbrev pub extent_map : List (ℤ × Dataset)
  extent_map = put_all (by_extent_id dataset_map) [] (select has_volume extents)

  abbrev pub has_extent : IscsiTargetExtent → Bool
  has_extent mapping = is_some (lookup_id mapping.extent extent_map)

  abbrev pub target_map : List (ℤ × Dataset)
  target_map = put_all (by_target_id extent_map) [] (select has_extent mappings)

  in_dataset_map :
      (path : String) (ds : Dataset)
      → lookup path dataset_map ≡ some ds
      → Elem ds datasets × (is_volume_below prefix ds ≡ true) × (path ≡ "zvol/" <> ds.name)
  in_dataset_map path ds h =
      elim (Elem-put_all by_zvol_path (path, ds) [] _ (lookup-Elem path _ ds h)) [
        | inr none' ↦ absurd none'
        | inl (x, kept, e) ↦
            let (listed, below) = (Elem-select (is_volume_below prefix) x datasets).0 kept in
            let same : x ≡ ds = sym (ap (λ p. p.1) e) in
            (rw same at listed, rw same at below, rw (← same) (ap (λ p. p.0) e))
      ]

  in_extent_map :
      (id : ℤ) (ds : Dataset)
      → lookup_id id extent_map ≡ some ds
      → (x : IscsiExtent) × Elem x extents × (x.id ≡ id) × (lookup x.path dataset_map ≡ some ds)
  in_extent_map id ds h =
      elim (Elem-put_all (by_extent_id dataset_map) (id, ds) [] _ (lookup_id-Elem id _ ds h)) [
        | inr none' ↦ absurd none'
        | inl (x, kept, e) ↦
            let (listed, has) = (Elem-select has_volume x extents).0 kept in
            elim (Option-cases (lookup x.path dataset_map)) [
              | inl missing ↦ cc (rw missing at has)
              | inr (w, found) ↦
                  let same : ds ≡ w = rw found at (ap (λ p. p.1) e) in
                  (x, listed, sym (ap (λ p. p.0) e), rw same found)
            ]
      ]

  in_target_map :
      (id : ℤ) (ds : Dataset)
      → lookup_id id target_map ≡ some ds
      → (x : IscsiTargetExtent) × Elem x mappings
        × (x.target ≡ id)
        × (lookup_id x.extent extent_map ≡ some ds)
  in_target_map id ds h =
      elim (Elem-put_all (by_target_id extent_map) (id, ds) [] _ (lookup_id-Elem id _ ds h)) [
        | inr none' ↦ absurd none'
        | inl (x, kept, e) ↦
            let (listed, has) = (Elem-select has_extent x mappings).0 kept in
            elim (Option-cases (lookup_id x.extent extent_map)) [
              | inl missing ↦ cc (rw missing at has)
              | inr (w, found) ↦
                  let same : ds ≡ w = rw found at (ap (λ p. p.1) e) in
                  (x, listed, sym (ap (λ p. p.0) e), rw same found)
            ]
      ]

  -- A dataset, an extent over it and a mapping of the extent, as they lead to a target.
  pub record Leads (id : ℤ) (ds : Dataset) : Type 0 where
    pub dataset : Elem ds datasets
    pub below : is_volume_below prefix ds ≡ true
    pub extent : IscsiExtent
    pub extent_listed : Elem extent extents
    pub path : extent.path ≡ "zvol/" <> ds.name
    pub mapping : IscsiTargetExtent
    pub mapping_listed : Elem mapping mappings
    pub mapped : mapping.extent ≡ extent.id
    pub to : mapping.target ≡ id

  -- What the last map holds for a target leads to it.
  pub lookup-Leads : (id : ℤ) (ds : Dataset) → lookup_id id target_map ≡ some ds → Leads id ds
  lookup-Leads id ds h =
      let (mp, mp_listed, to, found) = in_target_map id ds h in
      let (ex, ex_listed, ex_id, found') = in_extent_map mp.extent ds found in
      let (listed, below, path) = in_dataset_map ex.path ds found' in
      record {
        dataset = listed;
        below = below;
        extent = ex;
        extent_listed = ex_listed;
        path = path;
        mapping = mp;
        mapping_listed = mp_listed;
        mapped = sym ex_id;
        to = to;
      }

  -- Where something leads to a target, the last map holds a dataset for it.
  pub Leads-lookup :
      (id : ℤ) (ds : Dataset) → Leads id ds → (w : Dataset) × (lookup_id id target_map ≡ some w)
  Leads-lookup id ds l =
      let (x, found) = Elem-lookup ("zvol/" <> ds.name) ds dataset_map (
        put_all-Elem by_zvol_path ds [] _
          ((Elem-select (is_volume_below prefix) ds datasets).1 (l.dataset, l.below))) in
      let (y, found') = Elem-lookup_id l.extent.id _ extent_map (
        put_all-Elem (by_extent_id dataset_map) l.extent [] _
          ((Elem-select has_volume l.extent extents).1 (l.extent_listed, rw (l.path, found)))) in
      let (z, found'') = Elem-lookup_id l.mapping.target _ target_map (
        put_all-Elem (by_target_id extent_map) l.mapping [] _ (
          (Elem-select has_extent l.mapping mappings).1
            (l.mapping_listed, rw (l.mapped, found')))) in
      (z, rw l.to at found'')
