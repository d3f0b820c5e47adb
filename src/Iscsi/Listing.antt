-- ===== src/Iscsi/Listing.antt =====
-- `iscsiListVolumes` (pkg/driver/iscsi.go): what is listed.
pub mod Entries
pub mod Chain
use truenas_scale_csi.Base.{
  String, ◌<>◌, ◌≡◌, refl, ◌∙◌, sym, ap, subst, Bool, true, Option, none, some, List, [], ℤ, Result,
  ok, Elem, Elem-select, select, parse_int, get_or, is_some, Option-cases, inl, inr,
}
use truenas_scale_csi.Csi.{Error, Volume, lookup_id}
use truenas_scale_csi.Libraries.{Libraries}
use truenas_scale_csi.Driver.{Driver}
use truenas_scale_csi.TrueNas.{Client, Dataset, IscsiExtent, IscsiTarget, IscsiTargetExtent}
use truenas_scale_csi.TrueNas.Laws.{View, Same, Same-trans, IsStore, IsBlockStore}
use truenas_scale_csi.Iscsi.Query.{is_volume_below, iscsi_entries, iscsi_list_volumes}
use truenas_scale_csi.Iscsi.Listing.Entries.{
  Reads, raw_of, raw_of-found, iscsi_entries_sound, iscsi_entries_complete, iscsi_entries_total,
}
use truenas_scale_csi.Iscsi.Listing.Chain.{target_map, Leads, lookup-Leads, Leads-lookup}

module _ (C : Client) (V : View C.Server) (store : IsStore C V) (block : IsBlockStore C V)
    (L : Libraries) (d : Driver) where
  open C use {Server}

  abbrev prefix : String
  prefix = d.iscsi_storage_path <> "/"

  abbrev map_at : Server → List (ℤ × Dataset)
  map_at s = target_map prefix (V.datasets s) (V.extents s) (V.target_extents s)

  abbrev is_mapped : Server → IscsiTarget → Bool
  is_mapped s target = is_some (lookup_id target.id (map_at s))

  abbrev targets_at : Server → List IscsiTarget
  targets_at s = select (is_mapped s) (V.targets s)

  -- The four listings of the handler are answered, one after the other, from `s` on.
  pub record IsListed (s : Server) : Type 0 where
    pub datasets : List Dataset
    pub extents : List IscsiExtent
    pub mappings : List IscsiTargetExtent
    pub targets : List IscsiTarget
    pub s1 : Server
    pub s2 : Server
    pub s3 : Server
    pub s4 : Server
    pub datasets_up : C.list_datasets s ≡ (ok datasets, s1)
    pub extents_up : C.list_extents s1 ≡ (ok extents, s2)
    pub mappings_up : C.list_target_extents s2 ≡ (ok mappings, s3)
    pub targets_up : C.list_targets s3 ≡ (ok targets, s4)

  -- What a volume of the listing is on the server: a target that a mapping and an extent lead to from a
  -- dataset under the storage path, which is a volume of the listed size.
  pub record IsEntryOf (s : Server) (target : IscsiTarget) (v : Volume) : Type 0 where
    pub dataset : Dataset
    pub leads : Leads prefix (V.datasets s) (V.extents s) (V.target_extents s) target.id dataset
    pub id : v.volume_id ≡ target.name
    pub size : parse_int dataset.volsize ≡ some v.capacity_bytes
    pub context : v.volume_context ≡ []

  -- The sizes of the volumes under the storage path are numbers.
  pub record HasSizes (s : Server) : Type 0 where
    pub readable :
        (x : Dataset)
        → Elem x (V.datasets s)
        → is_volume_below prefix x ≡ true
        → (q : ℤ) × (parse_int x.volsize ≡ some q)

  iscsi_list_volumes-run :
      (s : Server)
      → IsListed s
      → (iscsi_list_volumes C L d s).0 ≡ iscsi_entries L (map_at s) (targets_at s)
  unfolding iscsi_list_volumes
  iscsi_list_volumes-run s l =
      let same1 : Same V s l.s1 =
        subst (λ r. Same V s r.1) l.datasets_up (store.list_datasets-same s) in
      let same2 : Same V l.s1 l.s2 =
        subst (λ r. Same V l.s1 r.1) l.extents_up (block.list_extents-same l.s1) in
      let same3 : Same V l.s2 l.s3 =
        subst (λ r. Same V l.s2 r.1) l.mappings_up (block.list_target_extents-same l.s2) in
      rw (
        l.datasets_up,
        l.extents_up,
        l.mappings_up,
        l.targets_up,
        store.list_datasets-all s l.datasets (ap (λ r. r.0) l.datasets_up),
        block.list_extents-all l.s1 l.extents (ap (λ r. r.0) l.extents_up),
        block.list_target_extents-all l.s2 l.mappings (ap (λ r. r.0) l.mappings_up),
        block.list_targets-all l.s3 l.targets (ap (λ r. r.0) l.targets_up),
        same3.targets,
        same2.targets,
        same1.targets,
        same2.target_extents,
        same1.target_extents,
        same1.extents,
      )

  mapped :
      (s : Server) (target : IscsiTarget)
      → Elem target (targets_at s)
      → (x : Dataset) × (lookup_id target.id (map_at s) ≡ some x)
        × Elem target (V.targets s)
        × Leads prefix (V.datasets s) (V.extents s) (V.target_extents s) target.id x
  mapped s target h =
      let (listed, has) = (Elem-select (is_mapped s) target (V.targets s)).0 h in
      elim (Option-cases (lookup_id target.id (map_at s))) [
        | inl missing ↦ cc (rw missing at has)
        | inr (x, found) ↦ (x, found, listed, lookup-Leads prefix _ _ _ target.id x found)
      ]

  Reads-IsEntryOf :
      (s : Server) (target : IscsiTarget) (v : Volume)
      → Elem target (targets_at s)
      → Reads L (map_at s) target v
      → IsEntryOf s target v
  Reads-IsEntryOf s target v h r =
      let (x, found, listed, leads) = mapped s target h in
      let parsed : parse_int x.volsize ≡ some r.quota =
        ap parse_int (sym (raw_of-found L (map_at s) target x found)) ∙ r.parsed in
      rw r.made (record { dataset = x; leads = leads; id = refl; size = parsed; context = refl })

  -- Every volume that iSCSI ListVolumes lists is a target on the server, under its name, which a mapping
  -- and an extent connect with a dataset of type VOLUME under the storage path; its capacity is the
  -- size of that dataset, and its context is empty.
  -- Assumed of the server: `IsStore` and `IsBlockStore`.
  pub iscsi_list_volumes_sound :
      (s : Server) (es : List Volume) (v : Volume)
      → IsListed s
      → (iscsi_list_volumes C L d s).0 ≡ ok es
      → Elem v es
      → (target : IscsiTarget) × Elem target (V.targets s) × IsEntryOf s target v
  iscsi_list_volumes_sound s es v l h e =
      let (target, kept, reads) =
        iscsi_entries_sound L (map_at s) (targets_at s) es v (rw (iscsi_list_volumes-run s l) at h)
          e in
      (
        target,
        ((Elem-select (is_mapped s) target (V.targets s)).0 kept).0,
        Reads-IsEntryOf s target v kept reads,
      )

  -- With its four listings answered and the sizes of the volumes under the storage path readable, iSCSI
  -- ListVolumes succeeds, and it lists every target on the server that a mapping and an extent
  -- connect with such a volume.
  -- Assumed of the server: `IsStore` and `IsBlockStore`.
  pub iscsi_list_volumes_complete :
      (s : Server) (target : IscsiTarget) (x : Dataset)
      → IsListed s
      → HasSizes s
      → Elem target (V.targets s)
      → Leads prefix (V.datasets s) (V.extents s) (V.target_extents s) target.id x
      → (es : List Volume) × ((iscsi_list_volumes C L d s).0 ≡ ok es)
        × (v : Volume) × Elem v es
        × IsEntryOf s target v
  iscsi_list_volumes_complete s target x l sizes listed leads =
      let (es, done) = iscsi_entries_total L (map_at s) (targets_at s) readable in
      let (w, found) = Leads-lookup prefix _ _ _ target.id x leads in
      let kept : Elem target (targets_at s) =
        (Elem-select (is_mapped s) target (V.targets s)).1 (listed, rw found) in
      let (v, in_es, reads) =
        iscsi_entries_complete L (map_at s) (targets_at s) es target done kept in
      (es, rw (iscsi_list_volumes-run s l) done, v, in_es, Reads-IsEntryOf s target v kept reads)
    where
      readable :
          (t : IscsiTarget)
          → Elem t (targets_at s)
          → (q : ℤ) × (parse_int (raw_of L (map_at s) t) ≡ some q)
      readable t h =
          let (y, found, _, leads') = mapped s t h in
          let (q, parsed) = sizes.readable y leads'.dataset leads'.below in
          (q, ap parse_int (raw_of-found L (map_at s) t y found) ∙ parsed)
