-- ===== src/TrueNas/Laws.antt =====
-- What the driver relies on of the TrueNAS API: what a server lists, as a view of its state, and what
-- the calls do to it. Nothing is assumed of a call that changes the server and fails.
use truenas_scale_csi.Base.{
  ℕ, ◌^◌, ◌<◌, String, ◌≡◌, refl, ◌≢◌, ◌↔◌, ◌⊎◌, none, some, List, [], ◌∷◌, ℤ, pos, Exec, ok, err,
  Elem, parse_int, ◌∙◌,
}
use truenas_scale_csi.TrueNas.{
  Client, CreateDatasetParams, CreateShareNfsParams, CreateExtentParams, CreateTargetParams,
  CreateTargetExtentParams, Dataset, ShareNfs, IscsiExtent, IscsiInitiator, IscsiTarget,
  IscsiTargetExtent,
}
use truenas_scale_csi.TrueNas.Find.{normalise_nfs_share_mountpaths}

-- What the server holds, by kind.
pub record View (S : Type 0) : Type 0 where
  pub datasets : S → List Dataset
  pub shares : S → List ShareNfs
  pub extents : S → List IscsiExtent
  pub initiators : S → List IscsiInitiator
  pub targets : S → List IscsiTarget
  pub target_extents : S → List IscsiTargetExtent

-- The server holds the same in both states.
pub record Same {S : Type 0} (V : View S) (s t : S) : Type 0 where
  pub datasets : V.datasets t ≡ V.datasets s
  pub shares : V.shares t ≡ V.shares s
  pub extents : V.extents t ≡ V.extents s
  pub initiators : V.initiators t ≡ V.initiators s
  pub targets : V.targets t ≡ V.targets s
  pub target_extents : V.target_extents t ≡ V.target_extents s

pub Same-refl : {S : Type 0} (V : View S) (s : S) → Same V s s
Same-refl V s = record {
  datasets = refl;
  shares = refl;
  extents = refl;
  initiators = refl;
  targets = refl;
  target_extents = refl;
}

pub Same-trans : {S : Type 0} (V : View S) (s t u : S) → Same V s t → Same V t u → Same V s u
Same-trans V s t u p q = record {
  datasets = q.datasets ∙ p.datasets;
  shares = q.shares ∙ p.shares;
  extents = q.extents ∙ p.extents;
  initiators = q.initiators ∙ p.initiators;
  targets = q.targets ∙ p.targets;
  target_extents = q.target_extents ∙ p.target_extents;
}

-- `d` was created from `p`, between the states `s` and `t`; its quota, if one was asked for, reads back.
pub record HasDataset {S : Type 0} (V : View S) (p : CreateDatasetParams) (d : Dataset) (s t : S)
    : Type 0 where
  pub name : d.name ≡ p.name
  pub listed : Elem d (V.datasets t)
  pub others : (x : Dataset) → Elem x (V.datasets t) → (x ≡ d) ⊎ Elem x (V.datasets s)
  pub kept : (x : Dataset) → Elem x (V.datasets s) → Elem x (V.datasets t)
  pub shares : V.shares t ≡ V.shares s
  pub type : (type : String) → p.type ≡ some type → d.type ≡ type
  pub quota : (q : ℕ) → p.refquota ≡ some (pos q) → q < 2 ^ 63 → parse_int d.refquota ≡ some (pos q)

-- `share` was created from `p`, whichever of its two ways of naming the path was used.
pub record HasShare {S : Type 0} (V : View S) (p : CreateShareNfsParams) (share : ShareNfs)
    (s t : S) : Type 0 where
  pub listed : Elem share (V.shares t)
  pub kept : (x : ShareNfs) → Elem x (V.shares s) → Elem x (V.shares t)
  pub by_path : (path : String) → p.path ≡ some path → normalise_nfs_share_mountpaths share ≡ path
  pub by_paths :
      (path : String)
      → p.path ≡ none
      → p.paths ≡ path ∷ []
      → normalise_nfs_share_mountpaths share ≡ path
  pub datasets : V.datasets t ≡ V.datasets s

-- The calls on datasets and shares. A listing, whether it succeeds or not, changes nothing that is
-- listed, and shows all of it. A dataset's id is its name. A dataset or a share that was created is
-- listed, beside what was listed before; deleting by id takes away what has that id.
pub record IsStore (C : Client) (V : View C.Server) : Type 0 where
  pub list_datasets-same : (s : C.Server) → Same V s (C.list_datasets s).1
  pub list_datasets-all :
      (s : C.Server) (ds : List Dataset) → (C.list_datasets s).0 ≡ ok ds → ds ≡ V.datasets s
  pub list_shares-same : (s : C.Server) → Same V s (C.list_shares_nfs s).1
  pub list_shares-all :
      (s : C.Server) (shares : List ShareNfs)
      → (C.list_shares_nfs s).0 ≡ ok shares
      → shares ≡ V.shares s
  pub dataset_id : (s : C.Server) (d : Dataset) → Elem d (V.datasets s) → d.id ≡ d.name
  pub create_dataset-listed :
      (s : C.Server) (p : CreateDatasetParams) (d : Dataset)
      → (C.create_dataset p s).0 ≡ ok d
      → HasDataset V p d s (C.create_dataset p s).1
  pub create_share-listed :
      (s : C.Server) (p : CreateShareNfsParams) (share : ShareNfs)
      → (C.create_share_nfs p s).0 ≡ ok share
      → HasShare V p share s (C.create_share_nfs p s).1
  -- A refused creation of a share leaves the listings as they were.
  pub create_share-refused :
      (s : C.Server) (p : CreateShareNfsParams) (e : String)
      → (C.create_share_nfs p s).0 ≡ err e
      → Same V s (C.create_share_nfs p s).1
  pub delete_dataset-gone :
      (s : C.Server) (id : String) (d : Dataset)
      → (C.delete_dataset id s).0 ≡ ok tt
      → Elem d (V.datasets (C.delete_dataset id s).1) ↔ (Elem d (V.datasets s) × (d.id ≢ id))

-- What a listing call shows, and that it changes nothing that is listed under `view`.
pub record Lists {S X : Type 0} (list : Exec S String (List X)) (view : S → List X) : Type 0 where
  pub all : (s : S) (xs : List X) → (list s).0 ≡ ok xs → xs ≡ view s
  pub same : (s : S) → view (list s).1 ≡ view s

-- `x` is on the list `ys`, which otherwise holds what was on `xs`.
pub record Added {X : Type 0} (xs : List X) (x : X) (ys : List X) : Type 0 where
  pub listed : Elem x ys
  pub others : (y : X) → Elem y ys → (y ≡ x) ⊎ Elem y xs

-- The calls on extents, initiators, targets and their mappings. A listing changes nothing; what was
-- created is listed with the fields that it was given, and creating it leaves what it builds on.
pub record IsBlockStore (C : Client) (V : View C.Server) : Type 0 where
  pub list_extents-same : (s : C.Server) → Same V s (C.list_extents s).1
  pub list_extents-all :
      (s : C.Server) (xs : List IscsiExtent) → (C.list_extents s).0 ≡ ok xs → xs ≡ V.extents s
  pub list_initiators-same : (s : C.Server) → Same V s (C.list_initiators s).1
  pub list_initiators-all :
      (s : C.Server) (xs : List IscsiInitiator)
      → (C.list_initiators s).0 ≡ ok xs
      → xs ≡ V.initiators s
  pub list_targets-same : (s : C.Server) → Same V s (C.list_targets s).1
  pub list_targets-all :
      (s : C.Server) (xs : List IscsiTarget) → (C.list_targets s).0 ≡ ok xs → xs ≡ V.targets s
  pub list_target_extents-same : (s : C.Server) → Same V s (C.list_target_extents s).1
  pub list_target_extents-all :
      (s : C.Server) (xs : List IscsiTargetExtent)
      → (C.list_target_extents s).0 ≡ ok xs
      → xs ≡ V.target_extents s
  pub create_extent-listed :
      (s : C.Server) (p : CreateExtentParams) (x : IscsiExtent)
      → (C.create_extent p s).0 ≡ ok x
      → let t = (C.create_extent p s).1 in
        (x.path ≡ p.disk) × Added (V.extents s) x (V.extents t) × (V.datasets t ≡ V.datasets s)
  pub create_initiator-listed :
      (s : C.Server) (comment : String) (x : IscsiInitiator)
      → (C.create_initiator comment s).0 ≡ ok x
      → let t = (C.create_initiator comment s).1 in
        (x.comment ≡ comment)
        × Added (V.initiators s) x (V.initiators t)
        × (V.datasets t ≡ V.datasets s)
        × (V.extents t ≡ V.extents s)
  pub create_target-listed :
      (s : C.Server) (p : CreateTargetParams) (x : IscsiTarget)
      → (C.create_target p s).0 ≡ ok x
      → let t = (C.create_target p s).1 in
        (x.name ≡ p.name)
        × Added (V.targets s) x (V.targets t)
        × (V.datasets t ≡ V.datasets s)
        × (V.extents t ≡ V.extents s)
        × (V.initiators t ≡ V.initiators s)
  pub create_target_extent-listed :
      (s : C.Server) (p : CreateTargetExtentParams) (x : IscsiTargetExtent)
      → (C.create_target_extent p s).0 ≡ ok x
      → let t = (C.create_target_extent p s).1 in
        (x.target ≡ p.target)
        × (x.extent ≡ p.extent)
        × Added (V.target_extents s) x (V.target_extents t)
        × (V.datasets t ≡ V.datasets s)
        × (V.extents t ≡ V.extents s)
        × (V.initiators t ≡ V.initiators s)
        × (V.targets t ≡ V.targets s)
  -- Deleting a target by force takes it off the list, and leaves the datasets and the initiators.
  pub delete_target-gone :
      (s : C.Server) (id : ℤ) (x : IscsiTarget)
      → (C.delete_target id s).0 ≡ ok tt
      → Elem x (V.targets (C.delete_target id s).1) ↔ (Elem x (V.targets s) × (x.id ≢ id))
  pub delete_target-keeps :
      (s : C.Server) (id : ℤ)
      → (C.delete_target id s).0 ≡ ok tt
      → let t = (C.delete_target id s).1 in
        (V.datasets t ≡ V.datasets s) × (V.initiators t ≡ V.initiators s)
  pub delete_dataset-keeps :
      (s : C.Server) (id : String)
      → (C.delete_dataset id s).0 ≡ ok tt
      → let t = (C.delete_dataset id s).1 in
        (V.targets t ≡ V.targets s) × (V.initiators t ≡ V.initiators s)
  pub delete_initiator-gone :
      (s : C.Server) (id : ℤ) (x : IscsiInitiator)
      → (C.delete_initiator id s).0 ≡ ok tt
      → Elem x (V.initiators (C.delete_initiator id s).1) ↔ (Elem x (V.initiators s) × (x.id ≢ id))
  pub delete_initiator-keeps :
      (s : C.Server) (id : ℤ)
      → (C.delete_initiator id s).0 ≡ ok tt
      → let t = (C.delete_initiator id s).1 in
        (V.datasets t ≡ V.datasets s) × (V.targets t ≡ V.targets s)
