-- ===== src/Nfs/Refinement.antt =====
-- The NFS volumes on a server (pkg/driver/nfs.go) as a set of names, which creating and deleting refine.
use truenas_scale_csi.Base.{
  String, ◌<>◌, ◌≡◌, ◌≢◌, ◌∙◌, refl, sym, ap, ◌↔◌, inl, inr, Bool, true, false, List, [], ◌∷◌, ok,
  Elem, first_sound, str_eq, eq_iff, trim_prefix, trim_prefix-append, Bool-cases, if◌then◌else◌,
}
use truenas_scale_csi.Csi.{CreateVolumeRequest, Volume}
use truenas_scale_csi.Libraries.{Libraries}
use truenas_scale_csi.Driver.{Driver}
use truenas_scale_csi.TrueNas.{Client, Dataset}
use truenas_scale_csi.TrueNas.Laws.{View, Same, IsStore}
use truenas_scale_csi.Nfs.{
  named, nfs_volume_prefix, nfs_dataset_name, nfs_create_volume, nfs_delete_volume,
}
use truenas_scale_csi.Nfs.Steps.{ensure_dataset-Extends, ensure_share-found}
use truenas_scale_csi.Nfs.Create.{run-IsCreated, nfs_create_volume-IsProvided}
use truenas_scale_csi.Nfs.Delete.{nfs_delete_volume-gone}
use truenas_scale_csi.Nfs.Lifecycle.{trim-nfs_dataset_name}

-- The specification: a set of names, and what the operations do to it.
abbrev pub Names : Type 0
Names = String → Bool

pub data Operation : Type 0 where
  create : CreateVolumeRequest → Operation
  -- Of the volume with this name.
  delete : String → Operation

abbrev pub put : String → Bool → Names → Names
put name b names n = if str_eq n name then b else names n

abbrev pub apply : Operation → Names → Names
apply (create req) names = put req.name true names
apply (delete name) names = put name false names

abbrev pub apply_all : List Operation → Names → Names
apply_all [] names = names
apply_all (o ∷ os) names = apply_all os (apply o names)

abbrev pub dataset_of : Driver → String → String
dataset_of d name = nfs_dataset_name d (nfs_volume_prefix <> name)

-- Volumes of different names have datasets of different names.
dataset_of-injective : (d : Driver) (a b : String) → dataset_of d a ≡ dataset_of d b → a ≡ b
dataset_of-injective d a b e =
    let ids : nfs_volume_prefix <> a ≡ nfs_volume_prefix <> b =
      sym (trim-nfs_dataset_name d (nfs_volume_prefix <> a))
      ∙ ap (λ n. trim_prefix n (d.nfs_storage_path <> "/")) e
      ∙ trim-nfs_dataset_name d (nfs_volume_prefix <> b) in
    sym (trim_prefix-append nfs_volume_prefix a)
    ∙ ap (λ n. trim_prefix n nfs_volume_prefix) ids
    ∙ trim_prefix-append nfs_volume_prefix b

module _ (C : Client) (V : View C.Server) (store : IsStore C V) (L : Libraries) (d : Driver) where
  open C use {Server}

  -- The server has a dataset of the volume's name.
  abbrev pub Holds : String → Server → Type 0
  Holds name s = (x : Dataset) × Elem x (V.datasets s) × (x.name ≡ dataset_of d name)

  pub record Represents (names : Names) (s : Server) : Type 0 where
    pub holds : (name : String) → Holds name s ↔ (names name ≡ true)

  -- Operations that succeed one after the other, and between them anything that leaves the server as it is.
  pub data Runs : List Operation → Server → Server → Type 0 where
    done : {s : Server} → Runs [] s s
    idle : {os : List Operation} {s u t : Server} → Same V s u → Runs os u t → Runs os s t
    created :
        {os : List Operation} {s t : Server} (req : CreateVolumeRequest) (v : Volume)
        → (nfs_create_volume C L d req s).0 ≡ ok v
        → Runs os (nfs_create_volume C L d req s).1 t
        → Runs (create req ∷ os) s t
    deleted :
        {os : List Operation} {s t : Server} (name : String)
        → (nfs_delete_volume C L d (nfs_volume_prefix <> name) s).0 ≡ ok tt
        → Runs os (nfs_delete_volume C L d (nfs_volume_prefix <> name) s).1 t
        → Runs (delete name ∷ os) s t

  created-Represents :
      (names : Names) (s : Server) (req : CreateVolumeRequest) (v : Volume)
      → (nfs_create_volume C L d req s).0 ≡ ok v
      → Represents names s
      → Represents (apply (create req) names) (nfs_create_volume C L d req s).1
  created-Represents names s req v h r =
      let t = (nfs_create_volume C L d req s).1 in
      let c = run-IsCreated C L d req s v h in
      let (_, _, _, _, p) = nfs_create_volume-IsProvided C V store L d req s v h in
      let (there, called) = first_sound (named (dataset_of d req.name)) p.dataset _ p.named_so in
      let (kept, others) =
        ensure_dataset-Extends C V store (dataset_of d req.name) c.size s c.mountpoint c.middle
          c.dataset in
      let (_, _, same) = ensure_share-found C V store req.name c.mountpoint c.middle t c.share in
      record {
        holds = λ name. elim (Bool-cases (str_eq name req.name)) [
          | inl here ↦ rw here (
            λ h'. refl,
            λ h'. (
              p.dataset,
              there,
              (eq_iff p.dataset.name (dataset_of d req.name)).0 called
                  ∙ ap (dataset_of d) (sym ((eq_iff name req.name).0 here)),
            ),
          )
          | inr there' ↦ rw there' (
            λ (x, e, n). elim (others x (rw same at e)) [
              | inl new ↦ cc (
                there',
                (eq_iff name req.name).1 (dataset_of-injective d name req.name (sym n ∙ new)),
              )
              | inr old ↦ (r.holds name).0 (x, old, n)
            ],
            λ yes'. let (x, e, n) = (r.holds name).1 yes' in (x, rw same (kept x e), n),
          )
        ];
      }

  deleted-Represents :
      (names : Names) (s : Server) (gone : String)
      → (nfs_delete_volume C L d (nfs_volume_prefix <> gone) s).0 ≡ ok tt
      → Represents names s
      → Represents
          (apply (delete gone) names)
          (nfs_delete_volume C L d (nfs_volume_prefix <> gone) s).1
  deleted-Represents names s gone h r = record {
    holds = λ name. elim (Bool-cases (str_eq name gone)) [
      | inl here ↦ rw here (
        λ (x, e, n). absurd (((left x).0 e).1 (n ∙ ap (dataset_of d) ((eq_iff name gone).0 here))),
        λ no'. cc no',
      )
      | inr there' ↦ rw there' (
        λ (x, e, n). (r.holds name).0 (x, ((left x).0 e).0, n),
        λ yes'.
            let (x, e, n) = (r.holds name).1 yes' in
            (x, (left x).1 (e, λ m. other name there' (sym n ∙ m)), n),
      )
    ];
  }
    where
      left :
          (x : Dataset)
          → Elem x (V.datasets (nfs_delete_volume C L d (nfs_volume_prefix <> gone) s).1)
            ↔ (Elem x (V.datasets s) × (x.name ≢ dataset_of d gone))
      left x = nfs_delete_volume-gone C V store L d (nfs_volume_prefix <> gone) s x h

      other : (name : String) → str_eq name gone ≡ false → dataset_of d name ≢ dataset_of d gone
      other name differs e = cc (differs, (eq_iff name gone).1 (dataset_of-injective d name gone e))

  -- NFS volumes refine a set of names: where the server's datasets of volumes are those of a set, then after
  -- any sequence of creations and deletions that succeed, with anything between them that leaves the server as
  -- it is, they are those of the set to which the same operations were applied, one name put in or taken
  -- out by each.
  -- Assumed of the server: `IsStore`.
  pub Runs-Represents :
      (os : List Operation) (names : Names) (s t : Server)
      → Represents names s
      → Runs os s t
      → Represents (apply_all os names) t
  Runs-Represents os names s t r done = r
  Runs-Represents os names s t r (idle {u = u} same rest) =
      Runs-Represents os names u t (record { holds = λ name. rw same.datasets (r.holds name) }) rest
  Runs-Represents os names s t r (created {os = later} req v h rest) =
      Runs-Represents later (apply (create req) names) (nfs_create_volume C L d req s).1 t
        (created-Represents names s req v h r) rest
  Runs-Represents os names s t r (deleted {os = later} name h rest) =
      Runs-Represents later (apply (delete name) names)
        (nfs_delete_volume C L d (nfs_volume_prefix <> name) s).1 t
        (deleted-Represents names s name h r) rest
