-- ===== src/Controller/Dispatch.antt =====
-- What the controller service (pkg/driver/controller.go) promises, whichever back end it passes on to.
use truenas_scale_csi.Base.{
  String, ◌<>◌, ◌≡◌, ◌≢◌, ◌∙◌, sym, ap, subst, inl, inr, Bool, [], ok, str_eq, eq_iff, length,
  nat_eq, Bool-cases, if◌then◌else◌,
}
use truenas_scale_csi.Csi.{CreateVolumeRequest, Volume}
use truenas_scale_csi.Libraries.{Libraries}
use truenas_scale_csi.Driver.{Driver}
use truenas_scale_csi.Size.{extract_storage}
use truenas_scale_csi.TrueNas.{Client}
use truenas_scale_csi.TrueNas.Laws.{View, IsStore, IsBlockStore}
use truenas_scale_csi.Nfs.{nfs_volume_prefix, nfs_create_volume}
use truenas_scale_csi.Nfs.Create.{nfs_create_volume-IsProvided}
use truenas_scale_csi.Iscsi.{iscsi_volume_prefix}
use truenas_scale_csi.Iscsi.Create.{iscsi_create_volume}
use truenas_scale_csi.Iscsi.Create.Again.{iscsi_create_volume-IsProvided}
use truenas_scale_csi.Controller.{create_volume}

abbrev pub prefix_of : Driver → String
prefix_of d = if d.is_nfs then nfs_volume_prefix else iscsi_volume_prefix

module _ (C : Client) (V : View C.Server) (store : IsStore C V) (block : IsBlockStore C V)
    (L : Libraries) (d : Driver) where
  open C use {Server}

  -- What a successful CreateVolume tells of its request and its answer.
  pub record IsAnswer (req : CreateVolumeRequest) (v : Volume) : Type 0 where
    pub name : req.name ≢ ""
    pub caps : req.volume_capabilities ≢ []
    pub id : v.volume_id ≡ prefix_of d <> req.name
    pub size : extract_storage req.capacity_range ≡ ok v.capacity_bytes

  backend-IsAnswer :
      (req : CreateVolumeRequest) (s : Server) (v : Volume)
      → ((if d.is_nfs then nfs_create_volume C L d req else iscsi_create_volume C L d req) s).0
        ≡ ok v
      → (v.volume_id ≡ prefix_of d <> req.name)
        × (extract_storage req.capacity_range ≡ ok v.capacity_bytes)
  backend-IsAnswer req s v h = elim (Bool-cases d.is_nfs) [
    | inl nfs ↦
        let (size, m, accepted, volume, _) =
          nfs_create_volume-IsProvided C V store L d req s v (subst ran nfs h) in
        (ap volume_id_of volume ∙ ap id_at (sym nfs), cc (volume, accepted))
    | inr iscsi ↦
        let (size, addr, iqn, accepted, _, volume, _) =
          iscsi_create_volume-IsProvided C V store block L d req s v (subst ran iscsi h) in
        (ap volume_id_of volume ∙ ap id_at (sym iscsi), cc (volume, accepted))
  ]
    where
      ran : Bool → Type 0
      ran b =
          ((if b then nfs_create_volume C L d req else iscsi_create_volume C L d req) s).0 ≡ ok v

      id_at : Bool → String
      id_at b = (if b then nfs_volume_prefix else iscsi_volume_prefix) <> req.name

      volume_id_of : Volume → String
      volume_id_of v = v.volume_id

  -- A successful CreateVolume had a name and at least one capability; the id of its volume is the
  -- name behind the prefix of the driver's kind, "nfs-" or "iscsi-", and its size is the one that
  -- `extractStorage` chooses.
  -- Assumed of the server: `IsStore` and `IsBlockStore`.
  pub create_volume-IsAnswer :
      (req : CreateVolumeRequest) (s : Server) (v : Volume)
      → (create_volume C L d req s).0 ≡ ok v
      → IsAnswer req v
  unfolding create_volume
  create_volume-IsAnswer req s v h = elim (Bool-cases (str_eq req.name "")) [
    | inl bare ↦ cc (rw bare at h)
    | inr called ↦ elim (Bool-cases (nat_eq (length req.volume_capabilities) 0)) [
      | inl bare ↦ cc (rw (called, bare) at h)
      | inr given ↦
          let (id, size) = backend-IsAnswer req s v (rw (called, given) at h) in
          record {
            name = λ e. cc (called, (eq_iff req.name "").1 e);
            caps = λ e. cc (rw e at given);
            id = id;
            size = size;
          }
    ]
  ]
