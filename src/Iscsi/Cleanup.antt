-- ===== src/Iscsi/Cleanup.antt =====
-- Where the clean-up of `iscsiCreateVolume` and the search of `iscsiDeleteVolume` (pkg/driver/iscsi.go) reach
-- objects that the call did not make.
use truenas_scale_csi.Base.{
  String, ◌<>◌, ◌≡◌, refl, true, none, some, List, ◌∷◌, ℤ, Elem, ok, err, first, starts_with-append,
}
use text.Mathlib.TextLemmas.{append_assoc}
use truenas_scale_csi.Csi.{status, internal, CreateVolumeRequest}
use truenas_scale_csi.Libraries.{Libraries}
use truenas_scale_csi.Driver.{Driver}
use truenas_scale_csi.Size.{extract_storage}
use truenas_scale_csi.Caps.{iscsi_check_caps}
use truenas_scale_csi.TrueNas.{Client, Dataset, IscsiInitiator}
use truenas_scale_csi.TrueNas.Laws.{View, IsStore, IsBlockStore}
use truenas_scale_csi.Iscsi.{
  iscsi_volume_prefix, iscsi_dataset_name, get_portal_addr, is_volume_named, has_comment,
  initiator_comment, ensure_extent, remove_dataset,
}
use truenas_scale_csi.Iscsi.Create.{create_objects, iscsi_create_volume}
use truenas_scale_csi.Iscsi.Create.Provided.{ensure_volume-again}
use truenas_scale_csi.Iscsi.Delete.{iscsi_delete_volume}
use truenas_scale_csi.Iscsi.Delete.Gone.{initiators-gone}

module _ (C : Client) (V : View C.Server) (store : IsStore C V) (block : IsBlockStore C V)
    (L : Libraries) (d : Driver) where
  open C use {Server}

  ensure_extent-down :
      (id volume_id path e : String) (s t : Server)
      → C.list_extents s ≡ (err e, t)
      → (C.delete_dataset id t).0 ≡ ok tt
      → ensure_extent C (remove_dataset C id) volume_id path s ≡ (
        err (status internal "failed to look for existing iSCSI extents: <nil>"),
        (C.delete_dataset id t).1,
      )
  unfolding ensure_extent
  ensure_extent-down id volume_id path e s t down gone = rw (down, gone)

  -- Where the volume's dataset is there before the call, and listing the extents fails, iSCSI
  -- CreateVolume deletes that dataset; if that succeeds, the call answers with an internal error whose
  -- text ends in "<nil>" in place of the error of the listing.
  -- Assumed of the server: `IsStore` and `IsBlockStore`.
  pub iscsi_create_volume-destroys :
      (req : CreateVolumeRequest) (s s1 s2 s3 : Server) (iqn_base addr e : String) (size : ℤ)
      (ds : List Dataset) (x : Dataset)
      → let name = iscsi_dataset_name d (iscsi_volume_prefix <> req.name) in
        iscsi_check_caps L req.volume_capabilities ≡ none
        → get_portal_addr C d.portal_id s ≡ (ok (iqn_base, addr), s1)
        → extract_storage req.capacity_range ≡ ok size
        → C.list_datasets s1 ≡ (ok ds, s2)
        → first (is_volume_named name) (V.datasets s1) ≡ some x
        → C.list_extents s2 ≡ (err e, s3)
        → (C.delete_dataset x.id s3).0 ≡ ok tt
        → let (r, t) = iscsi_create_volume C L d req s in
          (r ≡ err (status internal "failed to look for existing iSCSI extents: <nil>"))
          × (¬ Elem x (V.datasets t))
  unfolding iscsi_create_volume create_objects
  iscsi_create_volume-destroys req s s1 s2 s3 iqn_base addr e size ds x caps portal accepted up
        found down gone =
      rw
        (
          caps,
          portal,
          accepted,
          ensure_volume-again C V store block _ size s1 s2 ds x up found,
          ensure_extent-down x.id _ _ e s2 s3 down gone,
        )
        (refl, λ still. ((store.delete_dataset-gone s3 x.id x gone).0 still).1 refl)

  -- An initiator that was created for a volume whose id begins with `volume_id`, such as "iscsi-ab" for
  -- "iscsi-a", and which is the first on the server, is gone after a successful delete of `volume_id`.
  -- Assumed of the server: `IsStore` and `IsBlockStore`.
  pub iscsi_delete_volume-prefix :
      (volume_id suffix : String) (s : Server) (x : IscsiInitiator) (rest : List IscsiInitiator)
      → V.initiators s ≡ x ∷ rest
      → x.comment ≡ initiator_comment (volume_id <> suffix)
      → (iscsi_delete_volume C d volume_id s).0 ≡ ok tt
      → ¬ Elem x (V.initiators (iscsi_delete_volume C d volume_id s).1)
  iscsi_delete_volume-prefix volume_id suffix s x rest listed comment done still =
      let matches : has_comment volume_id x ≡ true =
        rw (comment, append_assoc) (starts_with-append volume_id _) in
      let gone = initiators-gone C V store block d volume_id s x done in
      (gone.0 still).1 (rw (listed, matches) refl)
