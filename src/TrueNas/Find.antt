-- ===== src/TrueNas/Find.antt =====
-- pkg/driver/nfs_utils.go and pkg/driver/iscsi_utils.go: the first entry of a listing that matches,
-- or all of them. `none` stands for the `false` of the found flag.
use truenas_scale_csi.Base.{
  String, Bool, Option, List, [], ◌∷◌, Exec, pure, ◌>>=◌, first, select, str_eq, if◌then◌else◌,
}
use truenas_scale_csi.TrueNas.{
  Client, Dataset, ShareNfs, IscsiExtent, IscsiInitiator, IscsiTarget, IscsiTargetExtent,
}

module _ (C : Client) where
  open C use {Server}

  unfoldable pub find_dataset : (Dataset → Bool) → Exec Server String (Option Dataset)
  find_dataset fn = do datasets ← C.list_datasets; pure (first fn datasets)

  unfoldable pub find_all_datasets : (Dataset → Bool) → Exec Server String (List Dataset)
  find_all_datasets fn = do datasets ← C.list_datasets; pure (select fn datasets)

  unfoldable pub find_nfs_share : (ShareNfs → Bool) → Exec Server String (Option ShareNfs)
  find_nfs_share fn = do shares ← C.list_shares_nfs; pure (first fn shares)

  unfoldable pub find_all_nfs_shares : (ShareNfs → Bool) → Exec Server String (List ShareNfs)
  find_all_nfs_shares fn = do shares ← C.list_shares_nfs; pure (select fn shares)

  unfoldable pub find_iscsi_extent : (IscsiExtent → Bool) → Exec Server String (Option IscsiExtent)
  find_iscsi_extent fn = do extents ← C.list_extents; pure (first fn extents)

  unfoldable pub find_all_iscsi_extents :
      (IscsiExtent → Bool) → Exec Server String (List IscsiExtent)
  find_all_iscsi_extents fn = do extents ← C.list_extents; pure (select fn extents)

  unfoldable pub find_iscsi_initiator :
      (IscsiInitiator → Bool) → Exec Server String (Option IscsiInitiator)
  find_iscsi_initiator fn = do initiators ← C.list_initiators; pure (first fn initiators)

  unfoldable pub find_iscsi_target : (IscsiTarget → Bool) → Exec Server String (Option IscsiTarget)
  find_iscsi_target fn = do targets ← C.list_targets; pure (first fn targets)

  unfoldable pub find_all_iscsi_targets :
      (IscsiTarget → Bool) → Exec Server String (List IscsiTarget)
  find_all_iscsi_targets fn = do targets ← C.list_targets; pure (select fn targets)

  unfoldable pub find_iscsi_target_extent :
      (IscsiTargetExtent → Bool) → Exec Server String (Option IscsiTargetExtent)
  find_iscsi_target_extent fn = do
    target_extents ← C.list_target_extents
    pure (first fn target_extents)

  unfoldable pub find_all_iscsi_target_extents :
      (IscsiTargetExtent → Bool) → Exec Server String (List IscsiTargetExtent)
  find_all_iscsi_target_extents fn = do
    targetextents ← C.list_target_extents
    pure (select fn targetextents)

first_path : List String → String
first_path [] = ""
first_path (path ∷ paths) = path

-- `NormaliseNFSShareMountpaths`; a text is empty exactly if its length is 0.
unfoldable pub normalise_nfs_share_mountpaths : ShareNfs → String
unfolding first_path
normalise_nfs_share_mountpaths share =
    if str_eq share.path "" then first_path share.paths else share.path
