-- ===== src/Iscsi/Node/Tracked/Reached.antt =====
-- Any sequence of successful iSCSI publishes and unpublishes on a node follows its table (pkg/driver/iscsi.go,
-- pkg/driver/iscsi_node_utils.go).
use truenas_scale_csi.Base.{
  String, ◌≡◌, ◌≢◌, ◌∙◌, refl, sym, ap, inl, inr, Bool, Option, none, some, ok, Option-cases,
}
use truenas_scale_csi.Libraries.{Libraries}
use truenas_scale_csi.Driver.{Driver, get_iscsi_lib_config_path}
use truenas_scale_csi.Host.{Host}
use truenas_scale_csi.Iscsi.Info.{Json}
use truenas_scale_csi.Iscsi.Disk.{Initiator}
use truenas_scale_csi.Iscsi.Disk.Laws.{IsInitiator}
use truenas_scale_csi.Iscsi.Node.{iscsi_node_unpublish_volume}
use truenas_scale_csi.Iscsi.Node.Unpublished.{iscsi_node_unpublish_volume-IsDetached}
use truenas_scale_csi.Iscsi.Node.Tracked.{
  Entry, Table, nothing, put, put-cases, FilesApart, ClearOf, Runs, start, idle, published,
  repeated, unpublished, Tracks, Keeps-Tracks, repeated-Keeps, publish-Tracks,
}

module _ (H : Host) (D : Initiator H) (devices : H.State → String → Option String)
    (files : H.State → String → Option D.Connected) (laws : IsInitiator H D devices files)
    (L : Libraries) (J : Json) (d : Driver) (is_volume : String → Bool) where
  open H use {State}

  unpublish-Tracks :
      FilesApart H D devices files laws L J d is_volume
      → (s0 : State) (m : Table) (s : State) (path : String) (e : Entry)
      → Tracks H D devices files laws L J d is_volume s0 m s
      → m path ≡ some e
      → ClearOf H D devices files laws L J d is_volume path
      → (iscsi_node_unpublish_volume H D L d e.id path s).0 ≡ ok tt
      → Tracks H D devices files laws L J d is_volume s0
          (put path none m)
          (iscsi_node_unpublish_volume H D L d e.id path s).1
  unpublish-Tracks apart s0 m s path e r here clear h =
      let t = (iscsi_node_unpublish_volume H D L d e.id path s).1 in
      let config = get_iscsi_lib_config_path d in
      let (c, filed) = r.filed path e here in
      let g =
        iscsi_node_unpublish_volume-IsDetached H D devices files laws L d e.id path e.device c s
          (r.mounted path e here) filed h in
      let kept : (p : String) → p ≢ path → devices t p ≡ devices s p =
        λ p other. elim (g.gone.others p) [ inl same ↦ absurd (other same) | inr same ↦ same ] in
      record {
        mounted = λ p f k.
            put-cases path none m p (some f) k (λ same bad. cc bad)
              (λ other old. kept p other ∙ r.mounted p f old);
        untouched = λ p k.
            put-cases path none m p none k
              (λ same gone.
                ap (devices t) same
                ∙ g.gone.unmounted
                ∙ sym (r.fresh path e here)
                ∙ sym (ap (devices s0) same))
              (λ other old. kept p other ∙ r.untouched p old);
        filed = λ p f k.
            put-cases path none m p (some f) k (λ same bad. cc bad)
              (λ other old. elim (g.other_files (config f.id) (clear f.id (r.volume p f old))) [
                | inl clash ↦
                    let same = apart f.id e.id (r.volume p f old) (r.volume path e here) clash in
                    absurd (other (r.single p path f e old here same))
                | inr same ↦ let (c', k') = r.filed p f old in (c', same ∙ k')
              ]);
        volume = λ p f k.
            put-cases path none m p (some f) k (λ same bad. cc bad) (λ other old. r.volume p f old);
        fresh = λ p f k.
            put-cases path none m p (some f) k (λ same bad. cc bad) (λ other old. r.fresh p f old);
        single = λ p q f f' k l id_eq.
            put-cases path none m p (some f) k (λ same bad. cc bad)
              (λ other old.
                put-cases path none m q (some f') l (λ same bad. cc bad)
                  (λ other' old'. r.single p q f f' old old' id_eq));
      }

  start-Tracks : (s : State) → Tracks H D devices files laws L J d is_volume s nothing s
  start-Tracks s = record {
    mounted = λ p e h. cc h;
    untouched = λ p h. refl;
    filed = λ p e h. cc h;
    volume = λ p e h. cc h;
    fresh = λ p e h. cc h;
    single = λ p q e f h. cc h;
  }

  -- A path without a mount has no entry.
  free :
      (s0 : State) (m : Table) (s : State) (path : String)
      → Tracks H D devices files laws L J d is_volume s0 m s
      → devices s path ≡ none
      → m path ≡ none
  free s0 m s path r bare = elim (Option-cases (m path)) [
    | inl none' ↦ none'
    | inr (e, here) ↦ cc (r.mounted path e here, bare)
  ]

  -- Any sequence of iSCSI publishes and unpublishes that succeed, of any volumes at any paths, keeps the node
  -- in step with the table of what is published: at a path with an entry is the device that connecting to its
  -- volume gave when it was published, and its volume has a connection file; a path without an entry has the
  -- mount that it had at the start. A volume is published at a path without a mount and at one path at a time,
  -- or again where it is; it is unpublished where it is published; the volumes have files of their own, none
  -- below a path that is unpublished.
  -- Assumed of the node: `IsInitiator`.
  pub Runs-Tracks :
      FilesApart H D devices files laws L J d is_volume
      → (s0 : State) (m : Table) (s : State) → Runs H D devices files laws L J d is_volume s0 m s
      → Tracks H D devices files laws L J d is_volume s0 m s
  Runs-Tracks apart s0 m s start = start-Tracks s0
  Runs-Tracks apart s0 m s (idle {s = r} run k) =
      Keeps-Tracks H D devices files laws L J d is_volume s0 m r s k (Runs-Tracks apart s0 m r run)
  Runs-Tracks apart s0 m s (published {m = n} {s = r} req device run ours bare alone given h) =
      let tracks = Runs-Tracks apart s0 n r run in
      publish-Tracks H D devices files laws L J d is_volume apart s0 n r req device tracks ours bare
        alone given h (free s0 n r req.target_path tracks bare)
  Runs-Tracks apart s0 m s (repeated {s = r} req device run here h) =
      let tracks = Runs-Tracks apart s0 m r run in
      Keeps-Tracks H D devices files laws L J d is_volume s0 m r s
        (repeated-Keeps H D devices files laws L J d is_volume s0 m r req device tracks here h)
        tracks
  Runs-Tracks apart s0 m s (unpublished {m = n} {s = r} path e run here clear h) =
      unpublish-Tracks apart s0 n r path e (Runs-Tracks apart s0 n r run) here clear h
