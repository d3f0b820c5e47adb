-- ===== src/Nfs/Node/Published.antt =====
-- What the NFS node operations (pkg/driver/nfs.go) do to the mounts of the node.
use truenas_scale_csi.Base.{
  String, ◌<>◌, ◌≡◌, ◌∙◌, sym, ap, ◌⊎◌, inl, inr, Bool, true, false, not, Option, none, some, List,
  ok, err, get_or, is_some, str_eq, eq_iff, eq_refl, Option-cases, Bool-cases, Result-cases,
  with_state, if◌then◌else◌,
}
use truenas_scale_csi.Csi.{CreateVolumeRequest, Volume, lookup}
use truenas_scale_csi.Libraries.{Libraries}
use truenas_scale_csi.Driver.{Driver}
use truenas_scale_csi.Size.{get_server_from_source}
use truenas_scale_csi.Host.{Host, OsError}
use truenas_scale_csi.Host.Laws.{Mounted, IsMounter}
use truenas_scale_csi.TrueNas.{Client}
use truenas_scale_csi.TrueNas.Laws.{View, IsStore}
use truenas_scale_csi.Nfs.{
  host_param, mount_point_param, nfs_create_volume, nfs_volume, nfs_volume_prefix,
}
use truenas_scale_csi.Nfs.Create.{IsProvided, nfs_create_volume-IsProvided}
use truenas_scale_csi.Nfs.Node.{
  PublishRequest, context_value, mount_options, ensure_target_path, mount_if,
  nfs_node_publish_volume, nfs_node_unpublish_volume,
}

module _ (H : Host) (L : Libraries) where
  open H use {State}

  abbrev pub source_of : PublishRequest → String
  source_of req =
      get_server_from_source L.is_ipv6_string (context_value host_param req.volume_context)
      <> ":"
      <> context_value mount_point_param req.volume_context

  -- The mount that a request asks for.
  abbrev pub wanted : PublishRequest → Mounted
  wanted req = record { source = source_of req; fstype = "nfs"; options = mount_options H req }

  -- The steps of a successful call.
  record IsRun (req : PublishRequest) (s t : State) : Type 0 where
    host : str_eq (context_value host_param req.volume_context) "" ≡ false
    dir : str_eq (context_value mount_point_param req.volume_context) "" ≡ false
    free : Bool
    middle : State
    target : ensure_target_path H req.target_path s ≡ (ok free, middle)
    mounted :
        mount_if H free (source_of req) req.target_path (mount_options H req) middle ≡ (ok tt, t)

  nfs_node_publish_volume-IsRun :
      (req : PublishRequest) (s : State)
      → (nfs_node_publish_volume H L req s).0 ≡ ok tt
      → IsRun req s (nfs_node_publish_volume H L req s).1
  unfolding nfs_node_publish_volume
  nfs_node_publish_volume-IsRun req s h =
      elim (Bool-cases (str_eq (context_value host_param req.volume_context) "")) [
        | inl bare ↦ cc (rw bare at h)
        | inr host ↦
            elim (Bool-cases (str_eq (context_value mount_point_param req.volume_context) "")) [
              | inl bare ↦ cc (rw (host, bare) at h)
              | inr dir ↦
                  let r = ensure_target_path H req.target_path s in
                  elim (Result-cases r.0) [
                    | inl (e, bad) ↦ cc (rw (host, dir, bad) at h)
                    | inr (free, up) ↦
                        rw (host, dir, up)
                          (record {
                            host = host;
                            dir = dir;
                            free = free;
                            middle = r.1;
                            target = with_state r (ok free) up;
                            mounted = with_state _ (ok tt) (rw (host, dir, up) at h);
                          })
                  ]
            ]
      ]

  -- Where the target has a mount already, a call with both parameters only asks.
  mounted-run :
      (req : PublishRequest) (s : State)
      → str_eq (context_value host_param req.volume_context) "" ≡ false
      → str_eq (context_value mount_point_param req.volume_context) "" ≡ false
      → (H.is_likely_not_mount_point req.target_path s).0 ≡ ok false
      → nfs_node_publish_volume H L req s
        ≡ (ok tt, (H.is_likely_not_mount_point req.target_path s).1)
  unfolding nfs_node_publish_volume ensure_target_path mount_if
  mounted-run req s host dir up = rw (host, dir, up)

module _ (H : Host) (mounts : H.State → String → Option Mounted)
    (mounter : IsMounter H mounts) where
  open H use {State}

  -- Asking for the target answers whether it has no mount, and changes none.
  ensure_target_path_lem :
      (path : String) (s : State) (free : Bool) (t : State) (p : String)
      → ensure_target_path H path s ≡ (ok free, t)
      → (free ≡ not (is_some (mounts s path))) × (mounts t p ≡ mounts s p)
  unfolding ensure_target_path
  ensure_target_path_lem path s free t p h =
      let r = H.is_likely_not_mount_point path s in
      elim (Result-cases r.0) [
        | inr (b, up) ↦
            let e : (ok b, r.1) ≡ (ok free, t) = rw up at h in
            (
              sym (cc (ap (λ x. x.0) e)) ∙ mounter.is_likely-answers s path b up,
              ap (λ x. mounts x.1 p) (sym e) ∙ mounter.is_likely-keeps s path p,
            )
        | inl (e, down) ↦ elim (Bool-cases e.is_not_exist) [
          | inr other ↦ cc (rw (down, other) at h)
          | inl missing ↦
              let m = H.mkdir_all path r.1 in
              elim (Result-cases m.0) [
                | inl (e', bad) ↦ cc (rw (down, missing, bad) at h)
                | inr (u, made) ↦
                    let e'' : (ok true, m.1) ≡ (ok free, t) = rw (down, missing, made) at h in
                    let bare = mounter.is_likely-missing s path e down missing in
                    (
                      sym (cc (ap (λ x. x.0) e'')) ∙ ap (λ o. not (is_some o)) (sym bare),
                      ap (λ x. mounts x.1 p) (sym e'')
                          ∙ mounter.mkdir_all-keeps r.1 path p
                          ∙ mounter.is_likely-keeps s path p,
                    )
              ]
        ]
      ]

  mount_if_lem :
      (free : Bool) (source path : String) (options : List String) (s t : State) (p : String)
      → mount_if H free source path options s ≡ (ok tt, t)
      → mounts t p ≡ (
          if free
          then (if str_eq p path
              then some (record { source = source; fstype = "nfs"; options = options })
              else mounts s p)
          else mounts s p)
  unfolding mount_if
  mount_if_lem false source path options s t p h = ap (λ x. mounts x.1 p) (sym h)
  mount_if_lem true source path options s t p h =
      elim (Result-cases (H.mount source path "nfs" options s).0) [
        | inl (e, bad) ↦ absurd (mount-failed e bad)
        | inr (u, done) ↦
            let same : (H.mount source path "nfs" options s).1 ≡ t = ap (λ x. x.1) (rw done at h) in
            elim (Bool-cases (str_eq p path)) [
              | inl here ↦
                  rw (here, ← same, (eq_iff p path).0 here)
                    (mounter.mount-mounts s source path "nfs" options done)
              | inr there ↦
                  rw (there, ← same)
                    (mounter.mount-keeps s source path "nfs" options p done
                      (λ e. cc (there, (eq_iff p path).1 e)))
            ]
      ]
    where
      mount-failed : (e : OsError) → (H.mount source path "nfs" options s).0 ≡ err e → ⊥
      mount-failed e bad = cc (rw bad at h)

  -- A successful NFS publish leaves the target mounted: with the mount that it has already, if it has one,
  -- else with an NFS mount of the server and the directory of the context, under the request's
  -- options. No other mount changes.
  -- Assumed of the node: `IsMounter`.
  pub nfs_node_publish_volume-mounted :
      (L : Libraries) (req : PublishRequest) (s : State) (p : String)
      → (nfs_node_publish_volume H L req s).0 ≡ ok tt
      → let t = (nfs_node_publish_volume H L req s).1 in
        (mounts t req.target_path ≡ some (get_or (mounts s req.target_path) (wanted H L req)))
        × ((p ≡ req.target_path) ⊎ (mounts t p ≡ mounts s p))
  nfs_node_publish_volume-mounted L req s p h =
      let r = nfs_node_publish_volume-IsRun H L req s h in
      let t = (nfs_node_publish_volume H L req s).1 in
      let path = req.target_path in
      (
        target-mounted r.free r.middle t r.target r.mounted,
        other-kept r.free r.middle t r.target r.mounted,
      )
    where
      path : String
      path = req.target_path

      target-mounted :
          (free : Bool) (m t : State)
          → ensure_target_path H path s ≡ (ok free, m)
          → mount_if H free (source_of H L req) path (mount_options H req) m ≡ (ok tt, t)
          → mounts t path ≡ some (get_or (mounts s path) (wanted H L req))
      target-mounted free m t asked mounted =
          let (answer, kept) = ensure_target_path_lem path s free m path asked in
          let after =
            mount_if_lem free (source_of H L req) path (mount_options H req) m t path mounted in
          elim (Option-cases (mounts s path)) [
            | inl bare ↦
                let f : free ≡ true = answer ∙ ap (λ o. not (is_some o)) bare in
                rw bare (rw (f, eq_refl path) at after)
            | inr (x, there) ↦
                let f : free ≡ false = answer ∙ ap (λ o. not (is_some o)) there in
                let after' : mounts t path ≡ mounts m path = rw f at after in
                after' ∙ kept ∙ there ∙ sym (ap (λ o. some (get_or o (wanted H L req))) there)
          ]

      other-kept :
          (free : Bool) (m t : State)
          → ensure_target_path H path s ≡ (ok free, m)
          → mount_if H free (source_of H L req) path (mount_options H req) m ≡ (ok tt, t)
          → (p ≡ path) ⊎ (mounts t p ≡ mounts s p)
      other-kept free m t asked mounted =
          let (answer, kept) = ensure_target_path_lem path s free m p asked in
          let after =
            mount_if_lem free (source_of H L req) path (mount_options H req) m t p mounted in
          elim (Bool-cases (str_eq p path)) [
            | inl here ↦ inl ((eq_iff p path).0 here)
            | inr there ↦ elim (Bool-cases free) [
              | inl yes' ↦
                  let after' : mounts t p ≡ mounts m p = rw (yes', there) at after in
                  inr (after' ∙ kept)
              | inr no' ↦
                  let after' : mounts t p ≡ mounts m p = rw no' at after in inr (after' ∙ kept)
            ]
          ]

  -- NFS publish is idempotent: made again where the target has the mount that the first call left, and
  -- the question whether it has one is answered, it succeeds and does nothing but ask.
  -- Assumed of the node: `IsMounter`.
  pub nfs_node_publish_volume-again :
      (L : Libraries) (req : PublishRequest) (s u : State) (b : Bool)
      → (nfs_node_publish_volume H L req s).0 ≡ ok tt
      → mounts u req.target_path ≡ mounts (nfs_node_publish_volume H L req s).1 req.target_path
      → (H.is_likely_not_mount_point req.target_path u).0 ≡ ok b
      → nfs_node_publish_volume H L req u
        ≡ (ok tt, (H.is_likely_not_mount_point req.target_path u).1)
  nfs_node_publish_volume-again L req s u b h same up =
      let r = nfs_node_publish_volume-IsRun H L req s h in
      let there = nfs_node_publish_volume-mounted L req s "" h in
      let no' : b ≡ false =
        mounter.is_likely-answers u req.target_path b up
        ∙ ap (λ o. not (is_some o)) (same ∙ there.0) in
      mounted-run H L req u r.host r.dir (up ∙ ap ok no')

  -- A successful NFS unpublish leaves no mount at the target, and changes no other.
  -- Assumed of the node: `IsMounter`.
  nfs_node_unpublish_volume-unmounted :
      (quote : String → String) (path : String) (s : State) (p : String)
      → (nfs_node_unpublish_volume H quote path s).0 ≡ ok tt
      → let t = (nfs_node_unpublish_volume H quote path s).1 in
        (mounts t path ≡ none) × ((p ≡ path) ⊎ (mounts t p ≡ mounts s p))
  unfolding nfs_node_unpublish_volume
  nfs_node_unpublish_volume-unmounted quote path s p h =
      elim (Result-cases (H.cleanup_mount_point path true s).0) [
        | inl (e, bad) ↦ cc (rw bad at h)
        | inr (u, done) ↦ rw done (
          mounter.cleanup-unmounts s path true done,
          elim (Bool-cases (str_eq p path)) [
            | inl here ↦ inl ((eq_iff p path).0 here)
            | inr there ↦
                inr
                  (mounter.cleanup-keeps s path true p done (λ e. cc (there, (eq_iff p path).1 e)))
          ],
        )
      ]

  -- NFS unpublish undoes NFS publish: a volume is published at a target without a mount, and the target is
  -- unpublished again; where both calls succeed, every path has the mount that it had before.
  -- Assumed of the node: `IsMounter`.
  pub nfs_node_unpublish_volume-publish :
      (L : Libraries) (quote : String → String) (req : PublishRequest) (s : State) (p : String)
      → mounts s req.target_path ≡ none
      → (nfs_node_publish_volume H L req s).0 ≡ ok tt
      → let t = (nfs_node_publish_volume H L req s).1 in
        (nfs_node_unpublish_volume H quote req.target_path t).0 ≡ ok tt
        → mounts (nfs_node_unpublish_volume H quote req.target_path t).1 p ≡ mounts s p
  nfs_node_unpublish_volume-publish L quote req s p bare h h' =
      let t = (nfs_node_publish_volume H L req s).1 in
      let u = (nfs_node_unpublish_volume H quote req.target_path t).1 in
      let (gone, others) = nfs_node_unpublish_volume-unmounted quote req.target_path t p h' in
      let at_target : p ≡ req.target_path → mounts u p ≡ mounts s p =
        λ here. ap (mounts u) here ∙ gone ∙ sym bare ∙ sym (ap (mounts s) here) in
      elim others [
        | inl here ↦ at_target here
        | inr kept ↦ elim (nfs_node_publish_volume-mounted L req s p h).1 [
          | inl here ↦ at_target here
          | inr kept' ↦ kept ∙ kept'
        ]
      ]

  -- A volume that NFS CreateVolume returned, published with its own context at a target without a mount, is
  -- mounted there from the driver's address and the mount point of the volume's dataset, which is shared.
  -- Assumed of the server: `IsStore`; of the node: `IsMounter`.
  pub nfs_node_publish_volume-created :
      (C : Client) (V : View C.Server) (store : IsStore C V) (L : Libraries) (d : Driver)
      (req : CreateVolumeRequest) (server : C.Server) (v : Volume) (pub_req : PublishRequest)
      (s : State)
      → (nfs_create_volume C L d req server).0 ≡ ok v
      → pub_req.volume_context ≡ v.volume_context
      → mounts s pub_req.target_path ≡ none
      → (nfs_node_publish_volume H L pub_req s).0 ≡ ok tt
      → (mountpoint : String) × IsProvided C V store L d req.name mountpoint
          (nfs_create_volume C L d req server).1
        × (mounts (nfs_node_publish_volume H L pub_req s).1 pub_req.target_path
            ≡ some (record {
              source = get_server_from_source L.is_ipv6_string d.address <> ":" <> mountpoint;
              fstype = "nfs";
              options = mount_options H pub_req;
            }))
  unfolding lookup
  nfs_node_publish_volume-created C V store L d req server v pub_req s made context bare done =
      let (size, mountpoint, _, volume, provided) =
        nfs_create_volume-IsProvided C V store L d req server v made in
      let there = (nfs_node_publish_volume-mounted L pub_req s "" done).0 in
      let context' : pub_req.volume_context
          ≡ (nfs_volume d (nfs_volume_prefix <> req.name) size mountpoint).volume_context =
        context ∙ ap (λ (v : Volume). v.volume_context) volume in
      (
        mountpoint,
        provided,
        there
            ∙ ap (λ o. some (get_or o (wanted H L pub_req))) bare
            ∙ ap
                (λ c. some (record {
                  source =
                      get_server_from_source L.is_ipv6_string (context_value host_param c)
                      <> ":"
                      <> context_value mount_point_param c;
                  fstype = "nfs";
                  options = mount_options H pub_req;
                }))
                context',
      )
