-- ===== src/Iscsi/Node/Tracked.antt =====
-- Publishing and unpublishing several iSCSI volumes on a node, one after the other (pkg/driver/iscsi.go,
-- pkg/driver/iscsi_node_utils.go), against a table of what is published where.
pub mod Reached
use truenas_scale_csi.Base.{
  String, ◌≡◌, ◌≢◌, ◌∙◌, refl, sym, ap, inl, inr, Bool, true, false, Option, none, some, Result, ok,
  err, is_some, get_or, starts_with, str_eq, eq_iff, eq_refl, Bool-cases, if◌then◌else◌,
}
use truenas_scale_csi.Libraries.{Libraries}
use truenas_scale_csi.Driver.{Driver, get_iscsi_lib_config_path}
use truenas_scale_csi.Host.{Host, OsError}
use truenas_scale_csi.Nfs.Node.{PublishRequest}
use truenas_scale_csi.Iscsi.Info.{Json, Connector, IscsiDisk, get_iscsi_info, build_iscsi_connector}
use truenas_scale_csi.Iscsi.Disk.{Initiator}
use truenas_scale_csi.Iscsi.Disk.Laws.{IsInitiator, Keeps}
use truenas_scale_csi.Iscsi.Node.{iscsi_node_publish_volume, iscsi_node_unpublish_volume}
use truenas_scale_csi.Iscsi.Node.Published.{iscsi_node_publish_volume-IsPublished}
use truenas_scale_csi.Iscsi.Node.Unpublished.{iscsi_node_unpublish_volume-IsDetached}

-- What is published at a path: the volume's id, and the device that connecting to it gave.
pub record Entry : Type 0 where
  pub id : String
  pub device : String

abbrev pub Table : Type 0
Table = String → Option Entry

abbrev pub nothing : Table
nothing p = none

abbrev pub put : String → Option Entry → Table → Table
put path o m p = if str_eq p path then o else m p

-- What a changed table has at a path is new there, or was there before.
pub put-cases :
    {B : Type 0} (path : String) (o : Option Entry) (m : Table) (p : String) (x : Option Entry)
    → put path o m p ≡ x
    → (p ≡ path → o ≡ x → B)
    → (p ≢ path → m p ≡ x → B)
    → B
put-cases path o m p x h here there = elim (Bool-cases (str_eq p path)) [
  | inl same ↦ here ((eq_iff p path).0 same) (rw same at h)
  | inr other ↦ there (λ e. cc (other, (eq_iff p path).1 e)) (rw other at h)
]

module _ (H : Host) (D : Initiator H) (devices : H.State → String → Option String)
    (files : H.State → String → Option D.Connected) (laws : IsInitiator H D devices files)
    (L : Libraries) (J : Json) (d : Driver) (is_volume : String → Bool) where
  open H use {State}

  -- The volumes of the node have files of their own.
  abbrev pub FilesApart : Type 0
  FilesApart =
      (a b : String)
      → is_volume a ≡ true
      → is_volume b ≡ true
      → get_iscsi_lib_config_path d a ≡ get_iscsi_lib_config_path d b
      → a ≡ b

  abbrev given_by : Result OsError (String × D.Connected) → Option String
  given_by (err e) = none
  given_by (ok (device, connected)) = some device

  abbrev given_for : Option Connector → State → Option String
  given_for none s = none
  given_for (some c) s = given_by (D.connect c s).0

  abbrev given_of : {E : Type 0} → Result E IscsiDisk → State → Option String
  given_of (err e) s = none
  given_of (ok info) s = given_for (build_iscsi_connector info) s

  -- The device that connecting to the target of a request gives.
  abbrev pub device_given : PublishRequest → State → Option String
  device_given req s = given_of (get_iscsi_info J req.volume_id req.volume_context) s

  device_given-attached :
      (req : PublishRequest) (s : State) (device : String)
      (h : (iscsi_node_publish_volume H D L J d req s).0 ≡ ok tt)
      → device_given req s ≡ some device
      → (iscsi_node_publish_volume-IsPublished H D devices files laws L J d req s h).attached.device
        ≡ device
  device_given-attached req s device h given =
      let p = iscsi_node_publish_volume-IsPublished H D devices files laws L J d req s h in
      let e : device_given req s ≡ some p.attached.device =
        ap (λ r. given_of r s) p.read
        ∙ ap (λ o. given_for o s) p.built
        ∙ ap given_by p.attached.connects in
      let e' : some p.attached.device ≡ some device = sym e ∙ given in cc e'

  -- The volumes' files are not below a path.
  abbrev pub ClearOf : String → Type 0
  ClearOf path =
      (id : String)
      → is_volume id ≡ true
      → starts_with (get_iscsi_lib_config_path d id) path ≡ false

  -- Calls that succeed one after the other, from a node on which nothing is published, with anything between
  -- them that changes neither a mount nor a file. A volume is published at a path without a mount and at no
  -- second path, or again where it is published; it is unpublished where it is published, and the path is
  -- not above the volumes' files.
  pub data Runs (s0 : State) : Table → State → Type 0 where
    start : Runs s0 nothing s0
    idle : {m : Table} {s u : State} → Runs s0 m s → Keeps H D devices files s u → Runs s0 m u
    published :
        {m : Table} {s : State} (req : PublishRequest) (device : String)
        → Runs s0 m s
        → is_volume req.volume_id ≡ true
        → devices s req.target_path ≡ none
        → ((p : String) (e : Entry) → m p ≡ some e → e.id ≢ req.volume_id)
        → device_given req s ≡ some device
        → (iscsi_node_publish_volume H D L J d req s).0 ≡ ok tt
        → Runs s0
            (put req.target_path (some (record { id = req.volume_id; device = device })) m)
            (iscsi_node_publish_volume H D L J d req s).1
    repeated :
        {m : Table} {s : State} (req : PublishRequest) (device : String)
        → Runs s0 m s
        → m req.target_path ≡ some (record { id = req.volume_id; device = device })
        → (iscsi_node_publish_volume H D L J d req s).0 ≡ ok tt
        → Runs s0 m (iscsi_node_publish_volume H D L J d req s).1
    unpublished :
        {m : Table} {s : State} (path : String) (e : Entry)
        → Runs s0 m s
        → m path ≡ some e
        → ClearOf path
        → (iscsi_node_unpublish_volume H D L d e.id path s).0 ≡ ok tt
        → Runs s0 (put path none m) (iscsi_node_unpublish_volume H D L d e.id path s).1

  -- What the table says of the node, against the node at the start.
  pub record Tracks (s0 : State) (m : Table) (s : State) : Type 0 where
    pub mounted : (p : String) (e : Entry) → m p ≡ some e → devices s p ≡ some e.device
    pub untouched : (p : String) → m p ≡ none → devices s p ≡ devices s0 p
    pub filed :
        (p : String) (e : Entry)
        → m p ≡ some e
        → (c : D.Connected) × (files s (get_iscsi_lib_config_path d e.id) ≡ some c)
    pub volume : (p : String) (e : Entry) → m p ≡ some e → is_volume e.id ≡ true
    pub fresh : (p : String) (e : Entry) → m p ≡ some e → devices s0 p ≡ none
    pub single : (p q : String) (e f : Entry) → m p ≡ some e → m q ≡ some f → e.id ≡ f.id → p ≡ q

  -- Where neither a mount nor a file has changed.
  pub Keeps-Tracks :
      (s0 : State) (m : Table) (s u : State)
      → Keeps H D devices files s u
      → Tracks s0 m s
      → Tracks s0 m u
  Keeps-Tracks s0 m s u k r = record {
    mounted = λ p e h. k.same_devices p ∙ r.mounted p e h;
    untouched = λ p h. k.same_devices p ∙ r.untouched p h;
    filed = λ p e h. let (c, there) = r.filed p e h in (c, k.same_files _ ∙ there);
    volume = r.volume;
    fresh = r.fresh;
    single = r.single;
  }

  -- A repeated publish changes no mount and no file.
  pub repeated-Keeps :
      (s0 : State) (m : Table) (s : State) (req : PublishRequest) (device : String)
      → Tracks s0 m s
      → m req.target_path ≡ some (record { id = req.volume_id; device = device })
      → (iscsi_node_publish_volume H D L J d req s).0 ≡ ok tt
      → Keeps H D devices files s (iscsi_node_publish_volume H D L J d req s).1
  repeated-Keeps s0 m s req device r here h =
      let t = (iscsi_node_publish_volume H D L J d req s).1 in
      let a =
        (iscsi_node_publish_volume-IsPublished H D devices files laws L J d req s h).attached in
      let path = req.target_path in
      let config = get_iscsi_lib_config_path d req.volume_id in
      let there = r.mounted path (record { id = req.volume_id; device = device }) here in
      record {
        same_devices = λ p. elim (a.others p) [
          | inr kept ↦ kept
          | inl same ↦
              ap (devices t) same
              ∙ a.mounted
              ∙ ap (λ o. some (get_or o a.device)) there
              ∙ sym there
              ∙ sym (ap (devices s) same)
        ];
        same_files = λ p. elim (a.other_files p) [
          | inr kept ↦ kept
          | inl same ↦
              ap (files t) same
              ∙ a.saved
              ∙ ap (λ o. if is_some o then files s config else some a.connected) there
              ∙ sym (ap (files s) same)
        ];
      }

  pub publish-Tracks :
      FilesApart
      → (s0 : State) (m : Table) (s : State) (req : PublishRequest) (device : String)
      → Tracks s0 m s
      → is_volume req.volume_id ≡ true
      → devices s req.target_path ≡ none
      → ((p : String) (e : Entry) → m p ≡ some e → e.id ≢ req.volume_id)
      → device_given req s ≡ some device
      → (iscsi_node_publish_volume H D L J d req s).0 ≡ ok tt
      → m req.target_path ≡ none
      → Tracks s0
          (put req.target_path (some (record { id = req.volume_id; device = device })) m)
          (iscsi_node_publish_volume H D L J d req s).1
  publish-Tracks apart s0 m s req device r ours bare alone given h free =
      let t = (iscsi_node_publish_volume H D L J d req s).1 in
      let a =
        (iscsi_node_publish_volume-IsPublished H D devices files laws L J d req s h).attached in
      let path = req.target_path in
      let config = get_iscsi_lib_config_path d in
      let new : Entry = record { id = req.volume_id; device = device } in
      let there : devices t path ≡ some device =
        a.mounted
        ∙ ap (λ o. some (get_or o a.device)) bare
        ∙ ap some (device_given-attached req s device h given) in
      let saved : files t (config req.volume_id) ≡ some a.connected =
        a.saved
        ∙ ap (λ o. if is_some o then files s (config req.volume_id) else some a.connected) bare in
      let kept : (p : String) → p ≢ path → devices t p ≡ devices s p =
        λ p other. elim (a.others p) [ inl same ↦ absurd (other same) | inr same ↦ same ] in
      record {
        mounted = λ p e k.
            put-cases path (some new) m p (some e) k
              (λ same e_eq.
                ap (devices t) same
                ∙ there
                ∙ ap some (ap (λ (x : Entry). x.device) (some-injective e_eq)))
              (λ other old. kept p other ∙ r.mounted p e old);
        untouched = λ p k.
            put-cases path (some new) m p none k (λ same bad. cc bad)
              (λ other old. kept p other ∙ r.untouched p old);
        filed = λ p e k.
            put-cases path (some new) m p (some e) k
              (λ same e_eq. (
                a.connected,
                ap (λ (x : Entry). files t (config x.id)) (sym (some-injective e_eq)) ∙ saved,
              ))
              (λ other old. elim (a.other_files (config e.id)) [
                | inl clash ↦
                    absurd (alone p e old (apart e.id req.volume_id (r.volume p e old) ours clash))
                | inr same ↦ let (c, k') = r.filed p e old in (c, same ∙ k')
              ]);
        volume = λ p e k.
            put-cases path (some new) m p (some e) k
              (λ same e_eq. ap (λ (x : Entry). is_volume x.id) (sym (some-injective e_eq)) ∙ ours)
              (λ other old. r.volume p e old);
        fresh = λ p e k.
            put-cases path (some new) m p (some e) k
              (λ same e_eq. ap (devices s0) same ∙ sym (r.untouched path free) ∙ bare)
              (λ other old. r.fresh p e old);
        single = λ p q e f k l id_eq.
            put-cases path (some new) m p (some e) k
              (λ p_eq e_eq.
                put-cases path (some new) m q (some f) l (λ q_eq f_eq. p_eq ∙ sym q_eq)
                  (λ other old. absurd (
                    alone q f old
                      (sym id_eq ∙ sym (ap (λ (x : Entry). x.id) (some-injective e_eq))))))
              (λ p_other p_old.
                put-cases path (some new) m q (some f) l
                  (λ q_eq f_eq. absurd (
                    alone p e p_old (id_eq ∙ sym (ap (λ (x : Entry). x.id) (some-injective f_eq)))))
                  (λ q_other q_old. r.single p q e f p_old q_old id_eq));
      }
    where
      some-injective : {x y : Entry} → some x ≡ some y → x ≡ y
      some-injective e = cc e
