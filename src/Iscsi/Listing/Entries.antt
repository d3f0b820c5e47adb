-- ===== src/Iscsi/Listing/Entries.antt =====
-- The last loop of `iscsiListVolumes` (pkg/driver/iscsi.go): an entry for each target.
use truenas_scale_csi.Base.{
  String, ◌≡◌, refl, ap, inl, inr, some, List, [], ◌∷◌, ℤ, ok, Elem, Option-cases, Result-cases,
  arith, parse_int, get_or,
}
use truenas_scale_csi.Csi.{Volume, lookup_id}
use truenas_scale_csi.Libraries.{Libraries}
use truenas_scale_csi.Nfs.{no_dataset}
use truenas_scale_csi.TrueNas.{Dataset, IscsiTarget}
use truenas_scale_csi.Iscsi.Query.{iscsi_entries}

abbrev pub entry_of : IscsiTarget → ℤ → Volume
entry_of target quota = record {
  volume_id = target.name;
  capacity_bytes = quota;
  volume_context = [];
}

module _ (L : Libraries) (m : List (ℤ × Dataset)) where
  abbrev pub raw_of : IscsiTarget → String
  raw_of target = (get_or (lookup_id target.id m) no_dataset).volsize

  pub raw_of-found :
      (target : IscsiTarget) (x : Dataset)
      → lookup_id target.id m ≡ some x
      → raw_of target ≡ x.volsize
  raw_of-found target x found = ap (λ o. (get_or o no_dataset).volsize) found

  -- `v` is what the loop makes of a target.
  pub record Reads (target : IscsiTarget) (v : Volume) : Type 0 where
    pub quota : ℤ
    pub parsed : parse_int (raw_of target) ≡ some quota
    pub made : v ≡ entry_of target quota

  iscsi_entries-cons :
      (target : IscsiTarget) (targets : List IscsiTarget) (es : List Volume)
      → iscsi_entries L m (target ∷ targets) ≡ ok es
      → (quota : ℤ) × (rest : List Volume) × (parse_int (raw_of target) ≡ some quota)
        × (iscsi_entries L m targets ≡ ok rest)
        × (es ≡ entry_of target quota ∷ rest)
  unfolding iscsi_entries
  iscsi_entries-cons target targets es h = elim (Option-cases (parse_int (raw_of target))) [
    | inl bad ↦ cc (rw bad at h)
    | inr (quota, parsed) ↦ elim (Result-cases (iscsi_entries L m targets)) [
      | inl (e, failed) ↦ cc (rw (parsed, failed) at h)
      | inr (rest, done) ↦ (quota, rest, parsed, done, cc (rw (parsed, done) at h))
    ]
  ]

  -- Every entry is of a target.
  pub iscsi_entries_sound :
      (targets : List IscsiTarget) (es : List Volume) (v : Volume)
      → iscsi_entries L m targets ≡ ok es
      → Elem v es
      → (target : IscsiTarget) × Elem target targets × Reads target v
  iscsi_entries_sound [] es v h e = unfold iscsi_entries in absurd (ground arith)
  iscsi_entries_sound (target ∷ targets) es v h e =
      let (quota, rest, parsed, done, made) = iscsi_entries-cons target targets es h in
      let e' : Elem v (entry_of target quota ∷ rest) = rw made at e in
      elim e' [
        | inl same ↦ (target, inl refl, record { quota = quota; parsed = parsed; made = same })
        | inr later ↦
            let (found, listed, reads) = iscsi_entries_sound targets rest v done later in
            (found, inr listed, reads)
      ]

  -- Every target has an entry.
  pub iscsi_entries_complete :
      (targets : List IscsiTarget) (es : List Volume) (target : IscsiTarget)
      → iscsi_entries L m targets ≡ ok es
      → Elem target targets
      → (v : Volume) × Elem v es × Reads target v
  iscsi_entries_complete [] es target h e = absurd e
  iscsi_entries_complete (t ∷ targets) es target h e =
      let (quota, rest, parsed, done, made) = iscsi_entries-cons t targets es h in
      elim e [
        | inl same ↦ (
          entry_of t quota,
          rw made (inl refl),
          rw same (record { quota = quota; parsed = parsed; made = refl }),
        )
        | inr later ↦
            let (v, listed, reads) = iscsi_entries_complete targets rest target done later in
            (v, rw made (inr listed), reads)
      ]

  -- The loop ends without an error if every size that it reads parses.
  pub iscsi_entries_total :
      (targets : List IscsiTarget)
      → ((target : IscsiTarget)
          → Elem target targets
          → (q : ℤ) × (parse_int (raw_of target) ≡ some q))
      → (es : List Volume) × (iscsi_entries L m targets ≡ ok es)
  unfolding iscsi_entries
  iscsi_entries_total [] readable = ([], refl)
  iscsi_entries_total (target ∷ targets) readable =
      let (q, parsed) = readable target (inl refl) in
      let (rest, done) = iscsi_entries_total targets (λ x e. readable x (inr e)) in
      (entry_of target q ∷ rest, rw (parsed, done))
