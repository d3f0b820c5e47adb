-- ===== src/Nfs/Listing/Entries.antt =====
-- The last loop of `nfsListVolumes` (pkg/driver/nfs.go): an entry for each share.
use truenas_scale_csi.Base.{
  String, ◌<>◌, ◌≡◌, refl, inl, inr, some, List, [], ◌∷◌, ℤ, ok, Elem, Option-cases, Result-cases,
  arith, trim_prefix, parse_int, get_or,
}
use truenas_scale_csi.Csi.{Volume, lookup}
use truenas_scale_csi.Libraries.{Libraries}
use truenas_scale_csi.Driver.{Driver}
use truenas_scale_csi.TrueNas.{Dataset, ShareNfs}
use truenas_scale_csi.TrueNas.Find.{normalise_nfs_share_mountpaths}
use truenas_scale_csi.Nfs.{no_dataset, nfs_entries}

module _ (L : Libraries) (d : Driver) (m : List (String × Dataset)) where
  -- What the last loop makes of one share.
  pub record Reads (share : ShareNfs) (v : Volume) : Type 0 where
    pub id :
        v.volume_id
        ≡ trim_prefix
            (get_or (lookup (normalise_nfs_share_mountpaths share) m) no_dataset).name
            (d.nfs_storage_path <> "/")
    pub quota :
        parse_int (get_or (lookup (normalise_nfs_share_mountpaths share) m) no_dataset).refquota
        ≡ some v.capacity_bytes
    pub context : v.volume_context ≡ []

  abbrev pub raw_of : ShareNfs → String
  raw_of share = (get_or (lookup (normalise_nfs_share_mountpaths share) m) no_dataset).refquota

  abbrev entry_of : ShareNfs → ℤ → Volume
  entry_of share quota = record {
    volume_id =
        trim_prefix (get_or (lookup (normalise_nfs_share_mountpaths share) m) no_dataset).name
          (d.nfs_storage_path <> "/");
    capacity_bytes = quota;
    volume_context = [];
  }

  nfs_entries-cons :
      (share : ShareNfs) (shares : List ShareNfs) (es : List Volume)
      → nfs_entries L d m (share ∷ shares) ≡ ok es
      → (quota : ℤ) × (rest : List Volume) × (parse_int (raw_of share) ≡ some quota)
        × (nfs_entries L d m shares ≡ ok rest)
        × (es ≡ entry_of share quota ∷ rest)
  unfolding nfs_entries
  nfs_entries-cons share shares es h = elim (Option-cases (parse_int (raw_of share))) [
    | inl bad ↦ cc (rw bad at h)
    | inr (quota, parsed) ↦ elim (Result-cases (nfs_entries L d m shares)) [
      | inl (e, failed) ↦ cc (rw (parsed, failed) at h)
      | inr (rest, done) ↦ (quota, rest, parsed, done, cc (rw (parsed, done) at h))
    ]
  ]

  Reads-entry_of :
      (share : ShareNfs) (quota : ℤ)
      → parse_int (raw_of share) ≡ some quota
      → Reads share (entry_of share quota)
  Reads-entry_of share quota parsed = record { id = refl; quota = parsed; context = refl }

  -- Every entry is of a share.
  pub nfs_entries_sound :
      (shares : List ShareNfs) (es : List Volume) (v : Volume)
      → nfs_entries L d m shares ≡ ok es
      → Elem v es
      → (share : ShareNfs) × Elem share shares × Reads share v
  nfs_entries_sound [] es v h e = unfold nfs_entries in absurd (ground arith)
  nfs_entries_sound (share ∷ shares) es v h e =
      let (quota, rest, parsed, done, made) = nfs_entries-cons share shares es h in
      let e' : Elem v (entry_of share quota ∷ rest) = rw made at e in
      elim e' [
        | inl same ↦ (share, inl refl, rw same (Reads-entry_of share quota parsed))
        | inr later ↦
            let (found, listed, reads) = nfs_entries_sound shares rest v done later in
            (found, inr listed, reads)
      ]

  -- Every share has an entry.
  pub nfs_entries_complete :
      (shares : List ShareNfs) (es : List Volume) (share : ShareNfs)
      → nfs_entries L d m shares ≡ ok es
      → Elem share shares
      → (v : Volume) × Elem v es × Reads share v
  nfs_entries_complete [] es share h e = absurd e
  nfs_entries_complete (s ∷ shares) es share h e =
      let (quota, rest, parsed, done, made) = nfs_entries-cons s shares es h in
      elim e [
        | inl same ↦ (entry_of s quota, rw made (inl refl), rw same (Reads-entry_of s quota parsed))
        | inr later ↦
            let (v, listed, reads) = nfs_entries_complete shares rest share done later in
            (v, rw made (inr listed), reads)
      ]

  -- The loop ends without an error if every quota that it reads parses.
  pub nfs_entries_total :
      (shares : List ShareNfs)
      → ((share : ShareNfs) → Elem share shares → (q : ℤ) × (parse_int (raw_of share) ≡ some q))
      → (es : List Volume) × (nfs_entries L d m shares ≡ ok es)
  unfolding nfs_entries
  nfs_entries_total [] readable = ([], refl)
  nfs_entries_total (share ∷ shares) readable =
      let (q, parsed) = readable share (inl refl) in
      let (rest, done) = nfs_entries_total shares (λ x e. readable x (inr e)) in
      (entry_of share q ∷ rest, rw (parsed, done))
