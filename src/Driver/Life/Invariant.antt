-- ===== src/Driver/Life/Invariant.antt =====
-- What holds in every state that a driver's life reaches (pkg/driver/driver.go, pkg/driver/identity.go).
use truenas_scale_csi.Base.{
  String, ◌≡◌, ◌∙◌, refl, sym, ap, subst, ◌⊎◌, inl, inr, Bool, true, false, none, ok, err,
  if◌then◌else◌,
}
use truenas_scale_csi.Driver.{Driver}
use truenas_scale_csi.Driver.New.{Url}
use truenas_scale_csi.Driver.Run.{Network, config_dir, prepare_run}
use truenas_scale_csi.Driver.Run.Prepared.{Changed, configured, prepare_run_lem}
use truenas_scale_csi.Host.{Host}
use truenas_scale_csi.Driver.Life.{
  Phase, called, announced, serving, returned, Watcher, unborn, waiting, unready, stopped, System,
}

-- From `setReady(true)` to `setReady(false)`.
abbrev pub is_up : Phase → Watcher → Bool
is_up announced w = true
is_up p waiting = true
is_up _ _ = false

-- Past the listener.
abbrev pub is_started : Phase → Watcher → Bool
is_started called w = false
is_started (returned e) unborn = false
is_started _ _ = true

abbrev pub is_late : Phase → Bool
is_late serving = true
is_late (returned e) = true
is_late _ = false

abbrev pub is_called : Phase → Bool
is_called called = true
is_called _ = false

abbrev pub has_left : Watcher → Bool
has_left unready = true
has_left stopped = true
has_left _ = false

abbrev pub is_clean : Phase → Bool
is_clean (returned none) = true
is_clean _ = false

-- The part of a driver that its life does not change.
abbrev pub settings_of : Driver → Driver
settings_of d = record d { iscsi_config_dir = ""; ready = false }

module _ (H : Host) (N : Network H) (d : Driver) where
  -- The endpoint is a Unix socket, and an iSCSI driver keeps its connection files beside it.
  pub record Listens (d' : Driver) : Type 0 where
    pub url : Url
    pub parsed : N.parse_url d.endpoint ≡ ok url
    pub scheme : url.scheme ≡ "unix"
    pub config : d'.iscsi_config_dir ≡ (if d.is_nfs then d.iscsi_config_dir else config_dir url)

  pub record IsConsistent (s : System H) : Type 0 where
    pub settings : settings_of s.driver ≡ settings_of d
    pub ready : s.driver.ready ≡ is_up s.phase s.watcher
    pub listens : (is_started s.phase s.watcher ≡ false) ⊎ Listens s.driver
    pub early : (s.watcher ≡ unborn) ⊎ (is_late s.phase ≡ true)
    pub fresh : (is_called s.phase ≡ false) ⊎ (s.driver ≡ d)
    pub told : (has_left s.watcher ≡ false) ⊎ (s.cancelled ≡ true)
    pub ended : (is_clean s.phase ≡ false) ⊎ (s.watcher ≡ stopped)

  prepare_run-keeps :
      (d' : Driver) → Changed d d' → (settings_of d' ≡ settings_of d) × (d'.ready ≡ d.ready)
  prepare_run-keeps d' (inl same) = (ap settings_of same, ap (λ (x : Driver). x.ready) same)
  prepare_run-keeps d' (inr (u, same)) = (ap settings_of same, ap (λ (x : Driver). x.ready) same)

  config-configured :
      (b : Bool) (u : Url)
      → (configured b u d).iscsi_config_dir ≡ (if b then d.iscsi_config_dir else config_dir u)
  config-configured true u = refl
  config-configured false u = refl

  pub prepared-Listens :
      (s h : H.State) (d' : Driver)
      → prepare_run H N (d, s) ≡ (ok tt, (d', h))
      → Listens d' × (settings_of d' ≡ settings_of d) × (d'.ready ≡ d.ready)
  prepared-Listens s h d' e =
      let (outcome, changed) = prepare_run_lem H N d s in
      let now : (prepare_run H N (d, s)).1.0 ≡ d' = ap (λ x. x.1.0) e in
      let (a, b) = prepare_run-keeps d' (subst (Changed d) now changed) in
      elim outcome [
        | inr (text, bad) ↦ cc (ap (λ x. x.0) e, bad)
        | inl (u, parsed, scheme, same) ↦ (
          record {
            url = u;
            parsed = parsed;
            scheme = scheme;
            config =
                ap (λ (x : Driver). x.iscsi_config_dir) (sym now ∙ same)
                ∙ config-configured d.is_nfs u;
          },
          a,
          b,
        )
      ]

  pub failed-keeps :
      (s h : H.State) (d' : Driver) (text : String)
      → prepare_run H N (d, s) ≡ (err text, (d', h))
      → (settings_of d' ≡ settings_of d) × (d'.ready ≡ d.ready)
  failed-keeps s h d' text e =
      prepare_run-keeps d' (subst (Changed d) (ap (λ x. x.1.0) e) (prepare_run_lem H N d s).1)

  -- Before `Run` has done anything, its driver is the given one, and no goroutine waits.
  pub called-IsFresh :
      (s : System H) → IsConsistent s → s.phase ≡ called → (s.driver ≡ d) × (s.watcher ≡ unborn)
  called-IsFresh s c e = (
    elim c.fresh [ inl other ↦ cc (rw e at other) | inr same ↦ same ],
    elim c.early [ inl same ↦ same | inr other ↦ cc (rw e at other) ],
  )
