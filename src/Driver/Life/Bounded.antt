-- ===== src/Driver/Life/Bounded.antt =====
-- That `Driver.Run` ends after a signal (pkg/driver/driver.go, cmd/truenas-csi-plugin/main.go), however its
-- goroutines and the calls of the services are interleaved.
use truenas_scale_csi.Base.{
  ℕ, zero, suc, ◌+◌, ◌<◌, String, ◌≡◌, ◌≢◌, ◌∙◌, refl, sym, ap, ◌⊎◌, inl, inr, true, false, Option,
  none, Result-cases, with_state, ok, err, arith,
}
use truenas_scale_csi.Driver.{Driver}
use truenas_scale_csi.Driver.Run.{Network, prepare_run, probe}
use truenas_scale_csi.Host.{Host}
use truenas_scale_csi.Driver.Life.{
  Phase, called, listening, announced, serving, returned, Watcher, unborn, waiting, unready,
  stopped, System, Step, prepare, fail, announce, spawn, cancel, notice, stop, call, end, break,
  Reach, start, later,
}
use truenas_scale_csi.Driver.Life.Invariant.{IsConsistent}
use truenas_scale_csi.Driver.Life.Reached.{Reach-IsConsistent, Reach-returned}

abbrev phase_rank : Phase → ℕ
phase_rank called = 4
phase_rank listening = 3
phase_rank announced = 2
phase_rank serving = 1
phase_rank (returned e) = 0

abbrev watcher_rank : Watcher → ℕ
watcher_rank unborn = 2
watcher_rank waiting = 2
watcher_rank unready = 1
watcher_rank stopped = 0

module _ (H : Host) (N : Network H) where
  -- A step of `Run` or of its goroutines, and not a signal or a call.
  abbrev pub IsOwn : {s t : System H} → Step H N s t → Type 0
  IsOwn cancel = ⊥
  IsOwn (call h c) = ⊥
  IsOwn _ = Unit

  -- A step that `Run` and its goroutines have coming, and that does not wait for `Serve` to fail.
  abbrev pub IsDue : {s t : System H} → Step H N s t → Type 0
  IsDue (break e c) = ⊥
  IsDue step = IsOwn step

  -- Calls and signals, any number of them.
  pub data Meanwhile : System H → System H → Type 0 where
    still : {s : System H} → Meanwhile s s
    then_call :
        {s u : System H} (h : H.State) (c : u.phase ≡ serving)
        → Meanwhile s u
        → Meanwhile s (record u { host = h })
    then_signal : {s u : System H} → Meanwhile s u → Meanwhile s (record u { cancelled = true })

  -- `Run` comes back from this state, whatever happens: it has come back, with a driver that is not ready
  -- unless it came back with an error; or, after any calls and signals, a step is due, and from each own
  -- step that may be taken then, due or not, `Run` comes back.
  pub data Ends : System H → Type 0 where
    over :
        {s : System H} (e : Option String)
        → s.phase ≡ returned e
        → (e ≡ none → probe s.driver ≡ false)
        → Ends s
    goes_on :
        {s : System H}
        → ((u : System H) → Meanwhile s u → (t : System H) × (step : Step H N u t) × IsDue step)
        → ((u t : System H) → Meanwhile s u → (step : Step H N u t) → IsOwn step → Ends t)
        → Ends s

  abbrev rank : System H → ℕ
  rank s = phase_rank s.phase + watcher_rank s.watcher

  module _ (d : Driver) where
    Step-rank :
        (s t : System H) (step : Step H N s t) → IsOwn step → IsConsistent H N d s → rank t < rank s
    Step-rank s t (prepare c e) o i = rw c (omega arith)
    Step-rank s t (fail c e) o i = rw c (omega arith)
    Step-rank s t (announce c) o i = rw c (omega arith)
    Step-rank s t (spawn c) o i = elim i.early [
      | inl none' ↦ rw (c, none') (omega arith)
      | inr late ↦ cc (rw c at late)
    ]
    Step-rank s t cancel o i = absurd o
    Step-rank s t (notice w c) o i = rw w (omega arith)
    Step-rank s t (stop w) o i = rw w (omega arith)
    Step-rank s t (call h c) o i = absurd o
    Step-rank s t (end c w) o i = rw (c, w) (omega arith)
    Step-rank s t (break text c) o i = rw c (omega arith)

    -- While the driver serves, the goroutine that waits for the signal is there.
    Step-watched :
        (s t : System H) (step : Step H N s t)
        → (s.phase ≡ serving → s.watcher ≢ unborn)
        → t.phase ≡ serving
        → t.watcher ≢ unborn
    Step-watched s t (prepare c e) before p w = cc p
    Step-watched s t (fail c e) before p w = cc p
    Step-watched s t (announce c) before p w = cc p
    Step-watched s t (spawn c) before p w = cc w
    Step-watched s t cancel before p w = before p w
    Step-watched s t (notice w' c) before p w = cc w
    Step-watched s t (stop w') before p w = cc w
    Step-watched s t (call h c) before p w = before p w
    Step-watched s t (end c w') before p w = cc p
    Step-watched s t (break text c) before p w = cc p

    Reach-watched :
        (h : H.State) (s : System H) → Reach H N d h s → s.phase ≡ serving → s.watcher ≢ unborn
    Reach-watched h s start p = cc p
    Reach-watched h s (later {s = r} before step) p =
        Step-watched r s step (Reach-watched h r before) p

    serving-IsDue :
        (s : System H) (w : Watcher)
        → s.watcher ≡ w
        → s.phase ≡ serving
        → s.cancelled ≡ true
        → s.watcher ≢ unborn
        → (t : System H) × (step : Step H N s t) × IsDue step
    serving-IsDue s unborn e p c watched = absurd (watched e)
    serving-IsDue s waiting e p c watched = (_, notice e c, tt)
    serving-IsDue s unready e p c watched = (_, stop e, tt)
    serving-IsDue s stopped e p c watched = (_, end p e, tt)

    -- After a signal, a step is due until `Run` has come back.
    system-IsDue :
        (s : System H) (p : Phase)
        → s.phase ≡ p
        → s.cancelled ≡ true
        → (s.phase ≡ serving → s.watcher ≢ unborn)
        → ((e : Option String) → s.phase ≢ returned e)
        → (t : System H) × (step : Step H N s t) × IsDue step
    system-IsDue s called e c watched on =
        let r = prepare_run H N (s.driver, s.host) in
        elim (Result-cases r.0) [
          | inl (text, bad) ↦ (_, fail e (with_state r (err text) bad), tt)
          | inr (_, good) ↦ (_, prepare e (with_state r (ok tt) good), tt)
        ]
    system-IsDue s listening e c watched on = (_, announce e, tt)
    system-IsDue s announced e c watched on = (_, spawn e, tt)
    system-IsDue s serving e c watched on = serving-IsDue s s.watcher refl e c (watched e)
    system-IsDue s (returned x) e c watched on = absurd (on x e)

    -- What calls and signals leave.
    Meanwhile-Reach :
        (h : H.State) (s u : System H) → Meanwhile s u → Reach H N d h s → Reach H N d h u
    Meanwhile-Reach h s u still r = r
    Meanwhile-Reach h s u (then_call g c m) r = later (Meanwhile-Reach h s _ m r) (call g c)
    Meanwhile-Reach h s u (then_signal m) r = later (Meanwhile-Reach h s _ m r) cancel

    Meanwhile-keeps :
        (s u : System H)
        → Meanwhile s u
        → s.cancelled ≡ true
        → (u.phase ≡ s.phase) × (u.watcher ≡ s.watcher) × (u.cancelled ≡ true)
    Meanwhile-keeps s u still c = (refl, refl, c)
    Meanwhile-keeps s u (then_call g c' m) c = Meanwhile-keeps s _ m c
    Meanwhile-keeps s u (then_signal m) c = let (p, w, _) = Meanwhile-keeps s _ m c in (p, w, refl)

    Step-cancelled : (s t : System H) → Step H N s t → s.cancelled ≡ true → t.cancelled ≡ true
    Step-cancelled s t (prepare c e) h = h
    Step-cancelled s t (fail c e) h = h
    Step-cancelled s t (announce c) h = h
    Step-cancelled s t (spawn c) h = h
    Step-cancelled s t cancel h = refl
    Step-cancelled s t (notice w c) h = h
    Step-cancelled s t (stop w) h = h
    Step-cancelled s t (call g c) h = h
    Step-cancelled s t (end c w) h = h
    Step-cancelled s t (break text c) h = h

    is_back :
        (p : Phase)
        → ((e : Option String) × (p ≡ returned e)) ⊎ ((e : Option String) → p ≢ returned e)
    is_back called = inr (λ e h. cc h)
    is_back listening = inr (λ e h. cc h)
    is_back announced = inr (λ e h. cc h)
    is_back serving = inr (λ e h. cc h)
    is_back (returned e) = inl (e, refl)

    Ends-by :
        (n : ℕ) (h : H.State) (s : System H)
        → rank s < n
        → d.ready ≡ false
        → Reach H N d h s
        → s.cancelled ≡ true
        → Ends s
    Ends-by zero h s small down r c = absurd (omega arith)
    Ends-by (suc n) h s small down r c = elim (is_back s.phase) [
      | inl (e, back) ↦
          over e back (λ clean. (Reach-returned H N d h s down r (back ∙ ap returned clean)).1)
      | inr on ↦
          goes_on
            (λ u m.
              let (p, w, c') = Meanwhile-keeps s u m c in
              system-IsDue u u.phase refl c' (Reach-watched h u (Meanwhile-Reach h s u m r))
                (λ e back. on e (sym p ∙ back)))
            (λ u t m step own.
              let (p, w, c') = Meanwhile-keeps s u m c in
              let r' = Meanwhile-Reach h s u m r in
              let less = Step-rank u t step own (Reach-IsConsistent H N d h u down r') in
              let same : rank u ≡ rank s = rw (p, w) in
              Ends-by n h t (omega arith) down (later r' step) (Step-cancelled u t step c'))
    ]

    -- Once a signal is caught, `Run` comes back, in whatever order its goroutines, further signals and the
    -- calls of the services take their steps: until then a step of `Run` or a goroutine is due that does not
    -- wait for `Serve` to fail, and of such steps no order goes on for ever; and a `Run` that comes back
    -- without an error leaves a driver that Probe answers is not ready. The driver starts as not ready, and
    -- calls come back.
    pub Reach-Ends :
        (h : H.State) (s : System H)
        → d.ready ≡ false
        → Reach H N d h s
        → s.cancelled ≡ true
        → Ends s
    Reach-Ends h s down r c = Ends-by (rank s + 1) h s (omega arith) down r c
