-- ===== src/Driver/Life/Reached.antt =====
-- Every step of a driver's life keeps its invariant (pkg/driver/driver.go, pkg/driver/identity.go).
use truenas_scale_csi.Base.{
  String, ◌≡◌, ◌∙◌, refl, sym, ap, subst, inl, inr, true, false, none, some, ok, err,
}
use truenas_scale_csi.Driver.{Driver}
use truenas_scale_csi.Driver.Run.{Network, prepare_run, probe}
use truenas_scale_csi.Host.{Host}
use truenas_scale_csi.Driver.Life.{
  Phase, called, listening, announced, serving, returned, Watcher, unborn, waiting, unready,
  stopped, System, Step, prepare, fail, announce, spawn, cancel, notice, stop, call, end, break,
  init, Reach, start, later,
}
use truenas_scale_csi.Driver.Life.Invariant.{
  is_up, is_started, is_late, is_called, IsConsistent, prepared-Listens, failed-keeps,
  called-IsFresh,
}

left-down : (p : Phase) → is_late p ≡ true → (is_up p unready ≡ false) × (is_up p stopped ≡ false)
left-down called h = cc h
left-down listening h = cc h
left-down announced h = cc h
left-down serving h = (refl, refl)
left-down (returned e) h = (refl, refl)

late-called : (p : Phase) → is_late p ≡ true → is_called p ≡ false
late-called called h = cc h
late-called listening h = refl
late-called announced h = refl
late-called serving h = refl
late-called (returned e) h = refl

started-late : (p : Phase) (w : Watcher) → is_late p ≡ true → is_started p w ≡ false → w ≡ unborn
started-late called w h n = cc h
started-late listening w h n = cc h
started-late announced w h n = cc h
started-late serving w h n = cc n
started-late (returned e) unborn h n = refl
started-late (returned e) waiting h n = cc n
started-late (returned e) unready h n = cc n
started-late (returned e) stopped h n = cc n

serving-up : (e : String) (w : Watcher) → is_up serving w ≡ is_up (returned (some e)) w
serving-up e unborn = refl
serving-up e waiting = refl
serving-up e unready = refl
serving-up e stopped = refl

module _ (H : Host) (N : Network H) (d : Driver) where
  -- A goroutine that was started stands beside a late phase.
  late-waiting :
      (s : System H) → IsConsistent H N d s → s.watcher ≡ waiting → is_late s.phase ≡ true
  late-waiting s i w = elim i.early [ inl none' ↦ cc (none', w) | inr late ↦ late ]

  late-unready :
      (s : System H) → IsConsistent H N d s → s.watcher ≡ unready → is_late s.phase ≡ true
  late-unready s i w = elim i.early [ inl none' ↦ cc (none', w) | inr late ↦ late ]

  init-IsConsistent : (h : H.State) → d.ready ≡ false → IsConsistent H N d (init H N d h)
  init-IsConsistent h down = record {
    settings = refl;
    ready = down;
    listens = inl refl;
    early = inl refl;
    fresh = inr refl;
    told = inl refl;
    ended = inl refl;
  }

  -- Before `Run` has done anything, the driver is not ready.
  called-ready : (s : System H) → IsConsistent H N d s → s.phase ≡ called → d.ready ≡ false
  called-ready s i c =
      let (same, early) = called-IsFresh H N d s i c in
      ap (λ (x : Driver). x.ready) (sym same) ∙ i.ready ∙ (λ j. is_up (c j) (early j))

  Step-IsConsistent : (s t : System H) → Step H N s t → IsConsistent H N d s → IsConsistent H N d t
  Step-IsConsistent s t (prepare {d = d'} {h} c e) i =
      let (same, early) = called-IsFresh H N d s i c in
      let (l, kept, r) =
        prepared-Listens H N d s.host h d'
          (subst (λ x. prepare_run H N (x, s.host) ≡ (ok tt, (d', h))) same e) in
      record {
        settings = kept;
        ready = r ∙ called-ready s i c ∙ sym (ap (is_up listening) early);
        listens = inr l;
        early = inl early;
        fresh = inl refl;
        told = i.told;
        ended = inl refl;
      }
  Step-IsConsistent s t (fail {d = d'} {h} {e = text} c e) i =
      let (same, early) = called-IsFresh H N d s i c in
      let (kept, r) =
        failed-keeps H N d s.host h d' text
          (subst (λ x. prepare_run H N (x, s.host) ≡ (err text, (d', h))) same e) in
      record {
        settings = kept;
        ready = r ∙ called-ready s i c ∙ sym (ap (is_up (returned (some text))) early);
        listens = inl (ap (is_started (returned (some text))) early);
        early = inl early;
        fresh = inl refl;
        told = i.told;
        ended = inl refl;
      }
  Step-IsConsistent s t (announce c) i = record {
    settings = i.settings;
    ready = refl;
    listens = elim i.listens [
      | inl not_started ↦ cc (rw c at not_started)
      | inr l ↦
          inr (record { url = l.url; parsed = l.parsed; scheme = l.scheme; config = l.config })
    ];
    early = elim i.early [ inl w ↦ inl w | inr late ↦ cc (rw c at late) ];
    fresh = inl refl;
    told = i.told;
    ended = inl refl;
  }
  Step-IsConsistent s t (spawn c) i = record {
    settings = i.settings;
    ready = i.ready ∙ ap (λ p. is_up p s.watcher) c;
    listens = elim i.listens [ inl not_started ↦ cc (rw c at not_started) | inr l ↦ inr l ];
    early = inr refl;
    fresh = inl refl;
    told = inl refl;
    ended = inl refl;
  }
  Step-IsConsistent s t cancel i = record {
    settings = i.settings;
    ready = i.ready;
    listens = i.listens;
    early = i.early;
    fresh = i.fresh;
    told = inr refl;
    ended = i.ended;
  }
  Step-IsConsistent s t (notice w c) i = record {
    settings = i.settings;
    ready = sym (left-down s.phase (late-waiting s i w)).0;
    listens = elim i.listens [
      | inl not_started ↦ cc (started-late s.phase s.watcher (late-waiting s i w) not_started, w)
      | inr l ↦
          inr (record { url = l.url; parsed = l.parsed; scheme = l.scheme; config = l.config })
    ];
    early = inr (late-waiting s i w);
    fresh = inl (late-called s.phase (late-waiting s i w));
    told = inr c;
    ended = elim i.ended [ inl before ↦ inl before | inr over ↦ cc (w, over) ];
  }
  Step-IsConsistent s t (stop w) i = record {
    settings = i.settings;
    ready =
        i.ready
        ∙ ap (is_up s.phase) w
        ∙ (left-down s.phase (late-unready s i w)).0
        ∙ sym (left-down s.phase (late-unready s i w)).1;
    listens = elim i.listens [
      | inl not_started ↦ cc (started-late s.phase s.watcher (late-unready s i w) not_started, w)
      | inr l ↦ inr l
    ];
    early = inr (late-unready s i w);
    fresh = inl (late-called s.phase (late-unready s i w));
    told = elim i.told [ inl not_left ↦ cc (rw w at not_left) | inr told ↦ inr told ];
    ended = inr refl;
  }
  Step-IsConsistent s t (call h c) i = record {
    settings = i.settings;
    ready = i.ready;
    listens = i.listens;
    early = i.early;
    fresh = i.fresh;
    told = i.told;
    ended = i.ended;
  }
  Step-IsConsistent s t (end c w) i = record {
    settings = i.settings;
    ready = i.ready ∙ (λ j. is_up (c j) (w j)) ∙ sym (ap (is_up (returned none)) w);
    listens = elim i.listens [ inl not_started ↦ cc (rw c at not_started) | inr l ↦ inr l ];
    early = inr refl;
    fresh = inl refl;
    told = i.told;
    ended = inr w;
  }
  Step-IsConsistent s t (break text c) i = record {
    settings = i.settings;
    ready = i.ready ∙ ap (λ p. is_up p s.watcher) c ∙ serving-up text s.watcher;
    listens = elim i.listens [ inl not_started ↦ cc (rw c at not_started) | inr l ↦ inr l ];
    early = inr refl;
    fresh = inl refl;
    told = i.told;
    ended = inl refl;
  }

  -- In every state that the life of a driver reaches, Probe answers that it is ready exactly between
  -- `setReady(true)` and `setReady(false)`; past the listener, the endpoint is that of a Unix socket, and an
  -- iSCSI driver keeps its connection files in the directory beside it; nothing else of the driver has changed.
  -- The driver starts as not ready, as NewDriver makes it.
  pub Reach-IsConsistent :
      (h : H.State) (s : System H) → d.ready ≡ false → Reach H N d h s → IsConsistent H N d s
  Reach-IsConsistent h s down start = init-IsConsistent h down
  Reach-IsConsistent h s down (later {s = r} before step) =
      Step-IsConsistent r s step (Reach-IsConsistent h r down before)

  -- Where `Run` came back without an error, a signal was caught, and Probe answers that the driver is not
  -- ready. The driver starts as not ready.
  pub Reach-returned :
      (h : H.State) (s : System H)
      → d.ready ≡ false
      → Reach H N d h s
      → s.phase ≡ returned none
      → (s.cancelled ≡ true) × (probe s.driver ≡ false)
  Reach-returned h s down r e =
      let i = Reach-IsConsistent h s down r in
      let over : s.watcher ≡ stopped = elim i.ended [
        | inl before ↦ cc (rw e at before)
        | inr over ↦ over
      ] in
      (
        elim i.told [ inl not_left ↦ cc (rw over at not_left) | inr told ↦ told ],
        i.ready ∙ (λ j. is_up (e j) (over j)),
      )
