-- ===== src/Driver/Run/Prepared.antt =====
-- What `Driver.Run` (pkg/driver/driver.go) has done to the driver when it listens, and when it gives up before.
use truenas_scale_csi.Base.{
  String, ◌≡◌, refl, sym, subst, ◌⊎◌, inl, inr, Bool, true, false, Result, ok, err, str_eq, eq_iff,
  Bool-cases, Result-cases, Exec, raise, ◌>>◌, ◌on_error◌, dir_path, if◌then◌else◌,
}
use truenas_scale_csi.Driver.{Driver}
use truenas_scale_csi.Driver.New.{Url}
use truenas_scale_csi.Host.{Host}
use truenas_scale_csi.Driver.Run.{
  Network, grpc_addr, config_dir, with_config, on_host, make_config_dir, remove_socket,
  make_sock_dir, open_socket, listen_at, prepare_run,
}

abbrev pub configured : Bool → Url → Driver → Driver
configured is_nfs u d = if is_nfs then d else with_config u d

-- The driver as it was, or with another directory for the connection files.
abbrev pub Changed : Driver → Driver → Type 0
Changed d d' = (d' ≡ d) ⊎ ((u : Url) × (d' ≡ with_config u d))

configured-Changed : (b : Bool) (u : Url) (d : Driver) → Changed d (configured b u d)
configured-Changed true u d = inl refl
configured-Changed false u d = inr (u, refl)

module _ (H : Host) (N : Network H) where
  open H use {State}

  -- The outcome of a step for the driver `d`: it goes on, and `d` is `d'`, or it gives up.
  abbrev Outcome : Driver → Driver → Result String (Unit {0}) × (Driver × State) → Type 0
  Outcome d d' r =
      ((r.0 ≡ ok tt) × (r.1.0 ≡ d')) ⊎ (((e : String) × (r.0 ≡ err e)) × Changed d r.1.0)

  remove_socket-Outcome :
      (u : Url) (d : Driver) (s : State) → Outcome d d (remove_socket H N u (d, s))
  unfolding remove_socket
  remove_socket-Outcome u d s = elim (Result-cases (N.remove (grpc_addr u) s).0) [
    | inr (_, fine) ↦ rw fine (inl (refl, refl))
    | inl (e, bad) ↦ elim (Bool-cases e.is_not_exist) [
      | inl missing ↦ rw (bad, missing) (inl (refl, refl))
      | inr other ↦ rw (bad, other) (inr ((_, refl), inl refl))
    ]
  ]

  make_config_dir-Outcome :
      (b : Bool) (u : Url) (d : Driver) (s : State)
      → Outcome d (configured b u d) (make_config_dir H N b u (d, s))
  unfolding make_config_dir
  make_config_dir-Outcome true u d s = inl (refl, refl)
  make_config_dir-Outcome false u d s = elim (Result-cases (H.mkdir_all (config_dir u) s).0) [
    | inr (_, fine) ↦ rw fine (inl (refl, refl))
    | inl (e, bad) ↦ rw bad (inr ((_, refl), inr (u, refl)))
  ]

  on_host-Outcome :
      {E : Type 0} (m : Exec State E (Unit {0})) (report : E → String) (d d' : Driver) (s : State)
      → Changed d d'
      → Outcome d d' ((on_host H N m on_error λ e. raise (report e)) (d', s))
  on_host-Outcome m report d d' s c = elim (Result-cases (m s).0) [
    | inr (_, fine) ↦ rw fine (inl (refl, refl))
    | inl (e, bad) ↦ rw bad (inr ((_, refl), c))
  ]

  -- A step that goes on with `d'`, and what follows it from there.
  seq-Outcome :
      (m n : Exec (Driver × State) String (Unit {0})) (d d' d'' : Driver) (x : Driver × State)
      → Outcome d d' (m x)
      → ((s : State) → Outcome d d'' (n (d', s)))
      → Outcome d d'' ((m >> n) x)
  seq-Outcome m n d d' d'' x first' next = elim first' [
    | inr ((e, bad), c) ↦ rw bad (inr ((e, refl), c))
    | inl (fine, same) ↦
        rw fine (subst (λ y. Outcome d d'' (n (y, (m x).1.1))) (sym same) (next (m x).1.1))
  ]

  -- `Run` listens only on a Unix socket.
  listen_at-Outcome :
      (b : Bool) (u : Url) (d : Driver) (s : State)
      → ((u.scheme ≡ "unix") ⊎ ((e : String) × ((listen_at H N b u (d, s)).0 ≡ err e)))
        × Outcome d (configured b u d) (listen_at H N b u (d, s))
  unfolding listen_at
  listen_at-Outcome b u d s = elim (Bool-cases (str_eq u.scheme "unix")) [
    | inr other ↦ rw other (inr (_, refl), inr ((_, refl), inl refl))
    | inl unix ↦ rw unix (
      inl ((eq_iff u.scheme "unix").0 unix),
      seq-Outcome (remove_socket H N u)
          (make_sock_dir H N u >> (make_config_dir H N b u >> open_socket H N u)) d d
          (configured b u d) (d, s) (remove_socket-Outcome u d s)
          λ s1.
            seq-Outcome (make_sock_dir H N u) (make_config_dir H N b u >> open_socket H N u) d d
              (configured b u d) (d, s1)
              (on_host-Outcome (H.mkdir_all (dir_path u.path)) _ d d s1 (inl refl))
              λ s2.
                seq-Outcome (make_config_dir H N b u) (open_socket H N u) d (configured b u d)
                  (configured b u d) (d, s2) (make_config_dir-Outcome b u d s2)
                  λ s3.
                    on_host-Outcome (N.listen u.scheme (grpc_addr u)) _ d (configured b u d) s3
                      (configured-Changed b u d),
    )
  ]

  -- `Run` listens only at an endpoint that parses, on a Unix socket, and changes at most the directory.
  pub prepare_run_lem :
      (d : Driver) (s : State)
      → (((u : Url) × (N.parse_url d.endpoint ≡ ok u)
            × (u.scheme ≡ "unix")
            × ((prepare_run H N (d, s)).1.0 ≡ configured d.is_nfs u d))
          ⊎ ((e : String) × ((prepare_run H N (d, s)).0 ≡ err e)))
        × Changed d (prepare_run H N (d, s)).1.0
  unfolding prepare_run
  prepare_run_lem d s = elim (Result-cases (N.parse_url d.endpoint)) [
    | inl (e, bad) ↦ rw bad (inr (_, refl), inl refl)
    | inr (u, parsed) ↦ rw parsed (
        let (unix, o) = listen_at-Outcome d.is_nfs u d s in
        elim o [
          | inr (failed, c) ↦ (inr failed, c)
          | inl (fine, same) ↦ (
            elim unix [ inl scheme ↦ inl (u, refl, scheme, same) | inr failed ↦ inr failed ],
            subst (Changed d) (sym same) (configured-Changed d.is_nfs u d),
          )
        ])
  ]
