-- ===== src/Driver/Life.antt =====
-- The life of a driver: `Driver.Run` (pkg/driver/driver.go) and its two goroutines as steps, in any order
-- that they allow, with the signal of cmd/truenas-csi-plugin/main.go and the calls of the services in between.
pub mod Invariant
pub mod Reached
pub mod Bounded
use truenas_scale_csi.Base.{String, ◌≡◌, Bool, true, false, Option, none, some, ok, err}
use truenas_scale_csi.Driver.{Driver, set_ready}
use truenas_scale_csi.Host.{Host}
use truenas_scale_csi.Driver.Run.{Network, prepare_run}

-- How far `Run` is: called, listening, marked as ready, serving, or back, with its error.
pub data Phase : Type 0 where
  called listening announced serving : Phase
  returned : Option String → Phase

-- The goroutine that waits for the context: not started, waiting, past `setReady(false)`, past `GracefulStop`.
pub data Watcher : Type 0 where
  unborn waiting unready stopped : Watcher

pub record System (H : Host) : Type 0 where
  pub driver : Driver
  pub host : H.State
  pub phase : Phase
  pub watcher : Watcher
  pub cancelled : Bool

module _ (H : Host) (N : Network H) where
  pub data Step (s : System H) : System H → Type 0 where
    -- `Run` up to the listener, or to the error that it returns.
    prepare :
        {d : Driver} {h : H.State}
        → s.phase ≡ called
        → prepare_run H N (s.driver, s.host) ≡ (ok tt, (d, h))
        → Step s (record s { driver = d; host = h; phase = listening })
    fail :
        {d : Driver} {h : H.State} {e : String}
        → s.phase ≡ called
        → prepare_run H N (s.driver, s.host) ≡ (err e, (d, h))
        → Step s (record s { driver = d; host = h; phase = returned (some e) })
    -- `d.setReady(true)`
    announce :
        s.phase ≡ listening
        → Step s (record s { driver = set_ready true s.driver; phase = announced })
    -- The goroutines start: one serves, the other waits for the context.
    spawn : s.phase ≡ announced → Step s (record s { phase = serving; watcher = waiting })
    -- A signal, whenever it comes.
    cancel : Step s (record s { cancelled = true })
    -- `<-ctx.Done()`, then `d.setReady(false)`
    notice :
        s.watcher ≡ waiting
        → s.cancelled ≡ true
        → Step s (record s { driver = set_ready false s.driver; watcher = unready })
    -- `d.srv.GracefulStop()`
    stop : s.watcher ≡ unready → Step s (record s { watcher = stopped })
    -- A call of a service, which may change the node.
    call : (h : H.State) → s.phase ≡ serving → Step s (record s { host = h })
    -- `Serve` returns: without an error only after `GracefulStop` (documented by grpc), with one at any time.
    end : s.phase ≡ serving → s.watcher ≡ stopped → Step s (record s { phase = returned none })
    break : (e : String) → s.phase ≡ serving → Step s (record s { phase = returned (some e) })

  -- `Run` is called.
  abbrev pub init : Driver → H.State → System H
  init d h = record { driver = d; host = h; phase = called; watcher = unborn; cancelled = false }

  pub data Reach (d : Driver) (h : H.State) : System H → Type 0 where
    start : Reach d h (init d h)
    later : {s t : System H} → Reach d h s → Step s t → Reach d h t
