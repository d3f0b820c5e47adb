-- ===== src/Tests/Life.antt =====
-- The life of a driver, from its start to a signal.
use truenas_scale_csi.Base.{
  true, false, [], ◌≡◌, refl, none, ok, join_path, clean_path, dir_path, join,
}
use truenas_scale_csi.Driver.{Driver, set_ready}
use truenas_scale_csi.Driver.Run.{
  Network, make_config_dir, remove_socket, listen_at, prepare_run, probe,
}
use truenas_scale_csi.Driver.Life.{
  System, prepare, announce, spawn, cancel, notice, stop, call, end, Reach, start, later, returned,
  stopped, serving, waiting,
}
use truenas_scale_csi.Driver.Life.Invariant.{IsConsistent}
use truenas_scale_csi.Driver.Life.Reached.{Reach-IsConsistent, Reach-returned}
use truenas_scale_csi.Driver.Life.Bounded.{Ends, Reach-Ends}
use truenas_scale_csi.Iscsi.Disk.Table.{Disks, disk_host}
use truenas_scale_csi.Tests.{driver}

opened : Unit {0}
unfolding make_config_dir remove_socket listen_at prepare_run join_path clean_path dir_path join
opened = tt

abbrev network : Network disk_host
network = record {
  parse_url = λ text. ok (record { scheme = "unix"; host = ""; path = "/csi/csi.sock" });
  remove = λ path s. (ok tt, s);
  listen = λ scheme address s. (ok tt, s);
}

abbrev new_iscsi_driver : Driver
new_iscsi_driver = record driver { is_nfs = false; iscsi_config_dir = ""; ready = false }

abbrev listening_driver : Driver
listening_driver = record driver {
  is_nfs = false;
  iscsi_config_dir = "/csi/iscsi_config";
  ready = false;
}

abbrev node : Disks
node = record { mounts = []; saved = [] }

-- Served a call, then stopped by a signal.
abbrev ended : System disk_host
ended = record {
  driver = listening_driver;
  host = node;
  phase = returned none;
  watcher = stopped;
  cancelled = true;
}

run : Reach disk_host network new_iscsi_driver node ended
unfolding opened
run =
    later
      (later
        (later
          (later
            (later
              (later
                (later (later start (prepare {d = listening_driver} {h = node} refl refl))
                  (announce refl))
                (spawn refl))
              (call node refl))
            cancel)
          (notice refl refl))
        (stop refl))
      (end refl refl)

Reach-IsConsistent_example : IsConsistent disk_host network new_iscsi_driver ended
Reach-IsConsistent_example =
    Reach-IsConsistent disk_host network new_iscsi_driver node ended refl run

Reach-returned_example : (ended.cancelled ≡ true) × (probe ended.driver ≡ false)
Reach-returned_example = Reach-returned disk_host network new_iscsi_driver node ended refl run refl

-- A signal is caught while the driver serves.
abbrev signalled : System disk_host
signalled = record {
  driver = set_ready true listening_driver;
  host = node;
  phase = serving;
  watcher = waiting;
  cancelled = true;
}

caught : Reach disk_host network new_iscsi_driver node signalled
unfolding opened
caught =
    later
      (later
        (later
          (later (later start (prepare {d = listening_driver} {h = node} refl refl))
            (announce refl))
          (spawn refl))
        (call node refl))
      cancel

Reach-Ends_example : Ends disk_host network signalled
Reach-Ends_example = Reach-Ends disk_host network new_iscsi_driver node signalled refl caught refl
