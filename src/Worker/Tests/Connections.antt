-- ===== src/Worker/Tests/Connections.antt =====
-- The theorems on a worker's connections at a refused one, a lost one and a shutdown.
use gearman_rs.Base.{◌≡◌, refl, true, false, none, some, inl, [], ◌∷◌, ◌++◌, codes}
use gearman_rs.Error.{ok}
use gearman_rs.Worker.Job.{Registry, register_functions}
use gearman_rs.Protocol.PacketType.{noop}
use gearman_rs.Protocol.Packet.{request}
use gearman_rs.Worker.Job.{JobHandler, returns, done}
use gearman_rs.Worker.Grab.{
  uniq, Cycle, told_to_stop, unregistered, run_grab_loop, grab_turn, flush_unregistrations,
  on_reply,
}
use gearman_rs.Worker.Connection.{
  Attempt, returned, reconnecting, then_run, worker_turn, reconnect_loop, run_worker_connection,
  discard,
}
use gearman_rs.Worker.Connection.Delays.{IsPatient, run_worker_connection-IsPatient}
use gearman_rs.Worker.Connection.Shutdown.{
  MeetsShutdown, in_grab_loop, run_worker_connection-returned,
}
use gearman_rs.Worker.Connection.Sessions.{IsLife, run_worker_connection-IsLife}

abbrev silent : JobHandler
silent job = returns (done [])

abbrev registry : Registry
registry = (codes "echo", record { handler = silent; timeout = none }) ∷ []

-- A connection that is lost after its first grab.
abbrev losing : Cycle
losing = record {
  stop = false;
  notices = [];
  grab_sent = true;
  reply = ok none;
  sleep_sent = true;
  wake = told_to_stop;
  sends = λ n. none;
}

abbrev refused : Attempt
refused = record {
  stop = false;
  connected = false;
  registry = registry;
  taken = 0;
  queue = [];
  cycles = (registry, losing) ∷ [];
  interrupted = false;
}

abbrev lost : Attempt
lost = record refused { connected = true; taken = 1; queue = unregistered (codes "old") true ∷ [] }

abbrev told : Attempt
told = record refused { stop = true }

run_worker_connection-IsPatient_example :
    IsPatient (run_worker_connection uniq (refused ∷ lost ∷ told ∷ []))
run_worker_connection-IsPatient_example =
    run_worker_connection-IsPatient uniq (refused ∷ lost ∷ told ∷ [])

run_worker_connection-IsLife_example :
    IsLife uniq
      (registry ∷ registry ∷ registry ∷ [])
      (run_worker_connection uniq (refused ∷ lost ∷ told ∷ [])).sent
run_worker_connection-IsLife_example =
    run_worker_connection-IsLife uniq (refused ∷ lost ∷ told ∷ [])

-- A connection in whose second grab shutdown is signalled.
abbrev watching : Cycle
watching = record losing { reply = ok (some (request noop [])) }

abbrev interrupted : Attempt
interrupted = record lost {
  cycles = (registry, watching) ∷ (registry, record losing { stop = true }) ∷ [];
}

before_told : (run_worker_connection uniq (refused ∷ lost ∷ [])).phase ≡ reconnecting 200
unfolding run_worker_connection reconnect_loop worker_turn run_grab_loop grab_turn
    flush_unregistrations discard register_functions
before_told = refl

interrupted-MeetsShutdown : MeetsShutdown uniq interrupted
unfolding run_grab_loop grab_turn flush_unregistrations discard register_functions on_reply
interrupted-MeetsShutdown =
    in_grab_loop refl refl ((registry, watching) ∷ []) registry (record losing { stop = true }) []
      refl refl (inl refl)

run_worker_connection-returned_example :
    ((run_worker_connection uniq ((refused ∷ lost ∷ []) ++ interrupted ∷ lost ∷ [])).phase
      ≡ returned)
    × (run_worker_connection uniq ((refused ∷ lost ∷ []) ++ interrupted ∷ lost ∷ [])
        ≡ then_run
            (run_worker_connection uniq (refused ∷ lost ∷ []))
            (worker_turn uniq 200 interrupted))
run_worker_connection-returned_example =
    run_worker_connection-returned uniq (refused ∷ lost ∷ []) 200 interrupted (lost ∷ [])
      before_told interrupted-MeetsShutdown
