-- ===== src/Worker/Connection.antt =====
-- src/worker/mod.rs: `run_worker_connection`, `interruptible_backoff`, and the part of
-- `WorkerBuilder` and `Worker` that starts and stops the connections. An `Attempt` is what one turn
-- of the reconnecting loop meets; a delay is in milliseconds.
pub mod Delays
pub mod Shutdown
pub mod Sessions
use gearman_rs.Base.{
  ℕ, ◌*◌, ◌≤◌, Bool, true, false, leb, if◌then◌else◌, min, Option, none, some, List, [], ◌∷◌, ◌++◌,
  length, take, Bytes,
}
use gearman_rs.Protocol.Packet.{Packet}
use gearman_rs.Worker.Job.{Registry, register_functions}
use gearman_rs.Worker.Grab.{
  GrabMode, LoopOutcome, connection_lost, shutting_down, panicked, Notice, unregistered, lagged,
  Cycle, Turn, run_grab_loop,
}

-- The first backoff.
abbrev pub first_delay : ℕ
first_delay = 100

-- MAX_BACKOFF.
abbrev pub max_delay : ℕ
max_delay = 30000

-- Whether shutdown was signalled when the turn began; whether the connection came up; the
-- registry, and how many registrations the connection takes before a send fails; the notifications
-- that are queued then; what the grab loop meets; and whether shutdown ends the backoff.
pub record Attempt : Type 0 where
  pub stop : Bool
  pub connected : Bool
  pub registry : Registry
  pub taken : ℕ
  pub queue : List Notice
  pub cycles : List (Registry × Cycle)
  pub interrupted : Bool

-- Whether the task has returned, was ended by a panic, reconnects with a backoff, or is in the
-- grab loop.
pub data Phase : Type 0 where
  returned : Phase
  aborted : Phase
  reconnecting : ℕ → Phase
  in_session : Phase

-- What is sent, how long the task sleeps, and how it goes on.
pub record Progress : Type 0 where
  pub sent : List Packet
  pub delays : List ℕ
  pub phase : Phase

abbrev pub doubled : ℕ → ℕ
doubled backoff = min (backoff * 2) max_delay

-- `interruptible_backoff`, which is true if shutdown fired, and what follows it.
abbrev pub interruptible_backoff : Bool → ℕ → Phase
interruptible_backoff true backoff = returned
interruptible_backoff false backoff = reconnecting (doubled backoff)

abbrev pub back_off : Bool → ℕ → List Packet → Progress
back_off interrupted backoff sent = record {
  sent = sent;
  delays = backoff ∷ [];
  phase = interruptible_backoff interrupted backoff;
}

-- `while unregister_rx.try_recv().is_ok() {}`: a lag is an error, and ends the loop.
unfoldable pub discard : List Notice → List Notice
discard [] = []
discard (unregistered name is_sent ∷ queue) = discard queue
discard (lagged ∷ queue) = queue

-- What is left in the queue is met by the first flush of the grab loop.
abbrev pub with_queue : List Notice → List (Registry × Cycle) → List (Registry × Cycle)
with_queue queue [] = []
with_queue queue ((registry, c) ∷ cycles) =
    (registry, record c { notices = queue ++ c.notices }) ∷ cycles

-- The `match` on the outcome of the grab loop; the backoff was reset before it.
abbrev pub after_session : Bool → List Packet → Turn → Progress
after_session interrupted registrations (sent, none) = record {
  sent = registrations ++ sent;
  delays = [];
  phase = in_session;
}
after_session interrupted registrations (sent, some shutting_down) = record {
  sent = registrations ++ sent;
  delays = [];
  phase = returned;
}
after_session interrupted registrations (sent, some panicked) = record {
  sent = registrations ++ sent;
  delays = [];
  phase = aborted;
}
after_session interrupted registrations (sent, some connection_lost) =
    back_off interrupted first_delay (registrations ++ sent)

-- The session of a connection whose functions are registered.
abbrev pub session : GrabMode → Attempt → List Packet → Progress
session mode a registrations =
    after_session a.interrupted registrations
      (run_grab_loop mode (with_queue (discard a.queue) a.cycles))

-- `register_functions` stops at the first send that fails.
abbrev pub on_connected : GrabMode → ℕ → Attempt → List Packet → Progress
on_connected mode backoff a registrations =
    if leb (length registrations) a.taken
    then session mode a registrations
    else back_off a.interrupted backoff (take a.taken registrations)

abbrev pub try_connection : GrabMode → ℕ → Attempt → Bool → Progress
try_connection mode backoff a true = on_connected mode backoff a (register_functions a.registry)
try_connection mode backoff a false = back_off a.interrupted backoff []

abbrev pub unless_shut_down : GrabMode → ℕ → Attempt → Bool → Progress
unless_shut_down mode backoff a true = record { sent = []; delays = []; phase = returned }
unless_shut_down mode backoff a false = try_connection mode backoff a a.connected

-- One turn of the loop.
unfoldable pub worker_turn : GrabMode → ℕ → Attempt → Progress
worker_turn mode backoff a = unless_shut_down mode backoff a a.stop

-- A turn, and then the rest of the loop.
abbrev pub then_run : Progress → Progress → Progress
then_run first later = record {
  sent = first.sent ++ later.sent;
  delays = first.delays ++ later.delays;
  phase = later.phase;
}

-- The loop ends when a turn does not reconnect.
abbrev pub go_on : Phase → Progress → (ℕ → Progress) → Progress
go_on returned first later = first
go_on aborted first later = first
go_on in_session first later = first
go_on (reconnecting backoff) first later = then_run first (later backoff)

-- The loop, from a backoff on.
unfoldable pub reconnect_loop : GrabMode → ℕ → List Attempt → Progress
reconnect_loop mode backoff [] = record { sent = []; delays = []; phase = reconnecting backoff }
reconnect_loop mode backoff (a ∷ attempts) =
    let turned = worker_turn mode backoff a in
    go_on turned.phase turned (λ next. reconnect_loop mode next attempts)

unfoldable pub run_worker_connection : GrabMode → List Attempt → Progress
run_worker_connection mode attempts = reconnect_loop mode first_delay attempts
