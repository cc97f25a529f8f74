-- ===== src/Worker/Connection/Delays.antt =====
-- The delays between the connections of a worker, by src/worker/mod.rs.
use gearman_rs.Base.{
  ℕ, ◌≤◌, ◌≡◌, refl, subst, Bool, true, false, leb, none, some, List, [], ◌∷◌, ◌++◌, All,
  All-append, length, take, arith, Bool-cases, inl, inr,
}
use gearman_rs.Protocol.Packet.{Packet}
use gearman_rs.Worker.Job.{register_functions}
use gearman_rs.Worker.Grab.{GrabMode, Turn, connection_lost, shutting_down, panicked, run_grab_loop}
use gearman_rs.Worker.Connection.{
  first_delay, max_delay, Attempt, Phase, returned, aborted, reconnecting, in_session, Progress,
  doubled, go_on, back_off, after_session, session, on_connected, try_connection, unless_shut_down,
  worker_turn, reconnect_loop, run_worker_connection, with_queue, discard,
}

-- From 100 ms to 30 s.
abbrev pub InBounds : ℕ → Type 0
InBounds d = (first_delay ≤ d) × (d ≤ max_delay)

abbrev PhaseInBounds : Phase → Type 0
PhaseInBounds returned = Unit
PhaseInBounds aborted = Unit
PhaseInBounds (reconnecting backoff) = InBounds backoff
PhaseInBounds in_session = Unit

-- Every sleep was in bounds, and so is the backoff that is left.
pub record IsPatient (p : Progress) : Type 0 where
  pub slept : All InBounds p.delays
  pub next : PhaseInBounds p.phase

doubled-InBounds : (backoff : ℕ) → InBounds backoff → InBounds (doubled backoff)
doubled-InBounds backoff (low, high) = (ground arith, ground arith)

back_off-IsPatient :
    (interrupted : Bool) (backoff : ℕ) (sent : List Packet)
    → InBounds backoff
    → IsPatient (back_off interrupted backoff sent)
back_off-IsPatient true backoff sent h = record { slept = (h, tt); next = tt }
back_off-IsPatient false backoff sent h = record {
  slept = (h, tt);
  next = doubled-InBounds backoff h;
}

after_session-IsPatient :
    (interrupted : Bool) (registrations : List Packet) (t : Turn)
    → IsPatient (after_session interrupted registrations t)
after_session-IsPatient interrupted registrations (sent, none) = record { slept = tt; next = tt }
after_session-IsPatient interrupted registrations (sent, some shutting_down) = record {
  slept = tt;
  next = tt;
}
after_session-IsPatient interrupted registrations (sent, some panicked) = record {
  slept = tt;
  next = tt;
}
after_session-IsPatient interrupted registrations (sent, some connection_lost) =
    back_off-IsPatient interrupted first_delay (registrations ++ sent) (omega arith, omega arith)

module _ (mode : GrabMode) where
  on_connected-IsPatient :
      (backoff : ℕ) (a : Attempt) (registrations : List Packet)
      → InBounds backoff
      → IsPatient (on_connected mode backoff a registrations)
  on_connected-IsPatient backoff a registrations h =
      elim (Bool-cases (leb (length registrations) a.taken)) [
        | inl all_taken ↦ rw all_taken (
            after_session-IsPatient a.interrupted registrations
              (run_grab_loop mode (with_queue (discard a.queue) a.cycles)))
        | inr broken ↦
            rw broken (back_off-IsPatient a.interrupted backoff (take a.taken registrations) h)
      ]

  try_connection-IsPatient :
      (backoff : ℕ) (a : Attempt) (connected : Bool)
      → InBounds backoff
      → IsPatient (try_connection mode backoff a connected)
  try_connection-IsPatient backoff a false h = back_off-IsPatient a.interrupted backoff [] h
  try_connection-IsPatient backoff a true h =
      on_connected-IsPatient backoff a (register_functions a.registry) h

  unless_shut_down-IsPatient :
      (backoff : ℕ) (a : Attempt) (stop : Bool)
      → InBounds backoff
      → IsPatient (unless_shut_down mode backoff a stop)
  unless_shut_down-IsPatient backoff a true h = record { slept = tt; next = tt }
  unless_shut_down-IsPatient backoff a false h = try_connection-IsPatient backoff a a.connected h

  go_on-IsPatient :
      (phase : Phase) (first : Progress) (later : ℕ → Progress)
      → first.phase ≡ phase
      → IsPatient first
      → ((backoff : ℕ) → InBounds backoff → IsPatient (later backoff))
      → IsPatient (go_on phase first later)
  go_on-IsPatient returned first later e h k = h
  go_on-IsPatient aborted first later e h k = h
  go_on-IsPatient in_session first later e h k = h
  go_on-IsPatient (reconnecting backoff) first later e h k =
      let rest = k backoff (subst PhaseInBounds e h.next) in
      record {
        slept = All-append InBounds first.delays (later backoff).delays h.slept rest.slept;
        next = rest.next;
      }

  reconnect_loop-IsPatient :
      (backoff : ℕ) (attempts : List Attempt)
      → InBounds backoff
      → IsPatient (reconnect_loop mode backoff attempts)
  unfolding reconnect_loop worker_turn
  reconnect_loop-IsPatient backoff [] h = record { slept = tt; next = h }
  reconnect_loop-IsPatient backoff (a ∷ attempts) h =
      go_on-IsPatient (worker_turn mode backoff a).phase (worker_turn mode backoff a)
        (λ next. reconnect_loop mode next attempts) refl
        (unless_shut_down-IsPatient backoff a a.stop h)
        (λ next in_bounds. reconnect_loop-IsPatient next attempts in_bounds)

  -- Whatever a worker's connection meets, each sleep before it connects again lasts from 100
  -- ms to 30 s, and so would the next.
  pub run_worker_connection-IsPatient :
      (attempts : List Attempt) → IsPatient (run_worker_connection mode attempts)
  unfolding run_worker_connection
  run_worker_connection-IsPatient attempts =
      reconnect_loop-IsPatient first_delay attempts (omega arith, omega arith)

-- An attempt whose connection takes all registrations.
pub record Registers (a : Attempt) : Type 0 where
  pub stop : a.stop ≡ false
  pub connected : a.connected ≡ true
  pub taken : leb (length (register_functions a.registry)) a.taken ≡ true

-- theorem
pub worker_turn-reset :
    (mode : GrabMode) (backoff : ℕ) (a : Attempt)
    → Registers a
    → worker_turn mode backoff a ≡ session mode a (register_functions a.registry)
unfolding worker_turn
worker_turn-reset mode backoff a h = rw (h.stop, h.connected, h.taken) refl
