-- ===== src/Worker/Connection/Sessions.antt =====
-- What a worker sends over all of its connections, by src/worker/mod.rs.
use mathlib.Core.List.{append-nil}
use gearman_rs.Base.{
  ℕ, subst, Bool, true, false, leb, none, some, List, map, [], ◌∷◌, ◌++◌, length, take, Bool-cases,
  inl, inr,
}
use gearman_rs.Protocol.Packet.{Packet}
use gearman_rs.Worker.Job.{Registry, register_functions}
use gearman_rs.Worker.Grab.{GrabMode, Turn, connection_lost, shutting_down, panicked, run_grab_loop}
use gearman_rs.Worker.Grab.Trace.{IsTrace, run_grab_loop-IsTrace}
use gearman_rs.Worker.Connection.{
  first_delay, Attempt, Phase, returned, aborted, reconnecting, in_session, Progress, go_on,
  after_session, on_connected, try_connection, unless_shut_down, worker_turn, reconnect_loop,
  run_worker_connection, with_queue, discard,
}

-- The turns in a row, with the registry that each found: what was sent of its registrations when
-- the connection broke off there, or was never up; or all of them and then the rounds of the grab
-- loop. The last turns may not have been reached.
pub data IsLife (mode : GrabMode) : List Registry → List Packet → Type 0 where
  over : {registries : List Registry} → IsLife mode registries []
  broken :
      (registry : Registry) (n : ℕ) {registries : List Registry} {later : List Packet}
      → IsLife mode registries later
      → IsLife mode (registry ∷ registries) (take n (register_functions registry) ++ later)
  served :
      (registry : Registry) {registries : List Registry} {rounds later : List Packet}
      → IsTrace mode rounds
      → IsLife mode registries later
      → IsLife mode (registry ∷ registries) ((register_functions registry ++ rounds) ++ later)

-- What a turn that found the registry sends can stand in front of a life.
abbrev Leads : GrabMode → Registry → List Packet → Type 0
Leads mode registry sent =
    (registries : List Registry) (later : List Packet)
    → IsLife mode registries later
    → IsLife mode (registry ∷ registries) (sent ++ later)

abbrev pub registry_of : Attempt → Registry
registry_of a = a.registry

module _ (mode : GrabMode) where
  after_session-Leads :
      (interrupted : Bool) (registry : Registry) (t : Turn)
      → IsTrace mode t.0
      → Leads mode registry (after_session interrupted (register_functions registry) t).sent
  after_session-Leads interrupted registry (sent, none) h registries later k = served registry h k
  after_session-Leads interrupted registry (sent, some shutting_down) h registries later k =
      served registry h k
  after_session-Leads interrupted registry (sent, some panicked) h registries later k =
      served registry h k
  after_session-Leads interrupted registry (sent, some connection_lost) h registries later k =
      served registry h k

  on_connected-Leads :
      (backoff : ℕ) (a : Attempt)
      → Leads mode a.registry (on_connected mode backoff a (register_functions a.registry)).sent
  on_connected-Leads backoff a registries later k =
      elim (Bool-cases (leb (length (register_functions a.registry)) a.taken)) [
        | inl all_taken ↦ rw all_taken (
            after_session-Leads a.interrupted a.registry
              (run_grab_loop mode (with_queue (discard a.queue) a.cycles))
              (run_grab_loop-IsTrace mode (with_queue (discard a.queue) a.cycles)) registries later
              k)
        | inr cut ↦ rw cut (broken a.registry a.taken k)
      ]

  try_connection-Leads :
      (backoff : ℕ) (a : Attempt) (connected : Bool)
      → Leads mode a.registry (try_connection mode backoff a connected).sent
  try_connection-Leads backoff a false registries later k = broken a.registry 0 k
  try_connection-Leads backoff a true registries later k =
      on_connected-Leads backoff a registries later k

  unless_shut_down-Leads :
      (backoff : ℕ) (a : Attempt) (stop : Bool)
      → Leads mode a.registry (unless_shut_down mode backoff a stop).sent
  unless_shut_down-Leads backoff a true registries later k = broken a.registry 0 k
  unless_shut_down-Leads backoff a false registries later k =
      try_connection-Leads backoff a a.connected registries later k

  go_on-IsLife :
      (registry : Registry) (registries : List Registry) (phase : Phase) (first : Progress)
      (later : ℕ → Progress)
      → Leads mode registry first.sent
      → ((backoff : ℕ) → IsLife mode registries (later backoff).sent)
      → IsLife mode (registry ∷ registries) (go_on phase first later).sent
  go_on-IsLife registry registries returned first later h k =
      subst (IsLife mode (registry ∷ registries)) (append-nil first.sent) (h registries [] over)
  go_on-IsLife registry registries aborted first later h k =
      subst (IsLife mode (registry ∷ registries)) (append-nil first.sent) (h registries [] over)
  go_on-IsLife registry registries in_session first later h k =
      subst (IsLife mode (registry ∷ registries)) (append-nil first.sent) (h registries [] over)
  go_on-IsLife registry registries (reconnecting backoff) first later h k =
      h registries (later backoff).sent (k backoff)

  reconnect_loop-IsLife :
      (backoff : ℕ) (attempts : List Attempt)
      → IsLife mode (map registry_of attempts) (reconnect_loop mode backoff attempts).sent
  unfolding reconnect_loop worker_turn
  reconnect_loop-IsLife backoff [] = over
  reconnect_loop-IsLife backoff (a ∷ attempts) =
      go_on-IsLife a.registry (map registry_of attempts) (worker_turn mode backoff a).phase
        (worker_turn mode backoff a) (λ next. reconnect_loop mode next attempts)
        (unless_shut_down-Leads backoff a a.stop) (λ next. reconnect_loop-IsLife next attempts)

  -- Whatever the turns of a worker's connection meet, all that its task itself sends is, turn
  -- by turn, a beginning of the registrations of the registry that the turn found, or all of
  -- them and then the rounds of the grab loop; it may end before the last turn.
  pub run_worker_connection-IsLife :
      (attempts : List Attempt)
      → IsLife mode (map registry_of attempts) (run_worker_connection mode attempts).sent
  unfolding run_worker_connection
  run_worker_connection-IsLife attempts = reconnect_loop-IsLife first_delay attempts
