-- ===== src/Worker/Connection/Shutdown.antt =====
-- A worker's connection ends after shutdown, by src/worker/mod.rs.
use mathlib.Core.List.{append_assoc}
use gearman_rs.Base.{
  ◌≡◌, refl, ap, ◌∙◌, ◌⊎◌, inl, inr, Bool, true, false, leb, none, some, List, [], ◌∷◌, ◌++◌,
  length, ℕ, Bool-cases,
}
use gearman_rs.Error.{ok}
use gearman_rs.Protocol.PacketType.{no_job}
use gearman_rs.Protocol.Packet.{Packet}
use gearman_rs.Worker.Job.{Registry, register_functions}
use gearman_rs.Worker.Grab.{
  GrabMode, LoopOutcome, connection_lost, shutting_down, panicked, Cycle, told_to_stop,
  flush_unregistrations, Turn, on_reply, on_received, after_flush, grab_turn, continue_with,
  run_grab_loop,
}
use gearman_rs.Worker.Connection.{
  first_delay, Attempt, Phase, returned, aborted, reconnecting, in_session, Progress, go_on,
  after_session, try_connection, unless_shut_down, worker_turn, then_run, reconnect_loop,
  run_worker_connection, with_queue, discard,
}

-- A turn of the grab loop whose sends succeed and that is told there is no job.
pub record Sleeps (c : Cycle) : Type 0 where
  pub stop : c.stop ≡ false
  pub flushed : (flush_unregistrations c.notices).1 ≡ true
  pub grab_sent : c.grab_sent ≡ true
  pub packet : Packet
  pub reply : c.reply ≡ ok (some packet)
  pub is_no_job : packet.ptype ≡ no_job
  pub sleep_sent : c.sleep_sent ≡ true

-- A turn of the grab loop that sees the flag, or that shutdown wakes up.
abbrev pub IsTold : Cycle → Type 0
IsTold c = (c.stop ≡ true) ⊎ (Sleeps c × (c.wake ≡ told_to_stop))

-- What the grab loop of an attempt meets.
abbrev pub cycles_of : Attempt → List (Registry × Cycle)
cycles_of a = with_queue (discard a.queue) a.cycles

-- Shutdown is signalled before the turn, during its backoff (there was no connection, the
-- registrations failed, or the connection was lost), or while its grab loop runs.
pub data MeetsShutdown (mode : GrabMode) (a : Attempt) : Type 0 where
  at_top : a.stop ≡ true → MeetsShutdown mode a
  in_backoff :
      a.interrupted ≡ true
      → (a.connected ≡ false)
        ⊎ ((leb (length (register_functions a.registry)) a.taken ≡ false)
            ⊎ ((run_grab_loop mode (cycles_of a)).1 ≡ some connection_lost))
      → MeetsShutdown mode a
  in_grab_loop :
      a.connected ≡ true
      → leb (length (register_functions a.registry)) a.taken ≡ true
      → (earlier : List (Registry × Cycle)) (registry : Registry) (c : Cycle)
        (later : List (Registry × Cycle))
      → cycles_of a ≡ earlier ++ (registry, c) ∷ later
      → (run_grab_loop mode earlier).1 ≡ none
      → IsTold c
      → MeetsShutdown mode a

abbrev delay_of : Phase → ℕ
delay_of (reconnecting backoff) = backoff
delay_of _ = 0

module _ (mode : GrabMode) where
  on_received_asleep :
      (registry : Registry) (c : Cycle)
      → Sleeps c
      → c.wake ≡ told_to_stop
      → (on_received registry c c.reply).1 ≡ some shutting_down
  unfolding on_reply
  on_received_asleep registry c s w = rw (s.reply, s.is_no_job, s.sleep_sent, w) refl

  after_flush_asleep :
      (registry : Registry) (c : Cycle) (flushed : List Packet × Bool)
      → flushed.1 ≡ true
      → Sleeps c
      → c.wake ≡ told_to_stop
      → (after_flush registry mode c flushed).1 ≡ some shutting_down
  unfolding on_reply
  after_flush_asleep registry c (sent, true) f s w =
      rw s.grab_sent (on_received_asleep registry c s w)
  after_flush_asleep registry c (sent, false) f s w = cc

  grab_turn_told :
      (registry : Registry) (c : Cycle)
      → IsTold c
      → (grab_turn registry mode c).1 ≡ some shutting_down
  unfolding grab_turn on_reply
  grab_turn_told registry c (inl stop) = rw stop refl
  grab_turn_told registry c (inr (s, w)) =
      rw s.stop (after_flush_asleep registry c (flush_unregistrations c.notices) s.flushed s w)

  continue_with-none :
      (t later : Turn) → (continue_with t later).1 ≡ none → (t.1 ≡ none) × (later.1 ≡ none)
  continue_with-none (sent, some outcome) (more, last) e = cc
  continue_with-none (sent, none) (more, last) e = (refl, e)

  continue_with_last : (t later : Turn) → t.1 ≡ none → (continue_with t later).1 ≡ later.1
  continue_with_last (sent, some outcome) (more, last) e = cc
  continue_with_last (sent, none) (more, last) e = refl

  continue_with_first :
      (t later : Turn) (outcome : LoopOutcome)
      → t.1 ≡ some outcome
      → (continue_with t later).1 ≡ some outcome
  continue_with_first (sent, some outcome) (more, last) o e = e
  continue_with_first (sent, none) (more, last) o e = cc

  run_grab_loop_told :
      (earlier : List (Registry × Cycle)) (registry : Registry) (c : Cycle)
      (later : List (Registry × Cycle))
      → (run_grab_loop mode earlier).1 ≡ none
      → IsTold c
      → (run_grab_loop mode (earlier ++ (registry, c) ∷ later)).1 ≡ some shutting_down
  unfolding run_grab_loop
  run_grab_loop_told [] registry c later e told =
      continue_with_first (grab_turn registry mode c) (run_grab_loop mode later) shutting_down
        (grab_turn_told registry c told)
  run_grab_loop_told ((r, d) ∷ earlier) registry c later e told =
      let (first, rest) = continue_with-none (grab_turn r mode d) (run_grab_loop mode earlier) e in
      continue_with_last (grab_turn r mode d)
        (run_grab_loop mode (earlier ++ (registry, c) ∷ later)) first
      ∙ run_grab_loop_told earlier registry c later rest told

  after_session_told :
      (interrupted : Bool) (registrations : List Packet) (t : Turn)
      → t.1 ≡ some shutting_down
      → (after_session interrupted registrations t).phase ≡ returned
  after_session_told interrupted registrations (sent, none) e = cc
  after_session_told interrupted registrations (sent, some shutting_down) e = refl
  after_session_told interrupted registrations (sent, some panicked) e = cc
  after_session_told interrupted registrations (sent, some connection_lost) e = cc

  after_session_lost :
      (registrations : List Packet) (t : Turn)
      → t.1 ≡ some connection_lost
      → (after_session true registrations t).phase ≡ returned
  after_session_lost registrations (sent, none) e = cc
  after_session_lost registrations (sent, some shutting_down) e = cc
  after_session_lost registrations (sent, some panicked) e = cc
  after_session_lost registrations (sent, some connection_lost) e = refl

  -- The three ways to a backoff.
  try_connection_interrupted :
      (backoff : ℕ) (a : Attempt)
      → a.interrupted ≡ true
      → (a.connected ≡ false)
        ⊎ ((leb (length (register_functions a.registry)) a.taken ≡ false)
            ⊎ ((run_grab_loop mode (cycles_of a)).1 ≡ some connection_lost))
      → (try_connection mode backoff a a.connected).phase ≡ returned
  try_connection_interrupted backoff a i (inl refused) = rw (refused, i) refl
  try_connection_interrupted backoff a i (inr (inl cut)) = elim (Bool-cases a.connected) [
    | inl up ↦ rw (up, cut, i) refl
    | inr down ↦ rw (down, i) refl
  ]
  try_connection_interrupted backoff a i (inr (inr lost)) = elim (Bool-cases a.connected) [
    | inr down ↦ rw (down, i) refl
    | inl up ↦ rw up (elim (Bool-cases (leb (length (register_functions a.registry)) a.taken)) [
      | inr cut ↦ rw (cut, i) refl
      | inl taken ↦
          rw (taken, i)
            (after_session_lost (register_functions a.registry) (run_grab_loop mode (cycles_of a))
              lost)
    ])
  ]

  unless_shut_down-returned :
      (backoff : ℕ) (a : Attempt) (stop : Bool)
      → (try_connection mode backoff a a.connected).phase ≡ returned
      → (unless_shut_down mode backoff a stop).phase ≡ returned
  unless_shut_down-returned backoff a true e = refl
  unless_shut_down-returned backoff a false e = e

  worker_turn-returned :
      (backoff : ℕ) (a : Attempt)
      → MeetsShutdown mode a
      → (worker_turn mode backoff a).phase ≡ returned
  unfolding worker_turn
  worker_turn-returned backoff a (at_top stop) = rw stop refl
  worker_turn-returned backoff a (in_backoff i why) =
      unless_shut_down-returned backoff a a.stop (try_connection_interrupted backoff a i why)
  worker_turn-returned backoff a (in_grab_loop up taken earlier registry c later split e told) =
      unless_shut_down-returned backoff a a.stop (
        rw (up, taken)
          (after_session_told a.interrupted (register_functions a.registry)
            (run_grab_loop mode (cycles_of a))
            (ap (λ cs. (run_grab_loop mode cs).1) split
              ∙ run_grab_loop_told earlier registry c later e told)))

  then_run_assoc : (p q r : Progress) → then_run p (then_run q r) ≡ then_run (then_run p q) r
  then_run_assoc p q r =
      rw (append_assoc p.sent q.sent r.sent, append_assoc p.delays q.delays r.delays) refl

  go_on_then :
      (phase : Phase) (first last : Progress) (f g : ℕ → Progress) (next : ℕ)
      → first.phase ≡ phase
      → (go_on phase first f).phase ≡ reconnecting next
      → ((n : ℕ) → (f n).phase ≡ reconnecting next → g n ≡ then_run (f n) last)
      → go_on phase first g ≡ then_run (go_on phase first f) last
  go_on_then returned first last f g next e reached k = cc
  go_on_then aborted first last f g next e reached k = cc
  go_on_then in_session first last f g next e reached k = cc
  go_on_then (reconnecting n) first last f g next e reached k =
      ap (then_run first) (k n reached) ∙ then_run_assoc first (f n) last

  reconnect_loop-stops :
      (backoff next : ℕ) (earlier : List Attempt) (a : Attempt) (later : List Attempt)
      → (reconnect_loop mode backoff earlier).phase ≡ reconnecting next
      → MeetsShutdown mode a
      → reconnect_loop mode backoff (earlier ++ a ∷ later)
        ≡ then_run (reconnect_loop mode backoff earlier) (worker_turn mode next a)
  unfolding reconnect_loop
  reconnect_loop-stops backoff next [] a later reached met =
      ap (λ phase. go_on phase (worker_turn mode backoff a) (λ n. reconnect_loop mode n later))
        (worker_turn-returned backoff a met)
      ∙ ap (λ phase. worker_turn mode (delay_of phase) a) reached
  reconnect_loop-stops backoff next (b ∷ earlier) a later reached met =
      go_on_then (worker_turn mode backoff b).phase (worker_turn mode backoff b)
        (worker_turn mode next a) (λ n. reconnect_loop mode n earlier)
        (λ n. reconnect_loop mode n (earlier ++ a ∷ later)) next refl reached
        (λ n reached. reconnect_loop-stops n next earlier a later reached met)

  -- If a worker's task comes to a turn with some backoff, and meets the shutdown there (it is
  -- signalled before the turn, during the turn's backoff after no connection, failed
  -- registrations or a lost connection, or while its grab loop runs, which sees it at its next
  -- turn or when it is asleep), then the task returns in that turn, and no later turn is met.
  pub run_worker_connection-returned :
      (earlier : List Attempt) (next : ℕ) (a : Attempt) (later : List Attempt)
      → (run_worker_connection mode earlier).phase ≡ reconnecting next
      → MeetsShutdown mode a
      → ((run_worker_connection mode (earlier ++ a ∷ later)).phase ≡ returned)
        × (run_worker_connection mode (earlier ++ a ∷ later)
            ≡ then_run (run_worker_connection mode earlier) (worker_turn mode next a))
  unfolding run_worker_connection
  run_worker_connection-returned earlier next a later reached met =
      let stops = reconnect_loop-stops first_delay next earlier a later reached met in
      (ap (λ p. p.phase) stops ∙ worker_turn-returned next a met, stops)
