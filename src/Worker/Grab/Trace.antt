-- ===== src/Worker/Grab/Trace.antt =====
-- The order in which a worker sends: functions are withdrawn before a grab, and what a grab brings
-- is answered before the next one.
use mathlib.Core.List.{append_assoc, append-nil}
use gearman_rs.Base.{
  ◌≡◌, refl, sym, subst, Bool, true, false, Option, none, some, List, [], ◌∷◌, ◌++◌, All, Bytes,
}
use gearman_rs.Error.{Result, ok, err}
use gearman_rs.Protocol.PacketType.{
  PacketType, cant_do, pre_sleep, no_job, job_assign, job_assign_uniq, job_assign_all,
}
use gearman_rs.Protocol.Packet.{Packet, request}
use gearman_rs.Worker.Job.{Registry, Sends, Dispatched, dispatch_job}
use gearman_rs.Worker.Job.Answer.{IsPartial, dispatch_job-IsPartial}
use gearman_rs.Worker.Grab.{
  GrabMode, Notice, unregistered, lagged, Wake, Cycle, grab_type, flush_unregistrations, Turn,
  go_to_sleep, after_dispatch, on_reply, on_received, before, after_flush, unless_stopped,
  grab_turn, continue_with, run_grab_loop,
}

-- What follows a grab: nothing, packets about a job, or the word that the worker sleeps.
pub data Follows : List Packet → Type 0 where
  silence : Follows []
  answers : (handle : Bytes) (sent : List Packet) → IsPartial handle sent → Follows sent
  sleeps : Follows (request pre_sleep [] ∷ [])

-- Rounds of withdrawals, a grab and what follows it; a last round may break off before its grab.
pub data IsTrace (mode : GrabMode) : List Packet → Type 0 where
  stop : (withdrawn : List Packet) → All (λ p. p.ptype ≡ cant_do) withdrawn → IsTrace mode withdrawn
  round :
      (withdrawn sent later : List Packet)
      → All (λ p. p.ptype ≡ cant_do) withdrawn
      → Follows sent
      → IsTrace mode later
      → IsTrace mode (withdrawn ++ request (grab_type mode) [] ∷ (sent ++ later))

flush-withdraws :
    (notices : List Notice) → All (λ p. p.ptype ≡ cant_do) (flush_unregistrations notices).0
unfolding flush_unregistrations
flush-withdraws [] = tt
flush-withdraws (lagged ∷ notices) = flush-withdraws notices
flush-withdraws (unregistered name true ∷ notices) = (refl, flush-withdraws notices)
flush-withdraws (unregistered name false ∷ notices) = tt

go_to_sleep-Follows : (b : Bool) (wake : Wake) → Follows (go_to_sleep b wake).0
go_to_sleep-Follows true wake = sleeps
go_to_sleep-Follows false wake = silence

after_dispatch-Follows :
    (handle : Bytes) (d : Dispatched) → IsPartial handle d.0 → Follows (after_dispatch d).0
after_dispatch-Follows handle (sent, true) h = answers handle sent h
after_dispatch-Follows handle (sent, false) h = answers handle sent h

dispatch-Follows :
    (sends : Sends) (registry : Registry) (pkt : Packet)
    → Follows (after_dispatch (dispatch_job sends registry pkt)).0
dispatch-Follows sends registry pkt =
    after_dispatch-Follows _ _ (dispatch_job-IsPartial sends registry pkt)

on_reply-Follows :
    (registry : Registry) (c : Cycle) (t : PacketType) (pkt : Packet)
    → Follows (on_reply registry c t pkt).0
unfolding on_reply
on_reply-Follows registry c job_assign pkt = dispatch-Follows c.sends registry pkt
on_reply-Follows registry c job_assign_uniq pkt = dispatch-Follows c.sends registry pkt
on_reply-Follows registry c job_assign_all pkt = dispatch-Follows c.sends registry pkt
on_reply-Follows registry c no_job pkt = go_to_sleep-Follows c.sleep_sent c.wake
on_reply-Follows registry c _ pkt = silence

on_received-Follows :
    (registry : Registry) (c : Cycle) (r : Result (Option Packet))
    → Follows (on_received registry c r).0
on_received-Follows registry c (ok (some pkt)) = on_reply-Follows registry c pkt.ptype pkt
on_received-Follows registry c (ok none) = silence
on_received-Follows registry c (err e) = silence

module _ (mode : GrabMode) where
  round_of :
      (withdrawn : List Packet) (t later : Turn)
      → All (λ p. p.ptype ≡ cant_do) withdrawn
      → Follows t.0
      → IsTrace mode later.0
      → IsTrace mode
          (continue_with (before withdrawn (before (request (grab_type mode) [] ∷ []) t)) later).0
  round_of withdrawn (sent, some outcome) (more, last) w f i =
      subst (λ s. IsTrace mode (withdrawn ++ request (grab_type mode) [] ∷ s)) (append-nil sent)
        (round withdrawn sent [] w f (stop [] tt))
  round_of withdrawn (sent, none) (more, last) w f i =
      subst (IsTrace mode) (sym (append_assoc withdrawn (request (grab_type mode) [] ∷ sent) more))
        (round withdrawn sent more w f i)

  flushed-IsTrace :
      (registry : Registry) (c : Cycle) (flushed : List Packet × Bool) (grab_sent : Bool)
      (later : Turn)
      → All (λ p. p.ptype ≡ cant_do) flushed.0
      → c.grab_sent ≡ grab_sent
      → IsTrace mode later.0
      → IsTrace mode (continue_with (after_flush registry mode c flushed) later).0
  unfolding on_reply
  flushed-IsTrace registry c (sent, false) g later w e i = stop sent w
  flushed-IsTrace registry c (sent, true) false later w e i =
      rw e (subst (IsTrace mode) (sym (append-nil sent)) (stop sent w))
  flushed-IsTrace registry c (sent, true) true later w e i = rw e (
      round_of sent (on_received registry c c.reply) later w
        (on_received-Follows registry c c.reply) i)

  turn-IsTrace :
      (registry : Registry) (c : Cycle) (told : Bool) (later : Turn)
      → IsTrace mode later.0
      → IsTrace mode (continue_with (unless_stopped registry mode c told) later).0
  turn-IsTrace registry c true later i = stop [] tt
  turn-IsTrace registry c false later i =
      flushed-IsTrace registry c (flush_unregistrations c.notices) c.grab_sent later
        (flush-withdraws c.notices) refl i

  -- Whatever the grab loop meets, failed sends and panics of handlers included, what its task
  -- itself sends is a sequence of rounds: CANT_DO packets, then one grab of its mode, then
  -- nothing, PRE_SLEEP, or packets about one job that do not end it and then at most one that
  -- does; after the rounds, CANT_DO packets may break off before a grab.
  pub run_grab_loop-IsTrace :
      (cycles : List (Registry × Cycle)) → IsTrace mode (run_grab_loop mode cycles).0
  unfolding run_grab_loop grab_turn
  run_grab_loop-IsTrace [] = stop [] tt
  run_grab_loop-IsTrace ((registry, c) ∷ cycles) =
      turn-IsTrace registry c c.stop (run_grab_loop mode cycles) (run_grab_loop-IsTrace cycles)
