-- ===== src/Worker/Grab.antt =====
-- src/worker/mod.rs: `GrabMode`, `LoopOutcome`, `flush_unregistrations` and `run_grab_loop`. A
-- `Cycle` is what one turn of the loop meets: the shutdown flag, the queue of unregistrations,
-- which sends succeed, what is received, and the sends that follow a job. What is sent is a list of packets.
pub mod Trace
pub mod Late
use gearman_rs.Base.{ℕ, Bool, true, false, Option, none, some, List, [], ◌∷◌, ◌++◌, Bytes}
use gearman_rs.Error.{Result, ok, err, GearmanError}
use gearman_rs.Protocol.PacketType.{
  PacketType, grab_job, grab_job_uniq, grab_job_all, pre_sleep, no_job, job_assign, job_assign_uniq,
  job_assign_all,
}
use gearman_rs.Protocol.Packet.{Packet, request}
use gearman_rs.Worker.Job.{Registry, Sends, Dispatched, dispatch_job, unregistration}

pub data GrabMode : Type 0 where
  uniq plain all : GrabMode

-- The last is none of the code's: a handler panicked, and the task is over without an outcome.
pub data LoopOutcome : Type 0 where
  connection_lost shutting_down panicked : LoopOutcome

-- What `try_recv` gives: a function, with whether its send succeeds, or a lag.
pub data Notice : Type 0 where
  unregistered : Bytes → Bool → Notice
  lagged : Notice

-- How the sleep ends.
pub data Wake : Type 0 where
  woken : Result (Option Packet) → Wake
  told_to_stop : Wake

pub record Cycle : Type 0 where
  pub stop : Bool
  pub notices : List Notice
  pub grab_sent : Bool
  pub reply : Result (Option Packet)
  pub sleep_sent : Bool
  pub wake : Wake
  pub sends : Sends

abbrev pub grab_type : GrabMode → PacketType
grab_type uniq = grab_job_uniq
grab_type plain = grab_job
grab_type all = grab_job_all

abbrev pub push_packet : Packet → List Packet × Bool → List Packet × Bool
push_packet p (sent, alive) = (p ∷ sent, alive)

-- What is sent, and whether the connection is still there. A send that fails is the last one.
unfoldable pub flush_unregistrations : List Notice → List Packet × Bool
flush_unregistrations [] = ([], true)
flush_unregistrations (lagged ∷ notices) = flush_unregistrations notices
flush_unregistrations (unregistered name true ∷ notices) =
    push_packet (unregistration name) (flush_unregistrations notices)
flush_unregistrations (unregistered name false ∷ notices) = ([], false)

-- What is sent in a turn, and the outcome where the loop returns.
abbrev pub Turn : Type 0
Turn = List Packet × Option LoopOutcome

-- The `select!` of the sleep: any packet goes on with the loop.
abbrev pub after_sleep : Wake → Option LoopOutcome
after_sleep (woken (ok (some pkt))) = none
after_sleep (woken (ok none)) = some connection_lost
after_sleep (woken (err e)) = some connection_lost
after_sleep told_to_stop = some shutting_down

abbrev pub go_to_sleep : Bool → Wake → Turn
go_to_sleep true wake = (request pre_sleep [] ∷ [], after_sleep wake)
go_to_sleep false wake = ([], some connection_lost)

-- The loop goes on after a job, unless its handler panicked.
abbrev pub after_dispatch : Dispatched → Turn
after_dispatch (sent, true) = (sent, none)
after_dispatch (sent, false) = (sent, some panicked)

-- The `match` on the reply to a grab.
unfoldable pub on_reply : Registry → Cycle → PacketType → Packet → Turn
on_reply registry c job_assign pkt = after_dispatch (dispatch_job c.sends registry pkt)
on_reply registry c job_assign_uniq pkt = after_dispatch (dispatch_job c.sends registry pkt)
on_reply registry c job_assign_all pkt = after_dispatch (dispatch_job c.sends registry pkt)
on_reply registry c no_job pkt = go_to_sleep c.sleep_sent c.wake
on_reply registry c _ pkt = ([], none)

abbrev pub on_received : Registry → Cycle → Result (Option Packet) → Turn
on_received registry c (ok (some pkt)) = on_reply registry c pkt.ptype pkt
on_received registry c (ok none) = ([], some connection_lost)
on_received registry c (err e) = ([], some connection_lost)

abbrev pub before : List Packet → Turn → Turn
before sent (more, outcome) = (sent ++ more, outcome)

abbrev pub grab : Registry → GrabMode → Cycle → Bool → Turn
grab registry mode c true =
    before (request (grab_type mode) [] ∷ []) (on_received registry c c.reply)
grab registry mode c false = ([], some connection_lost)

abbrev pub after_flush : Registry → GrabMode → Cycle → List Packet × Bool → Turn
after_flush registry mode c (sent, true) = before sent (grab registry mode c c.grab_sent)
after_flush registry mode c (sent, false) = (sent, some connection_lost)

abbrev pub unless_stopped : Registry → GrabMode → Cycle → Bool → Turn
unless_stopped registry mode c true = ([], some shutting_down)
unless_stopped registry mode c false = after_flush registry mode c (flush_unregistrations c.notices)

-- One turn of the loop; other tasks may change the registry between turns.
unfoldable pub grab_turn : Registry → GrabMode → Cycle → Turn
grab_turn registry mode c = unless_stopped registry mode c c.stop

abbrev pub continue_with : Turn → Turn → Turn
continue_with (sent, some outcome) later = (sent, some outcome)
continue_with (sent, none) (more, outcome) = (sent ++ more, outcome)

-- The loop; `none` while it runs.
unfoldable pub run_grab_loop : GrabMode → List (Registry × Cycle) → Turn
run_grab_loop mode [] = ([], none)
run_grab_loop mode ((registry, c) ∷ cycles) =
    continue_with (grab_turn registry mode c) (run_grab_loop mode cycles)
