-- ===== src/Worker/Tests.antt =====
-- The theorems on the worker at a concrete job.
mod Connections
use gearman_rs.Base.{
  ◌≡◌, refl, map, bytes_eq, arith, false, true, codes, List, [], ◌∷◌, Option, none, some, ℕ, ◌==◌,
  if◌then◌else◌, All, Lacks,
}
use gearman_rs.Base.Utf8.{from_utf8, is_utf8}
use gearman_rs.Error.{Result, ok, err, GearmanError}
use gearman_rs.Protocol.PacketType.{job_assign, work_fail, cant_do, grab_job}
use gearman_rs.Protocol.Packet.{Packet, request, response, arg_str}
use gearman_rs.Protocol.Codec.{new}
use gearman_rs.Protocol.Codec.Frames.{Decodes, frames}
use gearman_rs.Client.Incoming.{event_sent}
use gearman_rs.Client.Incoming.Matching.{handle_all}
use gearman_rs.Client.Submit.{wait_for_result}
use gearman_rs.Worker.Job.{
  WorkError, WorkResult, done, failed, Report, send_data, WorkerJob, Handling, returns, panics,
  reports, JobHandler, Registry, handler_for, assigned, Sends, dispatch_job,
}
use gearman_rs.Worker.Job.Sent.{IsSmall, transcript, packets_of}
use gearman_rs.Worker.Job.Served.{
  relayed, subscribed, events_of_run, outcome_for, dispatch_job-handle_all,
}
use gearman_rs.Worker.Job.Wire.{dispatch_job-Decodes}
use gearman_rs.Worker.Grab.{Cycle, unregistered, lagged, told_to_stop, plain, run_grab_loop}
use gearman_rs.Worker.Grab.Trace.{IsTrace, run_grab_loop-IsTrace}
use gearman_rs.Worker.Grab.Late.{LateReport}

-- A handler that fails the job when its report is not sent.
abbrev if_sent : WorkerJob → Result (Unit {0}) → Handling
if_sent job (ok u) = returns (done job.payload)
if_sent job (err e) = returns (failed WorkError.fail)

abbrev echo : JobHandler
echo job = reports (send_data (codes "half")) (if_sent job)

abbrev crash : JobHandler
crash job = reports (send_data (codes "half")) (λ r. panics)

abbrev all_up : Sends
all_up n = none

-- The connection fails the first send after a grab.
abbrev first_fails : Sends
first_fails n = if n == 0 then some (GearmanError.io (codes "reset")) else none

abbrev registry : Registry
registry = (codes "echo", record { handler = echo; timeout = none }) ∷ []

abbrev assignment : Packet
assignment = response job_assign (codes "H:1" ∷ codes "echo" ∷ codes "hello" ∷ [])

-- A turn that withdraws a function and runs a job, and one that is told to stop.
abbrev working : Cycle
working = record {
  stop = false;
  notices = unregistered (codes "old") true ∷ lagged ∷ [];
  grab_sent = true;
  reply = ok (some assignment);
  sleep_sent = true;
  wake = told_to_stop;
  sends = first_fails;
}

abbrev stopping : Cycle
stopping = record working { stop = true }

-- A handler that panics, with all else as before.
abbrev crashing : Registry
crashing = (codes "echo", record { handler = crash; timeout = none }) ∷ []

run_grab_loop-IsTrace_example :
    IsTrace plain
      (run_grab_loop plain
        ((registry, working) ∷ (crashing, working) ∷ (registry, stopping) ∷ [])).0
run_grab_loop-IsTrace_example =
    run_grab_loop-IsTrace plain
      ((registry, working) ∷ (crashing, working) ∷ (registry, stopping) ∷ [])

-- A task of an earlier job reports after the packet that ended a later one.
abbrev ended_job : List Packet
ended_job =
    request cant_do (codes "old" ∷ [])
    ∷ request grab_job []
    ∷ request work_fail (codes "H:1" ∷ [])
    ∷ []

abbrev late_report : LateReport
late_report = (codes "H:0", send_data (codes "more"))

-- The job of the assignment, from its worker to its client.
echo_handle : is_utf8 (assigned job_assign assignment).handle ≡ true
unfolding arg_str from_utf8 is_utf8
echo_handle = refl

echo_found : handler_for (assigned job_assign assignment).function registry ≡ some echo
unfolding handler_for arg_str from_utf8 is_utf8 bytes_eq
echo_found = refl

echo_script :
    transcript (echo (assigned job_assign assignment))
    ≡ (send_data (codes "half") ∷ [], some (done (codes "hello")))
unfolding transcript arg_str from_utf8 is_utf8
echo_script = refl

echo_packets-IsSmall : All (IsSmall new) (
    packets_of
      (assigned job_assign assignment).handle
      (send_data (codes "half") ∷ [], some (done (codes "hello"))))
unfolding arg_str from_utf8 is_utf8
echo_packets-IsSmall = (omega arith, (omega arith, tt))

dispatch_job-handle_all_example :
    (handle_all
        (map relayed (dispatch_job all_up registry assignment).0)
        (subscribed [] (assigned job_assign assignment).handle 5)
      ≡ (
        record { pending_replies = []; job_events = [] },
        map
            (λ e. event_sent (5, e))
            (events_of_run (send_data (codes "half") ∷ []) (done (codes "hello"))),
      ))
    × (wait_for_result
          (assigned job_assign assignment).handle
          (events_of_run (send_data (codes "half") ∷ []) (done (codes "hello")))
        ≡ outcome_for (assigned job_assign assignment).handle (done (codes "hello")))
dispatch_job-handle_all_example =
    dispatch_job-handle_all all_up registry assignment echo [] 5 (send_data (codes "half") ∷ [])
      (done (codes "hello")) (λ n. refl) echo_found echo_handle echo_script (tt, tt)
      echo_packets-IsSmall

-- Its packets on the wire.
handle_no_nul : Lacks 0 (assigned job_assign assignment).handle
unfolding arg_str from_utf8 is_utf8
handle_no_nul = ground arith

dispatch_job-Decodes_example :
    Decodes new
      (frames (dispatch_job first_fails registry assignment).0)
      (dispatch_job first_fails registry assignment).0
      []
    × Decodes new
        (frames (map relayed (dispatch_job first_fails registry assignment).0))
        (map relayed (dispatch_job first_fails registry assignment).0)
        []
dispatch_job-Decodes_example = dispatch_job-Decodes first_fails registry assignment handle_no_nul
