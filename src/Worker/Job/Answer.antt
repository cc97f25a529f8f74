-- ===== src/Worker/Job/Answer.antt =====
-- What a worker answers to a job that it is assigned, and what a client makes of it.
use gearman_rs.Base.{
  ℕ, suc, ◌≡◌, refl, Bool, true, false, Option, none, some, List, [], ◌∷◌, length, Bytes,
}
use gearman_rs.Error.{Result, ok, err}
use gearman_rs.Protocol.Command.{arg_count}
use gearman_rs.Protocol.Packet.{Packet, arg, response}
use gearman_rs.Client.Job.{JobEvent}
use gearman_rs.Client.Incoming.{is_terminal, work_event}
use gearman_rs.Worker.Job.{
  WorkError, WorkResult, done, failed, Report, report_status, send_data, warn, WorkerJob,
  JobHandler, Handling, returns, panics, reports, Sends, Dispatched, send_packet, and_sent,
  run_handler, Registry, handler_for, report_packet, result_packet, assigned, run_job, dispatch_job,
}

-- A packet about a job, with as many arguments as its type wants; it ends the job or does not.
abbrev pub IsAbout : Bytes → Bool → Packet → Type 0
IsAbout handle final p =
    (arg p 0 ≡ some handle) × (length p.args ≡ arg_count p.ptype) × (is_terminal p.ptype ≡ final)

-- Packets about the job that do not end it, and then at most one that does.
pub data IsPartial (handle : Bytes) : List Packet → Type 0 where
  cut : IsPartial handle []
  ended : (p : Packet) → IsAbout handle true p → IsPartial handle (p ∷ [])
  told :
      (p : Packet) {later : List Packet}
      → IsAbout handle false p
      → IsPartial handle later
      → IsPartial handle (p ∷ later)

pub report-IsAbout : (handle : Bytes) (r : Report) → IsAbout handle false (report_packet handle r)
unfolding arg_count
report-IsAbout handle (report_status n d) = (refl, refl, refl)
report-IsAbout handle (send_data payload) = (refl, refl, refl)
report-IsAbout handle (warn payload) = (refl, refl, refl)

pub result-IsAbout :
    (handle : Bytes) (r : WorkResult) → IsAbout handle true (result_packet handle r)
unfolding arg_count
result-IsAbout handle (done payload) = (refl, refl, refl)
result-IsAbout handle (failed WorkError.fail) = (refl, refl, refl)
result-IsAbout handle (failed (WorkError.exception payload)) = (refl, refl, refl)

and_sent-told :
    (handle : Bytes) (outcome : Result (Unit {0})) (p : Packet) (later : Dispatched)
    → IsAbout handle false p
    → IsPartial handle later.0
    → IsPartial handle (and_sent outcome p later).0
and_sent-told handle (ok u) p (later, back) h k = told p h k
and_sent-told handle (err e) p (later, back) h k = k

and_sent-ended :
    (handle : Bytes) (outcome : Result (Unit {0})) (p : Packet)
    → IsAbout handle true p
    → IsPartial handle (and_sent outcome p ([], true)).0
and_sent-ended handle (ok u) p h = ended p h
and_sent-ended handle (err e) p h = cut

run_handler-IsPartial :
    (sends : Sends) (handle : Bytes) (n : ℕ) (h : Handling)
    → IsPartial handle (run_handler sends handle n h).0
unfolding run_handler
run_handler-IsPartial sends handle n (returns result) =
    let p = result_packet handle result in
    and_sent-ended handle (send_packet (sends n) p) p (result-IsAbout handle result)
run_handler-IsPartial sends handle n panics = cut
run_handler-IsPartial sends handle n (reports report next) =
    let p = report_packet handle report in
    let outcome = send_packet (sends n) p in
    and_sent-told handle outcome p (run_handler sends handle (suc n) (next outcome))
      (report-IsAbout handle report) (run_handler-IsPartial sends handle (suc n) (next outcome))

run_job-IsPartial :
    (sends : Sends) (job : WorkerJob) (h : Option JobHandler)
    → IsPartial job.handle (run_job sends job h).0
run_job-IsPartial sends job none =
    let p = result_packet job.handle (failed WorkError.fail) in
    and_sent-ended job.handle (send_packet (sends 0) p) p
      (result-IsAbout job.handle (failed WorkError.fail))
run_job-IsPartial sends job (some handler) = run_handler-IsPartial sends job.handle 0 (handler job)

-- Whichever sends fail, `dispatch_job` sends packets about the assigned job that do not end it, and
-- then at most one that does; each has the job's handle first and as many arguments as its type
-- wants.
pub dispatch_job-IsPartial :
    (sends : Sends) (registry : Registry) (pkt : Packet)
    → IsPartial (assigned pkt.ptype pkt).handle (dispatch_job sends registry pkt).0
unfolding dispatch_job
dispatch_job-IsPartial sends registry pkt =
    let job = assigned pkt.ptype pkt in
    run_job-IsPartial sends job (handler_for job.function registry)

-- The event that a client is meant to see of a result.
abbrev pub event_of : WorkResult → JobEvent
event_of (done payload) = JobEvent.complete payload
event_of (failed WorkError.fail) = JobEvent.fail
event_of (failed (WorkError.exception payload)) = JobEvent.exception payload

-- The packet of a handler's result, sent on to a client with the same type and arguments, is
-- the event of that result there, and it ends the job.
pub result_packet-work_event :
    (handle : Bytes) (r : WorkResult)
    → let p = result_packet handle r in
      (work_event p.ptype (response p.ptype p.args) ≡ some (event_of r))
      × (is_terminal p.ptype ≡ true)
result_packet-work_event handle (done payload) = (refl, refl)
result_packet-work_event handle (failed WorkError.fail) = (refl, refl)
result_packet-work_event handle (failed (WorkError.exception payload)) = (refl, refl)
