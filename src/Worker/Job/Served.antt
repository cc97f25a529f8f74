-- ===== src/Worker/Job/Served.antt =====
-- A job from the worker to the client: what `dispatch_job` of src/worker/mod.rs sends, relayed by the
-- server as responses, through `handle_incoming` of src/client/mod.rs to the job's subscriber.
use gearman_rs.Base.{
  ap, sym, subst, ◌∙◌, ℕ, ◌≤◌, ◌≡◌, refl, true, false, some, List, [], ◌∷◌, ◌++◌, map, All, Bytes,
  bytes_eq, bytes_eq_iff, arith,
}
use gearman_rs.Base.Utf8.{is_utf8, from_utf8, is_utf8-ascii, from_utf8-text}
use gearman_rs.Base.Decimal.{to_string, max_u64, parse-to_string}
use gearman_rs.Base.Numerals.{to_string-IsNumeral, IsNumeral-ascii}
use gearman_rs.Error.{GearmanError, Result, ok, err}
use gearman_rs.Protocol.PacketType.{PacketType}
use gearman_rs.Protocol.Packet.{Packet, response, arg_str}
use gearman_rs.Client.Job.{JobEvent}
use gearman_rs.Client.Subscribers.{Sender, deliver, swap_remove}
use gearman_rs.Client.Events.{deliver_to}
use gearman_rs.Client.Incoming.{
  PendingReply, event_sent, Actor, work_event, is_terminal, dispatch_work_event, on_type,
  handle_incoming,
}
use gearman_rs.Client.Incoming.Matching.{handle_all}
use gearman_rs.Client.Submit.{wait_for_result}
use gearman_rs.Worker.Job.{
  WorkError, WorkResult, done, failed, Report, report_status, send_data, warn, report_packet,
  result_packet, run_handler, JobHandler, Registry, handler_for, assigned, dispatch_job, Sends,
}
use gearman_rs.Worker.Job.Sent.{IsSmall, IsUp, transcript, packets_of, run_handler-transcript}
use gearman_rs.Protocol.Codec.{new}
use gearman_rs.Worker.Job.Answer.{event_of}

-- What the server sends on of a packet.
abbrev pub relayed : Packet → Packet
relayed p = response p.ptype p.args

-- The event that a client is meant to see of a report.
abbrev pub event_of_report : Report → JobEvent
event_of_report (report_status n d) = JobEvent.status n d
event_of_report (send_data payload) = JobEvent.progress payload
event_of_report (warn payload) = JobEvent.warning payload

-- The numbers of a progress report are 64-bit.
abbrev pub IsReport : Report → Type 0
IsReport (report_status n d) = (n ≤ max_u64) × (d ≤ max_u64)
IsReport (send_data payload) = Unit
IsReport (warn payload) = Unit

-- What a foreground submission returns of a handler's result.
abbrev pub outcome_for : Bytes → WorkResult → Result Bytes
outcome_for handle (done payload) = ok payload
outcome_for handle (failed WorkError.fail) = err (GearmanError.job_failed handle)
outcome_for handle (failed (WorkError.exception payload)) =
    err (GearmanError.job_exception handle payload)

-- An actor with one job, which has one subscriber.
abbrev pub subscribed : List PendingReply → Bytes → Sender → Actor
subscribed pending handle sender = record {
  pending_replies = pending;
  job_events = (handle, record { slots = some sender ∷ []; cursor = 0 }) ∷ [];
}

-- The events of a job: its reports in order, and then its result.
abbrev pub events_of_run : List Report → WorkResult → List JobEvent
events_of_run reports r = map event_of_report reports ++ event_of r ∷ []

module _ (pending : List PendingReply) (handle : Bytes) (sender : Sender)
    (text : is_utf8 handle ≡ true) where
  same_handle : bytes_eq handle handle ≡ true
  same_handle = (bytes_eq_iff handle handle).1 refl

  -- A packet about the job reaches the subscriber, who keeps its slot until the job ends.
  dispatch_goes_on :
      (p : Packet) (event : JobEvent)
      → arg_str p 0 ≡ some handle
      → work_event p.ptype p ≡ some event
      → is_terminal p.ptype ≡ false
      → dispatch_work_event p (subscribed pending handle sender)
        ≡ (subscribed pending handle sender, event_sent (sender, event) ∷ [])
  unfolding dispatch_work_event deliver_to deliver
  dispatch_goes_on p event named is_event more =
      rw (named, dispatch_work_event) (rw (is_event, more, same_handle) refl)

  dispatch_ends :
      (p : Packet) (event : JobEvent)
      → arg_str p 0 ≡ some handle
      → work_event p.ptype p ≡ some event
      → is_terminal p.ptype ≡ true
      → dispatch_work_event p (subscribed pending handle sender)
        ≡ (record { pending_replies = pending; job_events = [] }, event_sent (sender, event) ∷ [])
  unfolding dispatch_work_event deliver_to deliver swap_remove
  dispatch_ends p event named is_event last =
      rw (named, dispatch_work_event) (rw (is_event, last, same_handle) refl)

  number_str : (n : ℕ) → from_utf8 (to_string n) ≡ some (to_string n)
  number_str n =
      from_utf8-text (to_string n)
        (is_utf8-ascii (to_string n) (IsNumeral-ascii (to_string n) (to_string-IsNumeral n)))

  named_by :
      (args : List Bytes) (t : PacketType) → arg_str (response t (handle ∷ args)) 0 ≡ some handle
  unfolding arg_str
  named_by args t = from_utf8-text handle text

  status_event :
      (n d : ℕ)
      → n ≤ max_u64
      → d ≤ max_u64
      → let p = relayed (report_packet handle (report_status n d)) in
        work_event p.ptype p ≡ some (JobEvent.status n d)
  unfolding arg_str
  status_event n d hn hd =
      rw
        (
          number_str n,
          number_str d,
          parse-to_string max_u64 n hn (omega arith),
          parse-to_string max_u64 d hd (omega arith),
        )
        refl

  report_relayed :
      (r : Report)
      → IsReport r
      → handle_incoming (relayed (report_packet handle r)) (subscribed pending handle sender)
        ≡ (subscribed pending handle sender, event_sent (sender, event_of_report r) ∷ [])
  unfolding handle_incoming on_type
  report_relayed (report_status n d) (hn, hd) =
      dispatch_goes_on (relayed (report_packet handle (report_status n d))) (JobEvent.status n d)
        (named_by _ _) (status_event n d hn hd) refl
  report_relayed (send_data payload) h =
      dispatch_goes_on (relayed (report_packet handle (send_data payload)))
        (JobEvent.progress payload) (named_by _ _) refl refl
  report_relayed (warn payload) h =
      dispatch_goes_on (relayed (report_packet handle (warn payload))) (JobEvent.warning payload)
        (named_by _ _) refl refl

  result_relayed :
      (r : WorkResult)
      → handle_incoming (relayed (result_packet handle r)) (subscribed pending handle sender) ≡ (
        record { pending_replies = pending; job_events = [] },
        event_sent (sender, event_of r) ∷ [],
      )
  unfolding handle_incoming on_type
  result_relayed (done payload) =
      dispatch_ends (relayed (result_packet handle (done payload))) (JobEvent.complete payload)
        (named_by _ _) refl refl
  result_relayed (failed WorkError.fail) =
      dispatch_ends (relayed (result_packet handle (failed WorkError.fail))) JobEvent.fail
        (named_by _ _) refl refl
  result_relayed (failed (WorkError.exception payload)) =
      dispatch_ends (relayed (result_packet handle (failed (WorkError.exception payload))))
        (JobEvent.exception payload) (named_by _ _) refl refl

  run_relayed :
      (reports : List Report) (r : WorkResult)
      → All IsReport reports
      → handle_all
          (map relayed (packets_of handle (reports, some r)))
          (subscribed pending handle sender)
        ≡ (
          record { pending_replies = pending; job_events = [] },
          map (λ e. event_sent (sender, e)) (events_of_run reports r),
        )
  unfolding handle_all
  run_relayed [] r h = rw (result_relayed r) refl
  run_relayed (report ∷ reports) r (h, hs) =
      rw (report_relayed report h, run_relayed reports r hs) refl

wait_for_result-run :
    (handle : Bytes) (reports : List Report) (r : WorkResult)
    → wait_for_result handle (events_of_run reports r) ≡ outcome_for handle r
unfolding wait_for_result
wait_for_result-run handle [] (done payload) = refl
wait_for_result-run handle [] (failed WorkError.fail) = refl
wait_for_result-run handle [] (failed (WorkError.exception payload)) = refl
wait_for_result-run handle (report_status n d ∷ reports) r = wait_for_result-run handle reports r
wait_for_result-run handle (send_data payload ∷ reports) r = wait_for_result-run handle reports r
wait_for_result-run handle (warn payload ∷ reports) r = wait_for_result-run handle reports r

-- For an assigned job whose function has a handler and whose handle is UTF-8, when the
-- connection takes every send, the handler does not panic but reports and returns, its
-- progress reports have 64-bit numbers, and its packets are within the codec's cap: the
-- packets that `dispatch_job` sends, relayed as responses to a client's actor where the job
-- has one subscriber, give that subscriber the handler's reports in order and then its result,
-- and leave no entry for the job and the pending replies as they were; of these events a
-- foreground submission returns the handler's payload, a failure, or the exception with its
-- payload.
pub dispatch_job-handle_all :
    (sends : Sends) (registry : Registry) (pkt : Packet) (handler : JobHandler)
    (pending : List PendingReply) (sender : Sender) (told : List Report) (r : WorkResult)
    → IsUp sends
    → handler_for (assigned pkt.ptype pkt).function registry ≡ some handler
    → is_utf8 (assigned pkt.ptype pkt).handle ≡ true
    → transcript (handler (assigned pkt.ptype pkt)) ≡ (told, some r)
    → All IsReport told
    → All (IsSmall new) (packets_of (assigned pkt.ptype pkt).handle (told, some r))
    → let job = assigned pkt.ptype pkt in
      (handle_all
          (map relayed (dispatch_job sends registry pkt).0)
          (subscribed pending job.handle sender)
        ≡ (
          record { pending_replies = pending; job_events = [] },
          map (λ e. event_sent (sender, e)) (events_of_run told r),
        ))
      × (wait_for_result job.handle (events_of_run told r) ≡ outcome_for job.handle r)
unfolding dispatch_job
dispatch_job-handle_all sends registry pkt handler pending sender told r up found text script h
      small =
    let job = assigned pkt.ptype pkt in
    let all_small : All (IsSmall new) (packets_of job.handle (transcript (handler job))) =
      subst (λ t. All (IsSmall new) (packets_of job.handle t)) (sym script) small in
    let sent : (run_handler sends job.handle 0 (handler job)).0
        ≡ packets_of job.handle (told, some r) =
      ap (λ d. d.0) (run_handler-transcript sends job.handle 0 (handler job) up all_small)
      ∙ ap (packets_of job.handle) script in
    (
      rw (found, sent) (run_relayed pending job.handle sender text told r h),
      wait_for_result-run job.handle told r,
    )
