-- ===== src/Worker/Job.antt =====
-- src/worker/job.rs, src/worker/registry.rs, and `register_functions` and `dispatch_job` of
-- src/worker/mod.rs. A handler is code of the program that uses the crate: it is a function from
-- the job to how it goes on, by what its reports return. Each send has its outcome: the codec may
-- refuse the packet, and the connection may not take it. What is sent is a list of packets; that
-- the last send of `dispatch_job` fails is ignored, as in the code. The registry is an association
-- list.
pub mod Answer
pub mod Sent
pub mod Served
pub mod Wire
use gearman_rs.Base.{
  ℕ, suc, Bool, true, false, if◌then◌else◌, Option, none, some, List, [], ◌∷◌, ◌++◌, map, get_elem?,
  Bytes, bytes_eq,
}
use gearman_rs.Base.Decimal.{to_string}
use gearman_rs.Error.{Result, ok, err, GearmanError}
use gearman_rs.Protocol.Codec.{new, encode}
use gearman_rs.Protocol.PacketType.{
  PacketType, work_status, work_data, work_warning, work_complete, work_fail, work_exception,
  job_assign_all, job_assign_uniq, can_do, can_do_timeout, cant_do,
}
use gearman_rs.Protocol.Packet.{Packet, request, arg_str}
use gearman_rs.Client.Incoming.{text_or_empty, payload_at}

pub data WorkError : Type 0 where
  fail : WorkError
  exception : Bytes → WorkError

pub data WorkResult : Type 0 where
  done : Bytes → WorkResult
  failed : WorkError → WorkResult

-- A call of a `Reporter`.
pub data Report : Type 0 where
  report_status : ℕ → ℕ → Report
  send_data : Bytes → Report
  warn : Bytes → Report

-- The reporter of a job sends for the job's handle.
pub record WorkerJob : Type 0 where
  pub handle : Bytes
  pub function : Bytes
  pub unique : Option Bytes
  pub reducer : Option Bytes
  pub payload : Bytes

-- A handler at work: it returns, panics, or reports and goes on by what the report returned. What
-- a task that it spawned sends with a clone of the reporter is merged in by Worker/Grab/Late.
pub data Handling : Type 0 where
  returns : WorkResult → Handling
  panics : Handling
  reports : Report → (Result (Unit {0}) → Handling) → Handling

abbrev pub JobHandler : Type 0
JobHandler = WorkerJob → Handling

-- The timeout in whole seconds.
pub record RegisteredHandler : Type 0 where
  pub handler : JobHandler
  pub timeout : Option ℕ

abbrev pub Registry : Type 0
Registry = List (Bytes × RegisteredHandler)

unfoldable pub handler_for : Bytes → Registry → Option JobHandler
handler_for function [] = none
handler_for function ((name, reg) ∷ registry) =
    let rest = handler_for function registry in
    if bytes_eq name function then some reg.handler else rest

-- What a report sends.
abbrev pub report_packet : Bytes → Report → Packet
report_packet handle (report_status numerator denominator) =
    request work_status (handle ∷ to_string numerator ∷ to_string denominator ∷ [])
report_packet handle (send_data payload) = request work_data (handle ∷ payload ∷ [])
report_packet handle (warn payload) = request work_warning (handle ∷ payload ∷ [])

-- The `match` on the handler's result.
abbrev pub result_packet : Bytes → WorkResult → Packet
result_packet handle (done payload) = request work_complete (handle ∷ payload ∷ [])
result_packet handle (failed WorkError.fail) = request work_fail (handle ∷ [])
result_packet handle (failed (WorkError.exception payload)) =
    request work_exception (handle ∷ payload ∷ [])

-- The job of an assignment, by its packet type.
abbrev pub assigned : PacketType → Packet → WorkerJob
assigned job_assign_all pkt = record {
  handle = text_or_empty (arg_str pkt 0);
  function = text_or_empty (arg_str pkt 1);
  unique = arg_str pkt 2;
  reducer = arg_str pkt 3;
  payload = payload_at pkt 4;
}
assigned job_assign_uniq pkt = record {
  handle = text_or_empty (arg_str pkt 0);
  function = text_or_empty (arg_str pkt 1);
  unique = arg_str pkt 2;
  reducer = none;
  payload = payload_at pkt 3;
}
assigned _ pkt = record {
  handle = text_or_empty (arg_str pkt 0);
  function = text_or_empty (arg_str pkt 1);
  unique = none;
  reducer = none;
  payload = payload_at pkt 2;
}

-- The error with which the connection fails each send after the grab, if it does.
abbrev pub Sends : Type 0
Sends = ℕ → Option GearmanError

abbrev pub unless_down : Result (Unit {0}) → Option GearmanError → Result (Unit {0})
unless_down (err e) down = err e
unless_down (ok u) (some e) = err e
unless_down (ok u) none = ok u

-- `send_packet`: the codec refuses a packet, or the connection fails, or the packet is sent.
unfoldable pub send_packet : Option GearmanError → Packet → Result (Unit {0})
send_packet down p = unless_down (encode new p []).0 down

-- What is sent, and whether `dispatch_job` returns: it does not when the handler panics.
abbrev pub Dispatched : Type 0
Dispatched = List Packet × Bool

-- A packet in front of what is sent later, if its send succeeds.
abbrev pub and_sent : Result (Unit {0}) → Packet → Dispatched → Dispatched
and_sent (ok u) p (sent, back) = (p ∷ sent, back)
and_sent (err e) p later = later

-- The handler's reports, and then the packet of its result; the first send is number `n`.
unfoldable pub run_handler : Sends → Bytes → ℕ → Handling → Dispatched
run_handler sends handle n (returns result) =
    let p = result_packet handle result in and_sent (send_packet (sends n) p) p ([], true)
run_handler sends handle n panics = ([], false)
run_handler sends handle n (reports report next) =
    let p = report_packet handle report in
    let outcome = send_packet (sends n) p in
    and_sent outcome p (run_handler sends handle (suc n) (next outcome))

-- The handler's packets, or a failure for a function that is not registered.
abbrev pub run_job : Sends → WorkerJob → Option JobHandler → Dispatched
run_job sends job none =
    let p = request work_fail (job.handle ∷ []) in and_sent (send_packet (sends 0) p) p ([], true)
run_job sends job (some handler) = run_handler sends job.handle 0 (handler job)

unfoldable pub dispatch_job : Sends → Registry → Packet → Dispatched
dispatch_job sends registry pkt =
    let job = assigned pkt.ptype pkt in run_job sends job (handler_for job.function registry)

abbrev pub registration : Bytes → Option ℕ → Packet
registration name none = request can_do (name ∷ [])
registration name (some seconds) = request can_do_timeout (name ∷ to_string seconds ∷ [])

-- `register_functions`, while the connection takes what is sent.
unfoldable pub register_functions : Registry → List Packet
register_functions [] = []
register_functions ((name, reg) ∷ registry) =
    registration name reg.timeout ∷ register_functions registry

-- The packet that `flush_unregistrations` sends for a function.
abbrev pub unregistration : Bytes → Packet
unregistration name = request cant_do (name ∷ [])
