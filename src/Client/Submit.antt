-- ===== src/Client/Submit.antt =====
-- src/client/mod.rs: `Client`, its submissions and its status queries. What a channel gives later
-- is an argument: the answer of a reply channel, `none` if it is dropped unanswered, and the events
-- of a stream up to its end. The channels of a request are fresh numbers.
pub mod Requests
pub mod Handles
pub mod Outcome
pub mod Calls
pub mod Queries
use gearman_rs.Base.{
  ℕ, Bool, true, false, if◌then◌else◌, Option, none, some, List, [], ◌∷◌, ◌++◌, set, get_elem?,
  Bytes, codes,
}
use gearman_rs.Base.Decimal.{to_string}
use gearman_rs.Error.{Result, ok, err, GearmanError}
use gearman_rs.Protocol.PacketType.{
  PacketType, submit_job, submit_job_bg, submit_job_high, submit_job_high_bg, submit_job_low,
  submit_job_low_bg, submit_job_epoch, submit_reduce_job, submit_reduce_job_background, option_req,
}
use gearman_rs.Protocol.Packet.{Packet, request}
use gearman_rs.Client.Job.{
  Priority, high, normal, low, SubmitOptions, foreground, background, JobHandle, JobEvent,
  JobStatus, SubmittedJob,
}
use gearman_rs.Client.Actor.{ClientCommand, submit, query_status, query_status_unique}
use gearman_rs.Client.Incoming.{text_or_empty}
use gearman_rs.Client.Pool.{ServerSlot, ServerPool, get, select_for_submit}

unfoldable pub submit_packet_type : Priority → Bool → PacketType
submit_packet_type normal false = submit_job
submit_packet_type normal true = submit_job_bg
submit_packet_type high false = submit_job_high
submit_packet_type high true = submit_job_high_bg
submit_packet_type low false = submit_job_low
submit_packet_type low true = submit_job_low_bg

-- The packets of the requests.
abbrev pub job_request : Bytes → Option Bytes → Bytes → SubmitOptions → Packet
job_request function unique payload opts =
    request (submit_packet_type opts.priority opts.background)
      (function ∷ text_or_empty unique ∷ payload ∷ [])

abbrev pub epoch_request : Bytes → Option Bytes → ℕ → Bytes → Packet
epoch_request function unique epoch payload =
    request submit_job_epoch (function ∷ text_or_empty unique ∷ to_string epoch ∷ payload ∷ [])

abbrev pub reduce_type : Bool → PacketType
reduce_type true = submit_reduce_job_background
reduce_type false = submit_reduce_job

abbrev pub reduce_request : Bytes → Option Bytes → Bytes → Bytes → Bool → Packet
reduce_request function unique reducer payload in_background =
    request (reduce_type in_background)
      (function ∷ text_or_empty unique ∷ reducer ∷ [] ∷ payload ∷ [])

abbrev pub status_request : Bytes → Packet
status_request handle = request PacketType.get_status (handle ∷ [])

abbrev pub status_unique_request : Bytes → Packet
status_unique_request unique = request PacketType.get_status_unique (unique ∷ [])

abbrev pub exceptions_request : Packet
exceptions_request = request option_req (codes "exceptions" ∷ [])

-- `reply_rx.await.map_err(..)?`
abbrev pub await {ℓ} : {A : Type ℓ} → Option (Result A) → Result A
await none = err GearmanError.connection_closed
await (some r) = r

-- `cmd_tx.send`.
abbrev pub send_to_slot : ServerSlot → ClientCommand → ServerSlot
send_to_slot slot cmd = record slot { queue = slot.queue ++ (cmd ∷ []) }

abbrev pub put : ServerPool → ℕ → ServerSlot → ServerPool
put pool i slot = record pool { servers = set pool.servers i slot }

-- The channels of a submission: that of its reply and that of its events.
pub record Channels : Type 0 where
  pub reply : ℕ
  pub events : ℕ

abbrev pub events_of : Bool → Channels → Option ℕ
events_of true chans = none
events_of false chans = some chans.events

abbrev pub submitted : ℕ → Option Bytes → Option ℕ → Result Bytes → Result SubmittedJob
submitted i unique events (ok handle) = ok (record {
  handle = record { server_index = i; handle = handle; unique = unique };
  events = events;
})
submitted i unique events (err e) = err e

-- The submission to the slot of the chosen server; without a slot, `get` would panic.
abbrev pub submit_to :
    ℕ
    → Option ServerSlot
    → Packet
    → Option Bytes
    → Bool
    → Channels
    → Option (Result Bytes)
    → ServerPool
    → Option (Result SubmittedJob × ServerPool)
submit_to i none packet unique in_background chans answer pool = none
submit_to i (some slot) packet unique in_background chans answer pool =
    let events = events_of in_background chans in
    if slot.receiver_alive
    then some (
      submitted i unique events (await answer),
      put pool i (send_to_slot slot (submit packet chans.reply events)),
    )
    else some (err GearmanError.connection_closed, pool)

abbrev pub submit_selected :
    Option (Option ℕ) × ServerPool
    → Packet
    → Option Bytes
    → Bool
    → Channels
    → Option (Result Bytes)
    → Option (Result SubmittedJob × ServerPool)
submit_selected (none, pool) packet unique in_background chans answer = none
submit_selected (some none, pool) packet unique in_background chans answer =
    some (err GearmanError.no_servers_available, pool)
submit_selected (some (some i), pool) packet unique in_background chans answer =
    submit_to i (get pool i) packet unique in_background chans answer pool

-- `none` is a panic.
unfoldable pub submit_packet :
    (Bytes → Bytes)
    → Packet
    → Option Bytes
    → Bool
    → Channels
    → Option (Result Bytes)
    → ServerPool
    → Option (Result SubmittedJob × ServerPool)
submit_packet digest packet unique in_background chans answer pool =
    submit_selected (select_for_submit digest pool unique) packet unique in_background chans answer

-- The loop of `submit_fg_unique` on the events of the job.
unfoldable pub wait_for_result : Bytes → List JobEvent → Result Bytes
wait_for_result handle [] = err GearmanError.connection_closed
wait_for_result handle (JobEvent.complete result ∷ later) = ok result
wait_for_result handle (JobEvent.fail ∷ later) = err (GearmanError.job_failed handle)
wait_for_result handle (JobEvent.exception payload ∷ later) =
    err (GearmanError.job_exception handle payload)
wait_for_result handle (JobEvent.status n d ∷ later) = wait_for_result handle later
wait_for_result handle (JobEvent.progress payload ∷ later) = wait_for_result handle later
wait_for_result handle (JobEvent.warning payload ∷ later) = wait_for_result handle later

-- `.expect(..)` panics without an event stream.
abbrev pub expect_events : Bytes → Option ℕ → List JobEvent → Option (Result Bytes)
expect_events handle none events = none
expect_events handle (some stream) events = some (wait_for_result handle events)

abbrev pub result_of : List JobEvent → Result SubmittedJob → Option (Result Bytes)
result_of events (err e) = some (err e)
result_of events (ok job) = expect_events job.handle.handle job.events events

abbrev pub finish_fg :
    List JobEvent → Option (Result SubmittedJob × ServerPool) → Option (Result Bytes × ServerPool)
finish_fg events none = none
finish_fg events (some (r, pool)) = elim (result_of events r) [
  | none ↦ none
  | some result ↦ some (result, pool)
]

unfoldable pub submit_fg_unique :
    (Bytes → Bytes)
    → Bytes
    → Option Bytes
    → Bytes
    → Channels
    → Option (Result Bytes)
    → List JobEvent
    → ServerPool
    → Option (Result Bytes × ServerPool)
submit_fg_unique digest function unique payload chans answer events pool = finish_fg events (
    submit_packet digest (job_request function unique payload foreground) unique false chans answer
      pool)

-- The query through a slot of the pool; without a slot, `get` would panic.
abbrev pub query :
    ClientCommand
    → ℕ
    → Option ServerSlot
    → Option (Result JobStatus)
    → ServerPool
    → Option (Result JobStatus × ServerPool)
query cmd i none answer pool = none
query cmd i (some slot) answer pool =
    if slot.receiver_alive
    then some (await answer, put pool i (send_to_slot slot cmd))
    else some (err GearmanError.connection_closed, pool)

unfoldable pub get_status :
    JobHandle → ℕ → Option (Result JobStatus) → ServerPool → Option (Result JobStatus × ServerPool)
get_status h reply answer pool =
    query (query_status (status_request h.handle) reply) h.server_index (get pool h.server_index)
      answer pool

abbrev pub query_by_unique :
    Option Bytes
    → JobHandle
    → ℕ
    → Option (Result JobStatus)
    → ServerPool
    → Option (Result JobStatus × ServerPool)
query_by_unique none h reply answer pool = some (err (GearmanError.no_unique_id h.handle), pool)
query_by_unique (some unique) h reply answer pool =
    query (query_status_unique (status_unique_request unique) reply) h.server_index
      (get pool h.server_index) answer pool

unfoldable pub get_status_unique :
    JobHandle → ℕ → Option (Result JobStatus) → ServerPool → Option (Result JobStatus × ServerPool)
get_status_unique h reply answer pool = query_by_unique h.unique h reply answer pool
