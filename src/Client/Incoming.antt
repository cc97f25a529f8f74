-- ===== src/Client/Incoming.antt =====
-- src/client/mod.rs: `handle_incoming` and what it calls. A `oneshot` channel is a number, and an
-- answer through it is an effect, as is a send to a subscriber. A pending reply that is taken off
-- the queue unanswered is dropped, which the caller sees as a closed channel: `hang_up`.
pub mod Settled
pub mod Matching
use gearman_rs.Base.{
  ℕ, Bool, true, false, Bytes, bytes_eq, codes, Option, none, some, List, [], ◌∷◌, ◌++◌, map,
  get_elem?,
}
use gearman_rs.Base.Decimal.{parse, max_u32, max_u64}
use gearman_rs.Error.{Result, ok, err, GearmanError}
use gearman_rs.Protocol.PacketType.{
  PacketType, job_created, status_res, status_res_unique, error, work_status, work_complete,
  work_fail, work_data, work_warning, work_exception,
}
use gearman_rs.Protocol.Packet.{Packet, arg_str}
use gearman_rs.Client.Job.{JobEvent, JobStatus}
use gearman_rs.Client.Subscribers.{Sender, Sent}
use gearman_rs.Client.Events.{JobEventSubscribers, subscribe, deliver_to}

pub data PendingReply : Type 0 where
  -- the channel of the reply, and that of the events of a foreground job
  created : ℕ → Option Sender → PendingReply
  status : ℕ → PendingReply
  status_unique : ℕ → PendingReply

pub data Effect : Type 0 where
  -- an answer through a channel of a submission
  handle_is : ℕ → Result Bytes → Effect
  -- an answer through a channel of a status query
  status_is : ℕ → Result JobStatus → Effect
  hang_up : ℕ → Effect
  event_sent : Sent → Effect

pub record Actor : Type 0 where
  pub pending_replies : List PendingReply
  pub job_events : JobEventSubscribers

-- The channel of a pending reply.
abbrev pub reply_of : PendingReply → ℕ
reply_of (created reply events) = reply
reply_of (status reply) = reply
reply_of (status_unique reply) = reply

-- `unwrap_or_default` on a text.
abbrev pub text_or_empty : Option Bytes → Bytes
text_or_empty none = []
text_or_empty (some s) = s

-- `packet.args.get(1).cloned().unwrap_or_default()`
abbrev pub payload_at : Packet → ℕ → Bytes
payload_at packet i = text_or_empty (get_elem? packet.args i)

-- `and_then(|s| s.parse().ok())`
abbrev pub number : ℕ → Option Bytes → Option ℕ
number max none = none
number max (some s) = parse max s

-- `unwrap_or(0)`
abbrev pub or_zero : Option ℕ → ℕ
or_zero none = 0
or_zero (some n) = n

abbrev pub is_one : Option Bytes → Bool
is_one none = false
is_one (some s) = bytes_eq s (codes "1")

unfoldable pub parse_status_res : Packet → JobStatus
parse_status_res packet = record {
  known = is_one (arg_str packet 1);
  running = is_one (arg_str packet 2);
  numerator = or_zero (number max_u64 (arg_str packet 3));
  denominator = or_zero (number max_u64 (arg_str packet 4));
  client_count = none;
}

unfoldable pub parse_status_res_unique : Packet → JobStatus
parse_status_res_unique packet = record {
  known = is_one (arg_str packet 1);
  running = is_one (arg_str packet 2);
  numerator = or_zero (number max_u64 (arg_str packet 3));
  denominator = or_zero (number max_u64 (arg_str packet 4));
  client_count = number max_u32 (arg_str packet 5);
}

-- The event of a `WORK_*` packet; `none` is the arm `unreachable!`.
abbrev pub work_event : PacketType → Packet → Option JobEvent
work_event work_status packet = some (
    JobEvent.status (or_zero (number max_u64 (arg_str packet 1)))
      (or_zero (number max_u64 (arg_str packet 2))))
work_event work_complete packet = some (JobEvent.complete (payload_at packet 1))
work_event work_fail packet = some JobEvent.fail
work_event work_data packet = some (JobEvent.progress (payload_at packet 1))
work_event work_warning packet = some (JobEvent.warning (payload_at packet 1))
work_event work_exception packet = some (JobEvent.exception (payload_at packet 1))
work_event _ packet = none

abbrev pub is_terminal : PacketType → Bool
is_terminal work_complete = true
is_terminal work_fail = true
is_terminal work_exception = true
is_terminal _ = false

abbrev pub after_delivery : Actor → JobEventSubscribers × List Sent → Actor × List Effect
after_delivery actor (events, sent) = (record actor { job_events = events }, map event_sent sent)

abbrev pub dispatch_event : Bytes → Bool → Option JobEvent → Actor → Actor × List Effect
dispatch_event handle terminal none actor = (actor, [])
dispatch_event handle terminal (some event) actor =
    after_delivery actor (deliver_to handle event terminal actor.job_events)

unfoldable pub dispatch_work_event : Packet → Actor → Actor × List Effect
dispatch_work_event packet actor = elim (arg_str packet 0) [
  | none ↦ (actor, [])
  | some handle ↦
      dispatch_event handle (is_terminal packet.ptype) (work_event packet.ptype packet) actor
]

abbrev pub subscribe_if : Option Sender → Bytes → JobEventSubscribers → JobEventSubscribers
subscribe_if none handle m = m
subscribe_if (some sender) handle m = subscribe handle sender m

-- The four arms that take a pending reply, on the queue.
unfoldable pub on_job_created : Packet → List PendingReply → Actor → Actor × List Effect
on_job_created packet [] actor = (actor, [])
on_job_created packet (created reply events ∷ rest) actor =
    let handle = text_or_empty (arg_str packet 0) in
    (
      record { pending_replies = rest; job_events = subscribe_if events handle actor.job_events },
      handle_is reply (ok handle) ∷ [],
    )
on_job_created packet (other ∷ rest) actor =
    (record actor { pending_replies = rest }, hang_up (reply_of other) ∷ [])

unfoldable pub on_status_res : Packet → List PendingReply → Actor → Actor × List Effect
unfolding parse_status_res
on_status_res packet [] actor = (actor, [])
on_status_res packet (status reply ∷ rest) actor =
    (record actor { pending_replies = rest }, status_is reply (ok (parse_status_res packet)) ∷ [])
on_status_res packet (other ∷ rest) actor =
    (record actor { pending_replies = rest }, hang_up (reply_of other) ∷ [])

unfoldable pub on_status_res_unique : Packet → List PendingReply → Actor → Actor × List Effect
unfolding parse_status_res_unique
on_status_res_unique packet [] actor = (actor, [])
on_status_res_unique packet (status_unique reply ∷ rest) actor = (
  record actor { pending_replies = rest },
  status_is reply (ok (parse_status_res_unique packet)) ∷ [],
)
on_status_res_unique packet (other ∷ rest) actor =
    (record actor { pending_replies = rest }, hang_up (reply_of other) ∷ [])

-- The answer `Err(e)` through a pending reply's channel.
abbrev pub fail_reply : PendingReply → GearmanError → Effect
fail_reply (created reply events) e = handle_is reply (err e)
fail_reply (status reply) e = status_is reply (err e)
fail_reply (status_unique reply) e = status_is reply (err e)

unfoldable pub on_error : Packet → List PendingReply → Actor → Actor × List Effect
on_error packet [] actor = (actor, [])
on_error packet (p ∷ rest) actor =
    let code = text_or_empty (arg_str packet 0) in
    let text = text_or_empty (arg_str packet 1) in
    (
      record actor { pending_replies = rest },
      fail_reply p (GearmanError.server_error code text) ∷ [],
    )

-- The `match packet.ptype`; log lines are left out.
unfoldable pub on_type : PacketType → Packet → Actor → Actor × List Effect
unfolding on_job_created on_status_res on_status_res_unique on_error dispatch_work_event
on_type job_created packet actor = on_job_created packet actor.pending_replies actor
on_type status_res packet actor = on_status_res packet actor.pending_replies actor
on_type status_res_unique packet actor = on_status_res_unique packet actor.pending_replies actor
on_type error packet actor = on_error packet actor.pending_replies actor
on_type work_status packet actor = dispatch_work_event packet actor
on_type work_complete packet actor = dispatch_work_event packet actor
on_type work_fail packet actor = dispatch_work_event packet actor
on_type work_data packet actor = dispatch_work_event packet actor
on_type work_warning packet actor = dispatch_work_event packet actor
on_type work_exception packet actor = dispatch_work_event packet actor
on_type _ packet actor = (actor, [])

unfoldable pub handle_incoming : Packet → Actor → Actor × List Effect
unfolding on_type
handle_incoming packet actor = on_type packet.ptype packet actor
