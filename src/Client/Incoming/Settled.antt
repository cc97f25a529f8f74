-- ===== src/Client/Incoming/Settled.antt =====
-- Every pending reply leaves the queue settled, answered or hung up, once and in order.
use gearman_rs.Base.{
  ℕ, ◌≡◌, refl, ap, List, [], ◌∷◌, ◌++◌, map, sym, Option-cases, inl, inr, Option, none, some,
  Bytes, Bool,
}
use gearman_rs.Protocol.PacketType.{
  PacketType, job_created, status_res, status_res_unique, error, work_status, work_complete,
  work_fail, work_data, work_warning, work_exception,
}
use gearman_rs.Protocol.Packet.{Packet, arg_str}
use gearman_rs.Client.Job.{JobEvent}
use gearman_rs.Client.Events.{deliver_to}
use gearman_rs.Client.Subscribers.{Sent}
use gearman_rs.Client.Incoming.{
  PendingReply, created, status, status_unique, Effect, handle_is, status_is, hang_up, event_sent,
  Actor, reply_of, handle_incoming, on_type, dispatch_work_event, on_job_created, on_status_res,
  on_status_res_unique, on_error, dispatch_event, work_event, is_terminal,
}

-- The channels that a list of effects settles.
abbrev pub settled : List Effect → List ℕ
settled [] = []
settled (handle_is reply r ∷ es) = reply ∷ settled es
settled (status_is reply r ∷ es) = reply ∷ settled es
settled (hang_up reply ∷ es) = reply ∷ settled es
settled (event_sent s ∷ es) = settled es

abbrev pub waiting : List PendingReply → List ℕ
waiting = map reply_of

settled-event_sent : (sent : List Sent) → settled (map event_sent sent) ≡ []
settled-event_sent [] = refl
settled-event_sent (s ∷ sent) = settled-event_sent sent

abbrev Settles : Actor → Actor × List Effect → Type 0
Settles before (after, effects) =
    settled effects ++ waiting after.pending_replies ≡ waiting before.pending_replies

dispatch_event-Settles :
    (handle : Bytes) (terminal : Bool) (event : Option JobEvent) (actor : Actor)
    → Settles actor (dispatch_event handle terminal event actor)
dispatch_event-Settles handle terminal none actor = refl
dispatch_event-Settles handle terminal (some event) actor =
    rw (settled-event_sent (deliver_to handle event terminal actor.job_events).1) refl

on_job_created-Settles :
    (packet : Packet) (queue : List PendingReply) (actor : Actor)
    → actor.pending_replies ≡ queue
    → Settles actor (on_job_created packet queue actor)
unfolding on_job_created
on_job_created-Settles packet [] actor e = refl
on_job_created-Settles packet (created reply events ∷ rest) actor e = sym (ap waiting e)
on_job_created-Settles packet (status reply ∷ rest) actor e = sym (ap waiting e)
on_job_created-Settles packet (status_unique reply ∷ rest) actor e = sym (ap waiting e)

on_status_res-Settles :
    (packet : Packet) (queue : List PendingReply) (actor : Actor)
    → actor.pending_replies ≡ queue
    → Settles actor (on_status_res packet queue actor)
unfolding on_status_res
on_status_res-Settles packet [] actor e = refl
on_status_res-Settles packet (created reply events ∷ rest) actor e = sym (ap waiting e)
on_status_res-Settles packet (status reply ∷ rest) actor e = sym (ap waiting e)
on_status_res-Settles packet (status_unique reply ∷ rest) actor e = sym (ap waiting e)

on_status_res_unique-Settles :
    (packet : Packet) (queue : List PendingReply) (actor : Actor)
    → actor.pending_replies ≡ queue
    → Settles actor (on_status_res_unique packet queue actor)
unfolding on_status_res_unique
on_status_res_unique-Settles packet [] actor e = refl
on_status_res_unique-Settles packet (created reply events ∷ rest) actor e = sym (ap waiting e)
on_status_res_unique-Settles packet (status reply ∷ rest) actor e = sym (ap waiting e)
on_status_res_unique-Settles packet (status_unique reply ∷ rest) actor e = sym (ap waiting e)

on_error-Settles :
    (packet : Packet) (queue : List PendingReply) (actor : Actor)
    → actor.pending_replies ≡ queue
    → Settles actor (on_error packet queue actor)
unfolding on_error
on_error-Settles packet [] actor e = refl
on_error-Settles packet (created reply events ∷ rest) actor e = sym (ap waiting e)
on_error-Settles packet (status reply ∷ rest) actor e = sym (ap waiting e)
on_error-Settles packet (status_unique reply ∷ rest) actor e = sym (ap waiting e)

dispatch_work_event-Settles :
    (packet : Packet) (actor : Actor) → Settles actor (dispatch_work_event packet actor)
unfolding dispatch_work_event
dispatch_work_event-Settles packet actor = elim (Option-cases (arg_str packet 0)) [
  | inl e ↦ rw (e, dispatch_work_event) refl
  | inr (handle, e) ↦
      rw (e, dispatch_work_event)
        (dispatch_event-Settles handle (is_terminal packet.ptype) (work_event packet.ptype packet)
          actor)
]

on_type-Settles :
    (t : PacketType) (packet : Packet) (actor : Actor) → Settles actor (on_type t packet actor)
unfolding on_type
on_type-Settles job_created packet actor = on_job_created-Settles packet _ actor refl
on_type-Settles status_res packet actor = on_status_res-Settles packet _ actor refl
on_type-Settles status_res_unique packet actor = on_status_res_unique-Settles packet _ actor refl
on_type-Settles error packet actor = on_error-Settles packet _ actor refl
on_type-Settles work_status packet actor = dispatch_work_event-Settles packet actor
on_type-Settles work_complete packet actor = dispatch_work_event-Settles packet actor
on_type-Settles work_fail packet actor = dispatch_work_event-Settles packet actor
on_type-Settles work_data packet actor = dispatch_work_event-Settles packet actor
on_type-Settles work_warning packet actor = dispatch_work_event-Settles packet actor
on_type-Settles work_exception packet actor = dispatch_work_event-Settles packet actor
on_type-Settles _ packet actor = refl

-- The channels that a packet settles, followed by those that still wait, are the channels that
-- waited before it, in order.
pub handle_incoming-settled :
    (packet : Packet) (actor : Actor)
    → let (after, effects) = handle_incoming packet actor in
      settled effects ++ waiting after.pending_replies ≡ waiting actor.pending_replies
unfolding handle_incoming
handle_incoming-settled packet actor = on_type-Settles packet.ptype packet actor
