-- ===== src/Client/Actor/Tables.antt =====
-- The subscribers of an actor stay a table: one entry for each job, each with slots.
use gearman_rs.Base.{
  ◌≡◌, subst, Bool, Bytes, List, [], ◌∷◌, Option, none, some, inl, inr, Option-cases,
}
use gearman_rs.Error.{ok, err}
use gearman_rs.Protocol.PacketType.{
  PacketType, job_created, status_res, status_res_unique, error, work_status, work_complete,
  work_fail, work_data, work_warning, work_exception,
}
use gearman_rs.Protocol.Packet.{Packet, arg_str}
use gearman_rs.Client.Job.{JobEvent}
use gearman_rs.Client.Events.Laws.{IsTable, subscribe-IsTable, deliver_to-IsTable, prune-IsTable}
use gearman_rs.Client.Incoming.{
  PendingReply, created, status, status_unique, Effect, Actor, text_or_empty, handle_incoming,
  on_type, on_job_created, on_status_res, on_status_res_unique, on_error, dispatch_event,
  dispatch_work_event, work_event, is_terminal,
}
use gearman_rs.Client.Actor.{
  Input, command, tick, no_more_commands, incoming, Turn, Loop, running, ended, turn, on_command,
  end_or, actor_loop, new_actor,
}

abbrev Kept : Actor → Type 0
Kept actor = IsTable actor.job_events

on_job_created-Kept :
    (packet : Packet) (queue : List PendingReply) (actor : Actor)
    → Kept actor
    → Kept (on_job_created packet queue actor).0
unfolding on_job_created
on_job_created-Kept packet [] actor t = t
on_job_created-Kept packet (created reply none ∷ rest) actor t = t
on_job_created-Kept packet (created reply (some sender) ∷ rest) actor t =
    subscribe-IsTable (text_or_empty (arg_str packet 0)) sender actor.job_events t
on_job_created-Kept packet (status reply ∷ rest) actor t = t
on_job_created-Kept packet (status_unique reply ∷ rest) actor t = t

on_status_res-Kept :
    (packet : Packet) (queue : List PendingReply) (actor : Actor)
    → Kept actor
    → Kept (on_status_res packet queue actor).0
unfolding on_status_res
on_status_res-Kept packet [] actor t = t
on_status_res-Kept packet (created reply events ∷ rest) actor t = t
on_status_res-Kept packet (status reply ∷ rest) actor t = t
on_status_res-Kept packet (status_unique reply ∷ rest) actor t = t

on_status_res_unique-Kept :
    (packet : Packet) (queue : List PendingReply) (actor : Actor)
    → Kept actor
    → Kept (on_status_res_unique packet queue actor).0
unfolding on_status_res_unique
on_status_res_unique-Kept packet [] actor t = t
on_status_res_unique-Kept packet (created reply events ∷ rest) actor t = t
on_status_res_unique-Kept packet (status reply ∷ rest) actor t = t
on_status_res_unique-Kept packet (status_unique reply ∷ rest) actor t = t

on_error-Kept :
    (packet : Packet) (queue : List PendingReply) (actor : Actor)
    → Kept actor
    → Kept (on_error packet queue actor).0
unfolding on_error
on_error-Kept packet [] actor t = t
on_error-Kept packet (p ∷ rest) actor t = t

dispatch_event-Kept :
    (handle : Bytes) (terminal : Bool) (event : Option JobEvent) (actor : Actor)
    → Kept actor
    → Kept (dispatch_event handle terminal event actor).0
dispatch_event-Kept handle terminal none actor t = t
dispatch_event-Kept handle terminal (some event) actor t =
    deliver_to-IsTable handle event terminal actor.job_events t

dispatch_work_event-Kept :
    (packet : Packet) (actor : Actor) → Kept actor → Kept (dispatch_work_event packet actor).0
unfolding dispatch_work_event
dispatch_work_event-Kept packet actor t = elim (Option-cases (arg_str packet 0)) [
  | inl e ↦ rw (e, dispatch_work_event) t
  | inr (handle, e) ↦
      rw (e, dispatch_work_event)
        (dispatch_event-Kept handle (is_terminal packet.ptype) (work_event packet.ptype packet)
          actor t)
]

on_type-Kept :
    (t : PacketType) (packet : Packet) (actor : Actor)
    → Kept actor
    → Kept (on_type t packet actor).0
unfolding on_type
on_type-Kept job_created packet actor t = on_job_created-Kept packet _ actor t
on_type-Kept status_res packet actor t = on_status_res-Kept packet _ actor t
on_type-Kept status_res_unique packet actor t = on_status_res_unique-Kept packet _ actor t
on_type-Kept error packet actor t = on_error-Kept packet _ actor t
on_type-Kept work_status packet actor t = dispatch_work_event-Kept packet actor t
on_type-Kept work_complete packet actor t = dispatch_work_event-Kept packet actor t
on_type-Kept work_fail packet actor t = dispatch_work_event-Kept packet actor t
on_type-Kept work_data packet actor t = dispatch_work_event-Kept packet actor t
on_type-Kept work_warning packet actor t = dispatch_work_event-Kept packet actor t
on_type-Kept work_exception packet actor t = dispatch_work_event-Kept packet actor t
on_type-Kept _ packet actor t = t

turn-Kept : (i : Input) (actor : Actor) → Kept actor → Kept (turn i actor).0
unfolding turn on_command handle_incoming
turn-Kept (tick is_closed) actor t = prune-IsTable is_closed actor.job_events t
turn-Kept (command cmd (ok _)) actor t = t
turn-Kept (command cmd (err e)) actor t = t
turn-Kept no_more_commands actor t = t
turn-Kept (incoming (ok (some packet))) actor t = on_type-Kept packet.ptype packet actor t
turn-Kept (incoming (ok none)) actor t = t
turn-Kept (incoming (err e)) actor t = t

abbrev KeptLoop : Loop → Type 0
KeptLoop (running actor) = Kept actor
KeptLoop (ended outcome rest) = Unit

end_or-KeptLoop :
    (rest : List Input) (t : Turn) (more : Loop × List Effect)
    → KeptLoop more.0
    → KeptLoop (end_or rest t more).0
end_or-KeptLoop rest (after, effects, none) (l, later) k = k
end_or-KeptLoop rest (after, effects, some outcome) (l, later) k = tt

actor_loop-KeptLoop :
    (inputs : List Input) (actor : Actor) → Kept actor → KeptLoop (actor_loop inputs actor).0
unfolding actor_loop
actor_loop-KeptLoop [] actor t = t
actor_loop-KeptLoop (i ∷ rest) actor t =
    end_or-KeptLoop rest (turn i actor) (actor_loop rest (turn i actor).0)
      (actor_loop-KeptLoop rest (turn i actor).0 (turn-Kept i actor t))

-- If an actor that started new still runs after some inputs, its subscribers form a table: no
-- job has two entries, each entry has a slot, and each cursor is within its slots.
pub actor_loop-IsTable :
    (inputs : List Input) (actor : Actor)
    → (actor_loop inputs new_actor).0 ≡ running actor
    → IsTable actor.job_events
actor_loop-IsTable inputs actor e = subst KeptLoop e (actor_loop-KeptLoop inputs new_actor tt)
