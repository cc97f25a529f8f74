-- ===== src/Client/Actor.antt =====
-- src/client/mod.rs: `ClientCommand`, `ActorOutcome`, `actor_loop` and `fail_all_pending`. An
-- `Input` is the branch of `select!` that is taken, with what the connection or the channel gives
-- it; the outcome of `conn.send` comes with the command.
pub mod Settled
pub mod Tables
use gearman_rs.Base.{ℕ, Bool, Option, none, some, List, [], ◌∷◌, ◌++◌}
use gearman_rs.Error.{Result, ok, err, GearmanError}
use gearman_rs.Protocol.Packet.{Packet}
use gearman_rs.Client.Subscribers.{Sender}
use gearman_rs.Client.Events.{prune_closed_subscribers}
use gearman_rs.Client.Incoming.{
  PendingReply, created, status, status_unique, Effect, handle_is, status_is, Actor, fail_reply,
  handle_incoming,
}

-- The packet, the channel of the reply, and for a foreground job that of its events.
pub data ClientCommand : Type 0 where
  submit : Packet → ℕ → Option Sender → ClientCommand
  query_status : Packet → ℕ → ClientCommand
  query_status_unique : Packet → ℕ → ClientCommand

pub data ActorOutcome : Type 0 where
  connection_lost client_dropped : ActorOutcome

pub data Input : Type 0 where
  -- the prune timer, with the channels whose receiver is gone
  tick : (Sender → Bool) → Input
  -- a command, with what `conn.send` of its packet returns
  command : ClientCommand → Result (Unit {0}) → Input
  no_more_commands : Input
  -- what `conn.recv` returns
  incoming : Result (Option Packet) → Input

-- What a command waits for once its packet is sent.
abbrev pub pending_of : ClientCommand → PendingReply
pending_of (submit packet reply events) = created reply events
pending_of (query_status packet reply) = status reply
pending_of (query_status_unique packet reply) = status_unique reply

-- The actor after one turn of the loop, the effects, and the outcome at a `break`.
abbrev pub Turn : Type 0
Turn = Actor × List Effect × Option ActorOutcome

abbrev pub go_on : Actor × List Effect → Turn
go_on (actor, effects) = (actor, effects, none)

unfoldable pub on_command : ClientCommand → Result (Unit {0}) → Actor → Turn
on_command cmd (ok _) actor =
    (record actor { pending_replies = actor.pending_replies ++ (pending_of cmd ∷ []) }, [], none)
on_command cmd (err e) actor = (actor, fail_reply (pending_of cmd) e ∷ [], some connection_lost)

-- One turn of the loop in `actor_loop`.
unfoldable pub turn : Input → Actor → Turn
unfolding on_command
turn (tick is_closed) actor =
    (record actor { job_events = prune_closed_subscribers is_closed actor.job_events }, [], none)
turn (command cmd sent) actor = on_command cmd sent actor
turn no_more_commands actor = (actor, [], some client_dropped)
turn (incoming (ok (some packet))) actor = go_on (handle_incoming packet actor)
turn (incoming (ok none)) actor = (actor, [], some connection_lost)
turn (incoming (err e)) actor = (actor, [], some connection_lost)

unfoldable pub fail_all_pending : List PendingReply → List Effect
fail_all_pending [] = []
fail_all_pending (p ∷ rest) = fail_reply p GearmanError.connection_closed ∷ fail_all_pending rest

abbrev pub new_actor : Actor
new_actor = record { pending_replies = []; job_events = [] }

-- Where a loop stands: still running, or ended with the inputs it has not taken.
pub data Loop : Type 0 where
  running : Actor → Loop
  ended : ActorOutcome → List Input → Loop

abbrev pub push_effects : List Effect → Loop × List Effect → Loop × List Effect
push_effects effects (l, more) = (l, effects ++ more)

abbrev pub end_or : List Input → Turn → Loop × List Effect → Loop × List Effect
end_or rest (actor, effects, none) more = push_effects effects more
end_or rest (actor, effects, some outcome) more =
    (ended outcome rest, effects ++ fail_all_pending actor.pending_replies)

-- `actor_loop` from an actor on; it starts with `new_actor`.
unfoldable pub actor_loop : List Input → Actor → Loop × List Effect
actor_loop [] actor = (running actor, [])
actor_loop (i ∷ rest) actor =
    let more = actor_loop rest (turn i actor).0 in end_or rest (turn i actor) more
