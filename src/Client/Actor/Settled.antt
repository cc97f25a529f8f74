-- ===== src/Client/Actor/Settled.antt =====
-- No request of a client is lost or settled twice by the actor of a connection.
use gearman_rs.Base.{
  ℕ, suc, ◌+◌, ◌≡◌, refl, ap, ◌∙◌, ◌==◌, if◌then◌else◌, arith, List, [], ◌∷◌, ◌++◌, none, some,
}
use mathlib.Core.List.{map-append}
use gearman_rs.Error.{ok, err, GearmanError}
use gearman_rs.Client.Incoming.{
  PendingReply, created, status, status_unique, Effect, handle_is, status_is, hang_up, event_sent,
  Actor, handle_incoming, fail_reply, reply_of,
}
use gearman_rs.Client.Incoming.Settled.{settled, waiting, handle_incoming-settled}
use gearman_rs.Client.Actor.{
  Input, command, tick, no_more_commands, incoming, Turn, Loop, running, ended, turn, end_or,
  actor_loop, fail_all_pending, pending_of, on_command,
}

-- How often a channel is on a list.
unfoldable pub times : ℕ → List ℕ → ℕ
times n [] = 0
times n (m ∷ ms) = if n == m then suc (times n ms) else times n ms

times-append : (n : ℕ) (xs ys : List ℕ) → times n (xs ++ ys) ≡ times n xs + times n ys
unfolding times
times-append n [] ys = omega arith
times-append n (x ∷ xs) ys = ground (arith, times-append n xs ys)

settled-append : (xs ys : List Effect) → settled (xs ++ ys) ≡ settled xs ++ settled ys
settled-append [] ys = refl
settled-append (event_sent s ∷ xs) ys = settled-append xs ys
settled-append (handle_is reply r ∷ xs) ys = ap (◌∷◌ reply) (settled-append xs ys)
settled-append (status_is reply r ∷ xs) ys = ap (◌∷◌ reply) (settled-append xs ys)
settled-append (hang_up reply ∷ xs) ys = ap (◌∷◌ reply) (settled-append xs ys)

-- The channels of the commands among the inputs.
abbrev pub asked : List Input → List ℕ
asked [] = []
asked (command cmd sent ∷ rest) = reply_of (pending_of cmd) ∷ asked rest
asked (tick is_closed ∷ rest) = asked rest
asked (no_more_commands ∷ rest) = asked rest
asked (incoming r ∷ rest) = asked rest

-- The channels that a loop has not settled: those waiting, and those of the commands not taken.
abbrev pub left : Loop → List ℕ
left (running actor) = waiting actor.pending_replies
left (ended outcome rest) = asked rest

settled-fail_reply :
    (p : PendingReply) (e : GearmanError) (es : List Effect)
    → settled (fail_reply p e ∷ es) ≡ reply_of p ∷ settled es
settled-fail_reply (created reply events) e es = refl
settled-fail_reply (status reply) e es = refl
settled-fail_reply (status_unique reply) e es = refl

fail_all_pending-settled : (ps : List PendingReply) → settled (fail_all_pending ps) ≡ waiting ps
unfolding fail_all_pending
fail_all_pending-settled [] = refl
fail_all_pending-settled (p ∷ ps) =
    settled-fail_reply p GearmanError.connection_closed (fail_all_pending ps)
    ∙ ap (◌∷◌ (reply_of p)) (fail_all_pending-settled ps)

-- A turn settles what it takes off the queue, or keeps it waiting.
turn-settled :
    (n : ℕ) (i : Input) (actor : Actor)
    → let (after, effects, outcome) = turn i actor in
      times n (settled effects) + times n (waiting after.pending_replies)
      ≡ times n (waiting actor.pending_replies) + times n (asked (i ∷ []))
unfolding turn on_command times
turn-settled n (tick is_closed) actor = omega arith
turn-settled n (command cmd (ok _)) actor =
    rw (map-append reply_of actor.pending_replies (pending_of cmd ∷ [])) (
      ground
        (arith, times-append n (waiting actor.pending_replies) (reply_of (pending_of cmd) ∷ [])))
turn-settled n (command cmd (err e)) actor =
    rw (settled-fail_reply (pending_of cmd) e []) (ground arith)
turn-settled n no_more_commands actor = omega arith
turn-settled n (incoming (ok (some packet))) actor =
    let (after, effects) = handle_incoming packet actor in
    omega (
      arith,
      times-append n (settled effects) (waiting after.pending_replies),
      ap (times n) (handle_incoming-settled packet actor),
    )
turn-settled n (incoming (ok none)) actor = omega arith
turn-settled n (incoming (err e)) actor = omega arith

asked-cons : (i : Input) (rest : List Input) → asked (i ∷ rest) ≡ asked (i ∷ []) ++ asked rest
asked-cons (command cmd sent) rest = refl
asked-cons (tick is_closed) rest = refl
asked-cons no_more_commands rest = refl
asked-cons (incoming r) rest = refl

-- A loop goes on from a turn, or ends with it.
end_or-settled :
    (n k before : ℕ) (rest : List Input) (t : Turn) (more : Loop × List Effect)
    → times n (settled t.1) + times n (waiting t.0.pending_replies) ≡ before + k
    → times n (settled more.1) + times n (left more.0)
      ≡ times n (waiting t.0.pending_replies) + times n (asked rest)
    → times n (settled (end_or rest t more).1) + times n (left (end_or rest t more).0)
      ≡ before + (k + times n (asked rest))
end_or-settled n k before rest (after, effects, none) (l, later) h g = omega (
  arith,
  ap (times n) (settled-append effects later),
  times-append n (settled effects) (settled later),
)
end_or-settled n k before rest (after, effects, some outcome) (l, later) h g = omega (
  arith,
  ap (times n) (settled-append effects (fail_all_pending after.pending_replies)),
  times-append n (settled effects) (settled (fail_all_pending after.pending_replies)),
  ap (times n) (fail_all_pending-settled after.pending_replies),
)

-- Whatever the inputs of an actor, each reply channel is settled, or still waiting in the
-- running actor, or not yet taken from the command channel of an ended one, as often
-- altogether as it waited before or was asked for by a command: no request is lost and none is
-- answered twice.
pub actor_loop-settled :
    (n : ℕ) (inputs : List Input) (actor : Actor)
    → let (l, effects) = actor_loop inputs actor in
      times n (settled effects) + times n (left l)
      ≡ times n (waiting actor.pending_replies) + times n (asked inputs)
unfolding actor_loop times
actor_loop-settled n [] actor = omega arith
actor_loop-settled n (i ∷ rest) actor = omega (
  arith,
  ap (times n) (asked-cons i rest),
  times-append n (asked (i ∷ [])) (asked rest),
  end_or-settled n (times n (asked (i ∷ []))) (times n (waiting actor.pending_replies)) rest
      (turn i actor) (actor_loop rest (turn i actor).0) (turn-settled n i actor)
      (actor_loop-settled n rest (turn i actor).0),
)
