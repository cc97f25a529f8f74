-- ===== src/Client/Incoming/Matching.antt =====
-- The server answers in order: each request on a connection gets the answer meant for it, with
-- events of jobs arriving in between.
use gearman_rs.Base.{
  ℕ, ◌≡◌, refl, ap, ◌∙◌, List, [], ◌∷◌, ◌++◌, map, Option, none, some, inl, inr, Option-cases,
  Bytes, Bool, true, false,
}
use gearman_rs.Error.{ok, GearmanError}
use gearman_rs.Protocol.PacketType.{
  PacketType, job_created, status_res, status_res_unique, error, work_status, work_complete,
  work_fail, work_data, work_warning, work_exception,
}
use gearman_rs.Protocol.Packet.{Packet, arg_str}
use gearman_rs.Client.Subscribers.{Sender, Sent}
use gearman_rs.Client.Job.{JobEvent}
use gearman_rs.Client.Events.{deliver_to}
use gearman_rs.Client.Incoming.{
  PendingReply, created, status, status_unique, Effect, handle_is, status_is, hang_up, event_sent,
  Actor, fail_reply, parse_status_res, parse_status_res_unique, handle_incoming, on_type,
  dispatch_work_event, dispatch_event, work_event, is_terminal,
}

-- What a request is meant to get from a packet.
pub data Answers (packet : Packet) : PendingReply → Effect → Type 0 where
  creates :
      (reply : ℕ) (events : Option Sender) (handle : Bytes)
      → packet.ptype ≡ job_created
      → arg_str packet 0 ≡ some handle
      → Answers packet (created reply events) (handle_is reply (ok handle))
  reports :
      (reply : ℕ)
      → packet.ptype ≡ status_res
      → Answers packet (status reply) (status_is reply (ok (parse_status_res packet)))
  reports_unique :
      (reply : ℕ)
      → packet.ptype ≡ status_res_unique
      → Answers packet (status_unique reply) (status_is reply (ok (parse_status_res_unique packet)))
  refuses :
      (p : PendingReply) (code text : Bytes)
      → packet.ptype ≡ error
      → arg_str packet 0 ≡ some code
      → arg_str packet 1 ≡ some text
      → Answers packet p (fail_reply p (GearmanError.server_error code text))

abbrev pub is_reply : PacketType → Bool
is_reply job_created = true
is_reply status_res = true
is_reply status_res_unique = true
is_reply error = true
is_reply _ = false

-- The packets answer the requests in order, with other packets between.
pub data Exchange : List PendingReply → List Packet → List Effect → Type 0 where
  done : Exchange [] [] []
  news :
      {ps : List PendingReply} {packets : List Packet} {es : List Effect} (packet : Packet)
      → is_reply packet.ptype ≡ false
      → Exchange ps packets es
      → Exchange ps (packet ∷ packets) es
  answer :
      {ps : List PendingReply} {packets : List Packet} {es : List Effect} (packet : Packet)
      (p : PendingReply) (e : Effect)
      → Answers packet p e
      → Exchange ps packets es
      → Exchange (p ∷ ps) (packet ∷ packets) (e ∷ es)

-- The effects that are no events.
abbrev pub answers_of : List Effect → List Effect
answers_of [] = []
answers_of (event_sent s ∷ es) = answers_of es
answers_of (handle_is reply r ∷ es) = handle_is reply r ∷ answers_of es
answers_of (status_is reply r ∷ es) = status_is reply r ∷ answers_of es
answers_of (hang_up reply ∷ es) = hang_up reply ∷ answers_of es

answers_of-append : (xs ys : List Effect) → answers_of (xs ++ ys) ≡ answers_of xs ++ answers_of ys
answers_of-append [] ys = refl
answers_of-append (event_sent s ∷ xs) ys = answers_of-append xs ys
answers_of-append (handle_is reply r ∷ xs) ys =
    ap (◌∷◌ (handle_is reply r)) (answers_of-append xs ys)
answers_of-append (status_is reply r ∷ xs) ys =
    ap (◌∷◌ (status_is reply r)) (answers_of-append xs ys)
answers_of-append (hang_up reply ∷ xs) ys = ap (◌∷◌ (hang_up reply)) (answers_of-append xs ys)

answers_of-event_sent : (sent : List Sent) → answers_of (map event_sent sent) ≡ []
answers_of-event_sent [] = refl
answers_of-event_sent (s ∷ sent) = answers_of-event_sent sent

-- The packets of a connection, one after another.
unfoldable pub handle_all : List Packet → Actor → Actor × List Effect
handle_all [] actor = (actor, [])
handle_all (packet ∷ packets) actor =
    let (after, effects) = handle_incoming packet actor in
    let (last, more) = handle_all packets after in (last, effects ++ more)

abbrev Passes : Actor → Actor × List Effect → Type 0
Passes before (after, effects) =
    (after.pending_replies ≡ before.pending_replies) × (answers_of effects ≡ [])

dispatch_event-Passes :
    (handle : Bytes) (terminal : Bool) (event : Option JobEvent) (actor : Actor)
    → Passes actor (dispatch_event handle terminal event actor)
dispatch_event-Passes handle terminal none actor = (refl, refl)
dispatch_event-Passes handle terminal (some event) actor =
    (refl, answers_of-event_sent (deliver_to handle event terminal actor.job_events).1)

dispatch_work_event-Passes :
    (packet : Packet) (actor : Actor) → Passes actor (dispatch_work_event packet actor)
unfolding dispatch_work_event
dispatch_work_event-Passes packet actor = elim (Option-cases (arg_str packet 0)) [
  | inl e ↦ rw (e, dispatch_work_event) (refl, refl)
  | inr (handle, e) ↦
      rw (e, dispatch_work_event)
        (dispatch_event-Passes handle (is_terminal packet.ptype) (work_event packet.ptype packet)
          actor)
]

on_type-Passes :
    (t : PacketType) (packet : Packet) (actor : Actor)
    → is_reply t ≡ false
    → Passes actor (on_type t packet actor)
unfolding on_type
on_type-Passes job_created packet actor h = cc
on_type-Passes status_res packet actor h = cc
on_type-Passes status_res_unique packet actor h = cc
on_type-Passes error packet actor h = cc
on_type-Passes work_status packet actor h = dispatch_work_event-Passes packet actor
on_type-Passes work_complete packet actor h = dispatch_work_event-Passes packet actor
on_type-Passes work_fail packet actor h = dispatch_work_event-Passes packet actor
on_type-Passes work_data packet actor h = dispatch_work_event-Passes packet actor
on_type-Passes work_warning packet actor h = dispatch_work_event-Passes packet actor
on_type-Passes work_exception packet actor h = dispatch_work_event-Passes packet actor
on_type-Passes _ packet actor h = (refl, refl)

handle_incoming-Answers :
    (packet : Packet) {p : PendingReply} {e : Effect} (actor : Actor) (ps : List PendingReply)
    → Answers packet p e
    → actor.pending_replies ≡ p ∷ ps
    → ((handle_incoming packet actor).0.pending_replies ≡ ps)
      × ((handle_incoming packet actor).1 ≡ e ∷ [])
unfolding handle_incoming arg_str
handle_incoming-Answers packet actor ps (creates reply events handle t h) q =
    rw (t, q, h) (refl, refl)
handle_incoming-Answers packet actor ps (reports reply t) q = rw (t, q) (refl, refl)
handle_incoming-Answers packet actor ps (reports_unique reply t) q = rw (t, q) (refl, refl)
handle_incoming-Answers packet actor ps (refuses p code text t c x) q = rw (t, q, c, x) (refl, refl)

Answers-answers_of :
    {packet : Packet} {p : PendingReply} {e : Effect} (es : List Effect)
    → Answers packet p e
    → answers_of (e ∷ []) ++ es ≡ e ∷ es
Answers-answers_of es (creates reply events handle t h) = refl
Answers-answers_of es (reports reply t) = refl
Answers-answers_of es (reports_unique reply t) = refl
Answers-answers_of es (refuses (created reply events) code text t c x) = refl
Answers-answers_of es (refuses (status reply) code text t c x) = refl
Answers-answers_of es (refuses (status_unique reply) code text t c x) = refl

-- When the server answers the pending requests in order, each with a packet of its kind or an
-- ERROR (a created job's handle and an ERROR's code and text being UTF-8), with any number of
-- other packets in between, then every request gets the answer meant for it, in order, and
-- none is left pending.
pub handle_all-Exchange :
    {ps : List PendingReply} {packets : List Packet} {es : List Effect} (actor : Actor)
    → Exchange ps packets es
    → actor.pending_replies ≡ ps
    → ((handle_all packets actor).0.pending_replies ≡ [])
      × (answers_of (handle_all packets actor).1 ≡ es)
unfolding handle_all handle_incoming
handle_all-Exchange actor done q = (q, refl)
handle_all-Exchange actor (news packet n x) q =
    let (kept, silent) = on_type-Passes packet.ptype packet actor n in
    let (none_left, answered) = handle_all-Exchange (handle_incoming packet actor).0 x (kept ∙ q) in
    (none_left, answers_of-append (handle_incoming packet actor).1 _ ∙ rw silent answered)
handle_all-Exchange actor (answer packet p e a x) q =
    let (taken, effect) = handle_incoming-Answers packet actor _ a q in
    let (none_left, answered) = handle_all-Exchange (handle_incoming packet actor).0 x taken in
    (
      none_left,
      answers_of-append (handle_incoming packet actor).1 _
          ∙ rw (effect, answered) (Answers-answers_of _ a),
    )
