-- ===== src/Client/Tests.antt =====
-- The theorems on the client at concrete inputs: servers, jobs, events and answers.
mod Selection
mod Placement
mod Requests
mod Connecting
use gearman_rs.Base.{
  ℕ, zero, suc, ◌+◌, ◌≡◌, ◌≢◌, ◌<◌, refl, Bool, true, false, ◌==◌, Bytes, codes, List, [], ◌∷◌,
  ◌++◌, Option, none, some, arith, length, bytes_eq, if◌then◌else◌,
}
use gearman_rs.Base.Utf8.{is_utf8, from_utf8}
use gearman_rs.Error.{Result, ok, err, GearmanError}
use gearman_rs.Protocol.PacketType.{job_created, work_data, status_res}
use gearman_rs.Protocol.Packet.{Packet, response, arg_str}
use gearman_rs.Client.Job.{JobEvent}
use gearman_rs.Client.Subscribers.{
  HandleSubscribers, Sender, Sent, deliver, add, no_subscribers, prune,
}
use gearman_rs.Client.Subscribers.Turns.{received, deliver_rounds, deliver_rounds-received}
use gearman_rs.Client.Subscribers.Prune.{open_sent, deliver-prune}
use gearman_rs.Client.Subscribers.Retire.{run_job, run_job-received}
use gearman_rs.Client.Events.{JobEventSubscribers, find, subscribe, deliver_to}
use gearman_rs.Client.Events.Laws.{IsTable, find-deliver_to_other, find-subscribe}
use gearman_rs.Client.Events.Store.{
  Op, subscription, delivery, release_closed, store_of, run_table, run_store, run_table-run_store,
}
use gearman_rs.Client.Incoming.{
  PendingReply, created, status, Effect, handle_is, Actor, handle_incoming, on_type, on_job_created,
}
use gearman_rs.Client.Incoming.Settled.{settled, waiting, handle_incoming-settled}
use gearman_rs.Client.Incoming.Matching.{
  Answers, creates, Exchange, done, news, answer, answers_of, handle_all, handle_all-Exchange,
}
use gearman_rs.Client.Actor.{
  ClientCommand, Input, command, incoming, query_status, new_actor, actor_loop, turn, running,
  on_command,
}
use gearman_rs.Client.Actor.Settled.{times, left, asked, actor_loop-settled}
use gearman_rs.Client.Actor.Tables.{actor_loop-IsTable}
use gearman_rs.Client.Server.{Attempt, refused, Server, new_server, try_server, run_server_actor}
use gearman_rs.Client.Server.Backoff.{
  delays_from, IsServer, IsTurn, run_server_actor-delays_from, try_server-IsTurn,
}

-- Two subscribers of a job.
abbrev two : HandleSubscribers
two = record { slots = some 1 ∷ some 2 ∷ []; cursor = 0 }

abbrev chunk : JobEvent
chunk = JobEvent.progress (codes "chunk")

abbrev finished : JobEvent
finished = JobEvent.complete (codes "done")

run_job-received_example :
    ((run_job two (chunk ∷ []) finished).0.slots ≡ [])
    × (received 2 (run_job two (chunk ∷ []) finished).1 ≡ chunk ∷ finished ∷ [])
run_job-received_example = run_job-received two (chunk ∷ []) finished 2 refl refl

abbrev table : JobEventSubscribers
table = (codes "H:1", two) ∷ []

others : codes "H:12" ≢ codes "H:1"
others = λ e. cc

-- A submission that waits, the news of another job, and the answer.
abbrev waiting_actor : Actor
waiting_actor = record { pending_replies = created 5 (some 1) ∷ []; job_events = table }

abbrev news_packet : Packet
news_packet = response work_data (codes "H:1" ∷ codes "chunk" ∷ [])

abbrev created_packet : Packet
created_packet = response job_created (codes "H:2" ∷ [])

created_handle : arg_str created_packet 0 ≡ some (codes "H:2")
unfolding arg_str from_utf8 is_utf8
created_handle = refl

exchange :
    Exchange
      (created 5 (some 1) ∷ [])
      (news_packet ∷ created_packet ∷ [])
      (handle_is 5 (ok (codes "H:2")) ∷ [])
exchange =
    news news_packet refl
      (answer created_packet _ _ (creates 5 (some 1) (codes "H:2") refl created_handle) done)

handle_all-Exchange_example :
    ((handle_all (news_packet ∷ created_packet ∷ []) waiting_actor).0.pending_replies ≡ [])
    × (answers_of (handle_all (news_packet ∷ created_packet ∷ []) waiting_actor).1
        ≡ handle_is 5 (ok (codes "H:2")) ∷ [])
handle_all-Exchange_example = handle_all-Exchange waiting_actor exchange refl

-- A query whose packet is sent, and a connection that is lost with another query in the channel.
abbrev lost : List Input
lost =
    command (query_status news_packet 5) (ok tt)
    ∷ incoming (ok none)
    ∷ command (query_status news_packet 6) (ok tt)
    ∷ []

actor_loop-settled_example :
    times 5 (settled (actor_loop lost new_actor).1) + times 5 (left (actor_loop lost new_actor).0)
    ≡ times 5 [] + times 5 (5 ∷ 6 ∷ [])
actor_loop-settled_example = actor_loop-settled 5 lost new_actor

abbrev sent_one : List Input
sent_one = command (query_status news_packet 5) (ok tt) ∷ []

still_running :
    (actor_loop sent_one new_actor).0
    ≡ running (record { pending_replies = status 5 ∷ []; job_events = [] })
unfolding actor_loop turn on_command
still_running = refl

-- A submission whose job is created: its subscriber has an entry.
abbrev submission : List Input
submission =
    command (ClientCommand.submit (response job_created []) 5 (some 9)) (ok tt)
    ∷ incoming (ok (some (response job_created (codes "H:1" ∷ []))))
    ∷ []

abbrev with_entry : Actor
with_entry = record {
  pending_replies = [];
  job_events = (codes "H:1", record { slots = some 9 ∷ []; cursor = 0 }) ∷ [];
}

entry_made : (actor_loop submission new_actor).0 ≡ running with_entry
unfolding actor_loop turn on_command handle_incoming on_type on_job_created arg_str from_utf8
    is_utf8 subscribe add bytes_eq
entry_made = refl

actor_loop-IsTable_example : IsTable with_entry.job_events
actor_loop-IsTable_example = actor_loop-IsTable submission with_entry entry_made

-- Two refused connections.
abbrev refusals : List Attempt
refusals = refused GearmanError.timeout ∷ refused GearmanError.timeout ∷ []

run_server_actor-delays_from_example :
    (run_server_actor true refusals new_server).1 ≡ 100 ∷ 200 ∷ []
run_server_actor-delays_from_example = run_server_actor-delays_from true refusals (refl, (refl, tt))

try_server-IsTurn_example :
    IsServer (try_server true (refused GearmanError.timeout) new_server).0.0
    × IsTurn
        (try_server true (refused GearmanError.timeout) new_server).0.0
        (try_server true (refused GearmanError.timeout) new_server).0.1
try_server-IsTurn_example =
    try_server-IsTurn true (refused GearmanError.timeout) new_server (omega arith, omega arith) refl

deliver-prune_example : deliver (prune (λ s. s == 1) two) chunk false ≡ (
  prune (λ s. s == 1) (deliver two chunk false).0,
  open_sent (λ s. s == 1) (deliver two chunk false).1,
  (deliver two chunk false).2,
)
deliver-prune_example = deliver-prune (λ s. s == 1) two chunk false

-- A subscription, the end of the job, and a release.
abbrev ops : List Op
ops =
    subscription (codes "H:1") 3
    ∷ delivery (codes "H:1") finished true
    ∷ release_closed (λ s. s == 1)
    ∷ []

table-IsTable : IsTable table
unfolding find
table-IsTable = (refl, omega arith, ground arith, tt)

run_table-run_store_example :
    (store_of (run_table ops table).0 ≡ (run_store ops (store_of table)).0)
    × ((run_table ops table).1 ≡ (run_store ops (store_of table)).1)
run_table-run_store_example = run_table-run_store ops table table-IsTable
