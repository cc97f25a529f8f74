-- ===== src/Client/Tests/Requests.antt =====
-- The theorems on requests and their outcomes at concrete jobs.
use gearman_rs.Base.{
  ◌≡◌, refl, true, false, Bytes, codes, [], ◌∷◌, none, some, arith, replicate, get_elem?,
}
use gearman_rs.Base.Rotation.{find}
use gearman_rs.Error.{ok}
use gearman_rs.Protocol.Packet.{Packet}
use gearman_rs.Protocol.Codec.{new, decode, encode}
use gearman_rs.Client.Job.{SubmittedJob, foreground}
use gearman_rs.Client.Actor.{ClientCommand, query_status, query_status_unique}
use gearman_rs.Client.Ketama.{
  contains, next_after, position, start_of, md5_u32, words, partition_point,
}
use gearman_rs.Client.Ketama.Panics.{select_or_panic, walk_or_panic, find_or_panic}
use gearman_rs.Client.Pool.{ServerSlot, ServerPool, new_pool, select_for_submit, is_healthy}
use gearman_rs.Client.Submit.{
  Channels, events_of, put, send_to_slot, job_request, status_request, status_unique_request,
  submit_packet, get_status, get_status_unique,
}
use gearman_rs.Client.Submit.Requests.{job_request-decoded}
use gearman_rs.Client.Submit.Handles.{IsHandleFor, submit_packet-IsHandleFor}
use gearman_rs.Client.Submit.Queries.{Queries, submit_packet-Queries}

abbrev digest : Bytes → Bytes
digest s = replicate 16 0

abbrev chans : Channels
chans = record { reply = 1; events = 2 }

abbrev job : Packet
job = job_request (codes "resize") none (codes "image") foreground

job_request-decoded_example : decode new (encode new job []).1 ≡ (ok (some job), [])
job_request-decoded_example =
    job_request-decoded new (codes "resize") none (codes "image") foreground (omega arith)
      (ground arith) tt (omega arith)

-- Two servers on a ring, the owner of the id being down.
abbrev up : ServerSlot
up = record { queue = []; receiver_alive = true; connected = true; attempted = true }

abbrev on_ring : ServerPool
on_ring =
    new_pool (up ∷ record up { connected = false } ∷ [])
      (some (record { points = (4, 1) ∷ (10, 0) ∷ (20, 1) ∷ [] }))

abbrev keyed : Packet
keyed = job_request (codes "resize") (some (codes "id")) (codes "image") foreground

submit_packet-IsHandleFor_example :
    IsHandleFor on_ring
      (some (codes "id"))
      false
      chans
      (submit_packet digest keyed (some (codes "id")) false chans (some (ok (codes "H:1"))) on_ring)
submit_packet-IsHandleFor_example =
    submit_packet-IsHandleFor digest keyed (some (codes "id")) false chans (some (ok (codes "H:1")))
      on_ring (ground arith)

-- The pool after the job went to the first server, since the owner is down.
abbrev went : ServerPool
went =
    put on_ring 0 (send_to_slot up (ClientCommand.submit keyed chans.reply (events_of false chans)))

abbrev created : SubmittedJob
created = record {
  handle = record { server_index = 0; handle = codes "H:1"; unique = some (codes "id") };
  events = some 2;
}

created_there :
    submit_packet digest keyed (some (codes "id")) false chans (some (ok (codes "H:1"))) on_ring
    ≡ some (ok created, went)
unfolding submit_packet select_for_submit is_healthy select_or_panic walk_or_panic find_or_panic
    contains next_after position find start_of md5_u32 words partition_point
created_there = refl

submit_packet-Queries_example :
    (slot : ServerSlot) × (get_elem? on_ring.servers 0 ≡ some slot)
    × Queries (get_status created.handle 7 none went) none 0 (
        send_to_slot
          (send_to_slot slot (ClientCommand.submit keyed chans.reply (events_of false chans)))
          (query_status (status_request (codes "H:1")) 7))
    × ((id : Bytes)
        → some (codes "id") ≡ some id
        → Queries (get_status_unique created.handle 7 none went) none 0 (
            send_to_slot
              (send_to_slot slot (ClientCommand.submit keyed chans.reply (events_of false chans)))
              (query_status_unique (status_unique_request id) 7)))
submit_packet-Queries_example =
    submit_packet-Queries keyed (some (codes "id")) false chans (some (ok (codes "H:1"))) digest
      on_ring created went 7 none created_there
