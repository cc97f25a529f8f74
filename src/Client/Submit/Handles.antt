-- ===== src/Client/Submit/Handles.antt =====
-- The handle of a submitted job and its server, by `submit_packet` of src/client/mod.rs.
use gearman_rs.Base.{
  ℕ, ◌<◌, ◌≡◌, ◌≢◌, refl, ap, ◌∙◌, Bool, true, false, Option, none, some, List, ◌∷◌, length,
  get_elem?, get_elem?-lt, arith, inl, inr, Bool-cases, Bytes,
}
use gearman_rs.Error.{Result, ok, err}
use gearman_rs.Protocol.Packet.{Packet}
use gearman_rs.Client.Job.{JobHandle, JobStatus, SubmittedJob, JobEvent, foreground}
use gearman_rs.Client.Actor.{ClientCommand}
use gearman_rs.Client.Ketama.{Ring}
use gearman_rs.Client.Pool.{
  ServerSlot, ServerPool, get, is_healthy, next_healthy, by_unique, select_for_submit,
}
use gearman_rs.Client.Pool.Choice.{RingWithin, select_for_submit-healthy}
use gearman_rs.Client.Submit.{
  Channels, await, events_of, submitted, submit_to, submit_selected, submit_packet, query,
  query_by_unique, get_status, get_status_unique, expect_events, finish_fg, submit_fg_unique,
  job_request,
}

-- What a handle from a submission has: a server of the pool that was connected, the unique id, and
-- an event stream just for a foreground job.
abbrev pub IsHandleFor :
    ServerPool → Option Bytes → Bool → Channels → Option (Result SubmittedJob × ServerPool) → Type 0
IsHandleFor pool unique in_background chans none = ⊥
IsHandleFor pool unique in_background chans (some (err e, after)) = Unit
IsHandleFor pool unique in_background chans (some (ok job, after)) =
    (job.handle.server_index < length pool.servers)
    × (is_healthy pool job.handle.server_index ≡ some true)
    × (job.handle.unique ≡ unique)
    × (job.events ≡ events_of in_background chans)

submitted-IsHandleFor :
    (pool after : ServerPool) (unique : Option Bytes) (in_background : Bool) (chans : Channels)
    (i : ℕ) (r : Result Bytes)
    → i < length pool.servers
    → is_healthy pool i ≡ some true
    → IsHandleFor pool unique in_background chans
        (some (submitted i unique (events_of in_background chans) r, after))
submitted-IsHandleFor pool after unique in_background chans i (ok handle) b h = (b, h, refl, refl)
submitted-IsHandleFor pool after unique in_background chans i (err e) b h = tt

submit_to-IsHandleFor :
    (pool before : ServerPool) (slot : ServerSlot) (i : ℕ) (packet : Packet) (unique : Option Bytes)
    (in_background : Bool) (chans : Channels) (answer : Option (Result Bytes))
    → i < length pool.servers
    → is_healthy pool i ≡ some true
    → IsHandleFor pool unique in_background chans
        (submit_to i (some slot) packet unique in_background chans answer before)
submit_to-IsHandleFor pool before slot i packet unique in_background chans answer b up =
    elim (Bool-cases slot.receiver_alive) [
      | inl alive ↦
          rw alive (submitted-IsHandleFor pool _ unique in_background chans i (await answer) b up)
      | inr gone ↦ rw gone tt
    ]

selected-IsHandleFor :
    (pool p : ServerPool) (panicked_or : Option (Option ℕ)) (picked : Option ℕ) (packet : Packet)
    (unique : Option Bytes) (in_background : Bool) (chans : Channels)
    (answer : Option (Result Bytes))
    → p.servers ≡ pool.servers
    → panicked_or ≡ some picked
    → ((i : ℕ) → picked ≡ some i → (i < length pool.servers) × (is_healthy pool i ≡ some true))
    → IsHandleFor pool unique in_background chans
        (submit_selected (panicked_or, p) packet unique in_background chans answer)
selected-IsHandleFor pool p c none packet unique in_background chans answer same e h = rw e tt
selected-IsHandleFor pool p c (some i) packet unique in_background chans answer same e h =
    let (b, up) = h i refl in
    let (slot, e') = get_elem?-lt pool.servers i b in
    let found : get_elem? p.servers i ≡ some slot = ap (λ xs. get_elem? xs i) same ∙ e' in
    rw (e, found)
      (submit_to-IsHandleFor pool p slot i packet unique in_background chans answer b up)

next_healthy-servers : (pool : ServerPool) → (next_healthy pool).1.servers ≡ pool.servers
unfolding next_healthy
next_healthy-servers pool = ground arith

by_unique-servers :
    (digest : Bytes → Bytes) (pool : ServerPool) (ring : Option Ring) (unique : Option Bytes)
    → (by_unique digest pool ring unique).1.servers ≡ pool.servers
by_unique-servers digest pool (some ring) (some (b ∷ unique)) = refl
by_unique-servers digest pool _ _ = next_healthy-servers pool

pub select_for_submit-servers :
    (digest : Bytes → Bytes) (pool : ServerPool) (unique : Option Bytes)
    → (select_for_submit digest pool unique).1.servers ≡ pool.servers
unfolding select_for_submit
select_for_submit-servers digest pool unique = by_unique-servers digest pool pool.ring unique

-- For a pool whose ring, if any, has only points of the pool's servers, `submit_packet` does
-- not panic, and a job that it returns has a handle with the index of a healthy server of the
-- pool and the given unique id, and an event stream exactly when it is a foreground job.
pub submit_packet-IsHandleFor :
    (digest : Bytes → Bytes) (packet : Packet) (unique : Option Bytes) (in_background : Bool)
    (chans : Channels) (answer : Option (Result Bytes)) (pool : ServerPool)
    → RingWithin (length pool.servers) pool.ring
    → IsHandleFor pool unique in_background chans
        (submit_packet digest packet unique in_background chans answer pool)
unfolding submit_packet
submit_packet-IsHandleFor digest packet unique in_background chans answer pool w =
    let (picked, e, h) = select_for_submit-healthy digest pool unique w in
    selected-IsHandleFor pool (select_for_submit digest pool unique).1
      (select_for_submit digest pool unique).0 picked packet unique in_background chans answer
      (select_for_submit-servers digest pool unique) e h

result_of-some :
    (pool : ServerPool) (unique : Option Bytes) (chans : Channels) (events : List JobEvent)
    (r : Option (Result SubmittedJob × ServerPool))
    → IsHandleFor pool unique false chans r
    → finish_fg events r ≢ none
result_of-some pool unique chans events none h = elim h [ ]
result_of-some pool unique chans events (some (err e, after)) h = λ q. cc
result_of-some pool unique chans events (some (ok job, after)) (b, up, u, stream) =
    rw (stream, expect_events) (λ q. cc)

-- For a pool whose ring, if any, has only points of the pool's servers, a foreground
-- submission does not panic: the event stream that it expects is there.
pub submit_fg_unique-no_panic :
    (digest : Bytes → Bytes) (function : Bytes) (unique : Option Bytes) (payload : Bytes)
    (chans : Channels) (answer : Option (Result Bytes)) (events : List JobEvent) (pool : ServerPool)
    → RingWithin (length pool.servers) pool.ring
    → submit_fg_unique digest function unique payload chans answer events pool ≢ none
unfolding submit_fg_unique
submit_fg_unique-no_panic digest function unique payload chans answer events pool w =
    result_of-some pool unique chans events _ (
      submit_packet-IsHandleFor digest (job_request function unique payload foreground) unique false
        chans answer pool w)

query-some :
    (cmd : ClientCommand) (i : ℕ) (answer : Option (Result JobStatus)) (pool : ServerPool)
    → i < length pool.servers
    → query cmd i (get pool i) answer pool ≢ none
query-some cmd i answer pool b =
    let (slot, e) = get_elem?-lt pool.servers i b in
    rw e (elim (Bool-cases slot.receiver_alive) [
      | inl alive ↦ rw alive (λ q. cc)
      | inr gone ↦ rw gone (λ q. cc)
    ])

query_by_unique-some :
    (unique : Option Bytes) (h : JobHandle) (reply : ℕ) (answer : Option (Result JobStatus))
    (pool : ServerPool)
    → h.server_index < length pool.servers
    → query_by_unique unique h reply answer pool ≢ none
query_by_unique-some none h reply answer pool b = λ q. cc
query_by_unique-some (some u) h reply answer pool b = query-some _ h.server_index answer pool b

-- A handle whose server index is one of the pool's is queried by `get_status` and by
-- `get_status_unique` without a panic.
pub queries-no_panic :
    (h : JobHandle) (reply : ℕ) (answer : Option (Result JobStatus)) (pool : ServerPool)
    → h.server_index < length pool.servers
    → (get_status h reply answer pool ≢ none) × (get_status_unique h reply answer pool ≢ none)
unfolding get_status get_status_unique
queries-no_panic h reply answer pool b =
    (query-some _ h.server_index answer pool b, query_by_unique-some h.unique h reply answer pool b)
