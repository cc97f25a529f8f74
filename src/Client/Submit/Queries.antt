-- ===== src/Client/Submit/Queries.antt =====
-- The status query of a job after its submission, by `submit_packet`, `get_status` and
-- `get_status_unique` of src/client/mod.rs.
use gearman_rs.Base.{
  ℕ, zero, suc, ◌≡◌, refl, sym, ap, ◌∙◌, Bool, true, false, Option, none, some, List, [], ◌∷◌,
  Bytes, subst, if◌then◌else◌, get_elem?, set, Bool-cases, inl, inr,
}
use gearman_rs.Error.{Result, ok, err}
use gearman_rs.Protocol.Packet.{Packet}
use gearman_rs.Client.Job.{SubmittedJob, JobStatus}
use gearman_rs.Client.Actor.{ClientCommand, submit, query_status, query_status_unique}
use gearman_rs.Client.Pool.{ServerSlot, ServerPool, get, select_for_submit}
use gearman_rs.Client.Submit.{
  Channels, await, send_to_slot, put, events_of, submitted, submit_to, submit_selected,
  submit_packet, status_request, status_unique_request, query, query_by_unique, get_status,
  get_status_unique,
}
use gearman_rs.Client.Submit.Handles.{select_for_submit-servers}

-- A call that returns the answer, and has the server with this index in this state.
abbrev pub Queries :
    Option (Result JobStatus × ServerPool) → Option (Result JobStatus) → ℕ → ServerSlot → Type 0
Queries called status i slot =
    (final : ServerPool) × (called ≡ some (await status, final))
    × (get_elem? final.servers i ≡ some slot)

abbrev index_of : Option (Result SubmittedJob × ServerPool) → ℕ
index_of (some (ok job, after)) = job.handle.server_index
index_of _ = 0

abbrev unique_of : Option (Result SubmittedJob × ServerPool) → Option Bytes
unique_of (some (ok job, after)) = job.handle.unique
unique_of _ = none

abbrev pool_of : ServerPool → Option (Result SubmittedJob × ServerPool) → ServerPool
pool_of pool none = pool
pool_of pool (some (r, after)) = after

get_elem?-set :
    (xs : List ServerSlot) (i : ℕ) (old slot : ServerSlot)
    → get_elem? xs i ≡ some old
    → get_elem? (set xs i slot) i ≡ some slot
get_elem?-set [] i old slot e = cc
get_elem?-set (x ∷ xs) zero old slot e = refl
get_elem?-set (x ∷ xs) (suc i) old slot e = get_elem?-set xs i old slot e

if_true : {A : Type 0} (b : Bool) (x y : A) → b ≡ true → (if b then x else y) ≡ x
if_true true x y e = refl
if_true false x y e = cc

-- A command through a slot whose actor runs.
query-Queries :
    (cmd : ClientCommand) (i : ℕ) (found : Option ServerSlot) (slot : ServerSlot)
    (status : Option (Result JobStatus)) (pool : ServerPool)
    → found ≡ some slot
    → get_elem? pool.servers i ≡ some slot
    → slot.receiver_alive ≡ true
    → Queries (query cmd i found status pool) status i (send_to_slot slot cmd)
query-Queries cmd i found slot status pool e at_i alive = (
  put pool i (send_to_slot slot cmd),
  ap (λ o. query cmd i o status pool) e ∙ if_true slot.receiver_alive _ _ alive,
  get_elem?-set pool.servers i slot (send_to_slot slot cmd) at_i,
)

module _ (packet : Packet) (unique : Option Bytes) (in_background : Bool) (chans : Channels)
    (answer : Option (Result Bytes)) where
  abbrev pub command : ClientCommand
  command = submit packet chans.reply (events_of in_background chans)

  -- What a submission that gave a job has done.
  abbrev Went : ServerPool → Option ServerSlot → ℕ → SubmittedJob → ServerPool → Type 0
  Went pool found i job after =
      (slot : ServerSlot) × (found ≡ some slot)
      × (slot.receiver_alive ≡ true)
      × (after ≡ put pool i (send_to_slot slot command))
      × (job.handle.server_index ≡ i)
      × (job.handle.unique ≡ unique)

  abbrev answered :
      ServerPool → ServerSlot → ℕ → Result Bytes → Option (Result SubmittedJob × ServerPool)
  answered pool slot i r =
      some (
        submitted i unique (events_of in_background chans) r,
        put pool i (send_to_slot slot command),
      )

  sent-Went :
      (pool : ServerPool) (slot : ServerSlot) (i : ℕ) (job : SubmittedJob) (after : ServerPool)
      (r : Result Bytes)
      → slot.receiver_alive ≡ true
      → answered pool slot i r ≡ some (ok job, after)
      → Went pool (some slot) i job after
  sent-Went pool slot i job after (err problem) alive e = cc
  sent-Went pool slot i job after (ok handle) alive e =
      (slot, refl, alive, sym (ap (pool_of pool) e), sym (ap index_of e), sym (ap unique_of e))

  submit_to-Went :
      (pool : ServerPool) (found : Option ServerSlot) (i : ℕ) (job : SubmittedJob)
      (after : ServerPool)
      → submit_to i found packet unique in_background chans answer pool ≡ some (ok job, after)
      → Went pool found i job after
  submit_to-Went pool none i job after e = cc
  submit_to-Went pool (some slot) i job after e = elim (Bool-cases slot.receiver_alive) [
    | inl alive ↦
        sent-Went pool slot i job after (await answer) alive
          (sym (if_true slot.receiver_alive _ _ alive) ∙ e)
    | inr gone ↦ cc (rw gone at e)
  ]

  submit_selected-Went :
      (picked : Option (Option ℕ)) (pool : ServerPool) (job : SubmittedJob) (after : ServerPool)
      → submit_selected (picked, pool) packet unique in_background chans answer
        ≡ some (ok job, after)
      → Went pool (get pool job.handle.server_index) job.handle.server_index job after
  submit_selected-Went none pool job after e = cc
  submit_selected-Went (some none) pool job after e = cc
  submit_selected-Went (some (some i)) pool job after e =
      let went = submit_to-Went pool (get pool i) i job after e in
      subst (λ j. Went pool (get pool j) j job after) (sym went.4) went

  -- If `submit_packet` returns a job then the server of the job's handle is one of the pool
  -- before; a status query of the job, and one by unique id where the submission had one,
  -- returns the answer without a panic or an error of its own, and its command stands right
  -- behind the submission's in the queue of that server.
  pub submit_packet-Queries :
      (digest : Bytes → Bytes) (pool : ServerPool) (job : SubmittedJob) (after : ServerPool)
      (reply : ℕ) (status : Option (Result JobStatus))
      → submit_packet digest packet unique in_background chans answer pool ≡ some (ok job, after)
      → let h = job.handle in
        (slot : ServerSlot) × (get_elem? pool.servers h.server_index ≡ some slot)
        × Queries (get_status h reply status after) status h.server_index (
            send_to_slot (send_to_slot slot command) (query_status (status_request h.handle) reply))
        × ((id : Bytes)
            → unique ≡ some id
            → Queries (get_status_unique h reply status after) status h.server_index (
                send_to_slot
                  (send_to_slot slot command)
                  (query_status_unique (status_unique_request id) reply)))
  unfolding submit_packet get_status get_status_unique
  submit_packet-Queries digest pool job after reply status e =
      let h = job.handle in
      let p = (select_for_submit digest pool unique).1 in
      let (slot, found, alive, same, at_i, same_unique) =
        submit_selected-Went (select_for_submit digest pool unique).0 p job after e in
      let there : get_elem? after.servers h.server_index ≡ some (send_to_slot slot command) =
        ap (λ q. get_elem? q.servers h.server_index) same
        ∙ get_elem?-set p.servers h.server_index slot (send_to_slot slot command) found in
      (
        slot,
        ap (λ xs. get_elem? xs h.server_index) (sym (select_for_submit-servers digest pool unique))
            ∙ found,
        query-Queries (query_status (status_request h.handle) reply) h.server_index
            (get after h.server_index) (send_to_slot slot command) status after there there alive,
        λ id known.
            subst
              (λ u. Queries (query_by_unique u h reply status after) status h.server_index (
                send_to_slot (send_to_slot slot command)
                  (query_status_unique (status_unique_request id) reply)))
              (sym (same_unique ∙ known))
              (query-Queries (query_status_unique (status_unique_request id) reply) h.server_index
                (get after h.server_index) (send_to_slot slot command) status after there there
                alive),
      )
