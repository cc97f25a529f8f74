-- ===== src/Client/Events.antt =====
-- src/client/mod.rs, `JobEventSubscribers`: the subscribers of each job on one connection. A
-- `HashMap` is an association list; nothing in the code depends on the order of its entries.
pub mod Laws
pub mod Store
use gearman_rs.Base.{Bool, Bytes, bytes_eq, Option, none, some, List, [], ◌∷◌, if◌then◌else◌}
use gearman_rs.Client.Job.{JobEvent}
use gearman_rs.Client.Subscribers.{
  Sender, Sent, HandleSubscribers, no_subscribers, add, deliver, prune,
}

abbrev pub JobEventSubscribers : Type 0
JobEventSubscribers = List (Bytes × HandleSubscribers)

-- `get`.
unfoldable pub find : Bytes → JobEventSubscribers → Option HandleSubscribers
find h [] = none
find h ((k, subs) ∷ m) = if bytes_eq k h then some subs else find h m

-- `job_events.entry(handle).or_default().add(sender)`.
unfoldable pub subscribe : Bytes → Sender → JobEventSubscribers → JobEventSubscribers
subscribe h sender [] = (h, add no_subscribers sender) ∷ []
subscribe h sender ((k, subs) ∷ m) =
    let rest = subscribe h sender m in
    if bytes_eq k h then (k, add subs sender) ∷ m else (k, subs) ∷ rest

-- The entry of a key after `deliver`, which is removed when no slots remain.
abbrev pub keep_entry :
    Bytes → JobEventSubscribers → HandleSubscribers × List Sent × Bool → JobEventSubscribers
keep_entry k m (subs, sent, remain) = if remain then (k, subs) ∷ m else m

abbrev pub sent_by : HandleSubscribers × List Sent × Bool → List Sent
sent_by (subs, sent, remain) = sent

-- `if let Some(subs) = job_events.get_mut(&handle)`, with `deliver` and `remove`.
unfoldable pub deliver_to :
    Bytes → JobEvent → Bool → JobEventSubscribers → JobEventSubscribers × List Sent
deliver_to h event terminal [] = ([], [])
deliver_to h event terminal ((k, subs) ∷ m) =
    let rest = deliver_to h event terminal m in
    if bytes_eq k h
    then (keep_entry k m (deliver subs event terminal), sent_by (deliver subs event terminal))
    else ((k, subs) ∷ rest.0, rest.1)

unfoldable pub prune_closed_subscribers :
    (Sender → Bool) → JobEventSubscribers → JobEventSubscribers
prune_closed_subscribers is_closed [] = []
prune_closed_subscribers is_closed ((k, subs) ∷ m) =
    (k, prune is_closed subs) ∷ prune_closed_subscribers is_closed m
