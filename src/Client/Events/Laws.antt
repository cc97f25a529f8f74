-- ===== src/Client/Events/Laws.antt =====
-- The table of subscribers: one entry for each job, each with slots, and no job touches another.
use gearman_rs.Base.{
  ◌<◌, ◌≡◌, ◌≢◌, refl, Bool, Bytes, bytes_eq, bytes_eq_iff, none, some, [], ◌∷◌, if◌then◌else◌,
  arith, Bool-cases, inl, inr, length,
}
use gearman_rs.Client.Job.{JobEvent}
use gearman_rs.Client.Subscribers.{Sender, HandleSubscribers, no_subscribers, add, deliver}
use gearman_rs.Client.Subscribers.Inv.{
  InRange, add-length, no_subscribers-InRange, prune-length, add-InRange, deliver-InRange,
  deliver-remain, prune-InRange,
}
use gearman_rs.Client.Events.{
  JobEventSubscribers, sent_by, keep_entry, find, subscribe, deliver_to, prune_closed_subscribers,
}

pub find-subscribe :
    (h k : Bytes) (s : Sender) (m : JobEventSubscribers)
    → find k (subscribe h s m) ≡ (
        if bytes_eq h k
        then some (add (elim (find h m) [ none ↦ no_subscribers | some subs ↦ subs ]) s)
        else find k m)
unfolding find subscribe
find-subscribe h k s [] = refl
find-subscribe h k s ((j, subs) ∷ m) =
    ground (arith, bytes_eq_iff h k, bytes_eq_iff j h, bytes_eq_iff j k, find-subscribe h k s m)

-- A delivery to one job leaves the subscribers of every other job as they were.
pub find-deliver_to_other :
    (h k : Bytes) (event : JobEvent) (terminal : Bool) (m : JobEventSubscribers)
    → h ≢ k
    → find k (deliver_to h event terminal m).0 ≡ find k m
unfolding find deliver_to
find-deliver_to_other h k event terminal [] ne = refl
find-deliver_to_other h k event terminal ((j, subs) ∷ m) ne =
    ground (arith, bytes_eq_iff j h, bytes_eq_iff j k, find-deliver_to_other h k event terminal m)

-- What a delivery sends is what the job's subscribers are sent.
pub deliver_to-sent :
    (h : Bytes) (event : JobEvent) (terminal : Bool) (m : JobEventSubscribers)
    → (deliver_to h event terminal m).1
      ≡ (elim (find h m) [ none ↦ [] | some subs ↦ sent_by (deliver subs event terminal) ])
unfolding find deliver_to
deliver_to-sent h event terminal [] = refl
deliver_to-sent h event terminal ((j, subs) ∷ m) =
    ground (arith, deliver_to-sent h event terminal m)

-- Each job once, each with slots, and each cursor within them.
abbrev pub IsTable : JobEventSubscribers → Type 0
IsTable [] = Unit
IsTable ((k, subs) ∷ m) = (find k m ≡ none) × (0 < length subs.slots) × InRange subs × IsTable m

pub subscribe-IsTable :
    (h : Bytes) (s : Sender) (m : JobEventSubscribers) → IsTable m → IsTable (subscribe h s m)
unfolding subscribe
subscribe-IsTable h s [] t = (
  unfold find in refl,
  add-length no_subscribers s,
  add-InRange no_subscribers s no_subscribers-InRange,
  tt,
)
subscribe-IsTable h s ((k, subs) ∷ m) (fresh, some_slot, in_range, t) =
    elim (Bool-cases (bytes_eq k h)) [
      | inl same ↦ rw same (fresh, add-length subs s, add-InRange subs s in_range, t)
      | inr other ↦ rw other (
        ground (arith, find-subscribe h k s m, bytes_eq_iff h k, bytes_eq_iff k h),
        some_slot,
        in_range,
        subscribe-IsTable h s m t,
      )
    ]

keep_entry-IsTable :
    (k : Bytes) (subs : HandleSubscribers) (event : JobEvent) (terminal : Bool)
    (m : JobEventSubscribers)
    → find k m ≡ none
    → InRange subs
    → IsTable m
    → IsTable (keep_entry k m (deliver subs event terminal))
keep_entry-IsTable k subs event terminal m fresh in_range t =
    elim (Bool-cases (deliver subs event terminal).2) [
      | inl remain ↦
          rw (remain, keep_entry)
            (
              fresh,
              deliver-remain subs event terminal remain,
              deliver-InRange subs event terminal in_range,
              t,
            )
      | inr gone ↦ rw (gone, keep_entry) t
    ]

find-prune_none :
    (is_closed : Sender → Bool) (k : Bytes) (m : JobEventSubscribers)
    → find k m ≡ none
    → find k (prune_closed_subscribers is_closed m) ≡ none
unfolding find prune_closed_subscribers
find-prune_none is_closed k [] h = refl
find-prune_none is_closed k ((j, subs) ∷ m) h = ground (arith, find-prune_none is_closed k m)

pub deliver_to-IsTable :
    (h : Bytes) (event : JobEvent) (terminal : Bool) (m : JobEventSubscribers)
    → IsTable m
    → IsTable (deliver_to h event terminal m).0
unfolding deliver_to
deliver_to-IsTable h event terminal [] t = t
deliver_to-IsTable h event terminal ((k, subs) ∷ m) (fresh, some_slot, in_range, t) =
    elim (Bool-cases (bytes_eq k h)) [
      | inl same ↦ rw same (keep_entry-IsTable k subs event terminal m fresh in_range t)
      | inr other ↦ rw other (
        ground (arith, find-deliver_to_other h k event terminal m, bytes_eq_iff k h),
        some_slot,
        in_range,
        deliver_to-IsTable h event terminal m t,
      )
    ]

pub prune-IsTable :
    (is_closed : Sender → Bool) (m : JobEventSubscribers)
    → IsTable m
    → IsTable (prune_closed_subscribers is_closed m)
unfolding prune_closed_subscribers
prune-IsTable is_closed [] t = t
prune-IsTable is_closed ((k, subs) ∷ m) (fresh, some_slot, in_range, t) = (
  find-prune_none is_closed k m fresh,
  prune-length is_closed subs some_slot,
  prune-InRange is_closed subs in_range,
  prune-IsTable is_closed m t,
)
