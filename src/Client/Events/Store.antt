-- ===== src/Client/Events/Store.antt =====
-- The table of subscribers as a map: an entry for a job or none, and no order. The operations on the
-- association list refine those on the map.
use mathlib.Core.Path.{fun_ext}
use gearman_rs.Base.{
  ◌≡◌, refl, ap, ◌∙◌, sym, subst, Bool, true, false, Bytes, bytes_eq, bytes_eq_iff, Option, none,
  some, List, [], ◌∷◌, ◌++◌, if◌then◌else◌, arith, Bool-cases, inl, inr,
}
use gearman_rs.Client.Job.{JobEvent}
use gearman_rs.Client.Subscribers.{
  Sender, Sent, HandleSubscribers, no_subscribers, add, deliver, prune,
}
use gearman_rs.Client.Events.{
  JobEventSubscribers, find, subscribe, sent_by, keep_entry, deliver_to, prune_closed_subscribers,
}
use gearman_rs.Client.Events.Laws.{
  IsTable, find-subscribe, find-deliver_to_other, subscribe-IsTable, deliver_to-IsTable,
  prune-IsTable,
}

abbrev pub Store : Type 0
Store = Bytes → Option HandleSubscribers

-- What the code does with the table.
pub data Op : Type 0 where
  subscription : Bytes → Sender → Op
  -- the handle, the event, and whether it ends the job
  delivery : Bytes → JobEvent → Bool → Op
  release_closed : (Sender → Bool) → Op

abbrev pub update : Bytes → Option HandleSubscribers → Store → Store
update h entry store = λ k. if bytes_eq h k then entry else store k

abbrev pub or_default : Option HandleSubscribers → HandleSubscribers
or_default none = no_subscribers
or_default (some subs) = subs

-- The entry of a job after a delivery: none when no slots remain.
abbrev pub kept : HandleSubscribers × List Sent × Bool → Option HandleSubscribers
kept (subs, sent, remain) = if remain then some subs else none

abbrev pub pruned : (Sender → Bool) → Option HandleSubscribers → Option HandleSubscribers
pruned is_closed none = none
pruned is_closed (some subs) = some (prune is_closed subs)

abbrev pub store_delivery :
    Bytes → JobEvent → Bool → Option HandleSubscribers → Store → Store × List Sent
store_delivery h event terminal none store = (store, [])
store_delivery h event terminal (some subs) store =
    (update h (kept (deliver subs event terminal)) store, sent_by (deliver subs event terminal))

-- An operation on the map, and what it sends.
unfoldable pub store_step : Op → Store → Store × List Sent
store_step (subscription h s) store = (update h (some (add (or_default (store h)) s)) store, [])
store_step (delivery h event terminal) store = store_delivery h event terminal (store h) store
store_step (release_closed is_closed) store = ((λ k. pruned is_closed (store k)), [])

-- The same on the association list.
unfoldable pub table_step : Op → JobEventSubscribers → JobEventSubscribers × List Sent
table_step (subscription h s) m = (subscribe h s m, [])
table_step (delivery h event terminal) m = deliver_to h event terminal m
table_step (release_closed is_closed) m = (prune_closed_subscribers is_closed m, [])

-- The map that a table stands for.
abbrev pub store_of : JobEventSubscribers → Store
store_of m = λ k. find k m

step-IsTable : (op : Op) (m : JobEventSubscribers) → IsTable m → IsTable (table_step op m).0
unfolding table_step
step-IsTable (subscription h s) m t = subscribe-IsTable h s m t
step-IsTable (delivery h event terminal) m t = deliver_to-IsTable h event terminal m t
step-IsTable (release_closed is_closed) m t = prune-IsTable is_closed m t

find-prune :
    (is_closed : Sender → Bool) (k : Bytes) (m : JobEventSubscribers)
    → find k (prune_closed_subscribers is_closed m) ≡ pruned is_closed (find k m)
unfolding find prune_closed_subscribers
find-prune is_closed k [] = refl
find-prune is_closed k ((j, subs) ∷ m) = ground (arith, find-prune is_closed k m)

find-keep_entry :
    (j k : Bytes) (m : JobEventSubscribers) (after : HandleSubscribers × List Sent × Bool)
    → find k m ≡ none
    → bytes_eq j k ≡ true
    → find k (keep_entry j m after) ≡ kept after
unfolding find
find-keep_entry j k m (subs, sent, true) fresh same = rw same refl
find-keep_entry j k m (subs, sent, false) fresh same = fresh

-- The entry of a job after a delivery to it.
abbrev pub after_delivery : JobEvent → Bool → Option HandleSubscribers → Option HandleSubscribers
after_delivery event terminal none = none
after_delivery event terminal (some subs) = kept (deliver subs event terminal)

find-deliver_to :
    (h : Bytes) (event : JobEvent) (terminal : Bool) (m : JobEventSubscribers)
    → IsTable m
    → find h (deliver_to h event terminal m).0 ≡ after_delivery event terminal (find h m)
unfolding find deliver_to
find-deliver_to h event terminal [] t = refl
find-deliver_to h event terminal ((j, subs) ∷ m) (fresh, some_slot, in_range, t) =
    elim (Bool-cases (bytes_eq j h)) [
      | inl same ↦
          let gone : find h m ≡ none =
            subst (λ k. find k m ≡ none) ((bytes_eq_iff j h).0 same) fresh in
          rw same (find-keep_entry j h m (deliver subs event terminal) gone same)
      | inr other ↦ ground (arith, find-deliver_to h event terminal m t)
    ]

find-deliver_to_at :
    (h k : Bytes) (event : JobEvent) (terminal : Bool) (m : JobEventSubscribers)
    → IsTable m
    → find k (deliver_to h event terminal m).0
      ≡ update h (after_delivery event terminal (find h m)) (store_of m) k
find-deliver_to_at h k event terminal m t = elim (Bool-cases (bytes_eq h k)) [
  | inl same ↦
      let e = (bytes_eq_iff h k).0 same in
      rw same (
        subst
          (λ j. find j (deliver_to h event terminal m).0 ≡ after_delivery event terminal (find h m))
          e (find-deliver_to h event terminal m t))
  | inr other ↦
      rw other
        (find-deliver_to_other h k event terminal m (λ e. ground (arith, (bytes_eq_iff h k).1 e)))
]

-- A map that is updated to what it has.
update-same : (h : Bytes) (store : Store) → store ≡ update h (store h) store
update-same h store = fun_ext λ k. elim (Bool-cases (bytes_eq h k)) [
  | inl same ↦ rw same (ap store (sym ((bytes_eq_iff h k).0 same)))
  | inr other ↦ rw other refl
]

-- What `deliver_to` sends, by the entry of the job.
abbrev sent_to : JobEvent → Bool → Option HandleSubscribers → List Sent
sent_to event terminal none = []
sent_to event terminal (some subs) = sent_by (deliver subs event terminal)

store_delivery_lem :
    (h : Bytes) (event : JobEvent) (terminal : Bool) (entry : Option HandleSubscribers)
    (store : Store)
    → store h ≡ entry
    → (update h (after_delivery event terminal entry) store
        ≡ (store_delivery h event terminal entry store).0)
      × (sent_to event terminal entry ≡ (store_delivery h event terminal entry store).1)
store_delivery_lem h event terminal none store e =
    (ap (λ entry. update h entry store) (sym e) ∙ sym (update-same h store), refl)
store_delivery_lem h event terminal (some subs) store e = (refl, refl)

-- The list stands for the same map as the map's own operation gives, and sends the same.
Agrees : JobEventSubscribers × List Sent → Store × List Sent → Type 0
Agrees (m, sent) (store, expected) = (store_of m ≡ store) × (sent ≡ expected)

sent_to_lem :
    (h : Bytes) (event : JobEvent) (terminal : Bool) (m : JobEventSubscribers)
    → (deliver_to h event terminal m).1 ≡ sent_to event terminal (find h m)
unfolding find deliver_to
sent_to_lem h event terminal [] = refl
sent_to_lem h event terminal ((j, subs) ∷ m) = ground (arith, sent_to_lem h event terminal m)

or_default_lem :
    (entry : Option HandleSubscribers)
    → (elim entry [ none ↦ no_subscribers | some subs ↦ subs ]) ≡ or_default entry
or_default_lem none = refl
or_default_lem (some subs) = refl

step-Agrees :
    (op : Op) (m : JobEventSubscribers)
    → IsTable m
    → Agrees (table_step op m) (store_step op (store_of m))
unfolding Agrees table_step store_step
step-Agrees (subscription h s) m t = (
  fun_ext (λ k.
      find-subscribe h k s m
      ∙ ap (λ subs. if bytes_eq h k then some (add subs s) else find k m)
          (or_default_lem (find h m))),
  refl,
)
step-Agrees (delivery h event terminal) m t =
    let (stores, sends) = store_delivery_lem h event terminal (find h m) (store_of m) refl in
    (
      fun_ext (λ k. find-deliver_to_at h k event terminal m t) ∙ stores,
      sent_to_lem h event terminal m ∙ sends,
    )
step-Agrees (release_closed is_closed) m t = (fun_ext (λ k. find-prune is_closed k m), refl)

-- Operations in a row, and all that they send.
unfoldable pub run_table : List Op → JobEventSubscribers → JobEventSubscribers × List Sent
run_table [] m = (m, [])
run_table (op ∷ ops) m =
    let (after, sent) = table_step op m in
    let (last, later) = run_table ops after in (last, sent ++ later)

unfoldable pub run_store : List Op → Store → Store × List Sent
run_store [] store = (store, [])
run_store (op ∷ ops) store =
    let (after, sent) = store_step op store in
    let (last, later) = run_store ops after in (last, sent ++ later)

-- On an association list that is a table (each job once, with slots, cursors within them), any
-- subscriptions, deliveries and releases in a row send just what the same operations send on a
-- map from handles to subscribers, and leave a list that stands for the resulting map.
pub run_table-run_store :
    (ops : List Op) (m : JobEventSubscribers)
    → IsTable m
    → (store_of (run_table ops m).0 ≡ (run_store ops (store_of m)).0)
      × ((run_table ops m).1 ≡ (run_store ops (store_of m)).1)
unfolding run_table run_store Agrees
run_table-run_store [] m t = (refl, refl)
run_table-run_store (op ∷ ops) m t =
    let (stores, sends) = step-Agrees op m t in
    let (last, later) = run_table-run_store ops (table_step op m).0 (step-IsTable op m t) in
    (
      last ∙ ap (λ store. (run_store ops store).0) stores,
      rw (sends, later)
          (ap (λ store. (store_step op (store_of m)).1 ++ (run_store ops store).1) stores),
    )
