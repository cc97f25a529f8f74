-- ===== src/Client/Subscribers/Turns.antt =====
-- The server sends every event once for each registration, and the copies go round the slots.
use mathlib.Core.List.{append_assoc, append-nil}
use gearman_rs.Base.{
  Bool-cases, inl, inr, subst, replicate, ℕ, suc, zero, ◌+◌, ◌==◌, ◌≡◌, refl, ap, sym, ◌∙◌, Bool,
  false, Option, some, none, List, [], ◌∷◌, ◌++◌, arith, length, length-append, if◌then◌else◌,
}
use gearman_rs.Client.Job.{JobEvent}
use gearman_rs.Client.Subscribers.Inv.{wrap_zero}
use gearman_rs.Client.Subscribers.{
  HandleSubscribers, Sender, Sent, deliver, wrap, send_to, slot_at, finish,
}

-- `n` copies of one event, and all that is sent for them.
unfoldable pub deliver_copies :
    ℕ → HandleSubscribers → JobEvent → Bool → HandleSubscribers × List Sent
deliver_copies zero subs event terminal = (subs, [])
deliver_copies (suc n) subs event terminal =
    let (after, sent, _) = deliver subs event terminal in
    let (last, more) = deliver_copies n after event terminal in (last, sent ++ more)

-- One copy of the event to each slot that has a sender, in order.
abbrev pub one_each : List (Option Sender) → JobEvent → List Sent
one_each [] event = []
one_each (slot ∷ slots) event = send_to slot event ++ one_each slots event

slot_at-append :
    (before after : List (Option Sender)) (slot : Option Sender)
    → slot_at (before ++ (slot ∷ after)) (length before) ≡ slot
slot_at-append [] after slot = refl
slot_at-append (x ∷ before) after slot = slot_at-append before after slot

wrap_inside :
    (before after : List (Option Sender)) (slot : Option Sender)
    → wrap (before ++ (slot ∷ after)) (length before) ≡ length before
wrap_inside before after slot = ground (arith, length-append before (slot ∷ after))

wrap_end : (slots : List (Option Sender)) → wrap slots (length slots) ≡ 0
wrap_end slots = ground arith

-- A slot's turn.
deliver_turn :
    (before after : List (Option Sender)) (slot : Option Sender) (event : JobEvent)
    → let slots = before ++ (slot ∷ after) in
      deliver (record { slots = slots; cursor = length before }) event false
      ≡ finish slot event slots (length before + 1)
unfolding deliver
deliver_turn [] after slot event = rw (wrap_inside [] after slot) refl
deliver_turn (x ∷ before) after slot event =
    rw (wrap_inside (x ∷ before) after slot, slot_at-append (x ∷ before) after slot) refl

-- The copies that are left when the turn has come to the slots behind `before`.
copies_from :
    (slots before after : List (Option Sender)) (event : JobEvent)
    → slots ≡ before ++ after
    → deliver_copies
        (length after)
        (record { slots = slots; cursor = wrap slots (length before) })
        event
        false
      ≡ (record { slots = slots; cursor = 0 }, one_each after event)
unfolding deliver_copies
copies_from slots before [] event e =
    ap (λ c. (record { slots = slots; cursor = c }, []))
      (subst (λ s. wrap s (length before) ≡ 0) (sym (e ∙ append-nil before)) (wrap_end before))
copies_from slots before (slot ∷ after) event e =
    let turn : deliver (record { slots = slots; cursor = wrap slots (length before) }) event false
        ≡ finish slot event slots (length before + 1) =
      subst
        (λ s.
          deliver (record { slots = s; cursor = wrap s (length before) }) event false
          ≡ finish slot event s (length before + 1))
        (sym e) (rw (wrap_inside before after slot) (deliver_turn before after slot event)) in
    let next = rw (length-append before (slot ∷ [])) at (
      copies_from slots (before ++ slot ∷ []) after event
        (e ∙ sym (append_assoc before (slot ∷ []) after))) in
    rw turn (rw next refl)

-- As many copies of an event as there are slots go one to each slot, in order, and the turn is
-- back at the first slot.
pub deliver_round :
    (subs : HandleSubscribers) (event : JobEvent)
    → subs.cursor ≡ 0
    → deliver_copies (length subs.slots) subs event false ≡ (subs, one_each subs.slots event)
deliver_round subs event first =
    let slots = subs.slots in
    let round = rw (wrap_zero slots) at (copies_from slots [] slots event refl) in
    subst
      (λ c.
        deliver_copies (length slots) (record { slots = slots; cursor = c }) event false
        ≡ (record { slots = slots; cursor = c }, one_each slots event))
      (sym first) round

-- Each event of a list in as many copies as there are slots.
unfoldable pub deliver_rounds : HandleSubscribers → List JobEvent → HandleSubscribers × List Sent
deliver_rounds subs [] = (subs, [])
deliver_rounds subs (event ∷ events) =
    let (after, sent) = deliver_copies (length subs.slots) subs event false in
    let (last, more) = deliver_rounds after events in (last, sent ++ more)

-- What a channel receives, in order.
abbrev pub received : Sender → List Sent → List JobEvent
received s [] = []
received s ((sender, event) ∷ sent) =
    if sender == s then event ∷ received s sent else received s sent

-- How many slots hold the sender.
abbrev pub count_slots : Sender → List (Option Sender) → ℕ
count_slots s [] = 0
count_slots s (none ∷ slots) = count_slots s slots
count_slots s (some sender ∷ slots) =
    let rest = count_slots s slots in if sender == s then suc rest else rest

pub received-append :
    (s : Sender) (xs ys : List Sent) → received s (xs ++ ys) ≡ received s xs ++ received s ys
received-append s [] ys = refl
received-append s ((sender, event) ∷ xs) ys = ground (arith, received-append s xs ys)

pub received-send_to :
    (s : Sender) (slot : Option Sender) (slots : List (Option Sender)) (event : JobEvent)
    (sent : List Sent)
    → received s sent ≡ replicate (count_slots s slots) event
    → received s (send_to slot event ++ sent) ≡ replicate (count_slots s (slot ∷ slots)) event
received-send_to s none slots event sent h = h
received-send_to s (some sender) slots event sent h = elim (Bool-cases (sender == s)) [
  | inl mine ↦ rw mine (ap (◌∷◌ event) h)
  | inr other ↦ rw other h
]

received-one_each :
    (s : Sender) (slots : List (Option Sender)) (event : JobEvent)
    → received s (one_each slots event) ≡ replicate (count_slots s slots) event
received-one_each s [] event = refl
received-one_each s (slot ∷ slots) event =
    received-send_to s slot slots event (one_each slots event) (received-one_each s slots event)

-- When the cursor is at 0, and each event arrives in as many copies as there are slots, a
-- subscriber with exactly one slot receives every event once, in order, and slots and cursor
-- are as before.
pub deliver_rounds-received :
    (subs : HandleSubscribers) (events : List JobEvent) (s : Sender)
    → subs.cursor ≡ 0
    → count_slots s subs.slots ≡ 1
    → ((deliver_rounds subs events).0 ≡ subs) × (received s (deliver_rounds subs events).1 ≡ events)
unfolding deliver_rounds
deliver_rounds-received subs [] s first once = (refl, refl)
deliver_rounds-received subs (event ∷ events) s first once =
    let (same, rest) = deliver_rounds-received subs events s first once in
    rw (deliver_round subs event first) (
      same,
      rw
          (
            received-append s (one_each subs.slots event) (deliver_rounds subs events).1,
            received-one_each s subs.slots event,
            once,
          )
          (ap (◌∷◌ event) rest),
    )
