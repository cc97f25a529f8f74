-- ===== src/Client/Subscribers/Retire.antt =====
-- The copies of a terminal event retire every slot.
use gearman_rs.Base.{
  ℕ, suc, zero, ◌≡◌, refl, ap, ◌∙◌, true, Option, some, none, List, [], ◌∷◌, ◌++◌, arith, length,
  replicate, not,
}
use gearman_rs.Client.Job.{JobEvent}
use gearman_rs.Client.Subscribers.{
  HandleSubscribers, Sender, Sent, deliver, drop_last, last_or, swap_remove, send_to, is_empty,
}
use gearman_rs.Client.Subscribers.Inv.{length-swap_remove, wrap_zero}
use gearman_rs.Client.Subscribers.Turns.{
  deliver_copies, deliver_rounds, received, received-send_to, received-append, count_slots,
  deliver_rounds-received,
}

retire_first :
    (slot : Option Sender) (slots : List (Option Sender)) (event : JobEvent)
    → deliver (record { slots = slot ∷ slots; cursor = 0 }) event true ≡ (
      record { slots = swap_remove (slot ∷ slots) 0; cursor = 0 },
      send_to slot event,
      not (is_empty (swap_remove (slot ∷ slots) 0)),
    )
unfolding deliver
retire_first slot slots event =
    rw (wrap_zero (slot ∷ slots), wrap_zero (swap_remove (slot ∷ slots) 0)) refl

count-cons :
    (s : Sender) (d : Option Sender) (xs ys : List (Option Sender))
    → count_slots s xs ≡ count_slots s ys
    → count_slots s (d ∷ xs) ≡ count_slots s (d ∷ ys)
count-cons s none xs ys e = e
count-cons s (some sender) xs ys e = rw e

count-cons_swap :
    (s : Sender) (a b : Option Sender) (xs : List (Option Sender))
    → count_slots s (a ∷ b ∷ xs) ≡ count_slots s (b ∷ a ∷ xs)
count-cons_swap s none none xs = refl
count-cons_swap s none (some b) xs = refl
count-cons_swap s (some a) none xs = refl
count-cons_swap s (some a) (some b) xs = ground arith

count-drop_last :
    (s : Sender) (d : Option Sender) (slots : List (Option Sender))
    → count_slots s (last_or d slots ∷ drop_last (d ∷ slots)) ≡ count_slots s (d ∷ slots)
count-drop_last s d [] = refl
count-drop_last s d (slot ∷ slots) =
    count-cons_swap s (last_or slot slots) d (drop_last (slot ∷ slots))
    ∙ count-cons s d _ _ (count-drop_last s slot slots)

count-swap_remove :
    (s : Sender) (slot : Option Sender) (slots : List (Option Sender))
    → count_slots s (swap_remove (slot ∷ slots) 0) ≡ count_slots s slots
unfolding swap_remove
count-swap_remove s slot [] = refl
count-swap_remove s slot (x ∷ slots) = count-drop_last s x slots

-- As many copies of a terminal event as there are slots.
pub retire_all :
    (n : ℕ) (slots : List (Option Sender)) (event : JobEvent) (s : Sender)
    → length slots ≡ n
    → let (last, sent) = deliver_copies n (record { slots = slots; cursor = 0 }) event true in
      (last.slots ≡ []) × (received s sent ≡ replicate (count_slots s slots) event)
unfolding deliver_copies
retire_all zero [] event s h = (refl, refl)
retire_all (suc n) (slot ∷ slots) event s h =
    let rest = swap_remove (slot ∷ slots) 0 in
    let left : length rest ≡ n = omega (arith, length-swap_remove (slot ∷ slots) 0) in
    let (gone, copies) = retire_all n rest event s left in
    rw (retire_first slot slots event) (
      gone,
      received-send_to s slot slots event _
          (copies ∙ ap (λ k. replicate k event) (count-swap_remove s slot slots)),
    )
retire_all zero (slot ∷ slots) event s h = absurd (omega arith)
retire_all (suc n) [] event s h = absurd (omega arith)

-- A job's life on a connection: its events, then the terminal one, each in as many copies as
-- there are slots.
pub run_job : HandleSubscribers → List JobEvent → JobEvent → HandleSubscribers × List Sent
run_job subs events final =
    let (mid, sent) = deliver_rounds subs events in
    let (last, more) = deliver_copies (length mid.slots) mid final true in (last, sent ++ more)

-- When the cursor is at 0, and each event of a job and then its terminal event arrive in as
-- many copies as there are slots, a subscriber with exactly one slot receives every event
-- once, in order, and the terminal event last, and no slot is left.
pub run_job-received :
    (subs : HandleSubscribers) (events : List JobEvent) (final : JobEvent) (s : Sender)
    → subs.cursor ≡ 0
    → count_slots s subs.slots ≡ 1
    → ((run_job subs events final).0.slots ≡ [])
      × (received s (run_job subs events final).1 ≡ events ++ final ∷ [])
unfolding run_job
run_job-received subs events final s first once =
    let (same, seen) = deliver_rounds-received subs events s first once in
    let (gone, last) = retire_all (length subs.slots) subs.slots final s refl in
    let at_first : subs ≡ record { slots = subs.slots; cursor = 0 } =
      λ i. record { slots = subs.slots; cursor = first i } in
    rw (same, received-append, seen)
      (rw at_first (gone, ap (◌++◌ events) (last ∙ ap (λ k. replicate k final) once)))
