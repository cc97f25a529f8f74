-- ===== src/Client/Subscribers.antt =====
-- src/client/mod.rs, `HandleSubscribers`: the subscribers of one job, which take turns.
-- A sender is the number of its channel, and a send is an entry of the list of what was sent: an
-- unbounded channel never refuses, and the code ignores that a receiver may be gone.
pub mod Inv
pub mod Turns
pub mod Retire
pub mod Prune
use gearman_rs.Base.{
  ℕ, ◌+◌, ◌==◌, leb, Bool, true, false, not, if◌then◌else◌, Option, none, some, List, [], ◌∷◌, ◌++◌,
  map, length, get_elem?, set,
}
use gearman_rs.Client.Job.{JobEvent}

abbrev pub Sender : Type 0
Sender = ℕ

abbrev pub Sent : Type 0
Sent = Sender × JobEvent

pub record HandleSubscribers : Type 0 where
  pub slots : List (Option Sender)
  pub cursor : ℕ

-- The derived `Default`.
abbrev pub no_subscribers : HandleSubscribers
no_subscribers = record { slots = []; cursor = 0 }

unfoldable pub add : HandleSubscribers → Sender → HandleSubscribers
add subs sender = record subs { slots = subs.slots ++ some sender ∷ [] }

module _ {ℓ} {A : Type ℓ} where
  abbrev pub drop_last : List A → List A
  drop_last [] = []
  drop_last (x ∷ []) = []
  drop_last (x ∷ y ∷ xs) = x ∷ drop_last (y ∷ xs)

  abbrev pub last_or : A → List A → A
  last_or d [] = d
  last_or d (x ∷ xs) = last_or x xs

  -- `Vec::swap_remove`, without the removed element: the last one takes its place.
  unfoldable pub swap_remove : List A → ℕ → List A
  swap_remove [] i = []
  swap_remove (x ∷ xs) i = set (drop_last (x ∷ xs)) i (last_or x xs)

-- The slot at an index; the code's indices are in range, which `Inv` shows.
abbrev pub slot_at : List (Option Sender) → ℕ → Option Sender
slot_at slots i = elim (get_elem? slots i) [ none ↦ none | some slot ↦ slot ]

-- `if self.cursor >= self.slots.len() { self.cursor = 0; }`
abbrev pub wrap : List (Option Sender) → ℕ → ℕ
wrap slots cursor = if leb (length slots) cursor then 0 else cursor

abbrev pub send_to : Option Sender → JobEvent → List Sent
send_to none event = []
send_to (some sender) event = (sender, event) ∷ []

abbrev pub is_empty {ℓ} : {A : Type ℓ} → List A → Bool
is_empty [] = true
is_empty (_ ∷ _) = false

-- Behind the choice of the slot: the send, the cursor, and whether slots remain.
abbrev pub finish :
    Option Sender → JobEvent → List (Option Sender) → ℕ → HandleSubscribers × List Sent × Bool
finish slot event slots cursor =
    (record { slots = slots; cursor = wrap slots cursor }, send_to slot event, not (is_empty slots))

unfoldable pub deliver : HandleSubscribers → JobEvent → Bool → HandleSubscribers × List Sent × Bool
unfolding swap_remove
deliver subs event terminal =
    let slots = subs.slots in
    let cursor = wrap slots subs.cursor in
    if is_empty slots
    then (subs, [], false)
    else if terminal
    then finish (slot_at slots cursor) event (swap_remove slots cursor) cursor
    else finish (slot_at slots cursor) event slots (cursor + 1)

-- The body of the loop of `prune_closed_subscribers`; `is_closed` tells of each sender whether its
-- receiver is gone.
abbrev pub release : (Sender → Bool) → Option Sender → Option Sender
release is_closed none = none
release is_closed (some sender) = if is_closed sender then none else some sender

unfoldable pub prune : (Sender → Bool) → HandleSubscribers → HandleSubscribers
prune is_closed subs = record subs { slots = map (release is_closed) subs.slots }
