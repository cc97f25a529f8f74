-- ===== src/Client/Subscribers/Prune.antt =====
-- Releasing the channels of streams that are gone changes nothing for the others.
use gearman_rs.Base.{
  ℕ, suc, zero, ◌≡◌, refl, ap, ◌∙◌, Bool, true, false, Option, some, none, List, [], ◌∷◌, map,
  arith, set, if◌then◌else◌, length-map,
}
use gearman_rs.Client.Job.{JobEvent}
use gearman_rs.Client.Subscribers.{
  HandleSubscribers, Sender, Sent, deliver, prune, release, drop_last, last_or, swap_remove, wrap,
  send_to, slot_at, finish, is_empty,
}

-- Sends to channels whose receiver is still there.
abbrev pub open_sent : (Sender → Bool) → List Sent → List Sent
open_sent is_closed [] = []
open_sent is_closed ((sender, event) ∷ sent) =
    let rest = open_sent is_closed sent in if is_closed sender then rest else (sender, event) ∷ rest

module _ {ℓ κ} {A : Type ℓ} {B : Type κ} (f : A → B) where
  is_empty-map : (xs : List A) → is_empty (map f xs) ≡ is_empty xs
  is_empty-map [] = refl
  is_empty-map (x ∷ xs) = refl

  map-set : (xs : List A) (i : ℕ) (v : A) → map f (set xs i v) ≡ set (map f xs) i (f v)
  map-set [] i v = refl
  map-set (x ∷ xs) zero v = refl
  map-set (x ∷ xs) (suc i) v = ap (◌∷◌ (f x)) (map-set xs i v)

  map-drop_last : (xs : List A) → map f (drop_last xs) ≡ drop_last (map f xs)
  map-drop_last [] = refl
  map-drop_last (x ∷ []) = refl
  map-drop_last (x ∷ y ∷ xs) = ap (◌∷◌ (f x)) (map-drop_last (y ∷ xs))

  map-last_or : (d : A) (xs : List A) → f (last_or d xs) ≡ last_or (f d) (map f xs)
  map-last_or d [] = refl
  map-last_or d (x ∷ xs) = map-last_or x xs

  map-swap_remove : (xs : List A) (i : ℕ) → map f (swap_remove xs i) ≡ swap_remove (map f xs) i
  unfolding swap_remove
  map-swap_remove [] i = refl
  map-swap_remove (x ∷ xs) i =
      map-set (drop_last (x ∷ xs)) i (last_or x xs)
      ∙ rw (map-drop_last (x ∷ xs), map-last_or x xs) refl

module _ (is_closed : Sender → Bool) where
  slot_at-release :
      (slots : List (Option Sender)) (i : ℕ)
      → slot_at (map (release is_closed) slots) i ≡ release is_closed (slot_at slots i)
  slot_at-release [] i = refl
  slot_at-release (x ∷ slots) zero = refl
  slot_at-release (x ∷ slots) (suc i) = slot_at-release slots i

  send_to-release :
      (slot : Option Sender) (event : JobEvent)
      → send_to (release is_closed slot) event ≡ open_sent is_closed (send_to slot event)
  send_to-release none event = refl
  send_to-release (some sender) event = ground arith

  finish-prune :
      (slot : Option Sender) (event : JobEvent) (slots : List (Option Sender)) (cursor : ℕ)
      → let (after, sent, remain) = finish slot event slots cursor in
        finish (release is_closed slot) event (map (release is_closed) slots) cursor
        ≡ (prune is_closed after, open_sent is_closed sent, remain)
  unfolding prune
  finish-prune slot event slots cursor =
      rw
        (
          length-map (release is_closed) slots,
          is_empty-map (release is_closed) slots,
          send_to-release slot event,
        )
        refl

  deliver-prune_at :
      (slots : List (Option Sender)) (cursor : ℕ) (event : JobEvent) (terminal : Bool)
      → let (after, sent, remain) =
          deliver (record { slots = slots; cursor = cursor }) event terminal in
        deliver (record { slots = map (release is_closed) slots; cursor = cursor }) event terminal
        ≡ (prune is_closed after, open_sent is_closed sent, remain)
  unfolding deliver prune
  deliver-prune_at [] cursor event terminal = refl
  deliver-prune_at (x ∷ slots) cursor event true =
      rw
        (
          length-map (release is_closed) slots,
          slot_at-release (x ∷ slots) (wrap (x ∷ slots) cursor),
          ← map-swap_remove (release is_closed) (x ∷ slots) (wrap (x ∷ slots) cursor),
        )
        (finish-prune _ event (swap_remove (x ∷ slots) (wrap (x ∷ slots) cursor)) _)
  deliver-prune_at (x ∷ slots) cursor event false =
      rw
        (
          length-map (release is_closed) slots,
          slot_at-release (x ∷ slots) (wrap (x ∷ slots) cursor),
          send_to-release (slot_at (x ∷ slots) (wrap (x ∷ slots) cursor)) event,
        )
        refl

  -- Releasing closed channels before a delivery or after it leaves the same slots and cursor
  -- and gives the same result, and the delivery sends the same to the channels that are open.
  pub deliver-prune :
      (subs : HandleSubscribers) (event : JobEvent) (terminal : Bool)
      → let (after, sent, remain) = deliver subs event terminal in
        deliver (prune is_closed subs) event terminal
        ≡ (prune is_closed after, open_sent is_closed sent, remain)
  unfolding prune
  deliver-prune subs event terminal = deliver-prune_at subs.slots subs.cursor event terminal
