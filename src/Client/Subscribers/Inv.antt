-- ===== src/Client/Subscribers/Inv.antt =====
-- The cursor stays within the slots.
use gearman_rs.Base.{
  length-map, ℕ, suc, zero, ◌-◌, ◌≤◌, ◌<◌, ◌≡◌, refl, ap, Bool, true, false, Option, some, List, [],
  ◌∷◌, arith, length, length-append, set,
}
use gearman_rs.Client.Job.{JobEvent}
use gearman_rs.Client.Subscribers.{
  HandleSubscribers, Sender, no_subscribers, add, deliver, prune, swap_remove, drop_last, last_or,
  wrap, release, is_empty,
}

-- At the first slot, or at one that is there.
abbrev pub InRange : HandleSubscribers → Type 0
InRange subs = subs.cursor ≤ length subs.slots - 1

pub length-set {ℓ} : {A : Type ℓ} (xs : List A) (i : ℕ) (v : A) → length (set xs i v) ≡ length xs
length-set [] i v = refl
length-set (x ∷ xs) zero v = refl
length-set (x ∷ xs) (suc i) v = ap suc (length-set xs i v)

length-drop_last {ℓ} : {A : Type ℓ} (xs : List A) → length (drop_last xs) ≡ length xs - 1
length-drop_last [] = omega arith
length-drop_last (x ∷ []) = omega arith
length-drop_last (x ∷ y ∷ xs) = omega (arith, length-drop_last (y ∷ xs))

pub length-swap_remove {ℓ} :
    {A : Type ℓ} (xs : List A) (i : ℕ) → length (swap_remove xs i) ≡ length xs - 1
unfolding swap_remove
length-swap_remove [] i = omega arith
length-swap_remove (x ∷ xs) i =
    omega (arith, length-set (drop_last (x ∷ xs)) i (last_or x xs), length-drop_last (x ∷ xs))

pub wrap_zero : (slots : List (Option Sender)) → wrap slots 0 ≡ 0
wrap_zero slots = ground arith

wrap_bound : (slots : List (Option Sender)) (cursor : ℕ) → wrap slots cursor ≤ length slots - 1
wrap_bound slots cursor = ground arith

pub add-InRange : (subs : HandleSubscribers) (s : Sender) → InRange subs → InRange (add subs s)
unfolding add
add-InRange subs s h = omega (arith, length-append subs.slots (some s ∷ []))

pub deliver-InRange :
    (subs : HandleSubscribers) (e : JobEvent) (terminal : Bool)
    → InRange subs
    → InRange (deliver subs e terminal).0
unfolding deliver
deliver-InRange subs e terminal h = ground arith

is_empty-length {ℓ} : {A : Type ℓ} (xs : List A) → is_empty xs ≡ false → 0 < length xs
is_empty-length [] h = cc
is_empty-length (x ∷ xs) h = omega arith

-- `deliver` returns whether slots remain.
pub deliver-remain :
    (subs : HandleSubscribers) (e : JobEvent) (terminal : Bool)
    → (deliver subs e terminal).2 ≡ true
    → 0 < length (deliver subs e terminal).0.slots
unfolding deliver
deliver-remain subs e terminal h = ground (
  arith,
  is_empty-length subs.slots,
  is_empty-length (swap_remove subs.slots (wrap subs.slots subs.cursor)),
)

pub prune-InRange :
    (is_closed : Sender → Bool) (subs : HandleSubscribers)
    → InRange subs
    → InRange (prune is_closed subs)
unfolding prune
prune-InRange is_closed subs h = rw (length-map (release is_closed) subs.slots) h

pub add-length : (subs : HandleSubscribers) (s : Sender) → 0 < length (add subs s).slots
unfolding add
add-length subs s = omega (arith, length-append subs.slots (some s ∷ []))

pub no_subscribers-InRange : InRange no_subscribers
no_subscribers-InRange = omega arith

pub prune-length :
    (is_closed : Sender → Bool) (subs : HandleSubscribers)
    → 0 < length subs.slots
    → 0 < length (prune is_closed subs).slots
unfolding prune
prune-length is_closed subs h = rw (length-map (release is_closed) subs.slots) h
