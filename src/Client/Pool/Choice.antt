-- ===== src/Client/Pool/Choice.antt =====
-- The choice of `select_for_submit`, by round robin or on the ring.
use gearman_rs.Base.{
  refl, ap, ◌∙◌, get_elem?, get_elem?-lt, false, ℕ, ◌<◌, ◌≡◌, true, Option, none, some, List, [],
  ◌∷◌, length, All, arith, Bytes,
}
use gearman_rs.Client.Ketama.{Point, Ring, contains, select}
use gearman_rs.Client.Ketama.Panics.{select_or_panic-select}
use gearman_rs.Client.Ketama.Build.{IsPoint}
use gearman_rs.Client.Ketama.Chain.{Owns}
use gearman_rs.Client.Ketama.Select.{select-healthy}
use gearman_rs.Client.Pool.{
  ServerSlot, ServerPool, is_healthy, connected_at, next_healthy, select_for_submit, by_unique,
}
use gearman_rs.Client.Pool.Rotate.{next_healthy-some}

-- The ring of a pool has points of the pool's servers alone.
abbrev pub RingWithin : ℕ → Option Ring → Type 0
RingWithin n none = Unit
RingWithin n (some ring) = All (IsPoint n) ring.points

Owns-lt :
    (n server : ℕ) (points : List Point)
    → All (IsPoint n) points
    → Owns (record { points = points }) server
    → server < n
unfolding contains
Owns-lt n server [] h o = cc
Owns-lt n server (p ∷ points) ((_, b), h) o = ground (arith, Owns-lt n server points h)

slot_connected :
    (found : Option ServerSlot) (slot : ServerSlot)
    → found ≡ some slot
    → (elim found [ some s ↦ some s.connected | none ↦ none ])
      ≡ some (elim found [ some s ↦ s.connected | none ↦ false ])
slot_connected none slot e = cc
slot_connected (some s) slot e = refl

-- An index in range is no panic.
pub is_healthy-connected_at :
    (pool : ServerPool) (i : ℕ)
    → i < length pool.servers
    → is_healthy pool i ≡ some (connected_at pool i)
unfolding is_healthy connected_at
is_healthy-connected_at pool i b =
    let (slot, e) = get_elem?-lt pool.servers i b in
    slot_connected (get_elem? pool.servers i) slot e

next_is_healthy :
    (pool : ServerPool) (i : ℕ)
    → (next_healthy pool).0 ≡ some i
    → (i < length pool.servers) × (is_healthy pool i ≡ some true)
next_is_healthy pool i e =
    let (b, up) = next_healthy-some pool i e in (b, is_healthy-connected_at pool i b ∙ ap some up)

by_unique-healthy :
    (digest : Bytes → Bytes) (pool : ServerPool) (ring : Option Ring) (unique : Option Bytes)
    → RingWithin (length pool.servers) ring
    → (picked : Option ℕ) × ((by_unique digest pool ring unique).0 ≡ some picked)
      × ((i : ℕ) → picked ≡ some i → (i < length pool.servers) × (is_healthy pool i ≡ some true))
by_unique-healthy digest pool (some ring) (some (b ∷ unique)) w =
    let in_range : (i : ℕ) → Owns ring i → i < length pool.servers =
      λ i o. Owns-lt (length pool.servers) i ring.points w o in
    (
      select digest ring (b ∷ unique) (connected_at pool),
      select_or_panic-select (is_healthy pool) (connected_at pool) digest ring (b ∷ unique)
          (λ i o. is_healthy-connected_at pool i (in_range i o)),
      λ i e.
          let (up, o) = select-healthy digest ring (b ∷ unique) (connected_at pool) i e in
          (in_range i o, is_healthy-connected_at pool i (in_range i o) ∙ ap some up),
    )
by_unique-healthy digest pool _ _ w = ((next_healthy pool).0, refl, next_is_healthy pool)

-- For a pool whose ring, if any, has only points of the pool's servers, the choice for a submission
-- does not panic, and the server that is chosen, if any, is one of the pool and healthy.
pub select_for_submit-healthy :
    (digest : Bytes → Bytes) (pool : ServerPool) (unique : Option Bytes)
    → RingWithin (length pool.servers) pool.ring
    → (picked : Option ℕ) × ((select_for_submit digest pool unique).0 ≡ some picked)
      × ((i : ℕ) → picked ≡ some i → (i < length pool.servers) × (is_healthy pool i ≡ some true))
unfolding select_for_submit
select_for_submit-healthy digest pool unique w = by_unique-healthy digest pool pool.ring unique w
