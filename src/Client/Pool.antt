-- ===== src/Client/Pool.antt =====
-- src/client/multi.rs: the servers of a client and the choice of one for a submission. A slot's
-- `cmd_tx` is the queue that it feeds, and whether the actor at its other end still runs. The
-- cursor is a 64-bit `usize`.
pub mod Rotate
pub mod Choice
use gearman_rs.Base.{
  ℕ, ◌+◌, ◌%◌, ◌^◌, Bool, true, false, ◌==◌, if◌then◌else◌, Option, none, some, List, [], ◌∷◌,
  length, get_elem?, Bytes,
}
use gearman_rs.Base.Rotation.{range, rotation, find}
use gearman_rs.Client.Actor.{ClientCommand}
use gearman_rs.Client.Ketama.{Ring}
use gearman_rs.Client.Ketama.Panics.{select_or_panic}

pub record ServerSlot : Type 0 where
  pub queue : List ClientCommand
  pub receiver_alive : Bool
  pub connected : Bool
  pub attempted : Bool

pub record ServerPool : Type 0 where
  pub servers : List ServerSlot
  pub cursor : ℕ
  pub ring : Option Ring

abbrev pub new_pool : List ServerSlot → Option Ring → ServerPool
new_pool servers ring = record { servers = servers; cursor = 0; ring = ring }

-- `get`; `none` is the panic of an index out of range.
abbrev pub get : ServerPool → ℕ → Option ServerSlot
get pool index = get_elem? pool.servers index

-- `none` is the panic of an index out of range.
unfoldable pub is_healthy : ServerPool → ℕ → Option Bool
is_healthy pool index = elim (get_elem? pool.servers index) [
  | some s ↦ some s.connected
  | none ↦ none
]

-- `is_healthy` at an index in range, where it does not panic: Pool/Choice shows that they agree.
unfoldable pub connected_at : ServerPool → ℕ → Bool
connected_at pool index = elim (get_elem? pool.servers index) [
  | some s ↦ s.connected
  | none ↦ false
]

abbrev pub any : (ℕ → Bool) → List ℕ → Bool
any p xs = elim (find p xs) [ some x ↦ true | none ↦ false ]

unfoldable pub any_healthy : ServerPool → Bool
any_healthy pool = any (connected_at pool) (range 0 (length pool.servers))

unfoldable pub attempted_all : List ServerSlot → Bool
attempted_all [] = true
attempted_all (s ∷ servers) =
    let rest = attempted_all servers in if s.attempted then rest else false

abbrev pub all_attempted : ServerPool → Bool
all_attempted pool = attempted_all pool.servers

-- `cursor.fetch_add(1)`.
abbrev pub advance : ServerPool → ServerPool
advance pool = record pool { cursor = (pool.cursor + 1) % 2 ^ 64 }

unfoldable pub next_healthy : ServerPool → Option ℕ × ServerPool
next_healthy pool =
    let len = length pool.servers in
    let start = pool.cursor % len in
    if len == 0 then (none, pool) else (find (connected_at pool) (rotation start len), advance pool)

abbrev pub not_panicked : Option ℕ × ServerPool → Option (Option ℕ) × ServerPool
not_panicked (picked, pool) = (some picked, pool)

-- The arms of the `match` in `select_for_submit`.
abbrev pub by_unique :
    (Bytes → Bytes) → ServerPool → Option Ring → Option Bytes → Option (Option ℕ) × ServerPool
by_unique digest pool (some ring) (some (b ∷ unique)) =
    (select_or_panic digest ring (b ∷ unique) (is_healthy pool), pool)
by_unique digest pool _ _ = not_panicked (next_healthy pool)

-- The first component is `none` where it panics.
unfoldable pub select_for_submit :
    (Bytes → Bytes) → ServerPool → Option Bytes → Option (Option ℕ) × ServerPool
select_for_submit digest pool unique = by_unique digest pool pool.ring unique
