-- ===== src/Client/Tests/Selection.antt =====
-- The theorems on the choice of a server at concrete rings and pools.
use gearman_rs.Base.{
  Lacks, ℕ, ◌≡◌, ◌≢◌, refl, Bool, true, false, not, ◌==◌, Bytes, codes, List, [], ◌∷◌, none, some,
  arith, length, All, replicate,
}
use gearman_rs.Base.Rotation.{find}
use gearman_rs.Client.Ketama.{
  Point, Ring, select, start_of, md5_u32, words, partition_point, walk, contains, next_after,
  position, server_at, new_ring, out_of_fuel,
}
use gearman_rs.Client.Ketama.Build.{IsDigest, IsReorder, IsPoint, new_ring-points}
use gearman_rs.Client.Ketama.Chain.{Owns, walk-terminates}
use gearman_rs.Client.Ketama.Select.{primary, select-failover, select-healthy, select-none}
use gearman_rs.Client.Ketama.Successor.{Sorted, IsSuccessor, select-IsSuccessor}
use gearman_rs.Client.Pool.{ServerSlot, ServerPool, connected_at, next_healthy, new_pool}
use gearman_rs.Client.Pool.Rotate.{picks, picks-in_turn}

-- A digest of sixteen bytes, the first word of which is 5.
abbrev digest : Bytes → Bytes
digest s = 5 ∷ replicate 15 0

abbrev ring : Ring
ring = record { points = (4, 0) ∷ (10, 1) ∷ (20, 0) ∷ (30, 2) ∷ [] }

abbrev all_up : ℕ → Bool
all_up i = true

abbrev one_down : ℕ → Bool
one_down i = not (i == 1)

abbrev all_down : ℕ → Bool
all_down i = false

owner : primary digest ring (codes "id") ≡ 1
unfolding start_of md5_u32 words partition_point
owner = refl

owner_down : one_down (primary digest ring (codes "id")) ≡ false
unfolding start_of md5_u32 words partition_point
owner_down = refl

next_owner : next_after ring (primary digest ring (codes "id")) ≡ some 0
unfolding next_after position find start_of md5_u32 words partition_point
next_owner = refl

select-failover_example :
    (select digest ring (codes "id") one_down ≡ some 0) × (0 ≢ primary digest ring (codes "id"))
select-failover_example =
    select-failover digest ring (codes "id") one_down 0 (omega arith) owner_down next_owner refl

select-healthy_example : (one_down 0 ≡ true) × Owns ring 0
select-healthy_example =
    select-healthy digest ring (codes "id") one_down 0
      (select-failover digest ring (codes "id") one_down 0 (omega arith) owner_down next_owner
        refl).0

nobody : select digest ring (codes "id") all_down ≡ none
unfolding select walk contains next_after position find start_of md5_u32 words partition_point
nobody = refl

third-Owns : Owns ring 2
unfolding contains
third-Owns = refl

select-none_example : all_down 2 ≡ false
select-none_example = select-none digest ring (codes "id") all_down nobody 2 third-Owns

walk-terminates_example :
    walk ring all_down 5 (server_at ring (start_of digest ring (codes "id"))) [] ≢ out_of_fuel
walk-terminates_example = walk-terminates ring (omega arith) digest (codes "id") all_down

digest-IsDigest : IsDigest digest
digest-IsDigest s = (refl, ground arith)

abbrev unsorted : List Point → List Point
unsorted ps = ps

unsorted-IsReorder : IsReorder unsorted
unsorted-IsReorder = (λ ps. refl, λ P ps h. h)

new_ring-points_example :
    (length (new_ring digest unsorted (codes "a:1" ∷ codes "b" ∷ [])).points ≡ 32)
    × All (IsPoint 2) (new_ring digest unsorted (codes "a:1" ∷ codes "b" ∷ [])).points
new_ring-points_example =
    new_ring-points digest digest-IsDigest unsorted (codes "a:1" ∷ codes "b" ∷ [])
      unsorted-IsReorder

abbrev up : ServerSlot
up = record { queue = []; receiver_alive = true; connected = true; attempted = true }

abbrev down : ServerSlot
down = record up { connected = false }

abbrev three : ServerPool
three = new_pool (up ∷ up ∷ up ∷ []) none

picks-in_turn_example : picks 4 three ≡ some 0 ∷ some 1 ∷ some 2 ∷ some 0 ∷ []
picks-in_turn_example = picks-in_turn 4 three (omega arith) (refl, (refl, (refl, tt))) (omega arith)

abbrev both_down : ServerPool
both_down = new_pool (down ∷ down ∷ []) none

nobody_up : (next_healthy both_down).0 ≡ none
unfolding next_healthy connected_at find
nobody_up = refl

host-Lacks : Lacks b':' (codes "a.b")
host-Lacks = ground arith

ring-Sorted : Sorted ring.points
ring-Sorted = ground arith

select-IsSuccessor_example :
    (select digest ring (codes "id") all_up
      ≡ some (server_at ring (start_of digest ring (codes "id"))))
    × IsSuccessor (md5_u32 digest (codes "id")) ring.points (start_of digest ring (codes "id"))
select-IsSuccessor_example =
    select-IsSuccessor digest ring (codes "id") all_up (omega arith) ring-Sorted refl
