-- ===== src/Client/Ketama/Successor.antt =====
-- The owner of a hash on the ring of src/client/ketama.rs is the next point on the circle.
use native.Mathlib.Nat.{mod-eq_of_lt, mod_self}
use gearman_rs.Base.{
  ℕ, suc, ◌≤◌, ◌<◌, ◌%◌, ◌≡◌, refl, ap, Bool, true, ltb, ltb→lt, ltb_false→le, some, List, [], ◌∷◌,
  All, length, get_elem?, arith, inl, inr, ◌⊎◌, Bool-cases, Bytes,
}
use gearman_rs.Client.Ketama.{Point, Ring, md5_u32, partition_point, server_at, start_of, select}
use gearman_rs.Client.Ketama.Select.{primary, select-primary}

-- Points in order, as the sort of a new ring leaves them.
abbrev pub Sorted : List Point → Type 0
Sorted [] = Unit
Sorted (p ∷ points) = All (λ q. p.0 ≤ q.0) points × Sorted points

-- The point at an index is the first at the hash or after it; or the circle begins again, where
-- there is none.
pub data IsSuccessor (hash : ℕ) (points : List Point) (i : ℕ) : Type 0 where
  next :
      (p : Point)
      → get_elem? points i ≡ some p
      → hash ≤ p.0
      → All (λ q. (q.0 < hash) ⊎ (p.0 ≤ q.0)) points
      → IsSuccessor hash points i
  wrapped : i ≡ 0 → All (λ q. q.0 < hash) points → IsSuccessor hash points i

-- What the partition point splits: all points before the hash, or a first one that is not.
data Splits (hash : ℕ) (points : List Point) (i : ℕ) : Type 0 where
  inside :
      (p : Point)
      → get_elem? points i ≡ some p
      → i < length points
      → hash ≤ p.0
      → All (λ q. (q.0 < hash) ⊎ (p.0 ≤ q.0)) points
      → Splits hash points i
  outside : i ≡ length points → All (λ q. q.0 < hash) points → Splits hash points i

later_or :
    (hash : ℕ) (p : Point) (points : List Point)
    → All (λ q. p.0 ≤ q.0) points
    → All (λ q. (q.0 < hash) ⊎ (p.0 ≤ q.0)) points
later_or hash p [] h = tt
later_or hash p (q ∷ points) (h, hs) = (inr h, later_or hash p points hs)

Splits-cons :
    (hash : ℕ) (p : Point) (points : List Point) (i : ℕ)
    → p.0 < hash
    → Splits hash points i
    → Splits hash (p ∷ points) (suc i)
Splits-cons hash p points i low (inside q e b h all) = inside q e (omega arith) h (inl low, all)
Splits-cons hash p points i low (outside e all) = outside (ap suc e) (low, all)

partition_point-Splits :
    (hash : ℕ) (points : List Point)
    → Sorted points
    → Splits hash points (partition_point (λ p. ltb p.0 hash) points)
unfolding partition_point
partition_point-Splits hash [] s = outside refl tt
partition_point-Splits hash (p ∷ points) (first, s) = elim (Bool-cases (ltb p.0 hash)) [
  | inl low ↦ rw low (
      Splits-cons hash p points (partition_point (λ q. ltb q.0 hash) points) (ltb→lt p.0 hash low)
        (partition_point-Splits hash points s))
  | inr high ↦ rw high (
      inside p refl (omega arith) (ltb_false→le p.0 hash high)
        (inr (omega arith), later_or hash p points first))
]

Splits-IsSuccessor :
    (hash : ℕ) (points : List Point) (i : ℕ)
    → 0 < length points
    → Splits hash points i
    → IsSuccessor hash points (i % length points)
Splits-IsSuccessor hash points i some_point (inside p e b h all) =
    rw (mod-eq_of_lt b) (next p e h all)
Splits-IsSuccessor hash points i some_point (outside e all) =
    rw (e, mod_self (length points)) (wrapped refl all)

-- On a ring with a point whose points are sorted, if the owner of a unique id is healthy then
-- `select` picks it; it has the first point that is not before the id's hash, or the first
-- point of all when every point is before it.
pub select-IsSuccessor :
    (digest : Bytes → Bytes) (ring : Ring) (unique : Bytes) (is_healthy : ℕ → Bool)
    → 0 < length ring.points
    → Sorted ring.points
    → is_healthy (primary digest ring unique) ≡ true
    → (select digest ring unique is_healthy ≡ some (server_at ring (start_of digest ring unique)))
      × IsSuccessor (md5_u32 digest unique) ring.points (start_of digest ring unique)
unfolding start_of
select-IsSuccessor digest ring unique is_healthy some_point sorted up = (
  select-primary digest ring unique is_healthy some_point up,
  Splits-IsSuccessor (md5_u32 digest unique) ring.points
      (partition_point (λ p. ltb p.0 (md5_u32 digest unique)) ring.points) some_point
      (partition_point-Splits (md5_u32 digest unique) ring.points sorted),
)
