-- ===== src/Client/Ketama/Chain.antt =====
-- The walk of `select` along the ring: it stays on the ring, its fuel is enough, and what it finds
-- is healthy. So is what the fall-back finds.
use gearman_rs.Base.{
  ℕ, zero, suc, ◌+◌, ◌%◌, ◌<◌, ◌≡◌, ◌≢◌, refl, ap, subst, Bool, true, false, not, ◌==◌, none, some,
  List, [], ◌∷◌, ◌++◌, map, length, length-append, All, arith, Bool-cases, Option-cases, inl, inr,
  Bytes,
}
use native.Mathlib.Nat.{mod-lt}
use gearman_rs.Base.Rotation.{
  range, rotation, find-none, find-some, find-All, rotation-All, rotation-covers,
}
use gearman_rs.Client.Ketama.{
  Point, Ring, contains, server_at, next_after, position, or_first, Walk, found, gave_up,
  out_of_fuel, walk, first_healthy, start_of,
}
use gearman_rs.Client.Ketama.Distinct.{
  Distinct, Within, Distinct-snoc, Within-snoc, Distinct-length,
}

-- The servers of the points, each as often as it has points.
abbrev pub owners : Ring → List ℕ
owners ring = map (λ p. p.1) ring.points

abbrev pub Owns : Ring → ℕ → Type 0
Owns ring server = contains server (owners ring) ≡ true

length-owners : (points : List Point) → length (map (λ p. p.1) points) ≡ length points
length-owners [] = refl
length-owners (p ∷ points) = ap suc (length-owners points)

pub server_at-Owns :
    (points : List Point) (i : ℕ)
    → i < length points
    → Owns (record { points = points }) (server_at (record { points = points }) i)
unfolding contains
server_at-Owns [] i h = absurd (omega arith)
server_at-Owns ((p, s) ∷ points) zero h = ground arith
server_at-Owns ((p, s) ∷ points) (suc i) h = ground (arith, server_at-Owns points i (omega arith))

Owns-server_at :
    (points : List Point) (s : ℕ)
    → Owns (record { points = points }) s
    → (i : ℕ) × (i < length points) × (server_at (record { points = points }) i ≡ s)
unfolding contains
Owns-server_at [] s h = cc
Owns-server_at ((p, x) ∷ points) s h = elim (Bool-cases (s == x)) [
  | inl same ↦ (0, omega arith, ground arith)
  | inr other ↦
      let (i, bound, e) = Owns-server_at points s (rw other at h) in (suc i, omega arith, e)
]

All-map : (Q : ℕ → Type 0) (f : ℕ → ℕ) (xs : List ℕ) → All (λ x. Q (f x)) xs → All Q (map f xs)
All-map Q f [] h = tt
All-map Q f (x ∷ xs) (h, hs) = (h, All-map Q f xs hs)

All-map_inv : (Q : ℕ → Type 0) (f : ℕ → ℕ) (xs : List ℕ) → All Q (map f xs) → All (λ x. Q (f x)) xs
All-map_inv Q f [] h = tt
All-map_inv Q f (x ∷ xs) (h, hs) = (h, All-map_inv Q f xs hs)

All-map-All : (Q : ℕ → Type 0) (f : ℕ → ℕ) (xs : List ℕ) → ((x : ℕ) → Q (f x)) → All Q (map f xs)
All-map-All Q f [] h = tt
All-map-All Q f (x ∷ xs) h = (h x, All-map-All Q f xs h)

found≢gave_up : (server : ℕ) → gave_up ≢ found server
found≢gave_up server e = cc

pub found-injective : (a b : ℕ) → Path Walk (found a) (found b) → a ≡ b
found-injective a b e = cc

module _ (ring : Ring) (some_point : 0 < length ring.points) where
  in_ring : (n : ℕ) → Owns ring (server_at ring (n % length ring.points))
  in_ring n = server_at-Owns ring.points (n % length ring.points) (mod-lt n some_point)

  -- The next server is on the ring, and not the one that failed.
  pub next_after-Owns :
      (failed next : ℕ) → next_after ring failed ≡ some next → Owns ring next × (next ≢ failed)
  unfolding next_after
  next_after-Owns failed next e =
      let len = length ring.points in
      let after = or_first (position failed ring.points) in
      let walked = map (λ offset. server_at ring ((after + offset) % len)) (range 1 len) in
      let test : ℕ → Bool = λ server. not (server == failed) in
      let differs = find-some test walked next e in
      (
        find-All (Owns ring) test walked next
            (All-map-All (Owns ring) _ (range 1 len) (λ o. in_ring (after + o))) e,
        ground (arith, differs),
      )

  walk_fuel :
      (is_healthy : ℕ → Bool) (fuel candidate : ℕ) (tried : List ℕ)
      → Distinct tried
      → Within (owners ring) tried
      → Owns ring candidate
      → length ring.points < length tried + fuel
      → walk ring is_healthy fuel candidate tried ≢ out_of_fuel
  unfolding walk
  walk_fuel is_healthy zero candidate tried d w o b =
      let few = Distinct-length tried (owners ring) d w in
      absurd (omega (arith, length-owners ring.points))
  walk_fuel is_healthy (suc fuel) candidate tried d w o b =
      elim (Bool-cases (contains candidate tried)) [
        | inl seen ↦ rw seen (λ e. cc)
        | inr fresh ↦ elim (Bool-cases (is_healthy candidate)) [
          | inl healthy ↦ rw (fresh, healthy) (λ e. cc)
          | inr sick ↦ elim (Option-cases (next_after ring candidate)) [
            | inl last ↦ rw (fresh, sick, last) (λ e. cc)
            | inr (next, e) ↦
                rw (fresh, sick, e)
                  (walk_fuel is_healthy fuel next (tried ++ (candidate ∷ []))
                    (Distinct-snoc candidate tried d fresh)
                    (Within-snoc candidate tried (owners ring) w o)
                    (next_after-Owns candidate next e).0
                    (omega (arith, length-append tried (candidate ∷ []))))
          ]
        ]
      ]

  pub walk_found :
      (is_healthy : ℕ → Bool) (fuel candidate : ℕ) (tried : List ℕ) (server : ℕ)
      → Owns ring candidate
      → walk ring is_healthy fuel candidate tried ≡ found server
      → (is_healthy server ≡ true) × Owns ring server
  unfolding walk
  walk_found is_healthy zero candidate tried server o f = cc
  walk_found is_healthy (suc fuel) candidate tried server o f =
      elim (Bool-cases (contains candidate tried)) [
        | inl seen ↦ absurd (found≢gave_up server (rw seen at f))
        | inr fresh ↦ elim (Bool-cases (is_healthy candidate)) [
          | inl healthy ↦
              let same = found-injective candidate server (rw (fresh, healthy) at f) in
              (subst (λ s. is_healthy s ≡ true) same healthy, subst (Owns ring) same o)
          | inr sick ↦ elim (Option-cases (next_after ring candidate)) [
            | inl last ↦ absurd (found≢gave_up server (rw (fresh, sick, last) at f))
            | inr (next, e) ↦
                walk_found is_healthy fuel next (tried ++ (candidate ∷ [])) server
                  (next_after-Owns candidate next e).0 (rw (fresh, sick, e) at f)
          ]
        ]
      ]

  -- Every candidate of `select` is on the ring, the first one too.
  pub start_of-lt :
      (digest : Bytes → Bytes) (unique : Bytes) → start_of digest ring unique < length ring.points
  unfolding start_of
  start_of-lt digest unique = mod-lt _ some_point

  -- On a ring with a point, the loop of `select`, started at the owner of any unique id with
  -- one unit of fuel for each point and one more, does not run out of fuel.
  pub walk-terminates :
      (digest : Bytes → Bytes) (unique : Bytes) (is_healthy : ℕ → Bool)
      → walk ring is_healthy
          (suc (length ring.points))
          (server_at ring (start_of digest ring unique))
          []
        ≢ out_of_fuel
  walk-terminates digest unique is_healthy =
      walk_fuel is_healthy (suc (length ring.points)) _ [] tt tt
        (server_at-Owns ring.points _ (start_of-lt digest unique)) (omega arith)

  pub first_healthy-some :
      (is_healthy : ℕ → Bool) (start server : ℕ)
      → first_healthy ring is_healthy start ≡ some server
      → (is_healthy server ≡ true) × Owns ring server
  first_healthy-some is_healthy start server e =
      let servers = map (server_at ring) (rotation start (length ring.points)) in
      (
        find-some is_healthy servers server e,
        find-All (Owns ring) is_healthy servers server
            (All-map (Owns ring) (server_at ring) _ (
              rotation-All (λ i. Owns ring (server_at ring i)) start (length ring.points)
                (λ i b. server_at-Owns ring.points i b)))
            e,
      )

  pub first_healthy-none :
      (is_healthy : ℕ → Bool) (start : ℕ)
      → start < length ring.points
      → first_healthy ring is_healthy start ≡ none
      → (server : ℕ) → Owns ring server
      → is_healthy server ≡ false
  first_healthy-none is_healthy start b e server o =
      let servers = map (server_at ring) (rotation start (length ring.points)) in
      let (i, bound, same) = Owns-server_at ring.points server o in
      subst (λ s. is_healthy s ≡ false) same
        (rotation-covers (λ i. is_healthy (server_at ring i) ≡ false) start (length ring.points) b
          (All-map_inv (λ s. is_healthy s ≡ false) (server_at ring) _
            (find-none is_healthy servers e))
          i bound)
