-- ===== src/Client/Ketama/Panics.antt =====
-- `select` of src/client/ketama.rs with a test that may panic: `none` is the panic.
use native.Mathlib.Nat.{eq-zero-or-pos}
use gearman_rs.Base.{
  ℕ, zero, suc, ◌<◌, ◌≡◌, refl, Bool, true, false, ◌==◌, if◌then◌else◌, Option, none, some, List,
  [], ◌∷◌, ◌++◌, map, length, All, Bool-cases, Option-cases, inl, inr, Bytes, arith,
}
use gearman_rs.Base.Rotation.{rotation, find, rotation-All}
use gearman_rs.Client.Ketama.{
  Ring, Walk, found, gave_up, out_of_fuel, contains, next_after, server_at, start_of, walk,
  first_healthy, or_else_first, select,
}
use gearman_rs.Client.Ketama.Chain.{Owns, server_at-Owns, next_after-Owns, start_of-lt}

abbrev pub unless_seen : Option Bool → ℕ → Option (Option ℕ) → Option (Option ℕ)
unless_seen none x rest = none
unless_seen (some true) x rest = some (some x)
unless_seen (some false) x rest = rest

-- `find`.
unfoldable pub find_or_panic : (ℕ → Option Bool) → List ℕ → Option (Option ℕ)
find_or_panic p [] = some none
find_or_panic p (x ∷ xs) = unless_seen (p x) x (find_or_panic p xs)

abbrev pub unless_picked : Option Bool → ℕ → Option Walk → Option Walk
unless_picked none candidate rest = none
unless_picked (some true) candidate rest = some (found candidate)
unless_picked (some false) candidate rest = rest

-- The `while` loop of `select`.
unfoldable pub walk_or_panic : Ring → (ℕ → Option Bool) → ℕ → ℕ → List ℕ → Option Walk
walk_or_panic ring is_healthy zero candidate tried = some out_of_fuel
walk_or_panic ring is_healthy (suc fuel) candidate tried =
    if contains candidate tried
    then some gave_up
    else unless_picked (is_healthy candidate) candidate (elim (next_after ring candidate) [
      | some next ↦ walk_or_panic ring is_healthy fuel next (tried ++ (candidate ∷ []))
      | none ↦ some gave_up
    ])

abbrev pub or_else : Option Walk → Option (Option ℕ) → Option (Option ℕ)
or_else none fallback = none
or_else (some (found server)) fallback = some (some server)
or_else (some gave_up) fallback = fallback
or_else (some out_of_fuel) fallback = fallback

unfoldable pub select_or_panic :
    (Bytes → Bytes) → Ring → Bytes → (ℕ → Option Bool) → Option (Option ℕ)
select_or_panic digest ring unique is_healthy =
    let start = start_of digest ring unique in
    let fuel = suc (length ring.points) in
    if length ring.points == 0
    then some none
    else or_else (walk_or_panic ring is_healthy fuel (server_at ring start) [])
        (find_or_panic is_healthy (map (server_at ring) (rotation start (length ring.points))))

module _ (p : ℕ → Option Bool) (f : ℕ → Bool) where
  find_or_panic-find :
      (xs : List ℕ) → All (λ i. p i ≡ some (f i)) xs → find_or_panic p xs ≡ some (find f xs)
  unfolding find_or_panic find
  find_or_panic-find [] h = refl
  find_or_panic-find (x ∷ xs) (e, h) = elim (Bool-cases (f x)) [
    | inl here ↦ rw (e, here) refl
    | inr not_here ↦ rw (e, not_here) (find_or_panic-find xs h)
  ]

  module _ (ring : Ring) (total : (i : ℕ) → Owns ring i → p i ≡ some (f i))
      (some_point : 0 < length ring.points) where
    walk_or_panic-walk :
        (fuel candidate : ℕ) (tried : List ℕ)
        → Owns ring candidate
        → walk_or_panic ring p fuel candidate tried ≡ some (walk ring f fuel candidate tried)
    unfolding walk_or_panic walk
    walk_or_panic-walk zero candidate tried o = refl
    walk_or_panic-walk (suc fuel) candidate tried o = elim (Bool-cases (contains candidate tried)) [
      | inl seen ↦ rw seen refl
      | inr fresh ↦ elim (Bool-cases (f candidate)) [
        | inl up ↦ rw (fresh, total candidate o, up) refl
        | inr down ↦ elim (Option-cases (next_after ring candidate)) [
          | inl last ↦ rw (fresh, total candidate o, down, last) refl
          | inr (next, e) ↦
              rw (fresh, total candidate o, down, e)
                (walk_or_panic-walk fuel next (tried ++ (candidate ∷ []))
                  (next_after-Owns ring some_point candidate next e).0)
        ]
      ]
    ]

    All-servers :
        (n : ℕ) (xs : List ℕ)
        → All (λ i. Owns ring (server_at ring i)) xs
        → All (λ i. p i ≡ some (f i)) (map (server_at ring) xs)
    All-servers n [] h = tt
    All-servers n (x ∷ xs) (o, h) = (total (server_at ring x) o, All-servers n xs h)

    first-find :
        (start : ℕ)
        → find_or_panic p (map (server_at ring) (rotation start (length ring.points)))
          ≡ some (first_healthy ring f start)
    first-find start =
        find_or_panic-find (map (server_at ring) (rotation start (length ring.points))) (
          All-servers 0 (rotation start (length ring.points)) (
            rotation-All (λ i. Owns ring (server_at ring i)) start (length ring.points)
              (λ i b. server_at-Owns ring.points i b)))

  or_else-or_else_first :
      (w : Walk) (fallback : Option ℕ)
      → or_else (some w) (some fallback) ≡ some (or_else_first w fallback)
  or_else-or_else_first (found server) fallback = refl
  or_else-or_else_first gave_up fallback = refl
  or_else-or_else_first out_of_fuel fallback = refl

  -- If the test does not panic on any server that has a point on the ring, then `select` does not
  -- panic, and it picks what it picks by the answers alone.
  pub select_or_panic-select :
      (digest : Bytes → Bytes) (ring : Ring) (unique : Bytes)
      → ((i : ℕ) → Owns ring i → p i ≡ some (f i))
      → select_or_panic digest ring unique p ≡ some (select digest ring unique f)
  unfolding select_or_panic select
  select_or_panic-select digest ring unique total = elim (eq-zero-or-pos (length ring.points)) [
    | inl empty ↦ rw empty refl
    | inr h ↦
        let start = start_of digest ring unique in
        let w = walk ring f (suc (length ring.points)) (server_at ring start) [] in
        let some_points : (length ring.points == 0) ≡ false = ground (arith, h) in
        rw
          (
            some_points,
            walk_or_panic-walk ring total h (suc (length ring.points)) (server_at ring start) []
                (server_at-Owns ring.points start (start_of-lt ring h digest unique)),
            first-find ring total h start,
          )
          (or_else-or_else_first w (first_healthy ring f start))
  ]
