-- ===== src/Client/Pool/Rotate.antt =====
-- The round robin of `next_healthy`: fair, and never without a server while one is healthy.
use gearman_rs.Base.{
  All, get_elem?, ℕ, zero, suc, ◌+◌, ◌%◌, ◌^◌, ◌<◌, ◌≡◌, refl, ap, ◌∙◌, Bool, true, false, Option,
  none, some, List, [], ◌∷◌, map, length, arith, inl, inr,
}
use native.Mathlib.Nat.{mod-lt, mod-eq_of_lt, eq-zero-or-pos}
use gearman_rs.Base.Rotation.{
  range, rotation, find, find-none, find-some, find-All, rotation-All, rotation-covers,
}
use gearman_rs.Client.Pool.{ServerSlot, ServerPool, connected_at, advance, next_healthy}

-- A server that is picked is one of the pool, and it is healthy.
pub next_healthy-some :
    (pool : ServerPool) (i : ℕ)
    → (next_healthy pool).0 ≡ some i
    → (i < length pool.servers) × (connected_at pool i ≡ true)
unfolding next_healthy
next_healthy-some pool i e = elim (eq-zero-or-pos (length pool.servers)) [
  | inl empty ↦ ground arith
  | inr h ↦
      let start = pool.cursor % length pool.servers in
      let e' : find (connected_at pool) (rotation start (length pool.servers)) ≡ some i =
        ground arith in
      (
        find-All (λ j. j < length pool.servers) (connected_at pool) _ i
            (rotation-All (λ j. j < length pool.servers) start (length pool.servers) (λ j b. b)) e',
        find-some (connected_at pool) _ i e',
      )
]

-- If the round robin picks no server then no server of the pool is healthy.
pub next_healthy-none :
    (pool : ServerPool)
    → (next_healthy pool).0 ≡ none
    → (i : ℕ) → i < length pool.servers
    → connected_at pool i ≡ false
unfolding next_healthy
next_healthy-none pool e i b =
    let start = pool.cursor % length pool.servers in
    let e' : find (connected_at pool) (rotation start (length pool.servers)) ≡ none =
      ground arith in
    rotation-covers (λ j. connected_at pool j ≡ false) start (length pool.servers)
      (mod-lt pool.cursor (omega arith)) (find-none (connected_at pool) _ e') i b

-- What `n` submissions in a row are given.
abbrev pub picks : ℕ → ServerPool → List (Option ℕ)
picks zero pool = []
picks (suc n) pool = let (picked, after) = next_healthy pool in picked ∷ picks n after

abbrev AllHealthy : ServerPool → Type 0
AllHealthy pool = (i : ℕ) → i < length pool.servers → connected_at pool i ≡ true

no_offset : (start : ℕ) → start + 0 ≡ start
no_offset start = omega arith

find-rotation_first :
    (p : ℕ → Bool) (start len : ℕ)
    → start < len
    → p start ≡ true
    → find p (rotation start len) ≡ some start
unfolding find
find-rotation_first p start zero b h = absurd (omega arith)
find-rotation_first p start (suc n) b h =
    let here : (start + 0) % suc n ≡ start =
      ap (λ x. x % suc n) (no_offset start) ∙ mod-eq_of_lt b in
    rw (here, h) refl

next_healthy-all :
    (pool : ServerPool)
    → 0 < length pool.servers
    → AllHealthy pool
    → next_healthy pool ≡ (some (pool.cursor % length pool.servers), advance pool)
unfolding next_healthy
next_healthy-all pool h all =
    let start = pool.cursor % length pool.servers in
    let b = mod-lt pool.cursor h in
    ground
      (arith, find-rotation_first (connected_at pool) start (length pool.servers) b (all start b))

All-get_elem? :
    (servers : List ServerSlot) (i : ℕ)
    → All (λ s. s.connected ≡ true) servers
    → i < length servers
    → (elim (get_elem? servers i) [ some s ↦ s.connected | none ↦ false ]) ≡ true
All-get_elem? [] i h b = absurd (omega arith)
All-get_elem? (s ∷ servers) zero (h, hs) b = h
All-get_elem? (s ∷ servers) (suc i) (h, hs) b = All-get_elem? servers i hs (omega arith)

-- For a pool with servers, all of them connected, and a cursor that does not reach 2^64 within
-- n picks, n round-robin picks in a row give the servers in turn, from the cursor's on.
pub picks-in_turn :
    (n : ℕ) (pool : ServerPool)
    → 0 < length pool.servers
    → All (λ s. s.connected ≡ true) pool.servers
    → pool.cursor + n < 2 ^ 64
    → picks n pool ≡ map (λ c. some (c % length pool.servers)) (range pool.cursor n)
unfolding connected_at
picks-in_turn zero pool h all b = refl
picks-in_turn (suc n) pool h all b =
    let next : (pool.cursor + 1) % 2 ^ 64 ≡ suc pool.cursor = omega arith in
    let later = picks-in_turn n (record pool { cursor = suc pool.cursor }) h all (omega arith) in
    rw (next_healthy-all pool h (λ i. All-get_elem? pool.servers i all), next)
      (ap (◌∷◌ (some (pool.cursor % length pool.servers))) later)
