-- ===== src/Client/Ketama/Build.antt =====
-- The ring of a list of servers: sixteen points of 32 bits for each server, and no others.
use gearman_rs.Base.{
  ℕ, zero, suc, ◌+◌, ◌*◌, ◌^◌, ◌≤◌, ◌<◌, ◌≡◌, refl, ap, ◌∙◌, List, [], ◌∷◌, ◌++◌, map, length,
  length-append, length-map, All, arith, Bytes, IsBytes,
}
use gearman_rs.Client.Ketama.{
  Point, words, replica_text, replica_points, server_points, split_host_port, new_ring,
}

-- What the code relies on of MD5: sixteen bytes.
abbrev pub IsDigest : (Bytes → Bytes) → Type 0
IsDigest digest = (s : Bytes) → (length (digest s) ≡ 16) × IsBytes (digest s)

-- What the code relies on of the sort: as many points, and the same ones.
abbrev pub IsReorder : (List Point → List Point) → Type 1
IsReorder sort =
    ((ps : List Point) → length (sort ps) ≡ length ps)
    × ((P : Point → Type 0) (ps : List Point) → All P ps → All P (sort ps))

All-append : (P : Point → Type 0) (xs ys : List Point) → All P xs → All P ys → All P (xs ++ ys)
All-append P [] ys h k = k
All-append P (x ∷ xs) ys (p, h) k = (p, All-append P xs ys h k)

-- A word for every four bytes.
length-words : (n : ℕ) (s : Bytes) → length s ≡ 4 * n → length (words s) ≡ n
unfolding words
length-words (suc n) (a ∷ b ∷ c ∷ d ∷ rest) h = ap suc (length-words n rest (omega arith))
length-words (suc n) _ h = absurd (omega arith)
length-words zero [] h = refl
length-words zero (x ∷ s) h = absurd (omega arith)

words-lt : (s : Bytes) → IsBytes s → All (λ w. w < 2 ^ 32) (words s)
unfolding words
words-lt (a ∷ b ∷ c ∷ d ∷ rest) (ha, (hb, (hc, (hd, h)))) = (omega arith, words-lt rest h)
words-lt _ h = tt

-- A point of a ring of `n` servers: 32 bits, and the index of a server.
abbrev pub IsPoint : ℕ → Point → Type 0
IsPoint n p = (p.0 < 2 ^ 32) × (p.1 < n)

IsPoint-map :
    (n index : ℕ) (ws : List ℕ)
    → index < n
    → All (λ w. w < 2 ^ 32) ws
    → All (IsPoint n) (map (λ point. (point, index)) ws)
IsPoint-map n index [] b h = tt
IsPoint-map n index (w ∷ ws) b (h, hs) = ((h, b), IsPoint-map n index ws b hs)

module _ (digest : Bytes → Bytes) (is_digest : IsDigest digest) where
  replica_points-length :
      (host : Bytes × ℕ) (index replica n : ℕ)
      → length (replica_points digest host index replica n) ≡ 4 * n
  unfolding replica_points
  replica_points-length host index replica zero = refl
  replica_points-length host index replica (suc n) =
      let text = replica_text digest host replica in
      let here : List Point = map (λ point. (point, index)) (words (digest text)) in
      omega (
        arith,
        replica_points-length host index (suc replica) n,
        length-append here (replica_points digest host index (suc replica) n),
        length-map {B = Point} (λ point. (point, index)) (words (digest text)),
        length-words 4 (digest text) (is_digest text).0,
      )

  replica_points-IsPoint :
      (k : ℕ) (host : Bytes × ℕ) (index replica n : ℕ)
      → index < k
      → All (IsPoint k) (replica_points digest host index replica n)
  unfolding replica_points
  replica_points-IsPoint k host index replica zero b = tt
  replica_points-IsPoint k host index replica (suc n) b =
      let text = replica_text digest host replica in
      All-append (IsPoint k) _ _
        (IsPoint-map k index (words (digest text)) b (words-lt (digest text) (is_digest text).1))
        (replica_points-IsPoint k host index (suc replica) n b)

  server_points-length :
      (index : ℕ) (servers : List Bytes)
      → length (server_points digest index servers) ≡ 16 * length servers
  unfolding server_points
  server_points-length index [] = refl
  server_points-length index (addr ∷ servers) =
      let host = split_host_port addr in
      omega (
        arith,
        server_points-length (suc index) servers,
        replica_points-length host index 0 4,
        length-append (replica_points digest host index 0 4)
            (server_points digest (suc index) servers),
      )

  server_points-IsPoint :
      (k index : ℕ) (servers : List Bytes)
      → index + length servers ≤ k
      → All (IsPoint k) (server_points digest index servers)
  unfolding server_points
  server_points-IsPoint k index [] b = tt
  server_points-IsPoint k index (addr ∷ servers) b =
      All-append (IsPoint k) _ _
        (replica_points-IsPoint k (split_host_port addr) index 0 4 (omega arith))
        (server_points-IsPoint k (suc index) servers (omega arith))

  -- If the digest gives sixteen bytes and the sort keeps the number and the properties of the
  -- points, a new ring has sixteen points for each server; each point is below 2^32 and has
  -- the index of a server of the list.
  pub new_ring-points :
      (sort : List Point → List Point) (servers : List Bytes)
      → IsReorder sort
      → let points = (new_ring digest sort servers).points in
        (length points ≡ 16 * length servers) × All (IsPoint (length servers)) points
  unfolding new_ring
  new_ring-points sort servers (same_length, same_points) = (
    same_length _ ∙ server_points-length 0 servers,
    same_points _ _ (server_points-IsPoint (length servers) 0 servers (omega arith)),
  )
