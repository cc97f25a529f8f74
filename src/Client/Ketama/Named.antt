-- ===== src/Client/Ketama/Named.antt =====
-- The points of a ring of src/client/ketama.rs with the addresses of their servers in place of the
-- indices.
use mathlib.Core.List.{append_assoc}
use gearman_rs.Base.{
  ℕ, zero, suc, ◌<◌, ◌≡◌, refl, sym, ap, subst, ◌∙◌, inl, inr, true, ltb, if◌then◌else◌, Option,
  none, some, List, [], ◌∷◌, ◌++◌, map, length, get_elem?, Bytes, arith,
}
use gearman_rs.Client.Ketama.{
  Point, words, replica_text, replica_points, replicas_per_server, server_points, split_host_port,
  partition_point, server_at,
}
use gearman_rs.Client.Ketama.Ascending.{
  Has, ascending, map-append, Has-append_left, Has-append_right, Has-append_cases,
}

-- A point with the address of its server.
abbrev pub Named : Type 0
Named = ℕ × Option Bytes

abbrev pub named_point : List Bytes → Point → Named
named_point servers (hash, index) = (hash, get_elem? servers index)

-- The number of points before the first that is at the hash or after it.
unfoldable pub below : ℕ → List Named → ℕ
below h [] = 0
below h (n ∷ ns) = let rest = below h ns in if ltb n.0 h then suc rest else 0

abbrev pub name_of : Option Named → Option Bytes
name_of none = none
name_of (some (h, addr)) = addr

pub partition_point-named :
    (servers : List Bytes) (h : ℕ) (ps : List Point)
    → partition_point (λ p. ltb p.0 h) ps ≡ below h (map (named_point servers) ps)
unfolding partition_point below
partition_point-named servers h [] = refl
partition_point-named servers h ((q, index) ∷ ps) = rw (partition_point-named servers h ps) refl

pub ascending-named :
    (servers : List Bytes) (ps : List Point)
    → ascending ps ≡ true
    → ascending (map (named_point servers) ps) ≡ true
unfolding ascending
ascending-named servers [] h = refl
ascending-named servers (p ∷ []) h = refl
ascending-named servers (p ∷ q ∷ ps) h =
    let up : ltb p.0 q.0 ≡ true = ground (arith, h) in
    rw (up, ascending-named servers (q ∷ ps) (ground (arith, h))) refl

-- The address of the server of a point.
pub address_at :
    (servers : List Bytes) (ps : List Point) (i : ℕ)
    → i < length ps
    → get_elem? servers (server_at (record { points = ps }) i)
      ≡ name_of (get_elem? (map (named_point servers) ps) i)
address_at servers [] i b = absurd (omega arith)
address_at servers ((h, index) ∷ ps) zero b = refl
address_at servers (p ∷ ps) (suc i) b = address_at servers ps i (omega arith)

module _ (digest : Bytes → Bytes) where
  -- The hashes of a server.
  unfoldable pub replica_hashes : Bytes × ℕ → ℕ → ℕ → List ℕ
  replica_hashes host replica zero = []
  replica_hashes host replica (suc n) =
      words (digest (replica_text digest host replica)) ++ replica_hashes host (suc replica) n

  abbrev pub server_names : Bytes → List Named
  server_names addr =
      map (λ h. (h, some addr)) (replica_hashes (split_host_port addr) 0 replicas_per_server)

  -- The points of a list of servers, with the addresses.
  unfoldable pub named_points : List Bytes → List Named
  named_points [] = []
  named_points (addr ∷ servers) = server_names addr ++ named_points servers

  name_words :
      (all : List Bytes) (addr : Bytes) (index : ℕ) (ws : List ℕ)
      → get_elem? all index ≡ some addr
      → map (named_point all) (map (λ h. (h, index)) ws) ≡ map (λ h. (h, some addr)) ws
  name_words all addr index [] e = refl
  name_words all addr index (w ∷ ws) e = rw (e, name_words all addr index ws e) refl

  name_replicas :
      (all : List Bytes) (addr : Bytes) (host : Bytes × ℕ) (index replica n : ℕ)
      → get_elem? all index ≡ some addr
      → map (named_point all) (replica_points digest host index replica n)
        ≡ map (λ h. (h, some addr)) (replica_hashes host replica n)
  unfolding replica_points replica_hashes
  name_replicas all addr host index replica zero e = refl
  name_replicas all addr host index replica (suc n) e =
      map-append (named_point all)
        (map (λ h. (h, index)) (words (digest (replica_text digest host replica))))
        (replica_points digest host index (suc replica) n)
      ∙ rw
          (
            name_words all addr index (words (digest (replica_text digest host replica))) e,
            name_replicas all addr host index (suc replica) n e,
          )
          (sym (
            map-append (λ h. (h, some addr)) (words (digest (replica_text digest host replica)))
              (replica_hashes host (suc replica) n)))

  get_elem?-append :
      (before : List Bytes) (addr : Bytes) (servers : List Bytes)
      → get_elem? (before ++ addr ∷ servers) (length before) ≡ some addr
  get_elem?-append [] addr servers = refl
  get_elem?-append (b ∷ before) addr servers = get_elem?-append before addr servers

  length-next :
      (before : List Bytes) (addr : Bytes) → length (before ++ addr ∷ []) ≡ suc (length before)
  length-next [] addr = refl
  length-next (b ∷ before) addr = ap suc (length-next before addr)

  pub name_servers :
      (before servers : List Bytes)
      → map (named_point (before ++ servers)) (server_points digest (length before) servers)
        ≡ named_points servers
  unfolding server_points named_points
  name_servers before [] = refl
  name_servers before (addr ∷ servers) =
      let rest : map (named_point (before ++ addr ∷ servers))
            (server_points digest (suc (length before)) servers)
          ≡ named_points servers =
        rw (sym (length-next before addr), sym (append_assoc before (addr ∷ []) servers))
          (name_servers (before ++ addr ∷ []) servers) in
      map-append (named_point (before ++ addr ∷ servers))
        (replica_points digest (split_host_port addr) (length before) 0 replicas_per_server)
        (server_points digest (suc (length before)) servers)
      ∙ rw
          (
            name_replicas (before ++ addr ∷ servers) addr (split_host_port addr) (length before) 0
                replicas_per_server (get_elem?-append before addr servers),
            rest,
          )
          refl

  pub Has-named_source :
      (n : Named) (servers : List Bytes)
      → Has n (named_points servers)
      → (addr : Bytes) × Has addr servers × Has n (server_names addr)
  unfolding named_points Has
  Has-named_source n [] h = elim h [ ]
  Has-named_source n (a ∷ servers) h =
      elim (Has-append_cases n (server_names a) (named_points servers) h) [
        | inl here ↦ (a, inl refl, here)
        | inr k ↦ let (addr, m, e) = Has-named_source n servers k in (addr, inr m, e)
      ]

  pub Has-named :
      (n : Named) (addr : Bytes) (servers : List Bytes)
      → Has addr servers
      → Has n (server_names addr)
      → Has n (named_points servers)
  unfolding named_points Has
  Has-named n addr [] h k = elim h [ ]
  Has-named n addr (a ∷ servers) (inl e) k =
      Has-append_left n (server_names a) (named_points servers)
        (subst (λ b. Has n (server_names b)) (sym e) k)
  Has-named n addr (a ∷ servers) (inr h) k =
      Has-append_right n (server_names a) (named_points servers) (Has-named n addr servers h k)
