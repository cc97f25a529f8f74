-- ===== src/Client/Ketama.antt =====
-- src/client/ketama.rs: the consistent-hash ring. MD5 and the sort are those of other crates: they
-- are parameters. `walk` runs on fuel, one for each point of the ring and one more; Ketama/Chain
-- shows that this is enough.
pub mod Build
pub mod Address
pub mod Chain
pub mod Distinct
pub mod Select
pub mod Successor
pub mod Ascending
pub mod Panics
pub mod Named
pub mod Order
use gearman_rs.Base.{
  ℕ, zero, suc, ◌+◌, ◌*◌, ◌%◌, Bool, true, false, not, ◌==◌, ltb, if◌then◌else◌, Option, none, some,
  List, [], ◌∷◌, ◌++◌, map, length, get_elem?, take, Bytes, codes,
}
use gearman_rs.Base.Decimal.{parse, max_u16, to_string}
use gearman_rs.Base.Fields.{split_once, rsplit_once, strip_prefix}
use gearman_rs.Base.Rotation.{range, rotation, find}

abbrev pub replicas_per_server : ℕ
replicas_per_server = 4

abbrev pub default_port : ℕ
default_port = 4730

-- A point and the index of its server.
abbrev pub Point : Type 0
Point = ℕ × ℕ

pub record Ring : Type 0 where
  pub points : List Point

-- `contains`.
unfoldable pub contains : ℕ → List ℕ → Bool
contains n [] = false
contains n (m ∷ ms) = let rest = contains n ms in if n == m then true else rest

abbrev pub split_brackets : Bytes → Option (Bytes × Bytes) → Bytes × Option Bytes
split_brackets addr (some (host, tail)) = (host, strip_prefix b':' tail)
split_brackets addr none = (addr, none)

abbrev pub split_last_colon : Bytes → Option (Bytes × Bytes) → Bytes × Option Bytes
split_last_colon addr (some (host, port)) =
    if contains b':' host then (addr, none) else (host, some port)
split_last_colon addr none = (addr, none)

abbrev pub split_parts : Bytes → Option Bytes → Bytes × Option Bytes
split_parts addr (some rest) = split_brackets addr (split_once b']' rest)
split_parts addr none = split_last_colon addr (rsplit_once b':' addr)

-- `.and_then(parse).filter(|&p| p != 0).unwrap_or(DEFAULT_PORT)`
abbrev pub port_or_default : Option ℕ → ℕ
port_or_default none = default_port
port_or_default (some p) = if p == 0 then default_port else p

abbrev pub parse_port : Option Bytes → ℕ
parse_port none = default_port
parse_port (some p) = port_or_default (parse max_u16 p)

unfoldable pub split_host_port : Bytes → Bytes × ℕ
split_host_port addr =
    let (host, port) = split_parts addr (strip_prefix b'[' addr) in (host, parse_port port)

-- `u32::from_le_bytes`.
abbrev pub from_le_bytes : ℕ → ℕ → ℕ → ℕ → ℕ
from_le_bytes a b c d = a + 256 * b + 65536 * c + 16777216 * d

-- `chunks_exact(4)`, each chunk as a number.
unfoldable pub words : Bytes → List ℕ
words (a ∷ b ∷ c ∷ d ∷ rest) = from_le_bytes a b c d ∷ words rest
words _ = []

-- `Md5::digest`.
module _ (digest : Bytes → Bytes) where
  -- The four bytes that `digest[..4]` takes; a digest has sixteen.
  abbrev pub first_word : List ℕ → ℕ
  first_word [] = 0
  first_word (w ∷ ws) = w

  unfoldable pub md5_u32 : Bytes → ℕ
  md5_u32 key = first_word (words (digest key))

  -- `format!("{host}:{port}-{replica}")`
  abbrev pub replica_text : Bytes × ℕ → ℕ → Bytes
  replica_text (host, port) replica = host ++ (b':' ∷ to_string port) ++ (b'-' ∷ to_string replica)

  -- The points of `n` replicas from `replica` on.
  unfoldable pub replica_points : Bytes × ℕ → ℕ → ℕ → ℕ → List Point
  replica_points host index replica zero = []
  replica_points host index replica (suc n) =
      map (λ point. (point, index)) (words (digest (replica_text host replica)))
      ++ replica_points host index (suc replica) n

  -- The points of the servers, `index` being that of the first.
  unfoldable pub server_points : ℕ → List Bytes → List Point
  server_points index [] = []
  server_points index (addr ∷ servers) =
      replica_points (split_host_port addr) index 0 replicas_per_server
      ++ server_points (suc index) servers

  -- `Ring::new`; the first argument is `sort_unstable_by_key` with the point for the key.
  unfoldable pub new_ring : (List Point → List Point) → List Bytes → Ring
  new_ring sort_by_point servers = record { points = sort_by_point (server_points 0 servers) }

-- `partition_point` of a slice that the test partitions.
unfoldable pub partition_point : (Point → Bool) → List Point → ℕ
partition_point p [] = 0
partition_point p (x ∷ xs) = let rest = partition_point p xs in if p x then suc rest else 0

-- `points[i].1`; an index outside the ring is a panic, which none of the uses below meets.
abbrev pub server_at : Ring → ℕ → ℕ
server_at ring i = elim (get_elem? ring.points i) [ some (point, server) ↦ server | none ↦ 0 ]

-- `iter().position(..).unwrap_or(0)`
unfoldable pub position : ℕ → List Point → Option ℕ
position server [] = none
position server ((point, s) ∷ rest) =
    let later = position server rest in
    if s == server then some 0 else elim later [ some i ↦ some (suc i) | none ↦ none ]

abbrev pub or_first : Option ℕ → ℕ
or_first none = 0
or_first (some i) = i

-- The offsets `1..=len` from `after` are those of a cycle that starts one further.
unfoldable pub next_after : Ring → ℕ → Option ℕ
next_after ring failed =
    let len = length ring.points in
    let after = or_first (position failed ring.points) in
    find (λ server. not (server == failed))
      (map (λ offset. server_at ring ((after + offset) % len)) (range 1 len))

-- How the loop of `select` ends.
pub data Walk : Type 0 where
  found : ℕ → Walk
  -- a server that was tried before, or no next one
  gave_up : Walk
  out_of_fuel : Walk

-- The `while` loop of `select`.
unfoldable pub walk : Ring → (ℕ → Bool) → ℕ → ℕ → List ℕ → Walk
walk ring is_healthy zero candidate tried = out_of_fuel
walk ring is_healthy (suc fuel) candidate tried =
    if contains candidate tried
    then gave_up
    else if is_healthy candidate
    then found candidate
    else elim (next_after ring candidate) [
      | some next ↦ walk ring is_healthy fuel next (tried ++ (candidate ∷ []))
      | none ↦ gave_up
    ]

-- `map(|offset| ..).find(|&server| is_healthy(server))`
abbrev pub first_healthy : Ring → (ℕ → Bool) → ℕ → Option ℕ
first_healthy ring is_healthy start =
    find is_healthy (map (server_at ring) (rotation start (length ring.points)))

abbrev pub or_else_first : Walk → Option ℕ → Option ℕ
or_else_first (found server) fallback = some server
or_else_first gave_up fallback = fallback
or_else_first out_of_fuel fallback = fallback

unfoldable pub start_of : (Bytes → Bytes) → Ring → Bytes → ℕ
start_of digest ring unique =
    let hash = md5_u32 digest unique in
    partition_point (λ p. ltb p.0 hash) ring.points % length ring.points

unfoldable pub select : (Bytes → Bytes) → Ring → Bytes → (ℕ → Bool) → Option ℕ
select digest ring unique is_healthy =
    let start = start_of digest ring unique in
    let fuel = suc (length ring.points) in
    if length ring.points == 0
    then none
    else or_else_first (walk ring is_healthy fuel (server_at ring start) [])
        (first_healthy ring is_healthy start)
