-- ===== src/Tls.antt =====
-- src/tls.rs and src/net.rs: the server name of an address, and how a connection is made. The names
-- and streams of rustls and tokio, the check of a name and the handshake are parameters.
pub mod Hosts
mod Tests
use gearman_rs.Base.{
  ℕ, ◌≤◌, ◌<◌, ◌≡◌, ◌≢◌, refl, ap, ◌∙◌, ◌==◌, Bool, true, false, if◌then◌else◌, Option, none, some,
  List, [], ◌∷◌, ◌++◌, Bytes, Lacks, arith,
}
use gearman_rs.Base.Fields.{rsplit_once, rsplit_once-append, strip_prefix}
use gearman_rs.Error.{GearmanError, Result, ok, err, ◌>>=◌}

abbrev in_front : ℕ → Option Bytes → Option Bytes
in_front x none = none
in_front x (some s) = some (x ∷ s)

-- `strip_suffix`.
unfoldable pub strip_suffix : ℕ → Bytes → Option Bytes
strip_suffix c [] = none
strip_suffix c (x ∷ []) = if x == c then some [] else none
strip_suffix c (x ∷ y ∷ s) = in_front x (strip_suffix c (y ∷ s))

-- `map_or(addr, |(host, _)| host)`
abbrev pub host_or : Bytes → Option (Bytes × Bytes) → Bytes
host_or addr none = addr
host_or addr (some (host, port)) = host

abbrev pub stripped_or : Bytes → Option Bytes → Bytes
stripped_or host none = host
stripped_or host (some inner) = inner

-- `and_then(|h| h.strip_suffix(']')).unwrap_or(host)`
abbrev pub inner_or : Bytes → Option Bytes → Bytes
inner_or host none = host
inner_or host (some rest) = stripped_or host (strip_suffix b']' rest)

abbrev pub unbracketed : Bytes → Bytes
unbracketed host = inner_or host (strip_prefix b'[' host)

abbrev pub host_of : Bytes → Bytes
host_of addr = unbracketed (host_or addr (rsplit_once b':' addr))

-- `map_err(|_| InvalidServerName { host })`
abbrev pub name_or_invalid {ℓ} :
    {ServerName : Type ℓ} → Bytes → Option ServerName → Result ServerName
name_or_invalid host none = err (GearmanError.invalid_server_name host)
name_or_invalid host (some name) = ok name

abbrev pub named {ℓ} :
    {ServerName : Type ℓ} → (Bytes → Option ServerName) → Bytes → Result ServerName
named try_from host = name_or_invalid host (try_from host)

unfoldable pub server_name {ℓ} :
    {ServerName : Type ℓ} → (Bytes → Option ServerName) → Bytes → Result ServerName
server_name try_from addr = named try_from (host_of addr)

-- A TLS configuration is its handshake with a server over a stream.
pub data Transport (ServerName Stream : Type 0) : Type 0 where
  plain : Transport ServerName Stream
  tls : (ServerName → Stream → Result Stream) → Transport ServerName Stream

module _ {ServerName Stream : Type 0} where
  abbrev pub over :
      (Bytes → Option ServerName) → Transport ServerName Stream → Bytes → Stream → Result Stream
  over try_from plain addr tcp = ok tcp
  over try_from (tls handshake) addr tcp = do name ← server_name try_from addr; handshake name tcp

  -- `connect`, where `tcp` is what the TCP connection to the address gives.
  unfoldable pub connect_over :
      (Bytes → Option ServerName)
      → Transport ServerName Stream
      → Bytes
      → Result Stream
      → Result Stream
  connect_over try_from transport addr tcp = tcp >>= over try_from transport addr
