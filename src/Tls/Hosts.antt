-- ===== src/Tls/Hosts.antt =====
-- The host that src/tls.rs takes from an address, next to the one of src/client/ketama.rs.
use mathlib.Core.List.{append_assoc}
use gearman_rs.Base.{
  ℕ, ◌≤◌, ◌<◌, ◌≡◌, ◌≢◌, refl, sym, ap, ◌∙◌, ◌==◌, false, some, [], ◌∷◌, ◌++◌, Bytes, Lacks, arith,
  inr, Option,
}
use gearman_rs.Base.Decimal.{to_string}
use gearman_rs.Base.Numerals.{to_string-IsNumeral, IsNumeral-Lacks}
use gearman_rs.Base.Fields.{rsplit_once-append}
use gearman_rs.Error.{Result, ◌>>=◌}
use gearman_rs.Client.Ketama.{split_host_port}
use gearman_rs.Client.Ketama.Address.{split_host_port-plain, split_host_port-brackets}
use gearman_rs.Tls.{
  strip_suffix, in_front, host_or, stripped_or, unbracketed, host_of, named, server_name, tls,
  connect_over,
}

-- The addresses that name a host and a port: plain, and with the host in brackets.
pub data IsAddress : Bytes → Bytes → Type 0 where
  plain_address :
      (h : ℕ) (host : Bytes) (port : ℕ)
      → h ≢ b'['
      → Lacks b':' (h ∷ host)
      → 0 < port
      → port ≤ 65535
      → IsAddress (h ∷ host) (h ∷ host ++ b':' ∷ to_string port)
  bracketed :
      (host : Bytes) (port : ℕ)
      → Lacks b']' host
      → 0 < port
      → port ≤ 65535
      → IsAddress host (b'[' ∷ host ++ b']' ∷ b':' ∷ to_string port)

strip_suffix-append : (c : ℕ) (s : Bytes) → strip_suffix c (s ++ c ∷ []) ≡ some s
unfolding strip_suffix
strip_suffix-append c [] = ground arith
strip_suffix-append c (x ∷ []) = rw (strip_suffix-append c []) refl
strip_suffix-append c (x ∷ y ∷ s) = ap (in_front x) (strip_suffix-append c (y ∷ s))

port-Lacks : (port : ℕ) → Lacks b':' (to_string port)
port-Lacks port =
    IsNumeral-Lacks b':' (to_string port) (inr (omega arith)) (to_string-IsNumeral port)

host_of_port :
    (host : Bytes) (port : ℕ) → host_of (host ++ b':' ∷ to_string port) ≡ unbracketed host
host_of_port host port =
    ap (λ found. unbracketed (host_or (host ++ b':' ∷ to_string port) found))
      (rsplit_once-append b':' host (to_string port) (port-Lacks port))

pub host_of-IsAddress : (host addr : Bytes) → IsAddress host addr → host_of addr ≡ host
host_of-IsAddress _ _ (plain_address h host port other lacks low high) =
    let no_bracket : (h == b'[') ≡ false = ground arith in
    host_of_port (h ∷ host) port ∙ rw no_bracket refl
host_of-IsAddress _ _ (bracketed host port lacks low high) =
    ap host_of (ap (◌∷◌ b'[') (sym (append_assoc host (b']' ∷ []) (b':' ∷ to_string port))))
    ∙ host_of_port (b'[' ∷ host ++ b']' ∷ []) port
    ∙ ap (stripped_or (b'[' ∷ host ++ b']' ∷ [])) (strip_suffix-append b']' host)

split_host_port-IsAddress :
    (host addr : Bytes) → IsAddress host addr → (split_host_port addr).0 ≡ host
split_host_port-IsAddress _ _ (plain_address h host port other lacks low high) =
    ap (λ p. p.0) (split_host_port-plain h host port other lacks low high)
split_host_port-IsAddress _ _ (bracketed host port lacks low high) =
    ap (λ p. p.0) (split_host_port-brackets host port lacks low high)

-- For an address of a host without a colon that does not begin with a bracket, or of a host
-- without a closing bracket put in brackets, with a colon and a port from 1 to 65535 behind
-- it, the ring's `split_host_port` gives that host, and a TLS connection is the TCP connection
-- and then the handshake with the server name of that host, or the first error on the way.
pub connect_over-IsAddress :
    {ServerName Stream : Type 0} (try_from : Bytes → Option ServerName)
    (handshake : ServerName → Stream → Result Stream) (host addr : Bytes) (tcp : Result Stream)
    → IsAddress host addr
    → ((split_host_port addr).0 ≡ host)
      × (connect_over try_from (tls handshake) addr tcp
          ≡ (do stream ← tcp; name ← named try_from host; handshake name stream))
unfolding connect_over server_name
connect_over-IsAddress try_from handshake host addr tcp h = (
  split_host_port-IsAddress host addr h,
  ap (λ x. tcp >>= (λ stream. named try_from x >>= (λ name. handshake name stream)))
      (host_of-IsAddress host addr h),
)
