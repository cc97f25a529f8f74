-- ===== src/Client/Ketama/Address.antt =====
-- The addresses that `split_host_port` splits: a host and a port, and one in brackets.
use gearman_rs.Base.{
  ℕ, ◌≤◌, ◌<◌, ◌≡◌, ◌≢◌, refl, ap, inr, false, ◌==◌, some, [], ◌∷◌, ◌++◌, arith, Bytes, Lacks,
}
use gearman_rs.Base.Decimal.{to_string, parse-to_string, max_u16}
use gearman_rs.Base.Numerals.{to_string-IsNumeral, IsNumeral-Lacks}
use gearman_rs.Base.Fields.{split_once-append, rsplit_once-append}
use gearman_rs.Client.Ketama.{contains, parse_port, split_host_port}

contains-Lacks : (c : ℕ) (s : Bytes) → Lacks c s → contains c s ≡ false
unfolding contains
contains-Lacks c [] h = refl
contains-Lacks c (x ∷ s) (h, hs) = ground (arith, contains-Lacks c s hs)

parse_port-to_string :
    (port : ℕ) → 0 < port → port ≤ 65535 → parse_port (some (to_string port)) ≡ port
parse_port-to_string port low high =
    rw (parse-to_string max_u16 port high (omega arith)) (ground arith)

-- A non-empty host without a colon that does not begin with a bracket, followed by a colon and
-- a port from 1 to 65535 in decimal, is split into that host and that port.
pub split_host_port-plain :
    (h : ℕ) (host : Bytes) (port : ℕ)
    → h ≢ b'['
    → Lacks b':' (h ∷ host)
    → 0 < port
    → port ≤ 65535
    → split_host_port (h ∷ host ++ b':' ∷ to_string port) ≡ (h ∷ host, port)
unfolding split_host_port
split_host_port-plain h host port unbracketed lacks low high =
    let plain : (h == b'[') ≡ false = ground arith in
    rw
      (
        plain,
        rsplit_once-append (b':') (h ∷ host) (to_string port)
            (IsNumeral-Lacks b':' (to_string port) (inr (omega arith)) (to_string-IsNumeral port)),
        contains-Lacks (b':') (h ∷ host) lacks,
      )
      (ap (λ p. (h ∷ host, p)) (parse_port-to_string port low high))

-- A host without a closing bracket, put in brackets and followed by a colon and a port from 1
-- to 65535 in decimal, is split into that host and that port.
pub split_host_port-brackets :
    (host : Bytes) (port : ℕ)
    → Lacks b']' host
    → 0 < port
    → port ≤ 65535
    → split_host_port (b'[' ∷ host ++ b']' ∷ b':' ∷ to_string port) ≡ (host, port)
unfolding split_host_port
split_host_port-brackets host port lacks low high =
    rw (split_once-append b']' host (b':' ∷ to_string port) lacks)
      (ap (λ p. (host, p)) (parse_port-to_string port low high))
