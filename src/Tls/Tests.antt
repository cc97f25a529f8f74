-- ===== src/Tls/Tests.antt =====
-- The host of a concrete address, with a check of names that takes those that are not empty.
use gearman_rs.Base.{◌≡◌, none, some, Option, [], ◌∷◌, ◌++◌, Bytes, codes, arith}
use gearman_rs.Base.Decimal.{to_string}
use gearman_rs.Error.{Result, ok, ◌>>=◌}
use gearman_rs.Client.Ketama.{split_host_port}
use gearman_rs.Tls.{named, tls, connect_over}
use gearman_rs.Tls.Hosts.{bracketed, connect_over-IsAddress}

abbrev try_nonempty : Bytes → Option Bytes
try_nonempty [] = none
try_nonempty (x ∷ s) = some (x ∷ s)

-- A handshake that keeps the name in front of the stream.
abbrev shake : Bytes → Bytes → Result Bytes
shake name stream = ok (name ++ stream)

abbrev loopback : Bytes
loopback = codes "::1"

connect_over-IsAddress_example :
    ((split_host_port (b'[' ∷ loopback ++ b']' ∷ b':' ∷ to_string 4730)).0 ≡ loopback)
    × (connect_over try_nonempty
          (tls shake)
          (b'[' ∷ loopback ++ b']' ∷ b':' ∷ to_string 4730)
          (ok (codes "tcp"))
        ≡ (do stream ← ok (codes "tcp"); name ← named try_nonempty loopback; shake name stream))
connect_over-IsAddress_example =
    connect_over-IsAddress try_nonempty shake loopback
      (b'[' ∷ loopback ++ b']' ∷ b':' ∷ to_string 4730) (ok (codes "tcp"))
      (bracketed loopback 4730 (ground arith) (omega arith) (omega arith))
