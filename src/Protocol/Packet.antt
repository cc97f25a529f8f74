-- ===== src/Protocol/Packet.antt =====
-- src/protocol/packet.rs: `Packet`. `Bytes` handles of the `bytes` crate are values here: `split_to`
-- and `advance` take a prefix off. The debug assertions of `request` and `response` are not
-- checks of a release build; Client and Worker prove that they hold.
pub mod Split
use gearman_rs.Base.{
  ℕ, zero, suc, ◌+◌, ◌-◌, ◌==◌, if◌then◌else◌, Bytes, codes, List, [], ◌∷◌, ◌++◌, Option, none,
  some, length, get_elem?, take, drop,
}
use gearman_rs.Base.Utf8.{from_utf8}
use gearman_rs.Error.{Result, ok, err, GearmanError}
use gearman_rs.Protocol.PacketType.{PacketType}
use gearman_rs.Protocol.Command.{arg_count}
use gearman_rs.Protocol.Header.{PacketMagic, req, res}
use mathlib.Core.Option

pub record Packet : Type 0 where
  pub magic : PacketMagic
  pub ptype : PacketType
  pub args : List Bytes

abbrev pub request : PacketType → List Bytes → Packet
request ptype args = record { magic = req; ptype = ptype; args = args }

abbrev pub response : PacketType → List Bytes → Packet
response ptype args = record { magic = res; ptype = ptype; args = args }

abbrev pub arg : Packet → ℕ → Option Bytes
arg p index = get_elem? p.args index

unfoldable pub arg_str : Packet → ℕ → Option Bytes
arg_str p index = elim (arg p index) [ none ↦ none | some b ↦ from_utf8 b ]

abbrev last_of : List Bytes → Option Bytes
last_of [] = none
last_of (a ∷ []) = some a
last_of (a ∷ b ∷ rest) = last_of (b ∷ rest)

unfoldable pub last_arg : Packet → Option Bytes
last_arg p = last_of p.args

-- The sum of the arguments' lengths.
abbrev pub total_len : List Bytes → ℕ
total_len [] = 0
total_len (a ∷ rest) = length a + total_len rest

-- `saturating_sub(1)` is subtraction on ℕ.
unfoldable pub encoded_body_len : Packet → ℕ
encoded_body_len p = total_len p.args + (length p.args - 1)

-- `payload.iter().position(|&b| b == 0)`.
unfoldable pub nul_position : Bytes → Option ℕ
nul_position [] = none
nul_position (b ∷ bs) = if b == 0 then some 0 else Option.map suc (nul_position bs)

abbrev pub missing_separator : Bytes
missing_separator = codes "missing NUL argument separator"

-- The loop `for _ in 0..count - 1`, and the `args.push(payload)` behind it.
unfoldable pub split_loop : ℕ → PacketType → Bytes → List Bytes → Result (List Bytes)
split_loop zero ptype payload args = ok (args ++ payload ∷ [])
split_loop (suc rounds) ptype payload args = elim (nul_position payload) [
  | none ↦ err (GearmanError.malformed_body ptype missing_separator)
  | some nul_pos ↦
      split_loop rounds ptype (drop 1 (drop nul_pos payload)) (args ++ take nul_pos payload ∷ [])
]

abbrev pub empty_or : PacketType → Bytes → Result (List Bytes)
empty_or ptype [] = ok []
empty_or ptype (_ ∷ _) = err (GearmanError.malformed_body ptype (codes "expected empty payload"))

unfoldable pub split_args : PacketType → Bytes → Result (List Bytes)
split_args ptype payload =
    let count = arg_count ptype in
    if count == 0 then empty_or ptype payload else split_loop (count - 1) ptype payload []
