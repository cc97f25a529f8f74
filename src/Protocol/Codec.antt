-- ===== src/Protocol/Codec.antt =====
-- src/protocol/codec.rs: `GearmanCodec`. A buffer is the list of its bytes; `decode` returns its
-- result with what is left of the buffer, and `encode` with what the buffer then holds.
-- `reserve` changes no contents and is left out. `usize` is 64 bits wide, so `HEADER_LEN + len`
-- does not wrap.
pub mod Encode
pub mod Canonical
pub mod Header
pub mod RoundTrip
pub mod Frames
pub mod Stream
use gearman_rs.Base.{
  ℕ, ◌+◌, ◌*◌, ◌%◌, ◌^◌, ◌==◌, not, if◌then◌else◌, ltb, Bytes, bytes_eq, List, [], ◌∷◌, ◌++◌,
  Option, none, some, length, take, drop,
}
use gearman_rs.Error.{Result, ok, err, GearmanError, ◌>>=◌}
use gearman_rs.Protocol.PacketType.{PacketType, to_u32}
use gearman_rs.Protocol.Command.{try_from, arg_count}
use gearman_rs.Protocol.Header.{PacketMagic, req, res, req_magic, res_magic, header_len, bytes}
use gearman_rs.Protocol.Header.Words.{to_be_bytes, from_be_bytes}
use gearman_rs.Protocol.Packet.{Packet, split_args, encoded_body_len}

abbrev pub default_max_payload_size : ℕ
default_max_payload_size = 64 * 1024 * 1024

pub record GearmanCodec : Type 0 where
  pub max_payload_size : ℕ

abbrev pub new : GearmanCodec
new = record { max_payload_size = default_max_payload_size }

abbrev pub with_max_payload_size : ℕ → GearmanCodec
with_max_payload_size n = record { max_payload_size = n }

-- The comparison of `src[0..4]` with the two magic values.
unfoldable pub read_magic : Bytes → Result PacketMagic
unfolding bytes_eq
read_magic magic_bytes =
    if bytes_eq magic_bytes req_magic
    then ok req
    else if bytes_eq magic_bytes res_magic
    then ok res
    else err (GearmanError.bad_magic magic_bytes)

-- `Packet::split_args(ptype, payload)?`, and the packet of its arguments.
abbrev pub split_packet : PacketMagic → PacketType → Bytes → Result (Option Packet)
split_packet magic ptype payload = do
  args ← split_args ptype payload
  ok (some (record { magic = magic; ptype = ptype; args = args }))

-- The end of `decode`, where the whole packet is in the buffer.
unfoldable pub take_packet : PacketMagic → PacketType → ℕ → Bytes → Result (Option Packet) × Bytes
take_packet magic ptype len src =
    let advanced = drop header_len src in
    (split_packet magic ptype (take len advanced), drop len advanced)

unfoldable pub decode : GearmanCodec → Bytes → Result (Option Packet) × Bytes
unfolding read_magic take_packet
decode codec src =
    if ltb (length src) header_len then (ok none, src) else elim (read_magic (take 4 src)) [
      | err e ↦ (err e, src)
      | ok magic ↦ elim (try_from (from_be_bytes (take 4 (drop 4 src)))) [
        | err e ↦ (err e, src)
        | ok ptype ↦
            let len = from_be_bytes (take 4 (drop 8 src)) in
            if ltb codec.max_payload_size len
            then (err (GearmanError.payload_too_large len), src)
            else if ltb (length src) (header_len + len)
            then (ok none, src)
            else take_packet magic ptype len src
      ]
    ]

-- The loop over the arguments, from index `i`.
unfoldable pub write_args : ℕ → List Bytes → Bytes → Bytes
write_args i [] dst = dst
write_args i (arg ∷ rest) dst =
    write_args (i + 1) rest ((if ltb 0 i then dst ++ 0 ∷ [] else dst) ++ arg)

-- `body_len as u32` keeps the low 32 bits.
unfoldable pub encode : GearmanCodec → Packet → Bytes → Result (Unit {0}) × Bytes
unfolding write_args encoded_body_len
encode codec pkt dst =
    let expected = arg_count pkt.ptype in
    let body_len = encoded_body_len pkt in
    if not (length pkt.args == expected)
    then (err (GearmanError.wrong_arg_count pkt.ptype expected (length pkt.args)), dst)
    else if ltb codec.max_payload_size body_len
    then (err (GearmanError.payload_too_large codec.max_payload_size), dst)
    else (
      ok tt,
      write_args 0 pkt.args (
          dst
          ++ (bytes pkt.magic
              ++ (to_be_bytes (to_u32 pkt.ptype) ++ to_be_bytes (body_len % 2 ^ 32)))),
    )
