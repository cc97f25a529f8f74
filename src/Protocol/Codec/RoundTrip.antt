-- ===== src/Protocol/Codec/RoundTrip.antt =====
-- `decode` reads what `encode` writes, and nothing else.
use gearman_rs.Base.{
  ℕ, ◌≤◌, ◌<◌, ◌^◌, ◌≡◌, refl, ◌∙◌, Bytes, ◌++◌, some, false, ltb, le→ltb_false, List, ◌/◌, ◌%◌,
  arith, length, take-length_append, drop-length_append, length-append,
}
use gearman_rs.Error.{ok}
use gearman_rs.Protocol.PacketType.{to_u32, PacketType, can_do}
use gearman_rs.Protocol.Command.Laws.{try_from-to_u32}
use gearman_rs.Protocol.Header.{PacketMagic, req, res, bytes}
use gearman_rs.Protocol.Header.Words.{from_be-to_be}
use gearman_rs.Protocol.Packet.{Packet}
use gearman_rs.Protocol.Packet.Split.{join_nul, InitLacksNul, IsFields, split_args-join_nul}
use gearman_rs.Protocol.Codec.{GearmanCodec, decode}
use gearman_rs.Protocol.Codec.Encode.{frame, Fits}
use gearman_rs.Protocol.Codec.Header.{Word, value, with_header, decode_body, decode-with_header}

-- The word that holds `n`, the most significant byte first.
abbrev pub word_of : ℕ → Word
word_of n = record {
  b0 = n / 16777216 % 256;
  b1 = n / 65536 % 256;
  b2 = n / 256 % 256;
  b3 = n % 256;
}

pub to_u32-lt : (t : PacketType) → to_u32 t < 43
unfolding to_u32
to_u32-lt can_do = omega arith
to_u32-lt _ = omega arith

pub frame-with_header :
    (m : PacketMagic) (t : PacketType) (args : List Bytes) (rest : Bytes)
    → frame (record { magic = m; ptype = t; args = args }) ++ rest
      ≡ with_header
          (bytes m)
          (word_of (to_u32 t))
          (word_of (length (join_nul args)))
          (join_nul args ++ rest)
frame-with_header req t args rest = refl
frame-with_header res t args rest = refl

module _ (codec : GearmanCodec) where
  -- `decode_body` on the body that `encode` writes.
  body-join_nul :
      (m : PacketMagic) (t : PacketType) (args : List Bytes) (src rest : Bytes)
      → length (join_nul args) ≤ codec.max_payload_size
      → IsFields t args
      → decode_body codec m (to_u32 t) (length (join_nul args)) src (join_nul args ++ rest)
        ≡ (ok (some (record { magic = m; ptype = t; args = args })), rest)
  body-join_nul m t args src rest small f =
      let whole : ltb (length (join_nul args ++ rest)) (length (join_nul args)) ≡ false =
        le→ltb_false _ _ (omega (arith, length-append (join_nul args) rest)) in
      rw (
        try_from-to_u32 t,
        decode_body,
        le→ltb_false _ _ small,
        whole,
        take-length_append (join_nul args) rest,
        drop-length_append (join_nul args) rest,
        split_args-join_nul t args f,
      )

  -- For a payload cap below 2^32, the frame of a packet that fits the codec (as many arguments
  -- as its type wants, a body within the cap), and none of whose arguments but the last has a
  -- NUL, decodes to that packet, whatever bytes follow, and those bytes are left in the
  -- buffer.
  pub decode-frame :
      (p : Packet) (rest : Bytes)
      → codec.max_payload_size < 2 ^ 32
      → Fits codec p
      → InitLacksNul p.args
      → decode codec (frame p ++ rest) ≡ (ok (some p), rest)
  decode-frame p rest h f lacks =
      let code : value (word_of (to_u32 p.ptype)) ≡ to_u32 p.ptype =
        from_be-to_be (to_u32 p.ptype) (omega (arith, to_u32-lt p.ptype)) in
      let len : value (word_of (length (join_nul p.args))) ≡ length (join_nul p.args) =
        from_be-to_be (length (join_nul p.args)) (omega (arith, f.small)) in
      rw (frame-with_header p.magic p.ptype p.args rest) (
        decode-with_header codec p.magic (word_of (to_u32 p.ptype))
          (word_of (length (join_nul p.args))) (join_nul p.args ++ rest)
        ∙ rw (code, len)
            (body-join_nul p.magic p.ptype p.args _ rest f.small
              (record { counted = f.counted; separable = lacks })))
