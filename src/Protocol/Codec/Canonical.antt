-- ===== src/Protocol/Codec/Canonical.antt =====
-- What `decode` reads is the one encoding of the packet that it returns.
use gearman_rs.Base.{
  ℕ, ◌≤◌, ◌≡◌, sym, ap, ◌∙◌, subst, Bytes, IsBytes, ◌++◌, Option, some, le→ltb_false, List, arith,
  length, take, drop, length-take_of_le, take-append-drop, inl, inr,
}
use gearman_rs.Error.{Result, ok, Result-cases}
use gearman_rs.Protocol.PacketType.{to_u32, PacketType}
use gearman_rs.Protocol.Command.{try_from}
use gearman_rs.Protocol.Command.Laws.{to_u32-try_from}
use gearman_rs.Protocol.Header.{PacketMagic, req, res, bytes}
use gearman_rs.Protocol.Header.Words.{to_be_bytes, to_be-from_be}
use gearman_rs.Protocol.Packet.{Packet, split_args}
use gearman_rs.Protocol.Packet.Split.{join_nul, InitLacksNul, split_args-IsFields}
use gearman_rs.Protocol.Codec.{GearmanCodec, split_packet, decode}
use gearman_rs.Protocol.Codec.Encode.{frame, Fits}
use gearman_rs.Protocol.Codec.RoundTrip.{frame-with_header}
use gearman_rs.Protocol.Codec.Header.{
  Word, word_bytes, value, with_header, decode_body, decode-with_header, decode-header,
}

-- What a successful `decode_body` has found.
record Found (codec : GearmanCodec) (m : PacketMagic) (t len : ℕ) (body : Bytes) (p : Packet)
    (rest : Bytes) : Type 0 where
  ptype : PacketType
  args : List Bytes
  packet_is : p ≡ record { magic = m; ptype = ptype; args = args }
  code_is : try_from t ≡ ok ptype
  small : len ≤ codec.max_payload_size
  whole : len ≤ length body
  split : split_args ptype (take len body) ≡ ok args
  rest_is : rest ≡ drop len body

split_packet_ok :
    (m : PacketMagic) (t : PacketType) (s rest' : Bytes) {p : Packet} {rest : Bytes}
    → ◌≡◌ {A = Result (Option Packet) × Bytes} (split_packet m t s, rest') (ok (some p), rest)
    → (args : List Bytes) × (p ≡ record { magic = m; ptype = t; args = args })
      × (split_args t s ≡ ok args)
      × (rest ≡ rest')
split_packet_ok m t s rest' h = elim (Result-cases (split_args t s)) [
  | inl (args, e) ↦ (args, ground arith, e, ground arith)
  | inr (x, e) ↦ absurd (ground arith)
]

word-to_be_bytes :
    (w : Word) {n : ℕ} → IsBytes (word_bytes w) → n ≡ value w → word_bytes w ≡ to_be_bytes n
word-to_be_bytes w h e = rw e (sym (to_be-from_be w.b0 w.b1 w.b2 w.b3 h.0 h.1.0 h.1.1.0 h.1.1.1.0))

header-IsBytes :
    (m : PacketMagic) (t l : Word) (body : Bytes)
    → IsBytes (with_header (bytes m) t l body)
    → IsBytes (word_bytes t) × IsBytes (word_bytes l)
header-IsBytes req t l body h = omega arith
header-IsBytes res t l body h = omega arith

body_parts :
    (l : Word) (body : Bytes) {joined rest : Bytes}
    → joined ≡ take (value l) body
    → rest ≡ drop (value l) body
    → body ≡ joined ++ rest
body_parts l body j r = rw (j, r) (sym (take-append-drop (value l) body))

frame_of :
    (m : PacketMagic) (t l : Word) (body : Bytes) (ptype : PacketType) (args : List Bytes)
    (rest : Bytes)
    → word_bytes t ≡ to_be_bytes (to_u32 ptype)
    → word_bytes l ≡ to_be_bytes (length (join_nul args))
    → body ≡ join_nul args ++ rest
    → with_header (bytes m) t l body
      ≡ frame (record { magic = m; ptype = ptype; args = args }) ++ rest
frame_of m t l body ptype args rest code len parts =
    (λ i. bytes m ++ (code i ++ (len i ++ parts i))) ∙ sym (frame-with_header m ptype args rest)

module _ (codec : GearmanCodec) where
  body-Found :
      (m : PacketMagic) (t len : ℕ) (src body : Bytes) {p : Packet} {rest : Bytes}
      → decode_body codec m t len src body ≡ (ok (some p), rest)
      → Found codec m t len body p rest
  body-Found m t len src body h = elim (Result-cases (try_from t)) [
    | inl (ptype, e) ↦
        let small : len ≤ codec.max_payload_size = ground arith in
        let whole : len ≤ length body = ground arith in
        let (args, p, s, r) =
          split_packet_ok m ptype (take len body) (drop len body)
            (rw (e, decode_body, le→ltb_false _ _ small, le→ltb_false _ _ whole) at h) in
        record {
          ptype = ptype;
          args = args;
          packet_is = p;
          code_is = e;
          small = small;
          whole = whole;
          split = s;
          rest_is = r;
        }
    | inr (x, e) ↦ absurd (ground arith)
  ]

  Found-frame :
      (m : PacketMagic) (t l : Word) (body : Bytes) {p : Packet} {rest : Bytes}
      → IsBytes (word_bytes t) × IsBytes (word_bytes l)
      → Found codec m (value t) (value l) body p rest
      → (with_header (bytes m) t l body ≡ frame p ++ rest) × Fits codec p × InitLacksNul p.args
  Found-frame m t l body {rest} (t_bytes, l_bytes) f =
      let (fields, joined) = split_args-IsFields f.ptype _ f.split in
      let len : length (join_nul f.args) ≡ value l =
        ap length joined ∙ length-take_of_le (value l) body f.whole in
      let code : to_u32 f.ptype ≡ value t = to_u32-try_from (value t) f.code_is in
      rw f.packet_is (
        frame_of m t l body f.ptype f.args rest (word-to_be_bytes t t_bytes code)
            (word-to_be_bytes l l_bytes len) (body_parts l body joined f.rest_is),
        record { counted = fields.counted; small = omega (arith, f.small, len) },
        fields.separable,
      )

  -- If `decode` returns a packet from a buffer of bytes, then the buffer was the packet's
  -- frame followed by what is left, the packet fits the codec, and none of its arguments but
  -- the last has a NUL.
  pub frame-decode :
      (src : Bytes) {p : Packet} {rest : Bytes}
      → IsBytes src
      → decode codec src ≡ (ok (some p), rest)
      → (src ≡ frame p ++ rest) × Fits codec p × InitLacksNul p.args
  frame-decode src is_bytes h =
      let (m, t, l, body, e) = decode-header codec src h in
      let f =
        body-Found m (value t) (value l) _ body
          (sym (decode-with_header codec m t l body) ∙ ap (decode codec) (sym e) ∙ h) in
      let (same, fits, lacks) =
        Found-frame m t l body (header-IsBytes m t l body (subst IsBytes e is_bytes)) f in
      (e ∙ same, fits, lacks)
