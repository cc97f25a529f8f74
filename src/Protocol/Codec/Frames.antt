-- ===== src/Protocol/Codec/Frames.antt =====
-- A stream of frames, cut anywhere: what the repeated calls of `decode` return.
use mathlib.Core.List.{append_assoc}
use gearman_rs.Base.{
  ℕ, suc, ◌-◌, ◌≤◌, ◌<◌, ◌^◌, ◌≡◌, refl, ap, ◌∙◌, Bytes, [], ◌∷◌, ◌++◌, none, some, ltb, ltb→lt,
  lt→ltb, le→ltb_false, ltb_false→le, List, arith, All, length, take, length-take_of_le, inl, inr,
  Bool-cases,
}
use gearman_rs.Error.{ok}
use gearman_rs.Protocol.PacketType.{to_u32, PacketType}
use gearman_rs.Protocol.Command.Laws.{try_from-to_u32}
use gearman_rs.Protocol.Header.{PacketMagic, req, res, bytes, header_len}
use gearman_rs.Protocol.Header.Words.{from_be-to_be}
use gearman_rs.Protocol.Packet.{Packet}
use gearman_rs.Protocol.Packet.Split.{join_nul, InitLacksNul}
use gearman_rs.Protocol.Codec.{GearmanCodec, decode}
use gearman_rs.Protocol.Codec.Encode.{frame, Fits}
use gearman_rs.Protocol.Codec.Header.{
  value, with_header, decode_body, decode-with_header, decode_short,
}
use gearman_rs.Protocol.Codec.RoundTrip.{word_of, decode-frame, to_u32-lt}
use gearman_rs.Protocol.Codec.Stream.{decode_append}

-- `12 + k`, in a form that `take` computes with.
abbrev past_header : ℕ → ℕ
past_header k = suc (suc (suc (suc (suc (suc (suc (suc (suc (suc (suc (suc k)))))))))))

take-frame :
    (m : PacketMagic) (t : PacketType) (args : List Bytes) (k : ℕ)
    → take (past_header k) (frame (record { magic = m; ptype = t; args = args }))
      ≡ with_header
          (bytes m)
          (word_of (to_u32 t))
          (word_of (length (join_nul args)))
          (take k (join_nul args))
take-frame req t args k = refl
take-frame res t args k = refl

length-frame :
    (m : PacketMagic) (t : PacketType) (args : List Bytes)
    → length (frame (record { magic = m; ptype = t; args = args }))
      ≡ past_header (length (join_nul args))
length-frame req t args = refl
length-frame res t args = refl

module _ (codec : GearmanCodec) (cap : codec.max_payload_size < 2 ^ 32) where
  body_part :
      (m : PacketMagic) (t : PacketType) (len : ℕ) (src body : Bytes)
      → len ≤ codec.max_payload_size
      → length body < len
      → decode_body codec m (to_u32 t) len src body ≡ (ok none, src)
  body_part m t len src body small part =
      rw (try_from-to_u32 t, decode_body, le→ltb_false _ _ small, lt→ltb _ _ part) refl

  part_of_body :
      (m : PacketMagic) (t : PacketType) (args : List Bytes) (k : ℕ)
      → length (join_nul args) ≤ codec.max_payload_size
      → k < length (join_nul args)
      → let tw = word_of (to_u32 t) in
        let lw = word_of (length (join_nul args)) in
        let src = with_header (bytes m) tw lw (take k (join_nul args)) in
        decode codec src ≡ (ok none, src)
  part_of_body m t args k small h =
      let code : value (word_of (to_u32 t)) ≡ to_u32 t =
        from_be-to_be (to_u32 t) (omega (arith, to_u32-lt t)) in
      let len : value (word_of (length (join_nul args))) ≡ length (join_nul args) =
        from_be-to_be (length (join_nul args)) (omega arith) in
      decode-with_header codec m (word_of (to_u32 t)) (word_of (length (join_nul args)))
        (take k (join_nul args))
      ∙ rw (code, len)
          (body_part m t (length (join_nul args)) _ (take k (join_nul args)) small
            (omega (arith, length-take_of_le k (join_nul args))))

  -- A frame that has not arrived whole: nothing is returned, and the buffer is kept.
  pub decode-take-frame :
      (p : Packet) (n : ℕ)
      → Fits codec p
      → n < length (frame p)
      → decode codec (take n (frame p)) ≡ (ok none, take n (frame p))
  decode-take-frame p n f h = elim (Bool-cases (ltb n header_len)) [
    | inl short ↦
        decode_short codec (take n (frame p))
          (omega (arith, length-take_of_le n (frame p), ltb→lt n header_len short))
    | inr long ↦
        let k : n ≡ past_header (n - 12) = omega (arith, ltb_false→le n header_len long) in
        rw k (
          rw (take-frame p.magic p.ptype p.args (n - 12)) (
            part_of_body p.magic p.ptype p.args (n - 12) f.small
              (omega (arith, length-frame p.magic p.ptype p.args))))
  ]

-- The packets that calls of `decode` on buffer `s` return, one after another, and the bytes
-- that are left when one returns nothing.
pub data Decodes (codec : GearmanCodec) : Bytes → List Packet → Bytes → Type 0 where
  stop : {s : Bytes} → decode codec s ≡ (ok none, s) → Decodes codec s [] s
  next :
      {s r rest : Bytes} {p : Packet} {ps : List Packet}
      → decode codec s ≡ (ok (some p), r)
      → Decodes codec r ps rest
      → Decodes codec s (p ∷ ps) rest

-- Packets that are encoded and decoded without loss.
pub record IsSound (codec : GearmanCodec) (p : Packet) : Type 0 where
  pub fits : Fits codec p
  pub separable : InitLacksNul p.args

abbrev pub frames : List Packet → Bytes
frames [] = []
frames (p ∷ ps) = frame p ++ frames ps

-- For a payload cap below 2^32, a buffer of frames of packets that fit and are separable,
-- followed by a proper beginning of the frame of one more packet that fits, decodes to just
-- those packets in order, and the beginning is left.
pub Decodes-frames :
    (codec : GearmanCodec) (ps : List Packet) (q : Packet) (n : ℕ)
    → codec.max_payload_size < 2 ^ 32
    → All (IsSound codec) ps
    → Fits codec q
    → n < length (frame q)
    → Decodes codec (frames ps ++ take n (frame q)) ps (take n (frame q))
Decodes-frames codec [] q n cap _ f h = stop (decode-take-frame codec cap q n f h)
Decodes-frames codec (p ∷ ps) q n cap (sound, rest) f h =
    next
      (ap (decode codec) (append_assoc (frame p) (frames ps) (take n (frame q)))
        ∙ decode-frame codec p (frames ps ++ take n (frame q)) cap sound.fits sound.separable)
      (Decodes-frames codec ps q n cap rest f h)

-- If a buffer decodes to some packets with a rest, and the rest with more bytes appended
-- decodes to further packets, then the buffer with those bytes appended decodes to all of
-- them: where a stream is cut makes no difference.
pub Decodes-append :
    {codec : GearmanCodec} {s rest rest' : Bytes} {ps qs : List Packet} (more : Bytes)
    → Decodes codec s ps rest
    → Decodes codec (rest ++ more) qs rest'
    → Decodes codec (s ++ more) (ps ++ qs) rest'
Decodes-append more (stop e) later = later
Decodes-append {codec} more (next {s} {r} {p = p} e d) later =
    next (decode_append codec s more (rw e (λ x. cc)) ∙ rw e refl) (Decodes-append more d later)
