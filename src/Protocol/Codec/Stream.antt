-- ===== src/Protocol/Codec/Stream.antt =====
-- `decode` on a stream that arrives in pieces: how `Framed` uses it, which calls it again and
-- again on one growing buffer.
use mathlib.Core.List.{append_assoc}
use gearman_rs.Base.{
  ℕ, ◌≡◌, ◌≢◌, sym, ap, ◌∙◌, subst, Bytes, ◌++◌, Option, none, ltb, ltb→lt, ltb_false→le, arith,
  length, take_append-of_le, drop_append-of_le, length-append, inl, inr, Bool-cases,
}
use gearman_rs.Error.{Result, ok, err, GearmanError, Result-cases}
use gearman_rs.Protocol.Header.{PacketMagic, bytes, header_len}
use gearman_rs.Protocol.Packet.{Packet}
use gearman_rs.Protocol.Codec.{GearmanCodec, read_magic, decode}
use gearman_rs.Protocol.Codec.Header.{
  Word, word_bytes, value, with_header, decode_body, decode-with_header, decode_short,
  decode_bad_magic, has_header, read_magic-bytes,
}

-- A result that more bytes would not change: a packet, or an error.
abbrev pub IsFinal : Result (Option Packet) → Type 0
IsFinal r = r ≢ ok none

module _ (codec : GearmanCodec) where
  body_append :
      (m : PacketMagic) (t len : ℕ) (src body more : Bytes)
      → IsFinal (decode_body codec m t len src body).0
      → decode_body codec m t len (src ++ more) (body ++ more)
        ≡ ((decode_body codec m t len src body).0, (decode_body codec m t len src body).1 ++ more)
  body_append m t len src body more final = ground (
    arith,
    length-append body more,
    take_append-of_le len body more,
    drop_append-of_le len body more,
  )

  -- The claim of `decode_append`, for a buffer that begins with `magic` and two words.
  Appends : Bytes → Word → Word → Bytes → Bytes → Type 0
  Appends magic t l body more =
      IsFinal (decode codec (with_header magic t l body)).0
      → decode codec (with_header magic t l body ++ more) ≡ (
        (decode codec (with_header magic t l body)).0,
        (decode codec (with_header magic t l body)).1 ++ more,
      )

  append_good_magic :
      (m : PacketMagic) (t l : Word) (body more : Bytes) → Appends (bytes m) t l body more
  unfolding Appends
  append_good_magic m t l body more final =
      let here = decode-with_header codec m t l body in
      ap (decode codec) (append_assoc (bytes m) (word_bytes t ++ (word_bytes l ++ body)) more)
      ∙ decode-with_header codec m t l (body ++ more)
      ∙ ap (λ s. decode_body codec m (value t) (value l) s (body ++ more))
          (sym (append_assoc (bytes m) (word_bytes t ++ (word_bytes l ++ body)) more))
      ∙ rw here (
          body_append m (value t) (value l) (with_header (bytes m) t l body) body more
            (rw here at final))

  append_bad_magic :
      (w t l : Word) (body more : Bytes) (x : GearmanError)
      → read_magic (word_bytes w) ≡ err x
      → Appends (word_bytes w) t l body more
  unfolding Appends
  append_bad_magic w t l body more x bad _ =
      rw
        (decode_bad_magic codec w t l (body ++ more) x bad, decode_bad_magic codec w t l body x bad)

  append_header : (w t l : Word) (body more : Bytes) → Appends (word_bytes w) t l body more
  append_header w t l body more = elim (Result-cases (read_magic (word_bytes w))) [
    | inl (m, good) ↦
        subst (λ magic. Appends magic t l body more) (sym (read_magic-bytes (word_bytes w) good))
          (append_good_magic m t l body more)
    | inr (x, bad) ↦ append_bad_magic w t l body more x bad
  ]

  -- If `decode` on a buffer returns a packet or an error, then with more bytes behind the
  -- buffer it returns the same, and those bytes are left behind what was left.
  pub decode_append :
      (s more : Bytes)
      → IsFinal (decode codec s).0
      → decode codec (s ++ more) ≡ ((decode codec s).0, (decode codec s).1 ++ more)
  unfolding Appends
  decode_append s more final = elim (Bool-cases (ltb (length s) header_len)) [
    | inl short ↦ absurd (
        final (
          ap (λ (r : Result (Option Packet) × Bytes). r.0)
            (decode_short codec s (ltb→lt _ _ short))))
    | inr long ↦
        let (w, t, l, body, e) = has_header s (ltb_false→le _ _ long) in
        rw e (append_header w t l body more (subst (λ x. IsFinal (decode codec x).0) e final))
  ]
