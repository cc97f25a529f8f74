-- ===== src/Protocol/Codec/Header.antt =====
-- `decode` once the twelve bytes of a header are in the buffer.
use gearman_rs.Base.{
  ℕ, ◌+◌, ◌≤◌, ◌<◌, ◌≡◌, refl, ap, ◌∙◌, Bytes, [], ◌∷◌, ◌++◌, Option, none, some, ltb,
  if◌then◌else◌, arith, length, take, drop, bytes_eq_iff, Bool-cases, inl, inr, length-drop, ltb→lt,
  ltb_false→le,
}
use gearman_rs.Error.{Result, ok, err, Result-cases, GearmanError}
use gearman_rs.Protocol.Command.{try_from}
use gearman_rs.Protocol.Header.{PacketMagic, req, res, req_magic, res_magic, header_len, bytes}
use gearman_rs.Protocol.Header.Words.{from_be_bytes}
use gearman_rs.Protocol.Packet.{Packet}
use gearman_rs.Protocol.Codec.{GearmanCodec, read_magic, split_packet, decode}

-- Four bytes, as a word of the header holds them.
pub record Word : Type 0 where
  pub b0 : ℕ
  pub b1 : ℕ
  pub b2 : ℕ
  pub b3 : ℕ

abbrev pub word_bytes : Word → Bytes
word_bytes w = w.b0 ∷ w.b1 ∷ w.b2 ∷ w.b3 ∷ []

abbrev pub value : Word → ℕ
value w = from_be_bytes (word_bytes w)

abbrev pub with_header : Bytes → Word → Word → Bytes → Bytes
with_header magic t l body = magic ++ (word_bytes t ++ (word_bytes l ++ body))

-- The rest of `decode` on `src`, whose header is that of `magic`, of type code `t`, of a body of
-- `len` bytes, with `body` behind it.
abbrev pub decode_body :
    GearmanCodec → PacketMagic → ℕ → ℕ → Bytes → Bytes → Result (Option Packet) × Bytes
decode_body codec magic t len src body = elim (try_from t) [
  | err e ↦ (err e, src)
  | ok ptype ↦
      if ltb codec.max_payload_size len
      then (err (GearmanError.payload_too_large len), src)
      else if ltb (length body) len
      then (ok none, src)
      else (split_packet magic ptype (take len body), drop len body)
]

compare_body : (n len : ℕ) → ltb (12 + n) (12 + len) ≡ ltb n len
compare_body n len = ground arith

module _ (codec : GearmanCodec) where
  pub decode-with_header :
      (m : PacketMagic) (t l : Word) (body : Bytes)
      → decode codec (with_header (bytes m) t l body)
        ≡ decode_body codec m (value t) (value l) (with_header (bytes m) t l body) body
  unfolding decode
  decode-with_header req t l body = ground arith
  decode-with_header res t l body = ground arith

pub read_magic-bytes : (s : Bytes) {m : PacketMagic} → read_magic s ≡ ok m → s ≡ bytes m
unfolding read_magic
read_magic-bytes s {m = req} h = ground (arith, bytes_eq_iff s req_magic, bytes_eq_iff s res_magic)
read_magic-bytes s {m = res} h = ground (arith, bytes_eq_iff s req_magic, bytes_eq_iff s res_magic)

-- The first four bytes, as a word.
take_word : (s : Bytes) → 4 ≤ length s → (w : Word) × (s ≡ word_bytes w ++ drop 4 s)
take_word [] h = absurd (omega arith)
take_word (a ∷ []) h = absurd (omega arith)
take_word (a ∷ b ∷ []) h = absurd (omega arith)
take_word (a ∷ b ∷ c ∷ []) h = absurd (omega arith)
take_word (a ∷ b ∷ c ∷ d ∷ s) h = (record { b0 = a; b1 = b; b2 = c; b3 = d }, refl)

-- A buffer of twelve bytes or more begins with three words.
pub has_header :
    (s : Bytes)
    → header_len ≤ length s
    → (m t l : Word) × (body : Bytes) × (s ≡ with_header (word_bytes m) t l body)
has_header s h =
    let (m, e) = take_word s (omega arith) in
    let (t, e') = take_word (drop 4 s) (omega (arith, length-drop 4 s)) in
    let (l, e'') =
      take_word (drop 4 (drop 4 s)) (omega (arith, length-drop 4 s, length-drop 4 (drop 4 s))) in
    (
      m,
      t,
      l,
      drop 4 (drop 4 (drop 4 s)),
      e ∙ ap (◌++◌ (word_bytes m)) (e' ∙ ap (◌++◌ (word_bytes t)) e''),
    )

module _ (codec : GearmanCodec) where
  -- Short of a header nothing is decided.
  pub decode_short : (s : Bytes) → length s < header_len → decode codec s ≡ (ok none, s)
  unfolding decode
  decode_short s h = ground arith

  pub decode_bad_magic :
      (m t l : Word) (body : Bytes) (e : GearmanError)
      → read_magic (word_bytes m) ≡ err e
      → decode codec (with_header (word_bytes m) t l body)
        ≡ (err e, with_header (word_bytes m) t l body)
  unfolding decode
  decode_bad_magic m t l body e h = ground arith

  -- A packet is read only from behind a header.
  pub decode-header :
      (s : Bytes) {p : Packet} {rest : Bytes}
      → decode codec s ≡ (ok (some p), rest)
      → (m : PacketMagic) × (t : Word) × (l : Word) × (body : Bytes) × (s
          ≡ with_header (bytes m) t l body)
  decode-header s h = elim (Bool-cases (ltb (length s) header_len)) [
    | inl short ↦ cc (decode_short s (ltb→lt _ _ short))
    | inr long ↦
        let (w, t, l, body, e) = has_header s (ltb_false→le _ _ long) in
        elim (Result-cases (read_magic (word_bytes w))) [
          | inl (m, good) ↦ (
            m,
            t,
            l,
            body,
            e ∙ ap (λ x. with_header x t l body) (read_magic-bytes (word_bytes w) good),
          )
          | inr (x, bad) ↦ cc (decode_bad_magic w t l body x bad)
        ]
  ]
