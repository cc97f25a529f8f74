-- ===== src/Protocol/Codec/Encode.antt =====
-- The bytes that `encode` writes.
use mathlib.Core.List.{append_assoc, append-nil}
use gearman_rs.Base.{
  ℕ, suc, ◌+◌, ◌-◌, ◌<◌, ◌≤◌, ◌%◌, ◌^◌, ◌==◌, ◌≡◌, refl, ap, ◌∙◌, Bytes, List, [], ◌∷◌, ◌++◌, true,
  false, ltb, ltb_false→le, Bool-cases, inl, inr, arith, length, length-append,
}
use gearman_rs.Error.{ok, err, GearmanError}
use gearman_rs.Protocol.PacketType.{to_u32}
use gearman_rs.Protocol.Command.{arg_count}
use gearman_rs.Protocol.Header.{bytes}
use gearman_rs.Protocol.Header.Words.{to_be_bytes}
use gearman_rs.Protocol.Packet.{Packet, total_len, encoded_body_len}
use gearman_rs.Protocol.Packet.Split.{join_nul}
use gearman_rs.Protocol.Codec.{GearmanCodec, write_args, encode}

-- A frame: the magic, the type, the body's length, and the arguments with NULs between them.
abbrev pub frame : Packet → Bytes
frame p =
    bytes p.magic
    ++ (to_be_bytes (to_u32 p.ptype) ++ (to_be_bytes (length (join_nul p.args)) ++ join_nul p.args))

pub length-join_nul :
    (args : List Bytes) → length (join_nul args) ≡ total_len args + (length args - 1)
length-join_nul [] = omega arith
length-join_nul (a ∷ []) = omega arith
length-join_nul (a ∷ b ∷ rest) =
    omega (arith, length-append a (0 ∷ join_nul (b ∷ rest)), length-join_nul (b ∷ rest))

write_args_step :
    (i : ℕ) (a : Bytes) (rest : List Bytes) (dst : Bytes)
    → write_args (suc i) (a ∷ rest) dst ≡ write_args (suc (suc i)) rest (dst ++ (0 ∷ a))
unfolding write_args
write_args_step i a rest dst =
    let next : suc i + 1 ≡ suc (suc i) = omega arith in
    let later : ltb 0 (suc i) ≡ true = ground arith in
    rw (next, later) (ap (write_args (suc (suc i)) rest) (append_assoc dst (0 ∷ []) a))

write_args-suc :
    (i : ℕ) (a : Bytes) (rest : List Bytes) (dst : Bytes)
    → write_args (suc i) (a ∷ rest) dst ≡ dst ++ (0 ∷ join_nul (a ∷ rest))
write_args-suc i a [] dst = write_args_step i a [] dst ∙ unfold write_args in refl
write_args-suc i a (b ∷ rest) dst =
    write_args_step i a (b ∷ rest) dst
    ∙ write_args-suc (suc i) b rest (dst ++ (0 ∷ a))
    ∙ append_assoc dst (0 ∷ a) (0 ∷ join_nul (b ∷ rest))

write_args-zero : (args : List Bytes) (dst : Bytes) → write_args 0 args dst ≡ dst ++ join_nul args
unfolding write_args
write_args-zero [] dst = simp append-nil
write_args-zero (a ∷ []) dst = refl
write_args-zero (a ∷ b ∷ rest) dst =
    write_args-suc 0 b rest (dst ++ a) ∙ append_assoc dst a (0 ∷ join_nul (b ∷ rest))

-- What `encode` accepts.
pub record Fits (codec : GearmanCodec) (p : Packet) : Type 0 where
  pub counted : length p.args ≡ arg_count p.ptype
  pub small : length (join_nul p.args) ≤ codec.max_payload_size

-- For a payload cap below 2^32, `encode` appends the frame of a packet that fits the codec to
-- the buffer.
pub encode-frame :
    (codec : GearmanCodec) (p : Packet) (dst : Bytes)
    → codec.max_payload_size < 2 ^ 32
    → Fits codec p
    → encode codec p dst ≡ (ok tt, dst ++ frame p)
unfolding encode
encode-frame codec p dst h f =
    let args_match : (length p.args == arg_count p.ptype) ≡ true = ground (arith, f.counted) in
    let fits : ltb codec.max_payload_size (length (join_nul p.args)) ≡ false =
      ground (arith, f.small) in
    let low : length (join_nul p.args) % 2 ^ 32 ≡ length (join_nul p.args) =
      omega (arith, f.small) in
    rw (args_match, ← length-join_nul p.args, fits, low)
      (ap (λ b. (ok tt, b))
        (write_args-zero p.args _
          ∙ append_assoc dst
              (bytes p.magic
                ++ (to_be_bytes (to_u32 p.ptype) ++ to_be_bytes (length (join_nul p.args))))
              (join_nul p.args)
          ∙ ap (◌++◌ dst) (append_assoc (bytes p.magic) _ _)))

within :
    (codec : GearmanCodec) (p : Packet)
    → ltb codec.max_payload_size (encoded_body_len p) ≡ false
    → length (join_nul p.args) ≤ codec.max_payload_size
unfolding encoded_body_len
within codec p h = omega (arith, length-join_nul p.args, ltb_false→le _ _ h)

-- A packet that does not fit the codec is refused with an error, and the buffer stays as it
-- was.
pub encode-refuses :
    (codec : GearmanCodec) (p : Packet) (dst : Bytes)
    → ¬ Fits codec p
    → (e : GearmanError) × (encode codec p dst ≡ (err e, dst))
unfolding encode
encode-refuses codec p dst misfit = elim (Bool-cases (length p.args == arg_count p.ptype)) [
  | inr wrong ↦
      (GearmanError.wrong_arg_count p.ptype (arg_count p.ptype) (length p.args), ground arith)
  | inl right ↦ elim (Bool-cases (ltb codec.max_payload_size (encoded_body_len p))) [
    | inl large ↦ (GearmanError.payload_too_large codec.max_payload_size, ground arith)
    | inr small ↦ absurd (misfit (record { counted = ground arith; small = within codec p small }))
  ]
]

-- What `encode` takes fits the codec.
pub encode-Fits :
    (codec : GearmanCodec) (p : Packet) (dst : Bytes) {u : Unit {0}}
    → (encode codec p dst).0 ≡ ok u
    → Fits codec p
unfolding encode
encode-Fits codec p dst e = elim (Bool-cases (length p.args == arg_count p.ptype)) [
  | inr wrong ↦ absurd (ground arith)
  | inl right ↦ elim (Bool-cases (ltb codec.max_payload_size (encoded_body_len p))) [
    | inl large ↦ absurd (ground arith)
    | inr small ↦ record { counted = ground arith; small = within codec p small }
  ]
]
