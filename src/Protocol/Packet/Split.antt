-- ===== src/Protocol/Packet/Split.antt =====
-- `split_args` against an independent description: the NUL-separated fields of a payload.
use mathlib.Core.List.{append_assoc}
use gearman_rs.Base.{
  ℕ, zero, suc, ◌+◌, ◌-◌, ◌<◌, ◌≤◌, ◌==◌, ◌≡◌, ◌≢◌, refl, ap, ◌∙◌, inl, inr, Bytes, Lacks, List, [],
  ◌∷◌, ◌++◌, some, none, false, arith, length, take, drop, take-length_append, drop-length_append,
  if◌then◌else◌, Option-cases, Bool-cases,
}
use gearman_rs.Error.{ok, err, GearmanError}
use gearman_rs.Protocol.PacketType.{PacketType}
use gearman_rs.Protocol.Command.{arg_count}
use gearman_rs.Protocol.Packet.{nul_position, missing_separator, empty_or, split_loop, split_args}

-- The fields with one NUL between each two.
abbrev pub join_nul : List Bytes → Bytes
join_nul [] = []
join_nul (a ∷ []) = a
join_nul (a ∷ b ∷ rest) = a ++ (0 ∷ join_nul (b ∷ rest))

-- No field but the last holds a NUL.
abbrev pub InitLacksNul : List Bytes → Type 0
InitLacksNul [] = Unit
InitLacksNul (a ∷ []) = Unit
InitLacksNul (a ∷ b ∷ rest) = Lacks 0 a × InitLacksNul (b ∷ rest)

abbrev pub nul_count : Bytes → ℕ
nul_count [] = 0
nul_count (b ∷ bs) = (if b == 0 then 1 else 0) + nul_count bs

nul_position-append :
    (a rest : Bytes) → Lacks 0 a → nul_position (a ++ (0 ∷ rest)) ≡ some (length a)
unfolding nul_position
nul_position-append [] rest h = refl
nul_position-append (x ∷ a) rest h = ground (arith, nul_position-append a rest h.1)

-- Where the NUL is: what stands before it has none, and the payload is put together again.
nul_position-some :
    (s : Bytes) (i : ℕ)
    → nul_position s ≡ some i
    → (take i s ++ (0 ∷ drop 1 (drop i s)) ≡ s)
      × Lacks 0 (take i s)
      × (nul_count s ≡ suc (nul_count (drop 1 (drop i s))))
unfolding nul_position
nul_position-some [] i h = cc
nul_position-some (x ∷ s) zero h = ground arith
nul_position-some (x ∷ s) (suc i) h = ground (arith, nul_position-some s i)

nul_position-none : (s : Bytes) → nul_position s ≡ none → nul_count s ≡ 0
unfolding nul_position
nul_position-none [] h = refl
nul_position-none (x ∷ s) h = ground (arith, nul_position-none s)

split_loop-join :
    (rounds : ℕ) (t : PacketType) (fields args : List Bytes)
    → length fields ≡ suc rounds
    → InitLacksNul fields
    → split_loop rounds t (join_nul fields) args ≡ ok (args ++ fields)
unfolding split_loop
split_loop-join rounds t [] args n h = absurd (omega arith)
split_loop-join zero t (a ∷ []) args n h = refl
split_loop-join (suc rounds) t (a ∷ []) args n h = absurd (omega arith)
split_loop-join zero t (a ∷ b ∷ rest) args n h = absurd (omega arith)
split_loop-join (suc rounds) t (a ∷ b ∷ rest) args n h =
    rw (nul_position-append a (join_nul (b ∷ rest)) h.0, split_loop)
      (rw
        (
          take-length_append a (0 ∷ join_nul (b ∷ rest)),
          drop-length_append a (0 ∷ join_nul (b ∷ rest)),
        )
        (split_loop-join rounds t (b ∷ rest) (args ++ a ∷ []) (omega arith) h.1
          ∙ ap ok (append_assoc args (a ∷ []) (b ∷ rest))))

-- What a successful run of the loop has read.
abbrev Reads : ℕ → Bytes → List Bytes → List Bytes → Type 0
Reads rounds payload args out =
    (fields : List Bytes) × (out ≡ args ++ fields)
    × (length fields ≡ suc rounds)
    × (join_nul fields ≡ payload)
    × InitLacksNul fields

join_nul-cons :
    (a : Bytes) (fields : List Bytes) {n : ℕ}
    → length fields ≡ suc n
    → join_nul (a ∷ fields) ≡ a ++ (0 ∷ join_nul fields)
join_nul-cons a [] h = absurd (omega arith)
join_nul-cons a (b ∷ rest) h = refl

InitLacksNul-cons :
    (a : Bytes) (fields : List Bytes) → Lacks 0 a → InitLacksNul fields → InitLacksNul (a ∷ fields)
InitLacksNul-cons a [] h t = tt
InitLacksNul-cons a (b ∷ rest) h t = (h, t)

split_loop-Reads :
    (rounds : ℕ) (t : PacketType) (payload : Bytes) (args : List Bytes) {out : List Bytes}
    → split_loop rounds t payload args ≡ ok out
    → Reads rounds payload args out
unfolding split_loop
split_loop-Reads zero t payload args h = (payload ∷ [], ground arith, refl, refl, tt)
split_loop-Reads (suc rounds) t payload args {out} h = elim (Option-cases (nul_position payload)) [
  | inl e ↦ cc (rw (e, split_loop) at h)
  | inr (i, e) ↦
      let (whole, clean, _) = nul_position-some payload i e in
      let (fields, out_is, n, joined, lacks) =
        split_loop-Reads rounds t (drop 1 (drop i payload)) (args ++ take i payload ∷ [])
          (rw (e, split_loop) at h) in
      (
        take i payload ∷ fields,
        out_is ∙ append_assoc args (take i payload ∷ []) fields,
        ap suc n,
        join_nul-cons (take i payload) fields n
            ∙ ap (λ s. take i payload ++ (0 ∷ s)) joined
            ∙ whole,
        InitLacksNul-cons (take i payload) fields clean lacks,
      )
]

split_loop_ok :
    (rounds : ℕ) (t : PacketType) (payload : Bytes) (args : List Bytes)
    → rounds ≤ nul_count payload
    → (out : List Bytes) × (split_loop rounds t payload args ≡ ok out)
unfolding split_loop
split_loop_ok zero t payload args h = (args ++ payload ∷ [], refl)
split_loop_ok (suc rounds) t payload args h = elim (Option-cases (nul_position payload)) [
  | inl e ↦ absurd (omega (arith, nul_position-none payload e))
  | inr (i, e) ↦
      rw (e, split_loop)
        (split_loop_ok rounds t (drop 1 (drop i payload)) (args ++ take i payload ∷ [])
          (omega (arith, (nul_position-some payload i e).2)))
]

split_loop_err :
    (rounds : ℕ) (t : PacketType) (payload : Bytes) (args : List Bytes)
    → nul_count payload < rounds
    → split_loop rounds t payload args ≡ err (GearmanError.malformed_body t missing_separator)
unfolding split_loop
split_loop_err zero t payload args h = absurd (omega arith)
split_loop_err (suc rounds) t payload args h = elim (Option-cases (nul_position payload)) [
  | inl e ↦ rw (e, split_loop) refl
  | inr (i, e) ↦
      rw (e, split_loop)
        (split_loop_err rounds t (drop 1 (drop i payload)) (args ++ take i payload ∷ [])
          (omega (arith, (nul_position-some payload i e).2)))
]

-- The fields that a packet of type `t` may carry: as many as the type has, and no NUL in any but
-- the last.
pub record IsFields (t : PacketType) (fields : List Bytes) : Type 0 where
  pub counted : length fields ≡ arg_count t
  pub separable : InitLacksNul fields

pub split_args-join_nul :
    (t : PacketType) (fields : List Bytes)
    → IsFields t fields
    → split_args t (join_nul fields) ≡ ok fields
unfolding split_args
split_args-join_nul t [] h = ground (arith, h.counted)
split_args-join_nul t (a ∷ rest) h =
    let pos : (arg_count t == 0) ≡ false = ground (arith, h.counted) in
    rw pos
      (split_loop-join (arg_count t - 1) t (a ∷ rest) [] (omega (arith, h.counted)) h.separable)

empty_or_ok :
    (t : PacketType) (payload : Bytes) {fields : List Bytes}
    → empty_or t payload ≡ ok fields
    → (fields ≡ []) × (payload ≡ [])
empty_or_ok t [] h = (ground arith, refl)
empty_or_ok t (x ∷ payload) h = cc

-- If a payload is split into arguments, there are as many as the packet type wants, none but
-- the last has a NUL, and joined by NULs they are the payload.
pub split_args-IsFields :
    (t : PacketType) (payload : Bytes) {fields : List Bytes}
    → split_args t payload ≡ ok fields
    → IsFields t fields × (join_nul fields ≡ payload)
unfolding split_args
split_args-IsFields t payload {fields} h = elim (Bool-cases (arg_count t == 0)) [
  | inl none_expected ↦
      let (f, p) = empty_or_ok t payload (rw none_expected at h) in
      rw (f, p) (record { counted = ground arith; separable = tt }, refl)
  | inr some_expected ↦
      let (out, e, n, joined, lacks) =
        split_loop-Reads (arg_count t - 1) t payload [] (rw some_expected at h) in
      rw e (record { counted = ground arith; separable = lacks }, joined)
]

-- For a type with arguments, a payload with enough NULs is split.
pub split_args-ok :
    (t : PacketType) (payload : Bytes)
    → arg_count t ≢ 0
    → arg_count t ≤ suc (nul_count payload)
    → (fields : List Bytes) × (split_args t payload ≡ ok fields)
unfolding split_args
split_args-ok t payload some_expected h =
    let pos : (arg_count t == 0) ≡ false = ground arith in
    rw pos (split_loop_ok (arg_count t - 1) t payload [] (omega arith))

-- A payload with fewer NULs than separate the arguments of its packet type is refused as
-- malformed.
pub split_args-err :
    (t : PacketType) (payload : Bytes)
    → suc (nul_count payload) < arg_count t
    → split_args t payload ≡ err (GearmanError.malformed_body t missing_separator)
unfolding split_args
split_args-err t payload h =
    let pos : (arg_count t == 0) ≡ false = ground arith in
    rw pos (split_loop_err (arg_count t - 1) t payload [] (omega arith))
