-- ===== src/Admin/Lines/Bounds.antt =====
-- How much `read_line` of src/admin/mod.rs takes, and what it gives, whatever the server sends.
use gearman_rs.Base.{
  ℕ, zero, suc, ◌+◌, ◌≤◌, ◌<◌, ◌≡◌, ◌≢◌, ◌⊎◌, refl, ap, true, false, ◌==◌, [], ◌∷◌, length, take,
  drop, Bytes, Lacks, arith, inl, inr, Bool-cases, length-take_of_le,
}
use gearman_rs.Base.Utf8.{is_utf8}
use gearman_rs.Error.{GearmanError, ok, err}
use gearman_rs.Admin.Lines.{
  max_admin_line_len, take_line, ends_with, trim_newlines, keep_unless_newline, checked_line,
  read_line,
}
use gearman_rs.Admin.Lines.Reading.{ends_with-Lacks}

-- A line feed only at the end.
LastOnly : Bytes → Type 0
LastOnly [] = Unit
LastOnly (x ∷ s) = ((x ≢ b'\n') ⊎ (s ≡ [])) × LastOnly s

-- What `take_line` splits.
record IsTaken (limit : ℕ) (incoming line rest : Bytes) : Type 0 where
  whole : length incoming ≡ length line + length rest
  limited : length line ≤ limit
  last : LastOnly line

take_line-IsTaken :
    (limit : ℕ) (s : Bytes) → IsTaken limit s (take_line limit s).0 (take_line limit s).1
unfolding take_line LastOnly
take_line-IsTaken zero s = record { whole = omega arith; limited = omega arith; last = tt }
take_line-IsTaken (suc limit) [] = record { whole = omega arith; limited = omega arith; last = tt }
take_line-IsTaken (suc limit) (x ∷ s) =
    let others = take_line-IsTaken limit s in
    elim (Bool-cases (x == b'\n')) [
      | inl feed ↦
          rw feed (record { whole = omega arith; limited = omega arith; last = (inr refl, tt) })
      | inr plain ↦
          let other : x ≢ b'\n' = ground arith in
          rw plain (record {
            whole = omega (arith, others.whole);
            limited = omega (arith, others.limited);
            last = (inl other, others.last);
          })
    ]

keep-Lacks :
    (x : ℕ) (kept : Bytes)
    → (x ≢ b'\n') ⊎ (kept ≡ [])
    → Lacks b'\n' kept
    → Lacks b'\n' (keep_unless_newline x kept)
keep-Lacks x [] h k = ground arith
keep-Lacks x (y ∷ kept) (inl h) k = (h, k)
keep-Lacks x (y ∷ kept) (inr h) k = cc

trim_newlines-Lacks : (s : Bytes) → LastOnly s → Lacks b'\n' (trim_newlines s)
unfolding trim_newlines LastOnly
trim_newlines-Lacks [] h = tt
trim_newlines-Lacks (x ∷ s) (inl other, h) =
    keep-Lacks x (trim_newlines s) (inl other) (trim_newlines-Lacks s h)
trim_newlines-Lacks (x ∷ s) (inr last, h) =
    keep-Lacks x (trim_newlines s) (inr (ap trim_newlines last)) (trim_newlines-Lacks s h)

keep_uncut :
    (x : ℕ) (kept : Bytes)
    → ends_with b'\r' kept ≡ false
    → ends_with b'\r' (keep_unless_newline x kept) ≡ false
unfolding ends_with
keep_uncut x [] h = ground arith
keep_uncut x (y ∷ kept) h = h

trim_newlines_uncut : (s : Bytes) → ends_with b'\r' (trim_newlines s) ≡ false
unfolding trim_newlines
trim_newlines_uncut [] = unfold ends_with in refl
trim_newlines_uncut (x ∷ s) = keep_uncut x (trim_newlines s) (trim_newlines_uncut s)

length-keep : (x : ℕ) (kept : Bytes) → length (keep_unless_newline x kept) ≤ suc (length kept)
length-keep x [] = ground arith
length-keep x (y ∷ kept) = omega arith

length-trim_newlines : (s : Bytes) → length (trim_newlines s) ≤ length s
unfolding trim_newlines
length-trim_newlines [] = omega arith
length-trim_newlines (x ∷ s) =
    omega (arith, length-keep x (trim_newlines s), length-trim_newlines s)

-- What a line is that was read.
pub record IsRead (incoming line rest : Bytes) : Type 0 where
  pub single : Lacks b'\n' line
  pub uncut : ends_with b'\r' line ≡ false
  pub fits : length line ≤ max_admin_line_len
  pub consumed : length rest < length incoming

checked_line-ok :
    (taken : Bytes) {line : Bytes}
    → checked_line taken ≡ ok line
    → (line ≡ trim_newlines taken) × (0 < length taken)
unfolding checked_line
checked_line-ok taken h = ground arith

-- A line that `read_line` returns, whatever the server sent, has no line feed, does not end in
-- a carriage return, and has at most 65536 bytes; and less is left to read than before.
pub read_line-IsRead :
    (incoming : Bytes) {line : Bytes}
    → (read_line incoming).0 ≡ ok line
    → IsRead incoming line (read_line incoming).1
unfolding read_line
read_line-IsRead incoming {line} h =
    let taken = take_line-IsTaken max_admin_line_len incoming in
    let (e, some_taken) = checked_line-ok (take_line max_admin_line_len incoming).0 h in
    rw e (record {
      single = trim_newlines-Lacks (take_line max_admin_line_len incoming).0 taken.last;
      uncut = trim_newlines_uncut (take_line max_admin_line_len incoming).0;
      fits =
          omega
            (arith, length-trim_newlines (take_line max_admin_line_len incoming).0, taken.limited);
      consumed = omega (arith, taken.whole, some_taken);
    })

-- theorem
pub read_line-bounded :
    (incoming : Bytes)
    → (length (read_line incoming).1 ≤ length incoming)
      × (length incoming ≤ length (read_line incoming).1 + max_admin_line_len)
unfolding read_line
read_line-bounded incoming =
    let taken = take_line-IsTaken max_admin_line_len incoming in
    (omega (arith, taken.whole), omega (arith, taken.whole, taken.limited))

take_line-Lacks :
    (limit : ℕ) (s : Bytes)
    → Lacks b'\n' (take limit s)
    → take_line limit s ≡ (take limit s, drop limit s)
unfolding take_line
take_line-Lacks zero s h = refl
take_line-Lacks (suc limit) [] h = refl
take_line-Lacks (suc limit) (x ∷ s) (h, hs) =
    let plain : (x == b'\n') ≡ false = ground arith in rw (plain, take_line-Lacks limit s hs) refl

checked_line-long :
    (taken : Bytes)
    → is_utf8 taken ≡ true
    → Lacks b'\n' taken
    → length taken ≡ max_admin_line_len
    → checked_line taken ≡ err (GearmanError.admin_line_too_long max_admin_line_len)
unfolding checked_line
checked_line-long taken text single long = rw (text, ends_with-Lacks b'\n' taken single, long) refl

-- If the first 65536 bytes from the server are UTF-8 and have no line feed, `read_line`
-- refuses them as too long and has taken just those.
pub read_line-too_long :
    (incoming : Bytes)
    → is_utf8 (take max_admin_line_len incoming) ≡ true
    → Lacks b'\n' (take max_admin_line_len incoming)
    → max_admin_line_len ≤ length incoming
    → read_line incoming ≡ (
      err (GearmanError.admin_line_too_long max_admin_line_len),
      drop max_admin_line_len incoming,
    )
unfolding read_line
read_line-too_long incoming text single long =
    rw
      (
        take_line-Lacks max_admin_line_len incoming single,
        checked_line-long (take max_admin_line_len incoming) text single
            (length-take_of_le max_admin_line_len incoming long),
      )
      refl
