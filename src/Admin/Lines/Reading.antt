-- ===== src/Admin/Lines/Reading.antt =====
-- What `read_line` of src/admin/mod.rs reads.
use gearman_rs.Base.{
  ℕ, zero, suc, ◌+◌, ◌≤◌, ◌≡◌, refl, ap, ◌∙◌, true, false, ◌==◌, [], ◌∷◌, ◌++◌, length, Bytes,
  Lacks, arith,
}
use gearman_rs.Base.Utf8.{is_utf8, is_utf8-append, is_utf8-ascii}
use gearman_rs.Error.{ok}
use gearman_rs.Admin.Lines.{
  max_admin_line_len, take_line, ends_with, trim_newlines, keep_unless_newline, checked_line,
  read_line,
}

-- How a line ends.
pub data Eol : Type 0 where
  lf crlf : Eol

abbrev pub eol : Eol → Bytes
eol lf = b'\n' ∷ []
eol crlf = b'\r' ∷ b'\n' ∷ []

-- A text that can be sent as one line: UTF-8, no line feed, no carriage return at its end, and
-- short enough for `read_line` with its end.
pub record IsLine (line : Bytes) : Type 0 where
  pub text : is_utf8 line ≡ true
  pub single : Lacks b'\n' line
  pub uncut : ends_with b'\r' line ≡ false
  pub short : length line + 2 ≤ max_admin_line_len

take_line-eol :
    (limit : ℕ) (line : Bytes) (e : Eol) (rest : Bytes)
    → Lacks b'\n' line
    → length line + 2 ≤ limit
    → take_line limit (line ++ (eol e ++ rest)) ≡ (line ++ eol e, rest)
unfolding take_line
take_line-eol zero line e rest h k = absurd (omega arith)
take_line-eol (suc limit) [] lf rest h k = refl
take_line-eol (suc zero) [] crlf rest h k = absurd (omega arith)
take_line-eol (suc (suc limit)) [] crlf rest h k = refl
take_line-eol (suc limit) (x ∷ line) e rest (h, hs) k =
    let plain : (x == b'\n') ≡ false = ground arith in
    rw (take_line-eol limit line e rest hs (omega arith), plain) refl

pub ends_with-append : (c x : ℕ) (a b : Bytes) → ends_with c (a ++ x ∷ b) ≡ ends_with c (x ∷ b)
unfolding ends_with
ends_with-append c x [] b = refl
ends_with-append c x (y ∷ []) b = refl
ends_with-append c x (y ∷ z ∷ a) b = ends_with-append c x (z ∷ a) b

pub ends_with-Lacks : (c : ℕ) (s : Bytes) → Lacks c s → ends_with c s ≡ false
unfolding ends_with
ends_with-Lacks c [] h = refl
ends_with-Lacks c (x ∷ []) h = ground arith
ends_with-Lacks c (x ∷ y ∷ s) h = ends_with-Lacks c (y ∷ s) h.1

ends_with-eol : (line : Bytes) (e : Eol) → ends_with b'\n' (line ++ eol e) ≡ true
ends_with-eol line lf = ends_with-append b'\n' b'\n' line [] ∙ (unfold ends_with in refl)
ends_with-eol line crlf =
    ends_with-append b'\n' b'\r' line (b'\n' ∷ []) ∙ (unfold ends_with in refl)

trim_newlines-eol :
    (line : Bytes) (e : Eol)
    → Lacks b'\n' line
    → ends_with b'\r' line ≡ false
    → trim_newlines (line ++ eol e) ≡ line
unfolding trim_newlines ends_with
trim_newlines-eol [] lf h k = refl
trim_newlines-eol [] crlf h k = refl
trim_newlines-eol (x ∷ []) lf h k = ground arith
trim_newlines-eol (x ∷ []) crlf h k = ground arith
trim_newlines-eol (x ∷ y ∷ line) e h k =
    ap (keep_unless_newline x) (trim_newlines-eol (y ∷ line) e h.1 k)

is_utf8-eol : (line : Bytes) (e : Eol) → is_utf8 line ≡ true → is_utf8 (line ++ eol e) ≡ true
is_utf8-eol line lf h = is_utf8-append line (eol lf) h ∙ is_utf8-ascii (eol lf) (omega arith, tt)
is_utf8-eol line crlf h =
    is_utf8-append line (eol crlf) h ∙ is_utf8-ascii (eol crlf) (omega arith, (omega arith, tt))

nonempty_eol : (line : Bytes) (e : Eol) → (length (line ++ eol e) == 0) ≡ false
nonempty_eol [] lf = refl
nonempty_eol [] crlf = refl
nonempty_eol (x ∷ line) e = ground arith

-- line theorem
pub read_line-line :
    (line : Bytes) (e : Eol) (rest : Bytes)
    → IsLine line
    → read_line (line ++ (eol e ++ rest)) ≡ (ok line, rest)
unfolding read_line checked_line
read_line-line line e rest h =
    rw
      (
        take_line-eol max_admin_line_len line e rest h.single h.short,
        is_utf8-eol line e h.text,
        nonempty_eol line e,
        ends_with-eol line e,
        trim_newlines-eol line e h.single h.uncut,
      )
      refl
