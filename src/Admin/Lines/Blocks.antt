-- ===== src/Admin/Lines/Blocks.antt =====
-- Blocks of lines that a dot ends, as `read_dot_terminated` of src/admin/mod.rs reads them.
use mathlib.Core.List.{append_assoc, append-nil}
use gearman_rs.Base.{
  ℕ, zero, suc, ◌≤◌, ◌<◌, ◌≡◌, refl, sym, ap, ◌∙◌, true, false, some, List, [], ◌∷◌, ◌++◌, All,
  length, Bytes, bytes_eq, length-append, arith, inl, inr, Bool-cases,
}
use gearman_rs.Base.Utf8.{is_utf8-ascii}
use gearman_rs.Error.{Result, ok, err, Result-cases}
use gearman_rs.Admin.Lines.{read_line, read_lines, read_dot_terminated, dot, ends_with}
use gearman_rs.Admin.Lines.Reading.{Eol, lf, crlf, eol, IsLine, read_line-line}
use gearman_rs.Admin.Lines.Bounds.{read_line-IsRead}

-- A line of a table, told from the one that ends it.
pub record IsRow (row : Bytes) : Type 0 where
  pub line : IsLine row
  pub no_dot : bytes_eq row dot ≡ false

-- What a server sends: the lines, then a dot.
unfoldable pub block : Eol → List Bytes → Bytes → Bytes
block e [] rest = dot ++ (eol e ++ rest)
block e (line ∷ lines) rest = line ++ (eol e ++ block e lines rest)

length-block :
    (e : Eol) (lines : List Bytes) (rest : Bytes) → length lines ≤ length (block e lines rest)
unfolding block
length-block e [] rest = omega arith
length-block lf (line ∷ lines) rest =
    omega (arith, length-append line (eol lf ++ block lf lines rest), length-block lf lines rest)
length-block crlf (line ∷ lines) rest =
    omega
      (arith, length-append line (eol crlf ++ block crlf lines rest), length-block crlf lines rest)

dot-IsLine : IsLine dot
unfolding ends_with
dot-IsLine = record {
  text = is_utf8-ascii dot (omega arith, tt);
  single = ground arith;
  uncut = refl;
  short = omega arith;
}

bytes_eq-dot : bytes_eq dot dot ≡ true
unfolding bytes_eq
bytes_eq-dot = refl

read_lines_last :
    (fuel : ℕ) (before : List Bytes) (incoming : Bytes) {line rest : Bytes}
    → read_line incoming ≡ (ok line, rest)
    → bytes_eq line dot ≡ true
    → read_lines (suc fuel) before incoming ≡ some (ok before, rest)
unfolding read_lines
read_lines_last fuel before incoming h last =
    rw (ap (λ p. p.0) h, last, ap (λ p. p.1) h, read_lines) refl

read_lines_next :
    (fuel : ℕ) (before : List Bytes) (incoming : Bytes) {line rest : Bytes}
    → read_line incoming ≡ (ok line, rest)
    → bytes_eq line dot ≡ false
    → read_lines (suc fuel) before incoming ≡ read_lines fuel (before ++ line ∷ []) rest
unfolding read_lines
read_lines_next fuel before incoming h other =
    rw (ap (λ p. p.0) h, other, ap (λ p. p.1) h, read_lines) refl

read_lines-block :
    (fuel : ℕ) (before : List Bytes) (e : Eol) (lines : List Bytes) (rest : Bytes)
    → length lines < fuel
    → All IsRow lines
    → read_lines fuel before (block e lines rest) ≡ some (ok (before ++ lines), rest)
unfolding read_lines block
read_lines-block zero before e lines rest h k = absurd (omega arith)
read_lines-block (suc fuel) before e [] rest h k =
    read_lines_last fuel before (block e [] rest) (read_line-line dot e rest dot-IsLine)
      bytes_eq-dot
    ∙ ap (λ all. some (ok all, rest)) (sym (append-nil before))
read_lines-block (suc fuel) before e (line ∷ lines) rest h (row, rows) =
    read_lines_next fuel before (block e (line ∷ lines) rest)
      (read_line-line line e (block e lines rest) row.line) row.no_dot
    ∙ read_lines-block fuel (before ++ line ∷ []) e lines rest (omega arith) rows
    ∙ ap (λ all. some (ok all, rest)) (append_assoc before (line ∷ []) lines)

-- theorem
pub read_dot_terminated-block :
    (e : Eol) (lines : List Bytes) (rest : Bytes)
    → All IsRow lines
    → read_dot_terminated (block e lines rest) ≡ some (ok lines, rest)
unfolding read_dot_terminated
read_dot_terminated-block e lines rest rows =
    read_lines-block (suc (length (block e lines rest))) [] e lines rest
      (omega (arith, length-block e lines rest)) rows

read_lines-some :
    (fuel : ℕ) (lines : List Bytes) (incoming : Bytes)
    → length incoming < fuel
    → (result : Result (List Bytes)) × (rest : Bytes) × (read_lines fuel lines incoming
        ≡ some (result, rest))
unfolding read_lines
read_lines-some zero lines incoming h = absurd (omega arith)
read_lines-some (suc fuel) lines incoming h = elim (Result-cases (read_line incoming).0) [
  | inr (problem, e) ↦ rw (e, read_lines) (err problem, (read_line incoming).1, refl)
  | inl (line, e) ↦ elim (Bool-cases (bytes_eq line dot)) [
    | inl last ↦ rw (e, last, read_lines) (ok lines, (read_line incoming).1, refl)
    | inr other ↦
        rw (e, other, read_lines)
          (read_lines-some fuel (lines ++ line ∷ []) (read_line incoming).1
            (omega (arith, (read_line-IsRead incoming e).consumed)))
  ]
]

-- Whatever the server sends up to the close of the connection, `read_dot_terminated` returns
-- lines or an error within one unit of fuel for each byte and one more.
pub read_dot_terminated-some :
    (incoming : Bytes)
    → (result : Result (List Bytes)) × (rest : Bytes) × (read_dot_terminated incoming
        ≡ some (result, rest))
unfolding read_dot_terminated
read_dot_terminated-some incoming =
    read_lines-some (suc (length incoming)) [] incoming (omega arith)
