-- ===== src/Admin/Rows/Cells.antt =====
-- Lines of a name and numbers with tabs in front of the numbers, as gearmand prints its counts.
use mathlib.Core.List.{append-nil}
use gearman_rs.Base.{
  ℕ, ◌*◌, ◌≤◌, ◌<◌, ◌≡◌, ◌≢◌, ap, ◌∙◌, false, true, List, [], ◌∷◌, ◌++◌, map, All, All-append,
  length, length-append, Bytes, bytes_eq, Lacks, arith, inl,
}
use gearman_rs.Base.Utf8.{is_utf8, is_utf8-append, is_utf8-ascii}
use gearman_rs.Base.Decimal.{to_string}
use gearman_rs.Base.Numerals.{
  to_string-IsNumeral, length-to_string, IsNumeral-Lacks, IsNumeral-ascii,
}
use gearman_rs.Base.Fields.{split, split-append, split-Lacks}
use gearman_rs.Admin.Lines.{dot}
use gearman_rs.Admin.Lines.Reading.{ends_with-append, ends_with-Lacks}
use gearman_rs.Admin.Lines.Blocks.{IsRow}

-- A name that fits in front of cells: UTF-8 without a tab or a line feed.
pub record IsName (name : Bytes) : Type 0 where
  pub text : is_utf8 name ≡ true
  pub single : Lacks b'\n' name
  pub untabbed : Lacks b'\t' name
  pub short : length name ≤ 65000

unfoldable pub cells : List ℕ → Bytes
cells [] = []
cells (n ∷ ns) = b'\t' ∷ to_string n ++ cells ns

pub split-cells :
    (name : Bytes) (ns : List ℕ)
    → Lacks b'\t' name
    → split b'\t' (name ++ cells ns) ≡ name ∷ map to_string ns
unfolding cells
split-cells name [] h = ap (split b'\t') (append-nil name) ∙ split-Lacks b'\t' name h
split-cells name (n ∷ ns) h =
    split-append b'\t' name (to_string n ++ cells ns) h
    ∙ ap (◌∷◌ name) (
        split-cells (to_string n) ns
          (IsNumeral-Lacks b'\t' (to_string n) (inl (omega arith)) (to_string-IsNumeral n)))

cells-Lacks : (b : ℕ) (ns : List ℕ) → b < b'0' → b ≢ b'\t' → Lacks b (cells ns)
unfolding cells
cells-Lacks b [] low other = tt
cells-Lacks b (n ∷ ns) low other = (
  ground arith,
  All-append (λ c. c ≢ b) (to_string n) (cells ns)
      (IsNumeral-Lacks b (to_string n) (inl low) (to_string-IsNumeral n))
      (cells-Lacks b ns low other),
)

cells-ascii : (ns : List ℕ) → All (λ b. b < 128) (cells ns)
unfolding cells
cells-ascii [] = tt
cells-ascii (n ∷ ns) = (
  omega arith,
  All-append (λ b. b < 128) (to_string n) (cells ns)
      (IsNumeral-ascii (to_string n) (to_string-IsNumeral n)) (cells-ascii ns),
)

length-cells : (ns : List ℕ) → length (cells ns) ≤ 21 * length ns
unfolding cells
length-cells [] = omega arith
length-cells (n ∷ ns) =
    omega (arith, length-append (to_string n) (cells ns), length-to_string n, length-cells ns)

-- A line with a separator in it is no dot.
pub no_dot-append : (a : Bytes) (c : ℕ) (b : Bytes) → c ≢ b'.' → bytes_eq (a ++ c ∷ b) dot ≡ false
unfolding bytes_eq
no_dot-append [] c b h = ground arith
no_dot-append (x ∷ []) c b h = ground arith
no_dot-append (x ∷ y ∷ a) c b h = ground arith

pub cells-IsRow :
    (name : Bytes) (n : ℕ) (ns : List ℕ)
    → IsName name
    → length ns ≤ 20
    → IsRow (name ++ cells (n ∷ ns))
unfolding cells
cells-IsRow name n ns h few =
    let low : b'\r' < b'0' = omega arith in
    record {
      line = record {
        text =
            is_utf8-append name (cells (n ∷ ns)) h.text
            ∙ is_utf8-ascii (cells (n ∷ ns)) (cells-ascii (n ∷ ns));
        single =
            All-append (λ c. c ≢ b'\n') name (cells (n ∷ ns)) h.single
              (cells-Lacks b'\n' (n ∷ ns) (omega arith) (ground arith));
        uncut =
            ends_with-append b'\r' b'\t' name (to_string n ++ cells ns)
            ∙ ends_with-Lacks b'\r' (cells (n ∷ ns))
                (cells-Lacks b'\r' (n ∷ ns) low (ground arith));
        short = omega (arith, length-append name (cells (n ∷ ns)), length-cells (n ∷ ns), h.short);
      };
      no_dot = no_dot-append name b'\t' (to_string n ++ cells ns) (ground arith);
    }
