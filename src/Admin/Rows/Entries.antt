-- ===== src/Admin/Rows/Entries.antt =====
-- The rows of `show unique jobs` in src/admin/mod.rs: with a handle, and without one.
use gearman_rs.Base.{
  ◌≤◌, ◌≡◌, ◌≢◌, refl, ap, ◌∙◌, false, true, Option, some, none, [], ◌∷◌, ◌++◌, All-append, length,
  length-append, Bytes, Lacks, arith,
}
use gearman_rs.Base.Utf8.{is_utf8, is_utf8-append, is_utf8-ascii}
use gearman_rs.Base.Fields.{split_once-append, split_once-Lacks}
use gearman_rs.Admin.Lines.{ends_with}
use gearman_rs.Admin.Lines.Reading.{IsLine, ends_with-append}
use gearman_rs.Admin.Lines.Blocks.{IsRow}
use gearman_rs.Admin.Rows.{UniqueJobEntry, unique_entry, parse_unique_job_line}
use gearman_rs.Admin.Rows.Cells.{IsName, no_dot-append}

-- With a handle since gearmand 2.2.0.
abbrev pub print_entry : Option Bytes → Bytes → Bytes
print_entry (some handle) unique = handle ++ b'\t' ∷ unique
print_entry none unique = unique

pub print_unique_job : UniqueJobEntry → Bytes
print_unique_job entry = print_entry entry.handle entry.unique

-- A handle has no tab; without a handle, the unique id has none.
unfoldable pub IsEntry : Option Bytes → Bytes → Type 0
IsEntry (some handle) unique = IsName handle × IsLine unique × (length unique ≤ 500)
IsEntry none unique = IsRow unique × Lacks b'\t' unique

unfoldable pub IsUniqueJob : UniqueJobEntry → Type 0
unfolding IsEntry
IsUniqueJob entry = IsEntry entry.handle entry.unique

parse_entry :
    (handle : Option Bytes) (unique : Bytes)
    → IsEntry handle unique
    → parse_unique_job_line (print_entry handle unique)
      ≡ record { handle = handle; unique = unique }
unfolding parse_unique_job_line IsEntry
parse_entry (some handle) unique (h, _, _) =
    ap (unique_entry (handle ++ b'\t' ∷ unique)) (split_once-append b'\t' handle unique h.untabbed)
parse_entry none unique (_, h) = ap (unique_entry unique) (split_once-Lacks b'\t' unique h)

pub parse_unique_job_line-print_unique_job :
    (entry : UniqueJobEntry)
    → IsUniqueJob entry
    → parse_unique_job_line (print_unique_job entry) ≡ entry
unfolding print_unique_job IsUniqueJob
parse_unique_job_line-print_unique_job entry h = parse_entry entry.handle entry.unique h

tab-ascii : is_utf8 (b'\t' ∷ []) ≡ true
tab-ascii = is_utf8-ascii (b'\t' ∷ []) (omega arith, tt)

ends_with-tab :
    (unique : Bytes) → ends_with b'\r' unique ≡ false → ends_with b'\r' (b'\t' ∷ unique) ≡ false
unfolding ends_with
ends_with-tab [] h = refl
ends_with-tab (x ∷ unique) h = h

entry-IsRow :
    (handle : Option Bytes) (unique : Bytes)
    → IsEntry handle unique
    → IsRow (print_entry handle unique)
unfolding IsEntry
entry-IsRow (some handle) unique (h, u, few) = record {
  line = record {
    text =
        is_utf8-append handle (b'\t' ∷ unique) h.text
        ∙ is_utf8-append (b'\t' ∷ []) unique tab-ascii
        ∙ u.text;
    single = All-append (λ c. c ≢ b'\n') handle (b'\t' ∷ unique) h.single (ground arith, u.single);
    uncut = ends_with-append b'\r' b'\t' handle unique ∙ ends_with-tab unique u.uncut;
    short = omega (arith, length-append handle (b'\t' ∷ unique), h.short, few);
  };
  no_dot = no_dot-append handle b'\t' unique (ground arith);
}
entry-IsRow none unique (h, _) = h

pub print_unique_job-IsRow :
    (entry : UniqueJobEntry) → IsUniqueJob entry → IsRow (print_unique_job entry)
unfolding print_unique_job IsUniqueJob
print_unique_job-IsRow entry h = entry-IsRow entry.handle entry.unique h
