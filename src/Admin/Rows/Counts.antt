-- ===== src/Admin/Rows/Counts.antt =====
-- The rows of numbers that src/admin/mod.rs reads, printed and read back.
use gearman_rs.Base.{
  ℕ, ◌≤◌, ◌≡◌, refl, ap, Bool, true, false, [], ◌∷◌, ◌++◌, Bytes, bytes_eq, arith,
}
use gearman_rs.Base.Decimal.{to_string, parse-to_string, max_u32, max_u64}
use gearman_rs.Error.{ok}
use gearman_rs.Admin.Rows.{
  or_refused, parse_u64, parse_u32, is_set, FunctionStatus, PriorityFunctionStatus, JobListEntry,
  parse_status_line, parse_priority_status_line, parse_job_list_line,
}
use gearman_rs.Admin.Rows.Cells.{IsName, cells, split-cells, cells-IsRow}
use gearman_rs.Admin.Lines.Blocks.{IsRow}

parse_u64-to_string : (n : ℕ) (line : Bytes) → n ≤ max_u64 → parse_u64 (to_string n) line ≡ ok n
unfolding parse_u64
parse_u64-to_string n line h = ap (or_refused line) (parse-to_string max_u64 n h (omega arith))

parse_u32-to_string : (n : ℕ) (line : Bytes) → n ≤ max_u32 → parse_u32 (to_string n) line ≡ ok n
unfolding parse_u32
parse_u32-to_string n line h = ap (or_refused line) (parse-to_string max_u32 n h (omega arith))

pub print_status : FunctionStatus → Bytes
print_status row = row.function ++ cells (row.total ∷ row.running ∷ row.worker_count ∷ [])

pub record IsStatus (row : FunctionStatus) : Type 0 where
  pub name : IsName row.function
  pub total_fits : row.total ≤ max_u64
  pub running_fits : row.running ≤ max_u64
  pub count_fits : row.worker_count ≤ max_u64

pub parse_status_line-print_status :
    (row : FunctionStatus) → IsStatus row → parse_status_line (print_status row) ≡ ok row
unfolding parse_status_line print_status
parse_status_line-print_status row h =
    rw
      (
        split-cells row.function (row.total ∷ row.running ∷ row.worker_count ∷ []) h.name.untabbed,
        parse_u64-to_string row.total (print_status row) h.total_fits,
        parse_u64-to_string row.running (print_status row) h.running_fits,
        parse_u64-to_string row.worker_count (print_status row) h.count_fits,
      )
      refl

pub print_status-IsRow : (row : FunctionStatus) → IsStatus row → IsRow (print_status row)
unfolding print_status
print_status-IsRow row h =
    cells-IsRow row.function row.total (row.running ∷ row.worker_count ∷ []) h.name (omega arith)

pub print_priority_status : PriorityFunctionStatus → Bytes
print_priority_status row =
    row.function ++ cells (row.high ∷ row.normal ∷ row.low ∷ row.worker_count ∷ [])

pub record IsPriorityStatus (row : PriorityFunctionStatus) : Type 0 where
  pub name : IsName row.function
  pub high_fits : row.high ≤ max_u64
  pub normal_fits : row.normal ≤ max_u64
  pub low_fits : row.low ≤ max_u64
  pub count_fits : row.worker_count ≤ max_u64

pub parse_priority_status_line-print_priority_status :
    (row : PriorityFunctionStatus)
    → IsPriorityStatus row
    → parse_priority_status_line (print_priority_status row) ≡ ok row
unfolding parse_priority_status_line print_priority_status
parse_priority_status_line-print_priority_status row h =
    rw
      (
        split-cells row.function (row.high ∷ row.normal ∷ row.low ∷ row.worker_count ∷ [])
            h.name.untabbed,
        parse_u64-to_string row.high (print_priority_status row) h.high_fits,
        parse_u64-to_string row.normal (print_priority_status row) h.normal_fits,
        parse_u64-to_string row.low (print_priority_status row) h.low_fits,
        parse_u64-to_string row.worker_count (print_priority_status row) h.count_fits,
      )
      refl

pub print_priority_status-IsRow :
    (row : PriorityFunctionStatus) → IsPriorityStatus row → IsRow (print_priority_status row)
unfolding print_priority_status
print_priority_status-IsRow row h =
    cells-IsRow row.function row.high (row.normal ∷ row.low ∷ row.worker_count ∷ []) h.name
      (omega arith)

-- A flag is printed as 0 or 1.
abbrev pub flag : Bool → ℕ
flag false = 0
flag true = 1

is_set-flag : (b : Bool) → is_set (to_string (flag b)) ≡ b
unfolding bytes_eq to_string
is_set-flag false = refl
is_set-flag true = refl

pub print_job : JobListEntry → Bytes
print_job row = row.handle ++ cells (row.retries ∷ flag row.ignore_job ∷ flag row.queued ∷ [])

pub record IsJob (row : JobListEntry) : Type 0 where
  pub name : IsName row.handle
  pub retries_fit : row.retries ≤ max_u32

pub parse_job_list_line-print_job :
    (row : JobListEntry) → IsJob row → parse_job_list_line (print_job row) ≡ ok row
unfolding parse_job_list_line print_job
parse_job_list_line-print_job row h =
    rw
      (
        split-cells row.handle (row.retries ∷ flag row.ignore_job ∷ flag row.queued ∷ [])
            h.name.untabbed,
        parse_u32-to_string row.retries (print_job row) h.retries_fit,
        is_set-flag row.ignore_job,
        is_set-flag row.queued,
      )
      refl

pub print_job-IsRow : (row : JobListEntry) → IsJob row → IsRow (print_job row)
unfolding print_job
print_job-IsRow row h =
    cells-IsRow row.handle row.retries (flag row.ignore_job ∷ flag row.queued ∷ []) h.name
      (omega arith)
