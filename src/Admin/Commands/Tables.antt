-- ===== src/Admin/Commands/Tables.antt =====
-- The commands of src/admin/mod.rs that answer with a table, on a server that prints one.
use gearman_rs.Base.{◌≡◌, refl, some, List, [], ◌∷◌, ◌++◌, map, All, Bytes, codes}
use gearman_rs.Error.{Result, ok}
use gearman_rs.Admin.Lines.{AdminClient, send_line}
use gearman_rs.Admin.Lines.Reading.{Eol}
use gearman_rs.Admin.Lines.Blocks.{IsRow, block, read_dot_terminated-block}
use gearman_rs.Admin.Rows.{
  FunctionStatus, PriorityFunctionStatus, JobListEntry, parse_status_line,
  parse_priority_status_line, parse_job_list_line,
}
use gearman_rs.Admin.Rows.Counts.{
  print_status, IsStatus, parse_status_line-print_status, print_status-IsRow, print_priority_status,
  IsPriorityStatus, parse_priority_status_line-print_priority_status, print_priority_status-IsRow,
  print_job, IsJob, parse_job_list_line-print_job, print_job-IsRow,
}
use gearman_rs.Admin.Rows.{WorkerInfo, parse_worker_line, UniqueJobEntry, parse_unique_job_line}
use gearman_rs.Admin.Rows.Words.{
  print_worker, IsWorker, parse_worker_line-print_worker, print_worker-IsRow,
}
use gearman_rs.Admin.Rows.Entries.{
  print_unique_job, IsUniqueJob, parse_unique_job_line-print_unique_job, print_unique_job-IsRow,
}
use gearman_rs.Admin.Commands.{
  workers, show_unique_jobs, collect, read_table, status, priority_status, show_jobs,
}

-- The client after a command that read all that it was to read.
abbrev pub after_command : Bytes → Bytes → Bytes → AdminClient
after_command sent line rest = record { sent = sent ++ line ++ b'\r' ∷ b'\n' ∷ []; incoming = rest }

-- What a server answers with: one line for each row, then a dot.
abbrev pub table {ℓ} : {A : Type ℓ} → Eol → (A → Bytes) → List A → Bytes → Bytes
table e print rows rest = block e (map print rows) rest

module _ {ℓ} {A : Type ℓ} (IsGood : A → Type 0) (print : A → Bytes) where
  pub rows-IsRow :
      (good : (row : A) → IsGood row → IsRow (print row)) (rows : List A)
      → All IsGood rows
      → All IsRow (map print rows)
  rows-IsRow good [] h = tt
  rows-IsRow good (row ∷ rows) (h, hs) = (good row h, rows-IsRow good rows hs)

  collect-map :
      (parse_line : Bytes → Result A)
      (back : (row : A) → IsGood row → parse_line (print row) ≡ ok row) (rows : List A)
      → All IsGood rows
      → collect parse_line (map print rows) ≡ ok rows
  unfolding collect
  collect-map parse_line back [] h = refl
  collect-map parse_line back (row ∷ rows) (h, hs) =
      rw (back row h, collect-map parse_line back rows hs) refl

  -- A table of good rows is read, up to its dot.
  read_table-table :
      (parse_line : Bytes → Result A)
      (back : (row : A) → IsGood row → parse_line (print row) ≡ ok row)
      (good : (row : A) → IsGood row → IsRow (print row)) (line : Bytes) (e : Eol) (rows : List A)
      (sent rest : Bytes)
      → All IsGood rows
      → read_table line
          (collect parse_line)
          (record { sent = sent; incoming = table e print rows rest })
        ≡ some (ok rows, after_command sent line rest)
  unfolding read_table send_line
  read_table-table parse_line back good line e rows sent rest h =
      rw
        (
          read_dot_terminated-block e (map print rows) rest (rows-IsRow good rows h),
          collect-map parse_line back rows h,
        )
        refl

-- When the server answers `status` with a line for each row (a name that is UTF-8 of at most
-- 65000 bytes without a tab or line feed, and three 64-bit counts), each ended by LF or by
-- CRLF, and then a dot, `status` returns just these rows in order, has sent the command's
-- line, and leaves the bytes behind the dot.
pub status-table :
    (e : Eol) (rows : List FunctionStatus) (sent rest : Bytes)
    → All IsStatus rows
    → status (record { sent = sent; incoming = table e print_status rows rest })
      ≡ some (ok rows, after_command sent (codes "status") rest)
unfolding status
status-table =
    read_table-table IsStatus print_status parse_status_line parse_status_line-print_status
      print_status-IsRow (codes "status")

-- theorem
pub priority_status-table :
    (e : Eol) (rows : List PriorityFunctionStatus) (sent rest : Bytes)
    → All IsPriorityStatus rows
    → priority_status (record { sent = sent; incoming = table e print_priority_status rows rest })
      ≡ some (ok rows, after_command sent (codes "prioritystatus") rest)
unfolding priority_status
priority_status-table =
    read_table-table IsPriorityStatus print_priority_status parse_priority_status_line
      parse_priority_status_line-print_priority_status print_priority_status-IsRow
      (codes "prioritystatus")

-- theorem
pub show_jobs-table :
    (e : Eol) (rows : List JobListEntry) (sent rest : Bytes)
    → All IsJob rows
    → show_jobs (record { sent = sent; incoming = table e print_job rows rest })
      ≡ some (ok rows, after_command sent (codes "show jobs") rest)
unfolding show_jobs
show_jobs-table =
    read_table-table IsJob print_job parse_job_list_line parse_job_list_line-print_job
      print_job-IsRow (codes "show jobs")

-- When the server answers `workers` with a line for each worker (a 32-bit descriptor, an
-- address, an id, a colon and the functions, all but the descriptor UTF-8 words without white
-- space, with a space between each two, short enough for a line), each ended by LF or by CRLF,
-- and then a dot, `workers` returns just these workers in order, has sent the command's line,
-- and leaves the bytes behind the dot.
pub workers-table :
    (e : Eol) (rows : List WorkerInfo) (sent rest : Bytes)
    → All IsWorker rows
    → workers (record { sent = sent; incoming = table e print_worker rows rest })
      ≡ some (ok rows, after_command sent (codes "workers") rest)
unfolding workers
workers-table =
    read_table-table IsWorker print_worker parse_worker_line parse_worker_line-print_worker
      print_worker-IsRow (codes "workers")

unique_rows-map :
    (rows : List UniqueJobEntry)
    → All IsUniqueJob rows
    → map parse_unique_job_line (map print_unique_job rows) ≡ rows
unique_rows-map [] h = refl
unique_rows-map (row ∷ rows) (h, hs) =
    rw (parse_unique_job_line-print_unique_job row h, unique_rows-map rows hs) refl

-- theorem
pub show_unique_jobs-table :
    (e : Eol) (rows : List UniqueJobEntry) (sent rest : Bytes)
    → All IsUniqueJob rows
    → show_unique_jobs (record { sent = sent; incoming = table e print_unique_job rows rest })
      ≡ some (ok rows, after_command sent (codes "show unique jobs") rest)
unfolding show_unique_jobs read_table send_line
show_unique_jobs-table e rows sent rest h =
    rw
      (
        read_dot_terminated-block e (map print_unique_job rows) rest
            (rows-IsRow IsUniqueJob print_unique_job print_unique_job-IsRow rows h),
        unique_rows-map rows h,
      )
      refl
