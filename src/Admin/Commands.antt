-- ===== src/Admin/Commands.antt =====
-- The operations of `AdminClient` in src/admin/mod.rs. Those that answer with a table run
-- `read_dot_terminated`, and are `none` where that runs out of fuel, which it never does.
pub mod Tables
pub mod Acks
pub mod Queue
use gearman_rs.Base.{ℕ, Option, none, some, List, [], ◌∷◌, ◌++◌, map, Bytes, codes}
use gearman_rs.Base.Decimal.{parse, max_u32, to_string}
use gearman_rs.Error.{GearmanError, Result, ok, err, ◌>>=◌}
use gearman_rs.Admin.Lines.{AdminClient, send_line, read_line, read_dot_terminated}
use gearman_rs.Admin.Rows.{
  refused, or_refused, FunctionStatus, PriorityFunctionStatus, JobListEntry, UniqueJobEntry,
  WorkerInfo, parse_status_line, parse_priority_status_line, parse_job_list_line,
  parse_unique_job_line, parse_worker_line, parse_ack_line,
}

-- `read_ack`.
unfoldable pub read_ack : AdminClient → Result (Option Bytes) × AdminClient
read_ack client =
    let (read, rest) = read_line client.incoming in
    (read >>= parse_ack_line, record { sent = client.sent; incoming = rest })

abbrev pub value_or_refused : Option Bytes → Result Bytes
value_or_refused answer = or_refused (codes "OK") answer

unfoldable pub read_ack_value : AdminClient → Result Bytes × AdminClient
read_ack_value client =
    let (answer, client) = read_ack client in (answer >>= value_or_refused, client)

-- `Result<()>`
abbrev pub Outcome : Type 0
Outcome = Result Unit

-- `map(|_| ())`
abbrev pub acknowledged : Option Bytes → Outcome
acknowledged answer = ok tt

abbrev pub run_command : Bytes → AdminClient → Outcome × AdminClient
run_command line client =
    let (answer, client) = read_ack (send_line line client) in (answer >>= acknowledged, client)

unfoldable pub cancel_job : Bytes → AdminClient → Outcome × AdminClient
cancel_job handle = run_command (codes "cancel job " ++ handle)

unfoldable pub create_function : Bytes → AdminClient → Outcome × AdminClient
create_function name = run_command (codes "create function " ++ name)

unfoldable pub drop_function : Bytes → AdminClient → Outcome × AdminClient
drop_function name = run_command (codes "drop function " ++ name)

pub data MaxQueueSize : Type 0 where
  default : MaxQueueSize
  uniform : ℕ → MaxQueueSize
  -- high, normal, low
  per_priority : ℕ → ℕ → ℕ → MaxQueueSize

abbrev pub max_queue_command : Bytes → MaxQueueSize → Bytes
max_queue_command function default = codes "maxqueue " ++ function
max_queue_command function (uniform n) = codes "maxqueue " ++ function ++ b' ' ∷ to_string n
max_queue_command function (per_priority high normal low) =
    codes "maxqueue "
    ++ (function ++ (b' ' ∷ to_string high ++ (b' ' ∷ to_string normal ++ (b' ' ∷ to_string low))))

unfoldable pub set_max_queue : Bytes → MaxQueueSize → AdminClient → Outcome × AdminClient
set_max_queue function size = run_command (max_queue_command function size)

abbrev pub pid_of : Bytes → Result ℕ
pid_of value = or_refused (codes "OK " ++ value) (parse max_u32 value)

unfoldable pub getpid : AdminClient → Result ℕ × AdminClient
getpid client =
    let (answer, client) = read_ack_value (send_line (codes "getpid") client) in
    (answer >>= pid_of, client)

unfoldable pub verbose : AdminClient → Result Bytes × AdminClient
verbose client = read_ack_value (send_line (codes "verbose") client)

unfoldable pub version : AdminClient → Result Bytes × AdminClient
version client = read_ack_value (send_line (codes "version") client)

-- `iter().map(parse_line).collect()`: the first error, or all rows.
unfoldable pub collect {ℓ} : {A : Type ℓ} → (Bytes → Result A) → List Bytes → Result (List A)
collect parse_line [] = ok []
collect parse_line (line ∷ lines) =
    let others = collect parse_line lines in
    (do row ← parse_line line; rows ← others; ok (row ∷ rows))

abbrev pub Table {ℓ} : Type ℓ → Type ℓ
Table A = Option (Result (List A) × AdminClient)

abbrev pub rows_of {ℓ} :
    {A : Type ℓ}
    → (List Bytes → Result (List A))
    → Bytes
    → Option (Result (List Bytes) × Bytes)
    → Table A
rows_of parse_lines sent none = none
rows_of parse_lines sent (some (lines, rest)) =
    some (lines >>= parse_lines, record { sent = sent; incoming = rest })

-- A command that answers with a table.
unfoldable pub read_table {ℓ} :
    {A : Type ℓ} → Bytes → (List Bytes → Result (List A)) → AdminClient → Table A
read_table line parse_lines client =
    let client = send_line line client in
    rows_of parse_lines client.sent (read_dot_terminated client.incoming)

unfoldable pub status : AdminClient → Table FunctionStatus
status = read_table (codes "status") (collect parse_status_line)

unfoldable pub workers : AdminClient → Table WorkerInfo
workers = read_table (codes "workers") (collect parse_worker_line)

unfoldable pub priority_status : AdminClient → Table PriorityFunctionStatus
priority_status = read_table (codes "prioritystatus") (collect parse_priority_status_line)

unfoldable pub show_jobs : AdminClient → Table JobListEntry
show_jobs = read_table (codes "show jobs") (collect parse_job_list_line)

-- No line is refused here.
abbrev pub unique_rows : List Bytes → Result (List UniqueJobEntry)
unique_rows lines = ok (map parse_unique_job_line lines)

unfoldable pub show_unique_jobs : AdminClient → Table UniqueJobEntry
show_unique_jobs = read_table (codes "show unique jobs") unique_rows
