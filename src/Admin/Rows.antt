-- ===== src/Admin/Rows.antt =====
-- The parsers of src/admin/mod.rs for the lines that the server answers with. The fields that
-- are left of an iterator are a list.
pub mod Cells
pub mod Counts
pub mod Words
pub mod Entries
use gearman_rs.Base.{
  ℕ, Bool, true, false, not, ◌==◌, if◌then◌else◌, Option, none, some, List, [], ◌∷◌, length, Bytes,
  bytes_eq, codes,
}
use gearman_rs.Base.Decimal.{parse, max_u32, max_u64}
use gearman_rs.Base.Fields.{split, split_once}
use gearman_rs.Base.Space.{split_whitespace, trim_start}
use gearman_rs.Base.Int.{ℤ, parse_int, max_i32}
use gearman_rs.Error.{GearmanError, Result, ok, err, ◌>>=◌}

-- `Err(AdminProtocolError { line })`
abbrev pub refused {ℓ} : {A : Type ℓ} → Bytes → Result A
refused line = err (GearmanError.admin_protocol_error line)

abbrev pub or_refused {ℓ} : {A : Type ℓ} → Bytes → Option A → Result A
or_refused line none = refused line
or_refused line (some value) = ok value

abbrev pub next_field : List Bytes → Bytes → Result (Bytes × List Bytes)
next_field [] line = refused line
next_field (field ∷ fields) line = ok (field, fields)

-- The same on the iterator of `split_whitespace`.
abbrev pub next_field2 : List Bytes → Bytes → Result (Bytes × List Bytes)
next_field2 [] line = refused line
next_field2 (field ∷ fields) line = ok (field, fields)

unfoldable pub parse_u64 : Bytes → Bytes → Result ℕ
parse_u64 field line = or_refused line (parse max_u64 field)

unfoldable pub parse_u32 : Bytes → Bytes → Result ℕ
parse_u32 field line = or_refused line (parse max_u32 field)

unfoldable pub parse_i32 : Bytes → Bytes → Result ℤ
parse_i32 field line = or_refused line (parse_int max_i32 field)

pub record FunctionStatus : Type 0 where
  pub function : Bytes
  pub total : ℕ
  pub running : ℕ
  pub worker_count : ℕ

pub record PriorityFunctionStatus : Type 0 where
  pub function : Bytes
  pub high : ℕ
  pub normal : ℕ
  pub low : ℕ
  pub worker_count : ℕ

pub record JobListEntry : Type 0 where
  pub handle : Bytes
  pub retries : ℕ
  pub ignore_job : Bool
  pub queued : Bool

pub record UniqueJobEntry : Type 0 where
  pub handle : Option Bytes
  pub unique : Bytes

pub record WorkerInfo : Type 0 where
  pub fd : ℤ
  pub ip : Bytes
  pub client_id : Bytes
  pub functions : List Bytes

unfoldable pub parse_status_line : Bytes → Result FunctionStatus
parse_status_line line = do
  (function, fields) ← next_field (split b'\t' line) line
  (total_field, fields) ← next_field fields line
  total ← parse_u64 total_field line
  (running_field, fields) ← next_field fields line
  running ← parse_u64 running_field line
  (count_field, fields) ← next_field fields line
  worker_count ← parse_u64 count_field line
  ok (record { function = function; total = total; running = running; worker_count = worker_count })

unfoldable pub parse_priority_status_line : Bytes → Result PriorityFunctionStatus
parse_priority_status_line line = do
  (function, fields) ← next_field (split b'\t' line) line
  (high_field, fields) ← next_field fields line
  high ← parse_u64 high_field line
  (normal_field, fields) ← next_field fields line
  normal ← parse_u64 normal_field line
  (low_field, fields) ← next_field fields line
  low ← parse_u64 low_field line
  (count_field, fields) ← next_field fields line
  worker_count ← parse_u64 count_field line
  ok (record {
    function = function;
    high = high;
    normal = normal;
    low = low;
    worker_count = worker_count;
  })

-- `field != "0"`
abbrev pub is_set : Bytes → Bool
is_set field = not (bytes_eq field (codes "0"))

unfoldable pub parse_job_list_line : Bytes → Result JobListEntry
parse_job_list_line line = do
  (handle, fields) ← next_field (split b'\t' line) line
  (retries_field, fields) ← next_field fields line
  retries ← parse_u32 retries_field line
  (ignore_field, fields) ← next_field fields line
  (queued_field, fields) ← next_field fields line
  ok (record {
    handle = handle;
    retries = retries;
    ignore_job = is_set ignore_field;
    queued = is_set queued_field;
  })

abbrev pub unique_entry : Bytes → Option (Bytes × Bytes) → UniqueJobEntry
unique_entry line (some (handle, unique)) = record { handle = some handle; unique = unique }
unique_entry line none = record { handle = none; unique = line }

unfoldable pub parse_unique_job_line : Bytes → UniqueJobEntry
parse_unique_job_line line = unique_entry line (split_once b'\t' line)

-- The end of `parse_worker_line`, where the fields are the functions.
abbrev pub worker_info : Bytes → ℤ → Bytes → Bytes → Bytes → List Bytes → Result WorkerInfo
worker_info line fd ip client_id delimiter fields =
    if bytes_eq delimiter (codes ":")
    then ok (record { fd = fd; ip = ip; client_id = client_id; functions = fields })
    else refused line

unfoldable pub parse_worker_line : Bytes → Result WorkerInfo
parse_worker_line line = do
  (fd_field, fields) ← next_field2 (split_whitespace line) line
  fd ← parse_i32 fd_field line
  (ip, fields) ← next_field2 fields line
  (client_id, fields) ← next_field2 fields line
  (delimiter, fields) ← next_field2 fields line
  worker_info line fd ip client_id delimiter fields

-- `strip_prefix` of a text.
unfoldable pub strip_text : Bytes → Bytes → Option Bytes
strip_text [] line = some line
strip_text (c ∷ prefix) [] = none
strip_text (c ∷ prefix) (x ∷ line) =
    let rest = strip_text prefix line in if x == c then rest else none

abbrev pub ack_value : Bytes → Option Bytes
ack_value [] = none
ack_value (x ∷ rest) = some (x ∷ rest)

-- `splitn(2, ' ')`: the code and the text of an error.
abbrev pub server_error_of {ℓ} : {A : Type ℓ} → Bytes → Option (Bytes × Bytes) → Result A
server_error_of rest (some (code, text)) = err (GearmanError.server_error code text)
server_error_of rest none = err (GearmanError.server_error rest [])

abbrev pub ack_error : Bytes → Option Bytes → Result (Option Bytes)
ack_error line none = refused line
ack_error line (some rest) =
    let rest = trim_start rest in server_error_of rest (split_once b' ' rest)

abbrev pub ack_or_error : Bytes → Option Bytes → Result (Option Bytes)
ack_or_error line (some rest) = ok (ack_value (trim_start rest))
ack_or_error line none = ack_error line (strip_text (codes "ERR") line)

unfoldable pub parse_ack_line : Bytes → Result (Option Bytes)
parse_ack_line line = ack_or_error line (strip_text (codes "OK") line)
