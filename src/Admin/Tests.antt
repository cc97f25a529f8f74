-- ===== src/Admin/Tests.antt =====
-- The theorems on the admin client at concrete answers of a server.
use gearman_rs.Base.{
  ℕ, zero, suc, ◌<◌, ◌≡◌, refl, sym, ap, ◌∙◌, subst, some, List, [], ◌∷◌, ◌++◌, All, length, take,
  drop, replicate, Bytes, codes, Lacks, arith,
}
use gearman_rs.Base.Utf8.{is_utf8, is_utf8-ascii}
use gearman_rs.Base.Space.{word, NoSpace-ascii, space_width}
use gearman_rs.Base.Int.{pos, print_int}
use gearman_rs.Base.Decimal.{to_string}
use gearman_rs.Base.Fields.{split}
use gearman_rs.Error.{Result, GearmanError, ok, err}
use gearman_rs.Admin.Lines.{
  from_stream, ends_with, read_line, read_dot_terminated, checked_line, take_line, trim_newlines,
}
use gearman_rs.Admin.Lines.Reading.{lf, crlf, eol, IsLine}
use gearman_rs.Admin.Lines.Bounds.{IsRead, read_line-IsRead, read_line-too_long}
use gearman_rs.Admin.Lines.Blocks.{read_dot_terminated-some}
use gearman_rs.Admin.Rows.{FunctionStatus, WorkerInfo}
use gearman_rs.Admin.Rows.Cells.{IsName}
use gearman_rs.Admin.Rows.Counts.{IsStatus, print_status}
use gearman_rs.Admin.Rows.Words.{spaced, IsToken, IsWorker, print_worker}
use gearman_rs.Admin.Commands.{
  status, workers, cancel_job, create_function, drop_function, set_max_queue, MaxQueueSize,
  per_priority, max_queue_command,
}
use gearman_rs.Admin.Commands.Tables.{table, after_command, status-table, workers-table}
use gearman_rs.Admin.Commands.Acks.{Reply, failed, print_reply, outcome_of, commands-reply}
use gearman_rs.Admin.Commands.Queue.{set_max_queue-sent}

abbrev resize : Bytes
resize = codes "resize"

resize-IsName : IsName resize
unfolding is_utf8
resize-IsName = record {
  text = refl;
  single = ground arith;
  untabbed = ground arith;
  short = omega arith;
}

abbrev resize_status : FunctionStatus
resize_status = record { function = resize; total = 3; running = 1; worker_count = 2 }

resize_status-IsStatus : IsStatus resize_status
resize_status-IsStatus = record {
  name = resize-IsName;
  total_fits = omega arith;
  running_fits = omega arith;
  count_fits = omega arith;
}

status-table_example :
    status
      (record { sent = []; incoming = table lf print_status (resize_status ∷ []) (codes "left") })
    ≡ some (ok (resize_status ∷ []), after_command [] (codes "status") (codes "left"))
status-table_example =
    status-table lf (resize_status ∷ []) [] (codes "left") (resize_status-IsStatus, tt)

resize-IsToken : IsToken resize
unfolding is_utf8
resize-IsToken = record { text = refl; spaceless = word (NoSpace-ascii resize (ground arith)) }

abbrev worker : WorkerInfo
worker = record { fd = pos 7; ip = resize; client_id = resize; functions = resize ∷ [] }

worker-IsWorker : IsWorker worker
unfolding print_worker print_int spaced to_string
worker-IsWorker = record {
  fd_fits = omega arith;
  ip_token = resize-IsToken;
  client_token = resize-IsToken;
  function_tokens = (resize-IsToken, tt);
  short = omega arith;
}

workers-table_example :
    workers (record { sent = []; incoming = table lf print_worker (worker ∷ []) [] })
    ≡ some (ok (worker ∷ []), after_command [] (codes "workers") [])
workers-table_example = workers-table lf (worker ∷ []) [] [] (worker-IsWorker, tt)

abbrev unknown_job : Reply
unknown_job = failed (codes "NO_JOB") (codes "no such job")

unknown_job-IsLine : IsLine (print_reply unknown_job)
unfolding is_utf8 ends_with
unknown_job-IsLine = record {
  text = refl;
  single = ground arith;
  uncut = refl;
  short = omega arith;
}

commands-reply_example :
    (cancel_job resize
        (record { sent = []; incoming = print_reply unknown_job ++ (eol crlf ++ []) })
      ≡ (outcome_of unknown_job, after_command [] (codes "cancel job " ++ resize) []))
    × (create_function resize
          (record { sent = []; incoming = print_reply unknown_job ++ (eol crlf ++ []) })
        ≡ (outcome_of unknown_job, after_command [] (codes "create function " ++ resize) []))
    × (drop_function resize
          (record { sent = []; incoming = print_reply unknown_job ++ (eol crlf ++ []) })
        ≡ (outcome_of unknown_job, after_command [] (codes "drop function " ++ resize) []))
unfolding space_width
commands-reply_example =
    commands-reply resize unknown_job crlf [] [] (ground arith, refl) unknown_job-IsLine

abbrev queue_limits : MaxQueueSize
queue_limits = per_priority 10 20 30

queue_limits-IsLine : IsLine (max_queue_command resize queue_limits)
unfolding is_utf8 ends_with to_string
queue_limits-IsLine = record {
  text = refl;
  single = ground arith;
  uncut = refl;
  short = omega arith;
}

set_max_queue-sent_example :
    (read_line (set_max_queue resize queue_limits (from_stream [])).1.sent
      ≡ (ok (max_queue_command resize queue_limits), []))
    × (split b' ' (max_queue_command resize queue_limits)
        ≡ codes "maxqueue" ∷ resize ∷ to_string 10 ∷ to_string 20 ∷ to_string 30 ∷ [])
set_max_queue-sent_example =
    set_max_queue-sent resize queue_limits [] (ground arith) queue_limits-IsLine

read_ok : (read_line (codes "OK\r\nmore")).0 ≡ ok (codes "OK")
unfolding read_line checked_line take_line trim_newlines ends_with is_utf8
read_ok = refl

read_line-IsRead_example :
    IsRead (codes "OK\r\nmore") (codes "OK") (read_line (codes "OK\r\nmore")).1
read_line-IsRead_example = read_line-IsRead (codes "OK\r\nmore") read_ok

-- A server that sends one byte over and over.
abbrev flood : ℕ → Bytes
flood n = replicate n b'a'

take-flood : (n : ℕ) → take n (flood n) ≡ flood n
take-flood zero = refl
take-flood (suc n) = ap (◌∷◌ b'a') (take-flood n)

flood-ascii : (n : ℕ) → All (λ b. b < 128) (flood n)
flood-ascii zero = tt
flood-ascii (suc n) = (omega arith, flood-ascii n)

flood-Lacks : (n : ℕ) → Lacks b'\n' (flood n)
flood-Lacks zero = tt
flood-Lacks (suc n) = (ground arith, flood-Lacks n)

length-flood : (n : ℕ) → length (flood n) ≡ n
length-flood zero = refl
length-flood (suc n) = ap suc (length-flood n)

read_line-too_long_example :
    read_line (flood 65536)
    ≡ (err (GearmanError.admin_line_too_long 65536), drop 65536 (flood 65536))
read_line-too_long_example =
    read_line-too_long (flood 65536)
      (ap is_utf8 (take-flood 65536) ∙ is_utf8-ascii (flood 65536) (flood-ascii 65536))
      (subst (λ s. Lacks b'\n' s) (sym (take-flood 65536)) (flood-Lacks 65536))
      (omega (arith, length-flood 65536))

-- An answer that breaks off.
read_dot_terminated-some_example :
    (result : Result (List Bytes)) × (rest : Bytes) × (read_dot_terminated (codes "a\nb")
      ≡ some (result, rest))
read_dot_terminated-some_example = read_dot_terminated-some (codes "a\nb")
