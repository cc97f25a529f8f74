-- ===== src/Admin/Commands/Acks.antt =====
-- The commands of src/admin/mod.rs that one line answers.
use gearman_rs.Base.{
  ℕ, ◌≤◌, ◌<◌, ◌≡◌, ◌≢◌, refl, ap, inl, Option, some, none, [], ◌∷◌, ◌++◌, All, Bytes, codes, Lacks,
  arith,
}
use gearman_rs.Base.Decimal.{to_string, max_u32, parse-to_string, digits_head}
use gearman_rs.Base.Numerals.{
  IsNumeral, to_string-IsNumeral, IsNumeral-Lacks, IsNumeral-ascii, length-to_string,
}
use gearman_rs.Base.Utf8.{is_utf8-ascii}
use gearman_rs.Base.Fields.{split_once-append}
use gearman_rs.Base.Space.{IsTrimmed, trim_start_space, trim_start-IsTrimmed, space_width}
use gearman_rs.Error.{GearmanError, Result, ok, err, ◌>>=◌}
use gearman_rs.Admin.Lines.{send_line}
use gearman_rs.Admin.Lines.Reading.{Eol, eol, IsLine, read_line-line, ends_with-Lacks}
use gearman_rs.Admin.Rows.{strip_text, ack_value, parse_ack_line}
use gearman_rs.Admin.Commands.{
  cancel_job, create_function, drop_function, read_ack, read_ack_value, run_command, Outcome,
  acknowledged, getpid,
}
use gearman_rs.Admin.Commands.Tables.{after_command}

-- What a server answers with.
pub data Reply : Type 0 where
  accepted : Reply
  answered : Bytes → Reply
  -- the code, the text
  failed : Bytes → Bytes → Reply

abbrev pub print_reply : Reply → Bytes
print_reply accepted = codes "OK"
print_reply (answered value) = codes "OK " ++ value
print_reply (failed code text) = codes "ERR " ++ (code ++ b' ' ∷ text)

-- A value is not empty and begins with no space; a code has no space and is not empty.
abbrev pub IsReply : Reply → Type 0
IsReply accepted = Unit
IsReply (answered value) = (value ≢ []) × IsTrimmed value
IsReply (failed code text) = Lacks b' ' code × IsTrimmed (code ++ b' ' ∷ text)

-- The result that a reply stands for.
abbrev pub result_of : Reply → Result (Option Bytes)
result_of accepted = ok none
result_of (answered value) = ok (some value)
result_of (failed code text) = err (GearmanError.server_error code text)

ack_value-nonempty : (value : Bytes) → value ≢ [] → ack_value value ≡ some value
ack_value-nonempty [] h = absurd (h refl)
ack_value-nonempty (x ∷ value) h = refl

pub parse_ack_line-print_reply :
    (reply : Reply) → IsReply reply → parse_ack_line (print_reply reply) ≡ result_of reply
unfolding parse_ack_line strip_text
parse_ack_line-print_reply accepted h = ap (λ s. ok (ack_value s)) (trim_start-IsTrimmed [] tt)
parse_ack_line-print_reply (answered value) (some_value, h) =
    rw (trim_start_space value h) (ap ok (ack_value-nonempty value some_value))
parse_ack_line-print_reply (failed code text) (h, trimmed) =
    rw (trim_start_space (code ++ b' ' ∷ text) trimmed, split_once-append b' ' code text h) refl

-- theorem
pub read_ack-reply :
    (reply : Reply) (e : Eol) (sent rest : Bytes)
    → IsReply reply
    → IsLine (print_reply reply)
    → read_ack (record { sent = sent; incoming = print_reply reply ++ (eol e ++ rest) })
      ≡ (result_of reply, record { sent = sent; incoming = rest })
unfolding read_ack
read_ack-reply reply e sent rest h line =
    rw (read_line-line (print_reply reply) e rest line, parse_ack_line-print_reply reply h) refl

-- The outcome of a command that gives nothing back.
abbrev pub outcome_of : Reply → Outcome
outcome_of reply = result_of reply >>= acknowledged

pub run_command-reply :
    (line : Bytes) (reply : Reply) (e : Eol) (sent rest : Bytes)
    → IsReply reply
    → IsLine (print_reply reply)
    → run_command line (record { sent = sent; incoming = print_reply reply ++ (eol e ++ rest) })
      ≡ (outcome_of reply, after_command sent line rest)
unfolding send_line
run_command-reply line reply e sent rest h is_line =
    rw (read_ack-reply reply e (sent ++ line ++ b'\r' ∷ b'\n' ∷ []) rest h is_line) refl

-- When the server answers with OK, with OK and a value that is not empty and does not begin
-- with white space, or with ERR, a code without a space and a text (with no white space at the
-- start), on one line that fits, then `cancel_job`, `create_function` and `drop_function`
-- return success, success, and the server's error with that code and text; each has sent its
-- command's line, and leaves the bytes behind the answer.
pub commands-reply :
    (name : Bytes) (reply : Reply) (e : Eol) (sent rest : Bytes)
    → IsReply reply
    → IsLine (print_reply reply)
    → (cancel_job name (record { sent = sent; incoming = print_reply reply ++ (eol e ++ rest) })
        ≡ (outcome_of reply, after_command sent (codes "cancel job " ++ name) rest))
      × (create_function name
            (record { sent = sent; incoming = print_reply reply ++ (eol e ++ rest) })
          ≡ (outcome_of reply, after_command sent (codes "create function " ++ name) rest))
      × (drop_function name
            (record { sent = sent; incoming = print_reply reply ++ (eol e ++ rest) })
          ≡ (outcome_of reply, after_command sent (codes "drop function " ++ name) rest))
unfolding cancel_job create_function drop_function
commands-reply name reply e sent rest h is_line = (
  run_command-reply (codes "cancel job " ++ name) reply e sent rest h is_line,
  run_command-reply (codes "create function " ++ name) reply e sent rest h is_line,
  run_command-reply (codes "drop function " ++ name) reply e sent rest h is_line,
)

digits-IsTrimmed : (s : Bytes) → IsNumeral s → IsTrimmed s
unfolding space_width
digits-IsTrimmed [] h = tt
digits-IsTrimmed (x ∷ []) ((l, u), h) = ground arith
digits-IsTrimmed (x ∷ y ∷ []) ((l, u), h) = ground arith
digits-IsTrimmed (x ∷ y ∷ z ∷ s) ((l, u), h) = ground arith

-- The head of a print of a number is no white space.
to_string-IsTrimmed : (n : ℕ) → IsTrimmed (to_string n)
to_string-IsTrimmed n = digits-IsTrimmed (to_string n) (to_string-IsNumeral n)

pid-nonempty : (n : ℕ) → to_string n ≢ []
unfolding to_string
pid-nonempty n h = let (c, s, e, digit) = digits_head 19 n [] in cc (e, h)

print_pid-ascii : (pid : ℕ) → All (λ b. b < 128) (print_reply (answered (to_string pid)))
print_pid-ascii pid = (
  omega arith,
  (omega arith, (omega arith, IsNumeral-ascii (to_string pid) (to_string-IsNumeral pid))),
)

print_pid-Lacks : (c pid : ℕ) → c < b' ' → Lacks c (print_reply (answered (to_string pid)))
print_pid-Lacks c pid h = (
  ground arith,
  (
    ground arith,
    (ground arith, IsNumeral-Lacks c (to_string pid) (inl (omega arith)) (to_string-IsNumeral pid)),
  ),
)

-- The reply with a process id is a line.
print_pid-IsLine : (pid : ℕ) → IsLine (print_reply (answered (to_string pid)))
print_pid-IsLine pid = record {
  text = is_utf8-ascii (print_reply (answered (to_string pid))) (print_pid-ascii pid);
  single = print_pid-Lacks b'\n' pid (omega arith);
  uncut =
      ends_with-Lacks b'\r' (print_reply (answered (to_string pid)))
        (print_pid-Lacks b'\r' pid (omega arith));
  short = omega (arith, length-to_string pid);
}

-- theorem
pub getpid-answered :
    (pid : ℕ) (e : Eol) (sent rest : Bytes)
    → pid ≤ max_u32
    → getpid (record {
      sent = sent;
      incoming = print_reply (answered (to_string pid)) ++ (eol e ++ rest);
    })
      ≡ (ok pid, after_command sent (codes "getpid") rest)
unfolding getpid read_ack_value send_line
getpid-answered pid e sent rest h =
    rw
      (
        read_ack-reply (answered (to_string pid)) e (sent ++ codes "getpid" ++ b'\r' ∷ b'\n' ∷ [])
            rest (pid-nonempty pid, to_string-IsTrimmed pid) (print_pid-IsLine pid),
        parse-to_string max_u32 pid h (omega arith),
      )
      refl
