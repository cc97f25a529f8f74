-- ===== src/Admin/Lines.antt =====
-- The lines of src/admin/mod.rs: `send_line`, `read_line`, `read_dot_terminated`. What the server
-- sends is the list of all bytes up to the close of the connection; that a read or a write fails
-- on the way there is not modelled, a text that is not UTF-8 is.
pub mod Reading
pub mod Bounds
pub mod Blocks
use gearman_rs.Base.{
  ℕ, zero, suc, Bool, true, false, not, ◌&&◌, ◌||◌, ◌==◌, leb, if◌then◌else◌, Option, none, some,
  List, [], ◌∷◌, ◌++◌, length, Bytes, bytes_eq, codes,
}
use gearman_rs.Base.Utf8.{is_utf8}
use gearman_rs.Error.{GearmanError, Result, ok, err}

abbrev pub max_admin_line_len : ℕ
max_admin_line_len = 65536

-- What was written so far, and what is still to be read.
pub record AdminClient : Type 0 where
  pub sent : Bytes
  pub incoming : Bytes

abbrev pub from_stream : Bytes → AdminClient
from_stream incoming = record { sent = []; incoming = incoming }

unfoldable pub send_line : Bytes → AdminClient → AdminClient
send_line line client = record {
  sent = client.sent ++ line ++ b'\r' ∷ b'\n' ∷ [];
  incoming = client.incoming;
}

-- `take(limit).read_line(..)`: the bytes up to and with the first line feed, `limit` bytes at most,
-- and those left.
unfoldable pub take_line : ℕ → Bytes → Bytes × Bytes
take_line zero incoming = ([], incoming)
take_line (suc limit) [] = ([], [])
take_line (suc limit) (x ∷ incoming) =
    let (line, rest) = take_line limit incoming in
    if x == b'\n' then (x ∷ [], incoming) else (x ∷ line, rest)

unfoldable pub ends_with : ℕ → Bytes → Bool
ends_with c [] = false
ends_with c (x ∷ []) = x == c
ends_with c (x ∷ y ∷ line) = ends_with c (y ∷ line)

abbrev is_newline : ℕ → Bool
is_newline c = c == b'\n' || c == b'\r'

abbrev pub keep_unless_newline : ℕ → Bytes → Bytes
keep_unless_newline x [] = if is_newline x then [] else x ∷ []
keep_unless_newline x (y ∷ line) = x ∷ y ∷ line

-- `while line.ends_with(['\n', '\r']) { line.pop(); }`
unfoldable pub trim_newlines : Bytes → Bytes
trim_newlines [] = []
trim_newlines (x ∷ line) = keep_unless_newline x (trim_newlines line)

abbrev pub invalid_utf8 : Bytes
invalid_utf8 = codes "stream did not contain valid UTF-8"

-- The checks of `read_line` on the bytes that were taken.
unfoldable pub checked_line : Bytes → Result Bytes
checked_line line =
    if not (is_utf8 line)
    then err (GearmanError.io invalid_utf8)
    else if length line == 0
    then err GearmanError.connection_closed
    else if not (ends_with b'\n' line) && leb max_admin_line_len (length line)
    then err (GearmanError.admin_line_too_long max_admin_line_len)
    else ok (trim_newlines line)

unfoldable pub read_line : Bytes → Result Bytes × Bytes
read_line incoming =
    let (line, rest) = take_line max_admin_line_len incoming in (checked_line line, rest)

abbrev pub dot : Bytes
dot = codes "."

-- The loop of `read_dot_terminated`; `none` when the fuel runs out.
unfoldable pub read_lines : ℕ → List Bytes → Bytes → Option (Result (List Bytes) × Bytes)
read_lines zero lines incoming = none
read_lines (suc fuel) lines incoming =
    let (read, rest) = read_line incoming in
    elim read [
      | err problem ↦ some (err problem, rest)
      | ok line ↦ elim (bytes_eq line dot) [
        | true ↦ some (ok lines, rest)
        | false ↦ read_lines fuel (lines ++ line ∷ []) rest
      ]
    ]

unfoldable pub read_dot_terminated : Bytes → Option (Result (List Bytes) × Bytes)
read_dot_terminated incoming = read_lines (suc (length incoming)) [] incoming
