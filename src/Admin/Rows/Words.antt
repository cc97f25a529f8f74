-- ===== src/Admin/Rows/Words.antt =====
-- Lines of words with a space between each two, as gearmand prints its workers.
use gearman_rs.Base.{
  ℕ, ◌+◌, ◌≤◌, ◌<◌, ◌≡◌, ◌≢◌, refl, ap, ◌∙◌, true, List, [], ◌∷◌, ◌++◌, All, All-append, length,
  Bytes, bytes_eq, codes, Lacks, arith,
}
use gearman_rs.Base.Utf8.{is_utf8, is_utf8-append, is_utf8-ascii}
use gearman_rs.Base.Space.{
  IsWord, word, NoSpace-Lacks, NoSpace-ascii, split_whitespace, split_whitespace-append,
  split_whitespace-IsWord, space1,
}
use gearman_rs.Base.Int.{
  ℤ, max_i32, InRange, parse_int-print_int, print_int, print_int-ascii, print_int-nonempty,
}
use gearman_rs.Error.{ok}
use gearman_rs.Admin.Lines.{max_admin_line_len}
use gearman_rs.Admin.Lines.Reading.{ends_with-Lacks}
use gearman_rs.Admin.Lines.Blocks.{IsRow}
use gearman_rs.Admin.Rows.{WorkerInfo, parse_i32, or_refused, parse_worker_line}
use gearman_rs.Admin.Rows.Cells.{no_dot-append}

-- A word that a line may hold.
pub record IsToken (s : Bytes) : Type 0 where
  pub text : is_utf8 s ≡ true
  pub spaceless : IsWord s

-- A word, and each further one with a space in front.
unfoldable pub spaced : Bytes → List Bytes → Bytes
spaced w [] = w
spaced w (v ∷ ws) = w ++ b' ' ∷ spaced v ws

split_whitespace-spaced :
    (w : Bytes) (ws : List Bytes)
    → IsToken w
    → All IsToken ws
    → split_whitespace (spaced w ws) ≡ w ∷ ws
unfolding spaced
split_whitespace-spaced w [] h hs = split_whitespace-IsWord w h.spaceless
split_whitespace-spaced w (v ∷ ws) h (k, ks) =
    split_whitespace-append w (spaced v ws) h.spaceless
    ∙ ap (◌∷◌ w) (split_whitespace-spaced v ws k ks)

IsWord-Lacks : (c : ℕ) (s : Bytes) → space1 c ≡ true → IsWord s → Lacks c s
IsWord-Lacks c [] h k = tt
IsWord-Lacks c (x ∷ s) h (word k) = NoSpace-Lacks c (x ∷ s) h k

space-ascii : is_utf8 (b' ' ∷ []) ≡ true
space-ascii = is_utf8-ascii (b' ' ∷ []) (omega arith, tt)

spaced_text :
    (w : Bytes) (ws : List Bytes) → IsToken w → All IsToken ws → is_utf8 (spaced w ws) ≡ true
unfolding spaced
spaced_text w [] h hs = h.text
spaced_text w (v ∷ ws) h (k, ks) =
    is_utf8-append w (b' ' ∷ spaced v ws) h.text
    ∙ is_utf8-append (b' ' ∷ []) (spaced v ws) space-ascii
    ∙ spaced_text v ws k ks

spaced-Lacks :
    (c : ℕ) (w : Bytes) (ws : List Bytes)
    → space1 c ≡ true
    → c ≢ b' '
    → IsToken w
    → All IsToken ws
    → Lacks c (spaced w ws)
unfolding spaced
spaced-Lacks c w [] s other h hs = IsWord-Lacks c w s h.spaceless
spaced-Lacks c w (v ∷ ws) s other h (k, ks) =
    All-append (λ b. b ≢ c) w (b' ' ∷ spaced v ws) (IsWord-Lacks c w s h.spaceless)
      (ground arith, spaced-Lacks c v ws s other k ks)

-- Two words or more are a row of a table.
pub spaced-IsRow :
    (w v : Bytes) (ws : List Bytes)
    → IsToken w
    → All IsToken (v ∷ ws)
    → length (spaced w (v ∷ ws)) + 2 ≤ max_admin_line_len
    → IsRow (spaced w (v ∷ ws))
unfolding spaced
spaced-IsRow w v ws h hs short = record {
  line = record {
    text = spaced_text w (v ∷ ws) h hs;
    single = spaced-Lacks b'\n' w (v ∷ ws) refl (ground arith) h hs;
    uncut =
        ends_with-Lacks b'\r' (spaced w (v ∷ ws))
          (spaced-Lacks b'\r' w (v ∷ ws) refl (ground arith) h hs);
    short = short;
  };
  no_dot = no_dot-append w b' ' (spaced v ws) (ground arith);
}

unfoldable pub print_worker : WorkerInfo → Bytes
print_worker row = spaced (print_int row.fd) (row.ip ∷ row.client_id ∷ codes ":" ∷ row.functions)

pub record IsWorker (row : WorkerInfo) : Type 0 where
  pub fd_fits : InRange max_i32 row.fd
  pub ip_token : IsToken row.ip
  pub client_token : IsToken row.client_id
  pub function_tokens : All IsToken row.functions
  pub short : length (print_worker row) + 2 ≤ max_admin_line_len

printable-ascii : (s : Bytes) → All (λ b. (33 ≤ b) × (b < 128)) s → All (λ b. b < 128) s
printable-ascii [] h = tt
printable-ascii (x ∷ s) (h, hs) = (h.1, printable-ascii s hs)

printable-IsToken : (s : Bytes) → s ≢ [] → All (λ b. (33 ≤ b) × (b < 128)) s → IsToken s
printable-IsToken [] h k = absurd (h refl)
printable-IsToken (x ∷ s) h k = record {
  text = is_utf8-ascii (x ∷ s) (printable-ascii (x ∷ s) k);
  spaceless = word (NoSpace-ascii (x ∷ s) k);
}

colon-IsToken : IsToken (codes ":")
colon-IsToken = printable-IsToken (codes ":") (λ h. cc) ((omega arith, omega arith), tt)

print_int-IsToken : (z : ℤ) → IsToken (print_int z)
print_int-IsToken z = printable-IsToken (print_int z) (print_int-nonempty z) (print_int-ascii z)

parse_i32-print_int :
    (z : ℤ) (line : Bytes) → InRange max_i32 z → parse_i32 (print_int z) line ≡ ok z
unfolding parse_i32
parse_i32-print_int z line h = ap (or_refused line) (parse_int-print_int max_i32 z h (omega arith))

bytes_eq-colon : bytes_eq (codes ":") (codes ":") ≡ true
unfolding bytes_eq
bytes_eq-colon = refl

pub parse_worker_line-print_worker :
    (row : WorkerInfo) → IsWorker row → parse_worker_line (print_worker row) ≡ ok row
unfolding parse_worker_line print_worker
parse_worker_line-print_worker row h =
    rw
      (
        split_whitespace-spaced (print_int row.fd)
            (row.ip ∷ row.client_id ∷ codes ":" ∷ row.functions) (print_int-IsToken row.fd)
            (h.ip_token, (h.client_token, (colon-IsToken, h.function_tokens))),
        parse_i32-print_int row.fd (print_worker row) h.fd_fits,
        bytes_eq-colon,
      )
      refl

pub print_worker-IsRow : (row : WorkerInfo) → IsWorker row → IsRow (print_worker row)
unfolding print_worker
print_worker-IsRow row h =
    spaced-IsRow (print_int row.fd) row.ip (row.client_id ∷ codes ":" ∷ row.functions)
      (print_int-IsToken row.fd) (h.ip_token, (h.client_token, (colon-IsToken, h.function_tokens)))
      h.short
