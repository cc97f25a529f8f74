-- ===== src/Admin/Commands/Queue.antt =====
-- The `maxqueue` command of src/admin/mod.rs, as a server reads it.
use gearman_rs.Base.{ℕ, ◌≡◌, ap, ◌∙◌, inl, List, [], ◌∷◌, ◌++◌, map, Bytes, codes, Lacks, arith}
use gearman_rs.Base.Decimal.{to_string}
use gearman_rs.Base.Numerals.{to_string-IsNumeral, IsNumeral-Lacks}
use gearman_rs.Base.Fields.{split, split-append, split-Lacks}
use gearman_rs.Error.{ok}
use gearman_rs.Admin.Lines.{send_line, read_line, from_stream}
use gearman_rs.Admin.Lines.Reading.{crlf, IsLine, read_line-line}
use gearman_rs.Admin.Commands.{
  read_ack, MaxQueueSize, default, uniform, per_priority, max_queue_command, set_max_queue,
}

-- The numbers of a `maxqueue` command.
abbrev pub sizes : MaxQueueSize → List ℕ
sizes default = []
sizes (uniform n) = n ∷ []
sizes (per_priority high normal low) = high ∷ normal ∷ low ∷ []

numeral-unspaced : (n : ℕ) → Lacks b' ' (to_string n)
numeral-unspaced n = IsNumeral-Lacks b' ' (to_string n) (inl (omega arith)) (to_string-IsNumeral n)

split-number :
    (a : Bytes) (n : ℕ) → Lacks b' ' a → split b' ' (a ++ b' ' ∷ to_string n) ≡ a ∷ to_string n ∷ []
split-number a n h =
    split-append b' ' a (to_string n) h
    ∙ ap (◌∷◌ a) (split-Lacks b' ' (to_string n) (numeral-unspaced n))

split-sizes :
    (function : Bytes) (size : MaxQueueSize)
    → Lacks b' ' function
    → split b' ' (max_queue_command function size)
      ≡ codes "maxqueue" ∷ function ∷ map to_string (sizes size)
split-sizes function default h =
    split-append b' ' (codes "maxqueue") function (ground arith)
    ∙ ap (◌∷◌ (codes "maxqueue")) (split-Lacks b' ' function h)
split-sizes function (uniform n) h =
    split-append b' ' (codes "maxqueue") (function ++ b' ' ∷ to_string n) (ground arith)
    ∙ ap (◌∷◌ (codes "maxqueue")) (split-number function n h)
split-sizes function (per_priority high normal low) h =
    split-append b' ' (codes "maxqueue")
      (function ++ (b' ' ∷ to_string high ++ (b' ' ∷ to_string normal ++ (b' ' ∷ to_string low))))
      (ground arith)
    ∙ ap (◌∷◌ (codes "maxqueue")) (
        split-append b' ' function
          (to_string high ++ (b' ' ∷ to_string normal ++ (b' ' ∷ to_string low))) h
        ∙ ap (◌∷◌ function) (
            split-append b' ' (to_string high) (to_string normal ++ b' ' ∷ to_string low)
              (numeral-unspaced high)
            ∙ ap (◌∷◌ (to_string high))
                (split-number (to_string normal) low (numeral-unspaced normal))))

-- For a function's name without a space, and a command that fits a line, what `set_max_queue`
-- sends is read as one line with nothing behind it, and the line's words are `maxqueue`, the
-- name, and the limits in decimal (none, one, or high, normal and low).
pub set_max_queue-sent :
    (function : Bytes) (size : MaxQueueSize) (incoming : Bytes)
    → Lacks b' ' function
    → IsLine (max_queue_command function size)
    → (read_line (set_max_queue function size (from_stream incoming)).1.sent
        ≡ (ok (max_queue_command function size), []))
      × (split b' ' (max_queue_command function size)
          ≡ codes "maxqueue" ∷ function ∷ map to_string (sizes size))
unfolding set_max_queue read_ack send_line
set_max_queue-sent function size incoming h line =
    (read_line-line (max_queue_command function size) crlf [] line, split-sizes function size h)
