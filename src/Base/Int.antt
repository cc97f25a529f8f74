-- ===== src/Base/Int.antt =====
-- Integers over the native numbers, printed and read as `i32` is.
use Prim.Native.Nat.{ℕ, zero, suc, ◌≤◌, ◌<◌, ◌^◌}
use mathlib.Core.Path.{◌≡◌, refl, sym, ap, ◌∙◌}
use mathlib.Core.Bool.{false}
use mathlib.Core.Option.{Option, none, some}
use mathlib.Core.List.{[], ◌∷◌}
use native.Mathlib.Omega.{arith}
use gearman_rs.Base.Tests.{◌==◌, if◌then◌else◌}
use gearman_rs.Base.Lists.{All}
use gearman_rs.Base.Text.{Bytes}
use gearman_rs.Base.Numerals.{IsNumeral, to_string-IsNumeral}
use mathlib.Core.Logic.{◌≢◌}
use gearman_rs.Base.Decimal.{
  parse, scan_some, to_string, digits_head, scan_some-to_string, parse-to_string,
}

pub data ℤ : Type 0 where
  pos : ℕ → ℤ
  -- -1 - n
  negsuc : ℕ → ℤ

abbrev pub max_i32 : ℕ
max_i32 = 2147483647

abbrev pub negated : ℕ → ℤ
negated zero = pos 0
negated (suc n) = negsuc n

abbrev nonnegative : Option ℕ → Option ℤ
nonnegative none = none
nonnegative (some n) = some (pos n)

abbrev nonpositive : Option ℕ → Option ℤ
nonpositive none = none
nonpositive (some n) = some (negated n)

-- `parse` of a signed type whose largest value is `max`: one leading sign is allowed.
unfoldable pub parse_int : ℕ → Bytes → Option ℤ
parse_int max [] = none
parse_int max (c ∷ s) =
    if c == b'-' then nonpositive (scan_some (suc max) s) else nonnegative (parse max (c ∷ s))

-- A negative number has a minus sign in front.
unfoldable pub print_int : ℤ → Bytes
print_int (pos n) = to_string n
print_int (negsuc n) = b'-' ∷ to_string (suc n)

-- From `-1 - max` to `max`.
abbrev pub InRange : ℕ → ℤ → Type 0
InRange max (pos n) = n ≤ max
InRange max (negsuc n) = n ≤ max

-- A text that begins with a digit or above has no minus sign.
parse_int-unsigned :
    (max c : ℕ) (s : Bytes) → b'0' ≤ c → parse_int max (c ∷ s) ≡ nonnegative (parse max (c ∷ s))
unfolding parse_int
parse_int-unsigned max c s h = let plain : (c == b'-') ≡ false = ground arith in rw plain refl

parse_int-to_string :
    (max n : ℕ) → n ≤ max → max < 10 ^ 20 → parse_int max (to_string n) ≡ some (pos n)
unfolding to_string
parse_int-to_string max n h k =
    let (c, s, e, digit) = digits_head 19 n [] in
    ap (parse_int max) e
    ∙ parse_int-unsigned max c s digit
    ∙ ap (λ x. nonnegative (parse max x)) (sym e)
    ∙ ap nonnegative (parse-to_string max n h k)

-- An integer of the type is read back from its print.
pub parse_int-print_int :
    (max : ℕ) (z : ℤ) → InRange max z → suc max < 10 ^ 20 → parse_int max (print_int z) ≡ some z
unfolding print_int parse_int
parse_int-print_int max (pos n) h k = parse_int-to_string max n h (omega arith)
parse_int-print_int max (negsuc n) h k =
    ap nonpositive (scan_some-to_string (suc max) (suc n) (omega arith) k)

IsNumeral-printable : (s : Bytes) → IsNumeral s → All (λ b. (33 ≤ b) × (b < 128)) s
IsNumeral-printable [] h = tt
IsNumeral-printable (x ∷ s) ((l, u), h) = ((omega arith, omega arith), IsNumeral-printable s h)

-- The print of an integer: printable ASCII, and at least one byte.
pub print_int-ascii : (z : ℤ) → All (λ b. (33 ≤ b) × (b < 128)) (print_int z)
unfolding print_int
print_int-ascii (pos n) = IsNumeral-printable (to_string n) (to_string-IsNumeral n)
print_int-ascii (negsuc n) = (
  (omega arith, omega arith),
  IsNumeral-printable (to_string (suc n)) (to_string-IsNumeral (suc n)),
)

pub print_int-nonempty : (z : ℤ) → print_int z ≢ []
unfolding print_int to_string
print_int-nonempty (pos n) h = let (c, s, e, digit) = digits_head 19 n [] in cc (e, h)
print_int-nonempty (negsuc n) h = cc
