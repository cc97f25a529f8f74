-- ===== src/Base/Decimal.antt =====
-- Decimal numbers as the standard library reads and prints them: `str::parse` of an unsigned type
-- whose largest value is `max`, and `to_string`.
use Prim.Native.Nat.{ℕ, zero, suc, ◌+◌, ◌-◌, ◌*◌, ◌/◌, ◌%◌, ◌^◌, ◌≤◌, ◌<◌}
use native.Mathlib.Nat.{pow-suc}
use mathlib.Core.Path.{◌≡◌, refl, sym, ap, ◌∙◌}
use mathlib.Core.Logic.{inl, inr}
use mathlib.Core.Bool.{◌||◌}
use mathlib.Core.Option.{Option, none, some}
use mathlib.Core.List.{[], ◌∷◌}
use native.Mathlib.Omega.{arith}
use gearman_rs.Base.Tests.{ltb, ◌==◌, if◌then◌else◌, Bool-cases, ltb→lt, lt→ltb}
use gearman_rs.Base.Text.{Bytes}

abbrev pub max_u16 : ℕ
max_u16 = 65535

abbrev pub max_u32 : ℕ
max_u32 = 4294967295

abbrev pub max_u64 : ℕ
max_u64 = 18446744073709551615

-- The digits of `s` behind the number `n`; `none` at any other byte, and on overflow.
unfoldable pub scan : ℕ → Bytes → ℕ → Option ℕ
scan max [] n = some n
scan max (c ∷ s) n =
    let m = n * 10 + (c - b'0') in
    let rest = scan max s m in
    if ltb c b'0' || ltb b'9' c then none else if ltb max m then none else rest

abbrev pub scan_some : ℕ → Bytes → Option ℕ
scan_some max [] = none
scan_some max (c ∷ s) = scan max (c ∷ s) 0

-- One leading `+` is allowed; no digits are an error.
unfoldable pub parse : ℕ → Bytes → Option ℕ
unfolding scan
parse max [] = none
parse max (c ∷ s) = if c == b'+' then scan_some max s else scan max (c ∷ s) 0

-- The digits of `n` in front of `out`; the fuel is the number of digits that are enough.
unfoldable pub digits : ℕ → ℕ → Bytes → Bytes
digits zero n out = out
digits (suc fuel) n out =
    let more = digits fuel (n / 10) ((b'0' + n % 10) ∷ out) in
    if ltb n 10 then (b'0' + n) ∷ out else more

-- Twenty digits hold every 64-bit number.
unfoldable pub to_string : ℕ → Bytes
unfolding digits
to_string n = digits 20 n []

scan-digit :
    (max n m : ℕ) (out : Bytes)
    → n < 10
    → m * 10 + n ≤ max
    → scan max ((b'0' + n) ∷ out) m ≡ scan max out (m * 10 + n)
unfolding scan
scan-digit max n m out h k = ground arith

scan_last :
    (max n : ℕ) (out : Bytes) → n < 10 → n ≤ max → scan max ((b'0' + n) ∷ out) 0 ≡ scan max out n
scan_last max n out h k =
    let same : 0 * 10 + n ≡ n = omega arith in rw same at (scan-digit max n 0 out h (omega arith))

scan-digits :
    (fuel max n : ℕ) (out : Bytes)
    → n ≤ max
    → n < 10 ^ suc fuel
    → scan max (digits (suc fuel) n out) 0 ≡ scan max out n
unfolding digits
scan-digits zero max n out h k = rw (lt→ltb n 10 k) (scan_last max n out k h)
scan-digits (suc fuel) max n out h k = elim (Bool-cases (ltb n 10)) [
  | inl small ↦ rw small (scan_last max n out (ltb→lt n 10 small) h)
  | inr large ↦
      let whole : n / 10 * 10 + n % 10 ≡ n = omega arith in
      rw large (
        scan-digits fuel max (n / 10) ((b'0' + n % 10) ∷ out) (omega arith)
          (omega (arith, pow-suc 10 (suc fuel)))
        ∙ scan-digit max (n % 10) (n / 10) out (omega arith) (omega arith)
        ∙ ap (scan max out) whole)
]

-- A printed number begins with a digit.
pub digits_head :
    (fuel n : ℕ) (out : Bytes)
    → (c : ℕ) × (s : Bytes) × (digits (suc fuel) n out ≡ c ∷ s) × (b'0' ≤ c)
unfolding digits
digits_head zero n out = elim (Bool-cases (ltb n 10)) [
  | inl small ↦ (b'0' + n, out, rw small refl, omega arith)
  | inr large ↦ (b'0' + n % 10, out, rw large refl, omega arith)
]
digits_head (suc fuel) n out = elim (Bool-cases (ltb n 10)) [
  | inl small ↦ (b'0' + n, out, rw small refl, omega arith)
  | inr large ↦ rw large (digits_head fuel (n / 10) ((b'0' + n % 10) ∷ out))
]

parse_digit : (max c : ℕ) (s : Bytes) → b'0' ≤ c → parse max (c ∷ s) ≡ scan max (c ∷ s) 0
unfolding parse
parse_digit max c s h = ground arith

pub scan_some-to_string :
    (max n : ℕ) → n ≤ max → max < 10 ^ 20 → scan_some max (to_string n) ≡ some n
unfolding to_string
scan_some-to_string max n h k =
    let (c, s, e, digit) = digits_head 19 n [] in
    ap (scan_some max) e
    ∙ ap (λ x. scan max x 0) (sym e)
    ∙ scan-digits 19 max n [] h (omega arith)
    ∙ (unfold scan in refl)

-- A number of the type is read back from its print.
pub parse-to_string : (max n : ℕ) → n ≤ max → max < 10 ^ 20 → parse max (to_string n) ≡ some n
unfolding to_string
parse-to_string max n h k =
    let (c, s, e, digit) = digits_head 19 n [] in
    ap (parse max) e
    ∙ parse_digit max c s digit
    ∙ ap (scan_some max) (sym e)
    ∙ scan_some-to_string max n h k
