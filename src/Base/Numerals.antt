-- ===== src/Base/Numerals.antt =====
-- What the print of a number looks like: digits, and how many.
use Prim.Native.Nat.{ℕ, zero, suc, ◌+◌, ◌/◌, ◌%◌, ◌≤◌, ◌<◌}
use mathlib.Core.Logic.{◌⊎◌, inl, inr}
use mathlib.Core.List.{[], ◌∷◌}
use native.Mathlib.Omega.{arith}
use gearman_rs.Base.Tests.{ltb, Bool-cases, ltb→lt}
use gearman_rs.Base.Lists.{All, length}
use gearman_rs.Base.Text.{Bytes, Lacks}
use gearman_rs.Base.Decimal.{digits, to_string}

-- Every byte is a digit.
abbrev pub IsNumeral : Bytes → Type 0
IsNumeral = All (λ b. (b'0' ≤ b) × (b ≤ b'9'))

digits-IsNumeral : (fuel n : ℕ) (out : Bytes) → IsNumeral out → IsNumeral (digits fuel n out)
unfolding digits
digits-IsNumeral zero n out h = h
digits-IsNumeral (suc fuel) n out h = elim (Bool-cases (ltb n 10)) [
  | inl small ↦ let low : n < 10 = ltb→lt n 10 small in rw small ((omega arith, omega arith), h)
  | inr large ↦
      rw large
        (digits-IsNumeral fuel (n / 10) ((b'0' + n % 10) ∷ out) ((omega arith, omega arith), h))
]

pub to_string-IsNumeral : (n : ℕ) → IsNumeral (to_string n)
unfolding to_string
to_string-IsNumeral n = digits-IsNumeral 20 n [] tt

length-digits : (fuel n : ℕ) (out : Bytes) → length (digits fuel n out) ≤ fuel + length out
unfolding digits
length-digits zero n out = omega arith
length-digits (suc fuel) n out = elim (Bool-cases (ltb n 10)) [
  | inl small ↦ rw small (omega arith)
  | inr large ↦ rw large (omega (arith, length-digits fuel (n / 10) ((b'0' + n % 10) ∷ out)))
]

pub length-to_string : (n : ℕ) → length (to_string n) ≤ 20
unfolding to_string
length-to_string n = omega (arith, length-digits 20 n [])

-- A numeral lacks every byte that is no digit.
pub IsNumeral-Lacks : (b : ℕ) (s : Bytes) → (b < b'0') ⊎ (b'9' < b) → IsNumeral s → Lacks b s
IsNumeral-Lacks b [] low h = tt
IsNumeral-Lacks b (x ∷ s) low ((l, u), h) = (ground arith, IsNumeral-Lacks b s low h)

pub IsNumeral-ascii : (s : Bytes) → IsNumeral s → All (λ b. b < 128) s
IsNumeral-ascii [] h = tt
IsNumeral-ascii (x ∷ s) ((l, u), h) = (omega arith, IsNumeral-ascii s h)
