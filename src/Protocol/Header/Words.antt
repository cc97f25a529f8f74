-- ===== src/Protocol/Header/Words.antt =====
-- Big-endian 32-bit words, and their round trips.
use gearman_rs.Base.{ℕ, ◌+◌, ◌*◌, ◌/◌, ◌%◌, ◌<◌, ◌^◌, ◌≡◌, Bytes, [], ◌∷◌, arith}

-- `u32::to_be_bytes`.
abbrev pub to_be_bytes : ℕ → Bytes
to_be_bytes n = (n / 16777216 % 256) ∷ (n / 65536 % 256) ∷ (n / 256 % 256) ∷ (n % 256) ∷ []

-- The number whose bytes, the most significant first, stand behind those of `n`.
abbrev pub from_be_onto : ℕ → Bytes → ℕ
from_be_onto n [] = n
from_be_onto n (b ∷ bs) = from_be_onto (n * 256 + b) bs

-- `u32::from_be_bytes`, on four bytes.
abbrev pub from_be_bytes : Bytes → ℕ
from_be_bytes = from_be_onto 0

pub from_be-to_be : (n : ℕ) → n < 2 ^ 32 → from_be_bytes (to_be_bytes n) ≡ n
from_be-to_be n h = omega arith

pub to_be-from_be :
    (a b c d : ℕ)
    → a < 256
    → b < 256
    → c < 256
    → d < 256
    → to_be_bytes (from_be_bytes (a ∷ b ∷ c ∷ d ∷ [])) ≡ a ∷ b ∷ c ∷ d ∷ []
to_be-from_be a b c d ha hb hc hd = ground arith
