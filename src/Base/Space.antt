-- ===== src/Base/Space.antt =====
-- White space as `char::is_whitespace` has it, on UTF-8 text, with `split_whitespace` and
-- `trim_start`.
use Prim.Native.Nat.{ℕ, zero, suc, ◌-◌, ◌≤◌, ◌<◌}
use gearman_rs.Base.Lists.{All}
use mathlib.Core.Path.{◌≡◌, refl, ap}
use mathlib.Core.Bool.{Bool, true, ◌&&◌, ◌||◌}
use mathlib.Core.List.{List, [], ◌∷◌, ◌++◌}
use native.Mathlib.Omega.{arith}
use gearman_rs.Base.Tests.{leb, ◌==◌, if◌then◌else◌}
use gearman_rs.Base.Text.{Bytes, Lacks}
use gearman_rs.Base.Fields.{extend}

abbrev pub space1 : ℕ → Bool
space1 a = a == 32 || leb 9 a && leb a 13

-- U+0085 and U+00A0.
abbrev pub space2 : ℕ → ℕ → Bool
space2 a b = a == 0xc2 && (b == 0x85 || b == 0xa0)

-- U+1680, U+2000 to U+200A, U+2028, U+2029, U+202F, U+205F and U+3000.
abbrev pub space3 : ℕ → ℕ → ℕ → Bool
space3 a b c =
    a == 0xe1 && (b == 0x9a && c == 0x80)
    || a == 0xe2
      && (b == 0x80 && (leb 0x80 c && leb c 0x8a || c == 0xa8 || c == 0xa9 || c == 0xaf)
          || b == 0x81 && c == 0x9f)
    || a == 0xe3 && (b == 0x80 && c == 0x80)

abbrev wide_space : ℕ → Bytes → ℕ
wide_space a [] = 0
wide_space a (b ∷ []) = if space2 a b then 2 else 0
wide_space a (b ∷ c ∷ s) = if space2 a b then 2 else if space3 a b c then 3 else 0

-- The bytes of the white space that the text begins with; 0 if it begins with none.
unfoldable pub space_width : Bytes → ℕ
space_width [] = 0
space_width (a ∷ s) = if space1 a then 1 else wide_space a s

-- `split(char::is_whitespace)`; `skip` bytes are left of the white space that was met.
unfoldable pub split_spaces : ℕ → Bytes → List Bytes
split_spaces skip [] = [] ∷ []
split_spaces (suc skip) (x ∷ s) = split_spaces skip s
split_spaces zero (x ∷ s) =
    let width = space_width (x ∷ s) in
    let fields = split_spaces (width - 1) s in if width == 0 then extend x fields else [] ∷ fields

-- `filter(|s| !s.is_empty())`.
unfoldable pub nonempty : List Bytes → List Bytes
nonempty [] = []
nonempty ([] ∷ fields) = nonempty fields
nonempty ((x ∷ s) ∷ fields) = (x ∷ s) ∷ nonempty fields

unfoldable pub split_whitespace : Bytes → List Bytes
split_whitespace s = nonempty (split_spaces 0 s)

abbrev trim_spaces : ℕ → Bytes → Bytes
trim_spaces skip [] = []
trim_spaces (suc skip) (x ∷ s) = trim_spaces skip s
trim_spaces zero (x ∷ s) =
    let width = space_width (x ∷ s) in
    let rest = trim_spaces (width - 1) s in if width == 0 then x ∷ s else rest

unfoldable pub trim_start : Bytes → Bytes
trim_start s = trim_spaces 0 s

-- No white space begins anywhere in the text.
abbrev pub NoSpace : Bytes → Type 0
NoSpace [] = Unit
NoSpace (x ∷ s) = (space_width (x ∷ s) ≡ 0) × NoSpace s

-- What `split_whitespace` gives: a text that is not empty, without white space.
pub data IsWord : Bytes → Type 0 where
  word : {x : ℕ} {s : Bytes} → NoSpace (x ∷ s) → IsWord (x ∷ s)

-- A space behind a text makes no white space with the text's end.
space_width-append :
    (x : ℕ) (a b : Bytes) → space_width (x ∷ a) ≡ 0 → space_width (x ∷ a ++ 32 ∷ b) ≡ 0
unfolding space_width
space_width-append x [] [] h = ground arith
space_width-append x [] (y ∷ b) h = ground arith
space_width-append x (y ∷ []) b h = ground arith
space_width-append x (y ∷ z ∷ a) b h = h

split_spaces-append :
    (a b : Bytes) → NoSpace a → split_spaces 0 (a ++ 32 ∷ b) ≡ a ∷ split_spaces 0 b
unfolding split_spaces
split_spaces-append [] b h = unfold space_width in refl
split_spaces-append (x ∷ a) b (h, hs) =
    rw (space_width-append x a b h, split_spaces-append a b hs) refl

split_spaces-NoSpace : (a : Bytes) → NoSpace a → split_spaces 0 a ≡ a ∷ []
unfolding split_spaces
split_spaces-NoSpace [] h = refl
split_spaces-NoSpace (x ∷ a) (h, hs) = rw (h, split_spaces-NoSpace a hs) refl

pub split_whitespace-append :
    (a b : Bytes) → IsWord a → split_whitespace (a ++ 32 ∷ b) ≡ a ∷ split_whitespace b
unfolding split_whitespace nonempty
split_whitespace-append [] b h = elim h [ ]
split_whitespace-append (x ∷ a) b (word h) = ap nonempty (split_spaces-append (x ∷ a) b h)

pub split_whitespace-IsWord : (a : Bytes) → IsWord a → split_whitespace a ≡ a ∷ []
unfolding split_whitespace nonempty
split_whitespace-IsWord [] h = elim h [ ]
split_whitespace-IsWord (x ∷ a) (word h) = ap nonempty (split_spaces-NoSpace (x ∷ a) h)

-- A text without white space lacks each ASCII space.
pub NoSpace-Lacks : (c : ℕ) (s : Bytes) → space1 c ≡ true → NoSpace s → Lacks c s
unfolding space_width
NoSpace-Lacks c [] h k = tt
NoSpace-Lacks c (x ∷ s) h (k, ks) = (ground arith, NoSpace-Lacks c s h ks)

-- Printable ASCII has no white space.
pub NoSpace-ascii : (s : Bytes) → All (λ b. (33 ≤ b) × (b < 128)) s → NoSpace s
unfolding space_width
NoSpace-ascii [] h = tt
NoSpace-ascii (x ∷ []) ((l, u), h) = (ground arith, tt)
NoSpace-ascii (x ∷ y ∷ []) ((l, u), h) = (ground arith, NoSpace-ascii (y ∷ []) h)
NoSpace-ascii (x ∷ y ∷ z ∷ s) ((l, u), h) = (ground arith, NoSpace-ascii (y ∷ z ∷ s) h)

-- A text that begins with no white space.
abbrev pub IsTrimmed : Bytes → Type 0
IsTrimmed [] = Unit
IsTrimmed (x ∷ s) = space_width (x ∷ s) ≡ 0

pub trim_start-IsTrimmed : (s : Bytes) → IsTrimmed s → trim_start s ≡ s
unfolding trim_start
trim_start-IsTrimmed [] h = refl
trim_start-IsTrimmed (x ∷ s) h = rw h refl

pub trim_start_space : (s : Bytes) → IsTrimmed s → trim_start (32 ∷ s) ≡ s
unfolding trim_start space_width
trim_start_space [] h = refl
trim_start_space (x ∷ s) h = rw h refl
