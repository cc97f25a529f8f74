-- ===== src/Base/Fields.antt =====
-- `str::split` and `str::split_once` at a byte, and what they make of joined fields.
use Prim.Native.Nat.{ℕ}
use mathlib.Core.Path.{◌≡◌, refl}
use mathlib.Core.Option.{Option, none, some}
use mathlib.Core.List.{List, [], ◌∷◌, ◌++◌}
use native.Mathlib.Omega.{arith}
use gearman_rs.Base.Tests.{◌==◌, if◌then◌else◌}
use gearman_rs.Base.Text.{Bytes, Lacks}

-- A byte in front of the first field.
abbrev pub extend : ℕ → List Bytes → List Bytes
extend x [] = (x ∷ []) ∷ []
extend x (field ∷ fields) = (x ∷ field) ∷ fields

-- `split`: there is always a field, maybe an empty one.
unfoldable pub split : ℕ → Bytes → List Bytes
split c [] = [] ∷ []
split c (x ∷ s) = let fields = split c s in if x == c then [] ∷ fields else extend x fields

abbrev pub before : ℕ → Option (Bytes × Bytes) → Option (Bytes × Bytes)
before x none = none
before x (some (a, b)) = some (x ∷ a, b)

-- `split_once`.
unfoldable pub split_once : ℕ → Bytes → Option (Bytes × Bytes)
split_once c [] = none
split_once c (x ∷ s) = let rest = split_once c s in if x == c then some ([], s) else before x rest

-- `strip_prefix`.
abbrev pub strip_prefix : ℕ → Bytes → Option Bytes
strip_prefix c [] = none
strip_prefix c (x ∷ s) = if x == c then some s else none

-- `rsplit_once`: at the last `c`.
unfoldable pub rsplit_once : ℕ → Bytes → Option (Bytes × Bytes)
rsplit_once c [] = none
rsplit_once c (x ∷ s) = elim (rsplit_once c s) [
  | some (a, b) ↦ some (x ∷ a, b)
  | none ↦ if x == c then some ([], s) else none
]

pub split-append : (c : ℕ) (a b : Bytes) → Lacks c a → split c (a ++ c ∷ b) ≡ a ∷ split c b
unfolding split
split-append c [] b h = ground arith
split-append c (x ∷ a) b (h, hs) = ground (arith, split-append c a b hs)

pub split-Lacks : (c : ℕ) (a : Bytes) → Lacks c a → split c a ≡ a ∷ []
unfolding split
split-Lacks c [] h = refl
split-Lacks c (x ∷ a) (h, hs) = ground (arith, split-Lacks c a hs)

pub split_once-append : (c : ℕ) (a b : Bytes) → Lacks c a → split_once c (a ++ c ∷ b) ≡ some (a, b)
unfolding split_once
split_once-append c [] b h = ground arith
split_once-append c (x ∷ a) b (h, hs) = ground (arith, split_once-append c a b hs)

pub split_once-Lacks : (c : ℕ) (a : Bytes) → Lacks c a → split_once c a ≡ none
unfolding split_once
split_once-Lacks c [] h = refl
split_once-Lacks c (x ∷ a) (h, hs) = ground (arith, split_once-Lacks c a hs)

pub rsplit_once-Lacks : (c : ℕ) (s : Bytes) → Lacks c s → rsplit_once c s ≡ none
unfolding rsplit_once
rsplit_once-Lacks c [] h = refl
rsplit_once-Lacks c (x ∷ s) (h, hs) = ground (arith, rsplit_once-Lacks c s hs)

pub rsplit_once-append :
    (c : ℕ) (a b : Bytes) → Lacks c b → rsplit_once c (a ++ c ∷ b) ≡ some (a, b)
unfolding rsplit_once
rsplit_once-append c [] b h = ground (arith, rsplit_once-Lacks c b h)
rsplit_once-append c (x ∷ a) b h = rw (rsplit_once-append c a b h) refl
