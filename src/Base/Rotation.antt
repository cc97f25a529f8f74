-- ===== src/Base/Rotation.antt =====
-- `(0..len).map(|offset| (start + offset) % len)` and `find`: the indices of a cycle from `start`.
use Prim.Native.Nat.{ℕ, zero, suc, ◌+◌, ◌-◌, ◌%◌, ◌≤◌, ◌<◌}
use native.Mathlib.Nat.{mod-lt, add-mod-mod, add-mod_right, mod-eq_of_lt, eq-or-lt_of_le}
use mathlib.Core.Path.{◌≡◌, refl, ap, subst, ◌∙◌}
use mathlib.Core.Bool.{Bool, true, false}
use mathlib.Core.Option.{Option, none, some, some-injective}
use mathlib.Core.Logic.{inl, inr}
use mathlib.Core.List.{List, [], ◌∷◌, map}
use native.Mathlib.Omega.{arith}
use gearman_rs.Base.Tests.{if◌then◌else◌, Bool-cases}
use gearman_rs.Base.Lists.{All}

-- `a .. a + n`.
abbrev pub range : ℕ → ℕ → List ℕ
range a zero = []
range a (suc n) = a ∷ range (suc a) n

abbrev pub rotation : ℕ → ℕ → List ℕ
rotation start len = map (λ offset. (start + offset) % len) (range 0 len)

module _ {ℓ} {A : Type ℓ} where
  unfoldable pub find : (A → Bool) → List A → Option A
  find p [] = none
  find p (x ∷ xs) = let rest = find p xs in if p x then some x else rest

  pub find-none : (p : A → Bool) (xs : List A) → find p xs ≡ none → All (λ x. p x ≡ false) xs
  unfolding find
  find-none p [] e = tt
  find-none p (x ∷ xs) e = ground (arith, find-none p xs)

  pub find-All-false : (p : A → Bool) (xs : List A) → All (λ x. p x ≡ false) xs → find p xs ≡ none
  unfolding find
  find-All-false p [] h = refl
  find-All-false p (x ∷ xs) (h, hs) = rw h (find-All-false p xs hs)

  pub find-some : (p : A → Bool) (xs : List A) (x : A) → find p xs ≡ some x → p x ≡ true
  unfolding find
  find-some p [] x e = cc
  find-some p (y ∷ xs) x e = ground (arith, find-some p xs x)

pub find-All {ℓ κ} :
    {A : Type ℓ} (P : A → Type κ) (p : A → Bool) (xs : List A) (x : A)
    → All P xs
    → find p xs ≡ some x
    → P x
unfolding find
find-All P p [] x h e = absurd cc
find-All P p (y ∷ xs) x (h, hs) e = elim (Bool-cases (p y)) [
  | inl found ↦ subst P (some-injective y x (rw found at e)) h
  | inr not_found ↦ find-All P p xs x hs (rw not_found at e)
]

offset_back : (start len i : ℕ) → start < len → start + (i + len - start) ≡ i + len
offset_back start len i s = omega arith

back : (start len i : ℕ) → start < len → i < len → (start + (i + len - start) % len) % len ≡ i
back start len i s b =
    add-mod-mod start (i + len - start) len
    ∙ ap (λ x. x % len) (offset_back start len i s)
    ∙ add-mod_right i len
    ∙ mod-eq_of_lt b

bound : (i len : ℕ) → i < len → 0 < len
bound i len b = omega arith

module _ {κ} (P : ℕ → Type κ) where
  All-range : (f : ℕ → ℕ) (a n : ℕ) → ((o : ℕ) → o < a + n → P (f o)) → All P (map f (range a n))
  All-range f a zero h = tt
  All-range f a (suc n) h = (h a (omega arith), All-range f (suc a) n (λ o b. h o (omega arith)))

  All-range_inv :
      (f : ℕ → ℕ) (a n : ℕ) → All P (map f (range a n)) → (o : ℕ) → a ≤ o → o < a + n → P (f o)
  All-range_inv f a zero h o low high = absurd (omega arith)
  All-range_inv f a (suc n) (h, hs) o low high = elim (eq-or-lt_of_le low) [
    | inl same ↦ subst (λ k. P (f k)) same h
    | inr above ↦ All-range_inv f (suc a) n hs o above (omega arith)
  ]

  -- A cycle stays among the indices, and takes each of them.
  pub rotation-All : (start len : ℕ) → ((i : ℕ) → i < len → P i) → All P (rotation start len)
  rotation-All start len h =
      All-range (λ offset. (start + offset) % len) 0 len
        (λ o b. h _ (mod-lt (start + o) (omega arith)))

  pub rotation-covers :
      (start len : ℕ) → start < len → All P (rotation start len) → (i : ℕ) → i < len → P i
  rotation-covers start len s h i b = subst P (back start len i s b) (
      All-range_inv (λ offset. (start + offset) % len) 0 len h ((i + len - start) % len)
        (omega arith) (omega (arith, mod-lt (i + len - start) (bound i len b))))
