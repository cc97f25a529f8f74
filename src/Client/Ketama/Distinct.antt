-- ===== src/Client/Ketama/Distinct.antt =====
-- Lists without repetition, for the servers that a walk has tried.
use gearman_rs.Base.{
  ℕ, suc, ◌≤◌, ◌≡◌, ◌≢◌, refl, true, false, ◌==◌, if◌then◌else◌, List, [], ◌∷◌, ◌++◌, length, All,
  arith,
}
use gearman_rs.Client.Ketama.{contains}

abbrev pub Distinct : List ℕ → Type 0
Distinct [] = Unit
Distinct (x ∷ xs) = (contains x xs ≡ false) × Distinct xs

abbrev pub Within : List ℕ → List ℕ → Type 0
Within ys = All (λ x. contains x ys ≡ true)

contains-snoc :
    (x c : ℕ) (xs : List ℕ) → contains x xs ≡ false → x ≢ c → contains x (xs ++ (c ∷ [])) ≡ false
unfolding contains
contains-snoc x c [] h ne = ground arith
contains-snoc x c (y ∷ xs) h ne = ground (arith, contains-snoc x c xs)

pub Distinct-snoc :
    (c : ℕ) (xs : List ℕ) → Distinct xs → contains c xs ≡ false → Distinct (xs ++ (c ∷ []))
unfolding contains
Distinct-snoc c [] d h = (refl, tt)
Distinct-snoc c (x ∷ xs) (fresh, d) h =
    (contains-snoc x c xs fresh (ground arith), Distinct-snoc c xs d (ground arith))

pub Within-snoc :
    (c : ℕ) (xs ys : List ℕ) → Within ys xs → contains c ys ≡ true → Within ys (xs ++ (c ∷ []))
Within-snoc c [] ys w h = (h, tt)
Within-snoc c (x ∷ xs) ys (i, w) h = (i, Within-snoc c xs ys w h)

unfoldable remove : ℕ → List ℕ → List ℕ
remove x [] = []
remove x (y ∷ ys) = let rest = remove x ys in if x == y then ys else y ∷ rest

length-remove :
    (x : ℕ) (ys : List ℕ) → contains x ys ≡ true → suc (length (remove x ys)) ≡ length ys
unfolding contains remove
length-remove x [] h = cc
length-remove x (y ∷ ys) h = ground (arith, length-remove x ys)

contains-remove :
    (x z : ℕ) (ys : List ℕ) → z ≢ x → contains z ys ≡ true → contains z (remove x ys) ≡ true
unfolding contains remove
contains-remove x z [] ne h = h
contains-remove x z (y ∷ ys) ne h = ground (arith, contains-remove x z ys)

Within-remove :
    (x : ℕ) (xs ys : List ℕ) → contains x xs ≡ false → Within ys xs → Within (remove x ys) xs
unfolding contains
Within-remove x [] ys h w = tt
Within-remove x (z ∷ xs) ys h (i, w) =
    (contains-remove x z ys (ground arith) i, Within-remove x xs ys (ground arith) w)

-- A list without repetition is no longer than one that has all its entries.
pub Distinct-length : (xs ys : List ℕ) → Distinct xs → Within ys xs → length xs ≤ length ys
Distinct-length [] ys d w = omega arith
Distinct-length (x ∷ xs) ys (fresh, d) (i, w) = omega (
  arith,
  length-remove x ys i,
  Distinct-length xs (remove x ys) d (Within-remove x xs ys fresh w),
)
