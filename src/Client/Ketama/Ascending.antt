-- ===== src/Client/Ketama/Ascending.antt =====
-- Lists that ascend strictly, such as the points of a ring no two of which are alike.
use gearman_rs.Base.{
  ℕ, ◌<◌, ◌≡◌, ◌⊎◌, refl, sym, ap, subst, ◌∙◌, inl, inr, Bool, true, ◌&&◌, ltb, ltb→lt, List, [],
  ◌∷◌, ◌++◌, map, arith,
}

-- Membership.
unfoldable pub Has : {A : Type 0} → A → List A → Type 0
Has x [] = ⊥
Has x (y ∷ ys) = (y ≡ x) ⊎ Has x ys

-- Strictly ascending hashes: in order, and no two alike.
unfoldable pub ascending : {A : Type 0} → List (ℕ × A) → Bool
ascending [] = true
ascending (p ∷ []) = true
ascending (p ∷ q ∷ points) = ltb p.0 q.0 && ascending (q ∷ points)

module _ {A : Type 0} where
  pub Has-append_left : (x : A) (xs ys : List A) → Has x xs → Has x (xs ++ ys)
  unfolding Has
  Has-append_left x [] ys h = elim h [ ]
  Has-append_left x (y ∷ xs) ys (inl e) = inl e
  Has-append_left x (y ∷ xs) ys (inr h) = inr (Has-append_left x xs ys h)

  pub Has-append_right : (x : A) (xs ys : List A) → Has x ys → Has x (xs ++ ys)
  unfolding Has
  Has-append_right x [] ys h = h
  Has-append_right x (y ∷ xs) ys h = inr (Has-append_right x xs ys h)

  pub Has-append_cases : (x : A) (xs ys : List A) → Has x (xs ++ ys) → Has x xs ⊎ Has x ys
  unfolding Has
  Has-append_cases x [] ys h = inr h
  Has-append_cases x (y ∷ xs) ys (inl e) = inl (inl e)
  Has-append_cases x (y ∷ xs) ys (inr h) = elim (Has-append_cases x xs ys h) [
    | inl l ↦ inl (inr l)
    | inr r ↦ inr r
  ]

  -- In an ascending list, all that follows a point has a greater hash.
  ascending-lt :
      (p x : ℕ × A) (points : List (ℕ × A))
      → ascending (p ∷ points) ≡ true
      → Has x points
      → p.0 < x.0
  unfolding ascending Has
  ascending-lt p x [] h k = elim k [ ]
  ascending-lt p x (q ∷ points) h (inl e) =
      let low : p.0 < q.0 = ltb→lt p.0 q.0 (ground (arith, h)) in subst (λ y. p.0 < y.0) e low
  ascending-lt p x (q ∷ points) h (inr k) =
      let low : p.0 < q.0 = ltb→lt p.0 q.0 (ground (arith, h)) in
      let later : q.0 < x.0 = ascending-lt q x points (ground (arith, h)) k in
      omega (arith, low, later)

  ascending-tail :
      (p : ℕ × A) (points : List (ℕ × A)) → ascending (p ∷ points) ≡ true → ascending points ≡ true
  unfolding ascending
  ascending-tail p [] h = refl
  ascending-tail p (q ∷ points) h = ground (arith, h)

  same_head :
      (p q : ℕ × A) (xs ys : List (ℕ × A))
      → ascending (p ∷ xs) ≡ true
      → ascending (q ∷ ys) ≡ true
      → Has p (q ∷ ys)
      → Has q (p ∷ xs)
      → q ≡ p
  unfolding Has
  same_head p q xs ys up vp (inl e) k = e
  same_head p q xs ys up vp (inr h) (inl e) = sym e
  same_head p q xs ys up vp (inr h) (inr k) =
      absurd (omega (arith, ascending-lt q p ys vp h, ascending-lt p q xs up k))

  not_head :
      (p x : ℕ × A) (xs ys : List (ℕ × A))
      → ascending (p ∷ xs) ≡ true
      → Has x xs
      → Has x (p ∷ ys)
      → Has x ys
  unfolding Has
  not_head p x xs ys up h (inl e) =
      let later : p.0 < x.0 = ascending-lt p x xs up h in
      let same : p.0 ≡ x.0 = ap (λ y. y.0) e in absurd (omega (arith, later, same))
  not_head p x xs ys up h (inr k) = k

  -- Two ascending lists with the same members are the same.
  pub ascending_unique :
      (xs ys : List (ℕ × A))
      → ascending xs ≡ true
      → ascending ys ≡ true
      → ((x : ℕ × A) → Has x xs → Has x ys)
      → ((x : ℕ × A) → Has x ys → Has x xs)
      → xs ≡ ys
  unfolding Has
  ascending_unique [] [] up vp f g = refl
  ascending_unique [] (q ∷ ys) up vp f g = elim (g q (inl refl)) [ ]
  ascending_unique (p ∷ xs) [] up vp f g = elim (f p (inl refl)) [ ]
  ascending_unique (p ∷ xs) (q ∷ ys) up vp f g =
      let e : q ≡ p = same_head p q xs ys up vp (f p (inl refl)) (g q (inl refl)) in
      let vp' : ascending (p ∷ ys) ≡ true = subst (λ r. ascending (r ∷ ys) ≡ true) e vp in
      let rest =
        ascending_unique xs ys (ascending-tail p xs up) (ascending-tail q ys vp)
          (λ x h. not_head p x xs ys up h (subst (λ r. Has x (r ∷ ys)) e (f x (inr h))))
          (λ x h. not_head p x ys xs vp' h (g x (inr h))) in
      ap (◌∷◌ p) rest ∙ ap (λ r. r ∷ ys) (sym e)

module _ {A B : Type 0} (f : A → B) where
  pub Has-map : (x : A) (xs : List A) → Has x xs → Has (f x) (map f xs)
  unfolding Has
  Has-map x [] h = elim h [ ]
  Has-map x (y ∷ xs) (inl e) = inl (ap f e)
  Has-map x (y ∷ xs) (inr h) = inr (Has-map x xs h)

  pub Has-map_source : (y : B) (xs : List A) → Has y (map f xs) → (x : A) × Has x xs × (f x ≡ y)
  unfolding Has
  Has-map_source y [] h = elim h [ ]
  Has-map_source y (x ∷ xs) (inl e) = (x, inl refl, e)
  Has-map_source y (x ∷ xs) (inr h) = let (z, k, e) = Has-map_source y xs h in (z, inr k, e)

  pub map-append : (xs ys : List A) → map f (xs ++ ys) ≡ map f xs ++ map f ys
  map-append [] ys = refl
  map-append (x ∷ xs) ys = ap (◌∷◌ (f x)) (map-append xs ys)
