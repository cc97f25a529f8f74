-- ===== src/Client/Tests/Placement.antt =====
-- The theorem on the order of the server list at two servers, in both orders, with a toy digest
-- and a sort by insertion.
use gearman_rs.Base.{
  ℕ, ◌+◌, ◌*◌, ◌%◌, ◌≡◌, refl, true, ltb, if◌then◌else◌, inl, inr, Bool-cases, some, List, [], ◌∷◌,
  Bytes, codes, length, get_elem?, arith,
}
use gearman_rs.Base.Decimal.{to_string}
use gearman_rs.Base.Fields.{rsplit_once}
use gearman_rs.Client.Ketama.{
  Point, new_ring, select, server_points, replica_points, split_host_port, words,
}
use gearman_rs.Client.Ketama.Ascending.{Has, ascending}
use gearman_rs.Client.Ketama.Order.{KeepsPoints, new_ring-same_owner}

abbrev weigh : Bytes → ℕ
weigh [] = 0
weigh (x ∷ s) = (x + 7 * weigh s) % 251

abbrev spread : Bytes → Bytes
spread s =
    weigh s ∷ 0 ∷ 0 ∷ 0 ∷ weigh s ∷ 1 ∷ 0 ∷ 0 ∷ weigh s ∷ 2 ∷ 0 ∷ 0 ∷ weigh s ∷ 3 ∷ 0 ∷ 0 ∷ []

unfoldable insert : Point → List Point → List Point
insert p [] = p ∷ []
insert p (q ∷ ps) = let rest = insert p ps in if ltb q.0 p.0 then q ∷ rest else p ∷ q ∷ ps

unfoldable insertion_sort : List Point → List Point
insertion_sort [] = []
insertion_sort (p ∷ ps) = insert p (insertion_sort ps)

Has-insert : (x p : Point) (ps : List Point) → Has x (p ∷ ps) → Has x (insert p ps)
unfolding Has insert
Has-insert x p [] h = h
Has-insert x p (q ∷ ps) h = elim (Bool-cases (ltb q.0 p.0)) [
  | inr here ↦ rw here h
  | inl later ↦ rw later (elim h [
    | inl e ↦ inr (Has-insert x p ps (inl e))
    | inr (inl e) ↦ inl e
    | inr (inr k) ↦ inr (Has-insert x p ps (inr k))
  ])
]

Has-insert_source : (x p : Point) (ps : List Point) → Has x (insert p ps) → Has x (p ∷ ps)
unfolding Has insert
Has-insert_source x p [] h = h
Has-insert_source x p (q ∷ ps) h = elim (Bool-cases (ltb q.0 p.0)) [
  | inr here ↦ rw here at h
  | inl later ↦ elim (rw later at h) [
    | inl e ↦ inr (inl e)
    | inr k ↦ elim (Has-insert_source x p ps k) [ inl e ↦ inl e | inr m ↦ inr (inr m) ]
  ]
]

insertion_sort-KeepsPoints : KeepsPoints spread insertion_sort
unfolding Has insertion_sort
insertion_sort-KeepsPoints x [] = (λ h. h, λ h. h)
insertion_sort-KeepsPoints x (p ∷ ps) = (
  λ h.
      Has-insert x p (insertion_sort ps)
        (elim h [ inl e ↦ inl e | inr k ↦ inr ((insertion_sort-KeepsPoints x ps).0 k) ]),
  λ h. elim (Has-insert_source x p (insertion_sort ps) h) [
    | inl e ↦ inl e
    | inr k ↦ inr ((insertion_sort-KeepsPoints x ps).1 k)
  ],
)

abbrev forward : List Bytes
forward = codes "a" ∷ codes "b" ∷ []

abbrev reversed : List Bytes
reversed = codes "b" ∷ codes "a" ∷ []

swapped : (x y addr : Bytes) → Has addr (x ∷ y ∷ []) → Has addr (y ∷ x ∷ [])
unfolding Has
swapped x y addr (inl e) = inr (inl e)
swapped x y addr (inr (inl e)) = inl e
swapped x y addr (inr (inr h)) = elim h [ ]

forward_ascends : ascending (new_ring spread insertion_sort forward).points ≡ true
unfolding ascending insertion_sort insert new_ring server_points replica_points split_host_port
    words rsplit_once to_string
forward_ascends = refl

reversed_ascends : ascending (new_ring spread insertion_sort reversed).points ≡ true
unfolding ascending insertion_sort insert new_ring server_points replica_points split_host_port
    words rsplit_once to_string
reversed_ascends = refl

forward-length : length (new_ring spread insertion_sort forward).points ≡ 32
unfolding insertion_sort insert new_ring server_points replica_points split_host_port words
    rsplit_once to_string
forward-length = refl

new_ring-same_owner_example :
    (i : ℕ) × (j : ℕ) × (select spread
        (new_ring spread insertion_sort forward)
        (codes "id")
        (λ s. true)
      ≡ some i)
    × (select spread (new_ring spread insertion_sort reversed) (codes "id") (λ s. true) ≡ some j)
    × (get_elem? forward i ≡ get_elem? reversed j)
new_ring-same_owner_example =
    new_ring-same_owner spread insertion_sort insertion_sort-KeepsPoints forward reversed
      (codes "id") (swapped (codes "a") (codes "b")) (swapped (codes "b") (codes "a"))
      forward_ascends reversed_ascends (omega (arith, forward-length))
