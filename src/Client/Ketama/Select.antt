-- ===== src/Client/Ketama/Select.antt =====
-- What `select` picks: the owner of the hash, its fail-over, or else any healthy server.
use gearman_rs.Base.{
  ℕ, zero, suc, ◌<◌, ◌≡◌, ◌≢◌, refl, ap, sym, ◌∙◌, Bool, true, false, Option, none, some, List, [],
  ◌∷◌, length, arith, inl, inr, Bytes,
}
use native.Mathlib.Nat.{eq-zero-or-pos}
use mathlib.Core.Option.{some-injective}
use gearman_rs.Client.Ketama.{
  Point, Ring, contains, server_at, next_after, Walk, found, gave_up, out_of_fuel, walk,
  first_healthy, start_of, select, or_else_first,
}
use gearman_rs.Client.Ketama.Chain.{
  Owns, next_after-Owns, walk_found, first_healthy-some, first_healthy-none, start_of-lt,
  server_at-Owns,
}

-- The server that owns the hash of a unique id.
abbrev pub primary : (Bytes → Bytes) → Ring → Bytes → ℕ
primary digest ring unique = server_at ring (start_of digest ring unique)

no_owner :
    (points : List Point) (server : ℕ)
    → length points ≡ 0
    → ¬ Owns (record { points = points }) server
unfolding contains
no_owner [] server e o = cc
no_owner (p ∷ points) server e o = absurd (omega arith)

module _ (digest : Bytes → Bytes) (ring : Ring) (unique : Bytes) (is_healthy : ℕ → Bool) where
  abbrev picked : Walk → Option ℕ
  picked w = or_else_first w (first_healthy ring is_healthy (start_of digest ring unique))

  unfold_select :
      0 < length ring.points
      → select digest ring unique is_healthy
        ≡ picked (walk ring is_healthy (suc (length ring.points)) (primary digest ring unique) [])
  unfolding select
  unfold_select h = ground arith

  empty_none :
      length ring.points ≡ 0 → (server : ℕ) → select digest ring unique is_healthy ≢ some server
  unfolding select
  empty_none h server = ground arith

  -- On a ring with a point, if the owner of a unique id is healthy then `select` picks it.
  pub select-primary :
      0 < length ring.points
      → is_healthy (primary digest ring unique) ≡ true
      → select digest ring unique is_healthy ≡ some (primary digest ring unique)
  unfolding walk contains
  select-primary h up = rw (unfold_select h, up) refl

  second_walk :
      (fuel next failed : ℕ)
      → 0 < fuel
      → next ≢ failed
      → is_healthy next ≡ true
      → walk ring is_healthy fuel next (failed ∷ []) ≡ found next
  unfolding walk contains
  second_walk zero next failed h ne up = absurd (omega arith)
  second_walk (suc fuel) next failed h ne up = ground arith

  -- On a ring with a point, if the owner of a unique id is down and the server that
  -- `next_after` gives for it is healthy, then `select` picks that server, and it is not the
  -- owner.
  pub select-failover :
      (next : ℕ)
      → 0 < length ring.points
      → is_healthy (primary digest ring unique) ≡ false
      → next_after ring (primary digest ring unique) ≡ some next
      → is_healthy next ≡ true
      → (select digest ring unique is_healthy ≡ some next) × (next ≢ primary digest ring unique)
  unfolding walk contains
  select-failover next h down e up = (
    rw
        (
          unfold_select h,
          down,
          e,
          second_walk (length ring.points) next (primary digest ring unique) h
              (next_after-Owns ring h _ next e).1 up,
        )
        refl,
    (next_after-Owns ring h _ next e).1,
  )

  primary-Owns : 0 < length ring.points → Owns ring (primary digest ring unique)
  primary-Owns h = server_at-Owns ring.points _ (start_of-lt ring h digest unique)

  picked_sound :
      (w : Walk) (server : ℕ)
      → 0 < length ring.points
      → walk ring is_healthy (suc (length ring.points)) (primary digest ring unique) [] ≡ w
      → picked w ≡ some server
      → (is_healthy server ≡ true) × Owns ring server
  picked_sound (found s) server h e p =
      walk_found ring h is_healthy _ (primary digest ring unique) [] server (primary-Owns h)
        (e ∙ ap found (some-injective s server p))
  picked_sound gave_up server h e p = first_healthy-some ring h is_healthy _ server p
  picked_sound out_of_fuel server h e p = first_healthy-some ring h is_healthy _ server p

  -- A server that `select` picks is healthy and has a point on the ring.
  pub select-healthy :
      (server : ℕ)
      → select digest ring unique is_healthy ≡ some server
      → (is_healthy server ≡ true) × Owns ring server
  select-healthy server e = elim (eq-zero-or-pos (length ring.points)) [
    | inl empty ↦ absurd (empty_none empty server e)
    | inr h ↦ picked_sound _ server h refl (sym (unfold_select h) ∙ e)
  ]

  picked-none :
      (w : Walk)
      → picked w ≡ none
      → first_healthy ring is_healthy (start_of digest ring unique) ≡ none
  picked-none (found s) e = cc
  picked-none gave_up e = e
  picked-none out_of_fuel e = e

  -- If `select` picks no server then no server that has a point on the ring is healthy.
  pub select-none :
      select digest ring unique is_healthy ≡ none
      → (server : ℕ) → Owns ring server
      → is_healthy server ≡ false
  select-none e server o = elim (eq-zero-or-pos (length ring.points)) [
    | inl empty ↦ absurd (no_owner ring.points server empty o)
    | inr h ↦
        first_healthy-none ring h is_healthy _ (start_of-lt ring h digest unique)
          (picked-none _ (sym (unfold_select h) ∙ e)) server o
  ]
