-- ===== src/Client/Connect/Wait.antt =====
-- What `connect` waits for, and that it does not wait past its deadline.
use gearman_rs.Base.{
  ◌≡◌, ◌≢◌, refl, ap, sym, subst, Bool, true, false, Option, none, some, List, [], ◌∷◌, ◌++◌, ◌⊎◌,
  inl, inr, Bool-cases, arith, Bytes,
}
use gearman_rs.Error.{ok}
use gearman_rs.Client.Ketama.{Point, Ring}
use gearman_rs.Client.Pool.{ServerPool, any_healthy, all_attempted}
use gearman_rs.Client.Connect.{
  Look, ClientBuilder, ServerSelection, waits_for_all, pool_at, keep_waiting, at_deadline,
  wait_for_servers, ring_for, connect_to, connect,
}

-- A pool that a client may start with.
abbrev pub IsReady : Bool → ServerPool → Bool → Type 0
IsReady wait_for_all pool late =
    (any_healthy pool ≡ true)
    × ((wait_for_all ≡ false) ⊎ (all_attempted pool ≡ true) ⊎ (late ≡ true))

-- The pool is that of one of the looks, which is ready.
abbrev pub IsReadyLook : Bool → Option Ring → List Look → ServerPool → Type 0
IsReadyLook wait_for_all ring looks pool =
    (before : List Look) × (look : Look) × (after : List Look) × (looks ≡ before ++ look ∷ after)
    × (pool ≡ pool_at ring look)
    × IsReady wait_for_all pool look.late

no_wait :
    (wait_for_all : Bool) (pool : ServerPool) (late : Bool)
    → keep_waiting wait_for_all pool ≡ false
    → IsReady wait_for_all pool late
unfolding keep_waiting
no_wait wait_for_all pool late h = elim (Bool-cases wait_for_all) [
  | inl all ↦ (ground arith, inr (inl (ground arith)))
  | inr any ↦ (ground arith, inl any)
]

wait_for_servers-ok :
    (wait_for_all : Bool) (ring : Option Ring) (looks : List Look) (pool : ServerPool)
    → wait_for_servers wait_for_all ring looks ≡ some (ok pool)
    → IsReadyLook wait_for_all ring looks pool
unfolding wait_for_servers at_deadline
wait_for_servers-ok wait_for_all ring [] pool e = cc
wait_for_servers-ok wait_for_all ring (look ∷ looks) pool e =
    elim (Bool-cases (keep_waiting wait_for_all (pool_at ring look))) [
      | inr ready ↦
          let same : pool_at ring look ≡ pool = cc (rw ready at e) in
          (
            [],
            look,
            looks,
            refl,
            sym same,
            subst (λ q. IsReady wait_for_all q look.late) same
                (no_wait wait_for_all (pool_at ring look) look.late ready),
          )
      | inl waits ↦ elim (Bool-cases look.late) [
        | inl late ↦ elim (Bool-cases (any_healthy (pool_at ring look))) [
          | inl up ↦
              let same : pool_at ring look ≡ pool = cc (rw (waits, late, up) at e) in
              (
                [],
                look,
                looks,
                refl,
                sym same,
                subst (λ q. IsReady wait_for_all q look.late) same (up, inr (inr late)),
              )
          | inr down ↦ absurd (ground arith)
        ]
        | inr early ↦
            let (before, found, after, place, same, ready) =
              wait_for_servers-ok wait_for_all ring looks pool (rw (waits, early) at e) in
            (look ∷ before, found, after, ap (◌∷◌ look) place, same, ready)
      ]
    ]

wait_for_servers-some :
    (wait_for_all : Bool) (ring : Option Ring) (before : List Look) (look : Look)
    (after : List Look)
    → look.late ≡ true
    → wait_for_servers wait_for_all ring (before ++ look ∷ after) ≢ none
unfolding wait_for_servers keep_waiting at_deadline
wait_for_servers-some wait_for_all ring [] look after late = ground arith
wait_for_servers-some wait_for_all ring (l ∷ before) look after late =
    ground (arith, wait_for_servers-some wait_for_all ring before look after late)

module _ (digest : Bytes → Bytes) (sort : List Point → List Point) where
  connect_to-ok :
      (servers : List Bytes) (selection : ServerSelection) (looks : List Look) (pool : ServerPool)
      → connect_to digest sort servers selection looks ≡ some (ok pool)
      → IsReadyLook (waits_for_all selection) (ring_for digest sort selection servers) looks pool
  connect_to-ok [] selection looks pool e = cc
  connect_to-ok (s ∷ servers) selection looks pool e =
      wait_for_servers-ok (waits_for_all selection) (ring_for digest sort selection (s ∷ servers))
        looks pool e

  -- If `connect` gives a client, its pool is that of one of the looks with the ring of the
  -- server selection; some server in it is healthy; and the selection does not wait for all,
  -- or every server in it has been attempted, or the look is past the deadline.
  pub connect-ok :
      (builder : ClientBuilder) (looks : List Look) (pool : ServerPool)
      → connect digest sort builder looks ≡ some (ok pool)
      → IsReadyLook
          (waits_for_all builder.selection)
          (ring_for digest sort builder.selection builder.servers)
          looks
          pool
  unfolding connect
  connect-ok builder looks pool e = connect_to-ok builder.servers builder.selection looks pool e

  connect_to-some :
      (servers : List Bytes) (selection : ServerSelection) (before : List Look) (look : Look)
      (after : List Look)
      → look.late ≡ true
      → connect_to digest sort servers selection (before ++ look ∷ after) ≢ none
  connect_to-some [] selection before look after late = λ e. cc
  connect_to-some (s ∷ servers) selection before look after late =
      wait_for_servers-some (waits_for_all selection) (ring_for digest sort selection (s ∷ servers))
        before look after late

  -- If one of the looks is past the deadline then `connect` returns.
  pub connect-some :
      (builder : ClientBuilder) (before : List Look) (look : Look) (after : List Look)
      → look.late ≡ true
      → connect digest sort builder (before ++ look ∷ after) ≢ none
  unfolding connect
  connect-some builder before look after late =
      connect_to-some builder.servers builder.selection before look after late
