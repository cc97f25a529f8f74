-- ===== src/Client/Connect.antt =====
-- src/client/mod.rs: `ServerSelection`, `ClientBuilder` and its `connect`. A `Look` is what one
-- turn of the waiting loop sees: the slots, which the actors change meanwhile, and whether the
-- deadline has passed. The transport is not modelled.
pub mod Wait
use gearman_rs.Base.{
  ℕ, Bool, true, false, not, ◌&&◌, ◌||◌, if◌then◌else◌, Option, none, some, List, [], ◌∷◌, Bytes,
}
use gearman_rs.Error.{Result, ok, err, GearmanError}
use gearman_rs.Client.Ketama.{Point, Ring, new_ring}
use gearman_rs.Client.Pool.{ServerSlot, ServerPool, new_pool, any_healthy, all_attempted}

pub data ServerSelection : Type 0 where
  round_robin by_unique_id : ServerSelection

pub record ClientBuilder : Type 0 where
  pub servers : List Bytes
  pub with_exceptions : Bool
  pub selection : ServerSelection

abbrev pub new_builder : ClientBuilder
new_builder = record { servers = []; with_exceptions = false; selection = round_robin }

abbrev pub set_servers : List Bytes → ClientBuilder → ClientBuilder
set_servers servers builder = record builder { servers = servers }

abbrev pub set_exceptions : Bool → ClientBuilder → ClientBuilder
set_exceptions enabled builder = record builder { with_exceptions = enabled }

abbrev pub set_selection : ServerSelection → ClientBuilder → ClientBuilder
set_selection selection builder = record builder { selection = selection }

pub record Look : Type 0 where
  pub slots : List ServerSlot
  pub late : Bool

abbrev pub waits_for_all : ServerSelection → Bool
waits_for_all round_robin = false
waits_for_all by_unique_id = true

-- The pool that a look is at.
abbrev pub pool_at : Option Ring → Look → ServerPool
pool_at ring look = new_pool look.slots ring

-- The condition of the `while`.
unfoldable pub keep_waiting : Bool → ServerPool → Bool
keep_waiting wait_for_all pool =
    not (any_healthy pool) || (wait_for_all && not (all_attempted pool))

-- The body of the `while`, where it returns: `none` if it sleeps and looks again.
unfoldable pub at_deadline : Look → ServerPool → Option (Result ServerPool)
at_deadline look pool =
    if look.late
    then some (if any_healthy pool then ok pool else err GearmanError.no_servers_available)
    else none

-- The loop of `connect`: `none` while it waits.
unfoldable pub wait_for_servers : Bool → Option Ring → List Look → Option (Result ServerPool)
wait_for_servers wait_for_all ring [] = none
wait_for_servers wait_for_all ring (look ∷ looks) =
    let pool = pool_at ring look in
    let later = wait_for_servers wait_for_all ring looks in
    if keep_waiting wait_for_all pool
    then elim (at_deadline look pool) [ some r ↦ some r | none ↦ later ]
    else some (ok pool)

module _ (digest : Bytes → Bytes) (sort : List Point → List Point) where
  abbrev pub ring_for : ServerSelection → List Bytes → Option Ring
  ring_for round_robin servers = none
  ring_for by_unique_id servers = some (new_ring digest sort servers)

  abbrev pub connect_to : List Bytes → ServerSelection → List Look → Option (Result ServerPool)
  connect_to [] selection looks = some (err GearmanError.no_servers_available)
  connect_to (s ∷ servers) selection looks =
      wait_for_servers (waits_for_all selection) (ring_for selection (s ∷ servers)) looks

  -- `ClientBuilder::connect`; a client is its pool.
  unfoldable pub connect : ClientBuilder → List Look → Option (Result ServerPool)
  connect builder looks = connect_to builder.servers builder.selection looks
