-- ===== src/Client/Tests/Connecting.antt =====
-- The theorems on `connect` at concrete looks: a server that comes up at the second one.
use gearman_rs.Base.{◌≡◌, refl, true, false, Bytes, codes, List, [], ◌∷◌, some, replicate}
use gearman_rs.Base.Rotation.{find}
use gearman_rs.Error.{ok}
use gearman_rs.Client.Ketama.{Point}
use gearman_rs.Client.Pool.{ServerSlot, ServerPool, any_healthy, attempted_all, connected_at}
use gearman_rs.Client.Connect.{
  ClientBuilder, new_builder, set_servers, set_selection, by_unique_id, Look, pool_at, ring_for,
  keep_waiting, at_deadline, wait_for_servers, connect,
}
use gearman_rs.Client.Connect.Wait.{IsReadyLook, connect-ok}

abbrev digest : Bytes → Bytes
digest s = replicate 16 0

abbrev unsorted : List Point → List Point
unsorted ps = ps

abbrev builder : ClientBuilder
builder = set_selection by_unique_id (set_servers (codes "a:1" ∷ []) new_builder)

abbrev unconnected : ServerSlot
unconnected = record { queue = []; receiver_alive = true; connected = false; attempted = false }

abbrev at_first : Look
at_first = record { slots = unconnected ∷ []; late = false }

abbrev at_last : Look
at_last = record {
  slots = (record unconnected { connected = true; attempted = true }) ∷ [];
  late = true;
}

abbrev pool : ServerPool
pool = pool_at (ring_for digest unsorted by_unique_id (codes "a:1" ∷ [])) at_last

connected_pool : connect digest unsorted builder (at_first ∷ at_last ∷ []) ≡ some (ok pool)
unfolding connect wait_for_servers keep_waiting at_deadline any_healthy attempted_all connected_at
    find
connected_pool = refl

connect-ok_example :
    IsReadyLook true
      (ring_for digest unsorted by_unique_id (codes "a:1" ∷ []))
      (at_first ∷ at_last ∷ [])
      pool
connect-ok_example =
    connect-ok digest unsorted builder (at_first ∷ at_last ∷ []) pool connected_pool
