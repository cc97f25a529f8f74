-- ===== src/Client/Server.antt =====
-- src/client/mod.rs: `run_server_actor` and `negotiate_exceptions`. An `Attempt` is what the
-- network gives one turn of the loop. A delay is in milliseconds.
pub mod Backoff
use gearman_rs.Base.{
  if◌then◌else◌, ℕ, ◌*◌, min, Bool, true, false, Option, none, some, List, [], ◌∷◌,
}
use gearman_rs.Error.{Result, ok, err, GearmanError}
use gearman_rs.Protocol.PacketType.{PacketType, option_res, error}
use gearman_rs.Protocol.Packet.{Packet}
use gearman_rs.Client.Incoming.{Effect, Actor}
use gearman_rs.Client.Actor.{
  Input, ActorOutcome, connection_lost, client_dropped, Loop, running, ended, actor_loop, new_actor,
}

abbrev pub first_backoff : ℕ
first_backoff = 100

abbrev pub max_backoff : ℕ
max_backoff = 30000

-- What the handshake meets: the outcomes of `conn.send` and of `conn.recv`.
pub record Handshake : Type 0 where
  pub sent : Result (Unit {0})
  pub reply : Result (Option Packet)

pub data Attempt : Type 0 where
  -- `net::connect` fails
  refused : GearmanError → Attempt
  -- a connection, and the inputs of its `actor_loop`
  accepted : Handshake → List Input → Attempt

abbrev pub is_option_res : PacketType → Bool
is_option_res option_res = true
is_option_res _ = false

-- The `match` on the reply: an error packet and any other packet both answer no.
abbrev pub on_option_reply : Result (Option Packet) → Result Bool
on_option_reply (ok (some packet)) = ok (is_option_res packet.ptype)
on_option_reply (ok none) = err GearmanError.connection_closed
on_option_reply (err e) = err e

abbrev pub negotiate_exceptions : Handshake → Result Bool
negotiate_exceptions h = elim h.sent [ ok _ ↦ on_option_reply h.reply | err e ↦ err e ]

abbrev pub is_ok : Result Bool → Bool
is_ok (ok _) = true
is_ok (err e) = false

-- `ready`.
abbrev pub is_ready : Bool → Handshake → Bool
is_ready true h = is_ok (negotiate_exceptions h)
is_ready false h = true

pub record Server : Type 0 where
  pub backoff : ℕ
  pub connected : Bool
  pub attempted : Bool

abbrev pub new_server : Server
new_server = record { backoff = first_backoff; connected = false; attempted = false }

-- What one turn of the loop comes to: the actor still runs, or has returned, or the turn sleeps.
pub data After : Type 0 where
  in_session : Actor → After
  returned : After
  sleeps : ℕ → After

-- `sleep(backoff)` and `backoff = (backoff * 2).min(MAX_BACKOFF)`.
abbrev pub sleep : Server → Server × After
sleep server = (
  record server { backoff = min (server.backoff * 2) max_backoff; attempted = true },
  sleeps server.backoff,
)

-- Up to the call of `actor_loop`.
abbrev pub in_loop : Server
in_loop = record { backoff = first_backoff; connected = true; attempted = true }

abbrev pub after_loop : Loop → Server × After
after_loop (running actor) = (in_loop, in_session actor)
after_loop (ended client_dropped rest) = (record in_loop { connected = false }, returned)
after_loop (ended connection_lost rest) = sleep (record in_loop { connected = false })

-- One turn of the loop in `run_server_actor`, with the effects of its session.
unfoldable pub try_server : Bool → Attempt → Server → (Server × After) × List Effect
try_server with_exceptions (refused e) server = (sleep server, [])
try_server with_exceptions (accepted h inputs) server =
    let (l, effects) = actor_loop inputs new_actor in
    if is_ready with_exceptions h then (after_loop l, effects) else (sleep server, [])

-- A turn's delay goes before those of the turns after it, if it sleeps.
abbrev pub after_turn : Server × After → Server × List ℕ → Server × List ℕ
after_turn (server, sleeps d) (last, delays) = (last, d ∷ delays)
after_turn (server, in_session actor) more = (server, [])
after_turn (server, returned) more = (server, [])

-- The server and the delays, after turns that sleep; the last turn may be one that does not.
unfoldable pub run_server_actor : Bool → List Attempt → Server → Server × List ℕ
run_server_actor with_exceptions [] server = (server, [])
run_server_actor with_exceptions (a ∷ rest) server =
    let turn = (try_server with_exceptions a server).0 in
    after_turn turn (run_server_actor with_exceptions rest turn.0)
