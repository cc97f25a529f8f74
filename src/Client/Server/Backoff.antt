-- ===== src/Client/Server/Backoff.antt =====
-- The delays between the attempts to reach a server.
use gearman_rs.Base.{
  ℕ, suc, ◌*◌, ◌^◌, ◌≤◌, min, ◌≡◌, refl, ap, ◌∙◌, Bool, true, false, arith, List, [], ◌∷◌,
  Bool-cases, inl, inr, All,
}
use gearman_rs.Client.Actor.{
  Loop, running, ended, connection_lost, client_dropped, actor_loop, new_actor,
}
use gearman_rs.Client.Server.{
  Server, new_server, Attempt, refused, accepted, After, in_session, returned, sleeps, is_ready,
  try_server, after_turn, run_server_actor, after_loop, in_loop, sleep,
}

-- An attempt that ends before `actor_loop`.
abbrev pub fails : Bool → Attempt → Bool
fails with_exceptions (refused e) = true
fails with_exceptions (accepted h inputs) = elim (is_ready with_exceptions h) [
  | true ↦ false
  | false ↦ true
]

-- The delays of `n` failures, when `k` went before: 100 ms doubled each time, and no more than 30 s.
abbrev pub delays_from : ℕ → List Attempt → List ℕ
delays_from k [] = []
delays_from k (a ∷ more) = min (100 * 2 ^ k) 30000 ∷ delays_from (suc k) more

failing_turn :
    (with_exceptions : Bool) (a : Attempt) (server : Server)
    → fails with_exceptions a ≡ true
    → (try_server with_exceptions a server).0 ≡ sleep server
unfolding try_server
failing_turn with_exceptions (refused e) server f = refl
failing_turn with_exceptions (accepted h inputs) server f = ground arith

double_pow : (k : ℕ) → min (min (100 * 2 ^ k) 30000 * 2) 30000 ≡ min (100 * 2 ^ suc k) 30000
double_pow k = omega arith

run-failures :
    (with_exceptions : Bool) (attempts : List Attempt) (k : ℕ) (server : Server)
    → All (λ a. fails with_exceptions a ≡ true) attempts
    → server.backoff ≡ min (100 * 2 ^ k) 30000
    → (run_server_actor with_exceptions attempts server).1 ≡ delays_from k attempts
unfolding run_server_actor
run-failures with_exceptions [] k server fs b = refl
run-failures with_exceptions (a ∷ more) k server (f, fs) b =
    ap (λ t. (after_turn t (run_server_actor with_exceptions more t.0)).1)
      (failing_turn with_exceptions a server f)
    ∙ ap (λ d. d ∷ (run_server_actor with_exceptions more (sleep server).0).1) b
    ∙ ap (◌∷◌ (min (100 * 2 ^ k) 30000)) (
        run-failures with_exceptions more (suc k) (sleep server).0 fs
          (ap (λ x. min (x * 2) 30000) b ∙ double_pow k))

-- When every attempt fails before a session begins, a new server actor waits 100 ms after the
-- first attempt and twice as long after each further one, up to 30 s.
pub run_server_actor-delays_from :
    (with_exceptions : Bool) (attempts : List Attempt)
    → All (λ a. fails with_exceptions a ≡ true) attempts
    → (run_server_actor with_exceptions attempts new_server).1 ≡ delays_from 0 attempts
run_server_actor-delays_from with_exceptions attempts fs =
    run-failures with_exceptions attempts 0 new_server fs refl

-- What holds of a server between turns.
abbrev pub IsServer : Server → Type 0
IsServer server = (100 ≤ server.backoff) × (server.backoff ≤ 30000)

abbrev InBounds : ℕ → Type 0
InBounds d = (100 ≤ d) × (d ≤ 30000)

-- What a turn may come to: a session has its flags up, a sleep has them down.
abbrev pub IsTurn : Server → After → Type 0
IsTurn server (in_session actor) = (server.connected ≡ true) × (server.attempted ≡ true)
IsTurn server returned = server.connected ≡ false
IsTurn server (sleeps d) = (server.connected ≡ false) × (server.attempted ≡ true) × InBounds d

abbrev IsDown : Server → Type 0
IsDown server = IsServer server × (server.connected ≡ false)

sleep-IsTurn :
    (server : Server)
    → IsDown server
    → IsServer (sleep server).0 × IsTurn (sleep server).0 (sleep server).1
sleep-IsTurn server ((low, high), down) = ((omega arith, omega arith), (down, refl, (low, high)))

after_loop-IsTurn :
    (l : Loop) → IsServer (after_loop l).0 × IsTurn (after_loop l).0 (after_loop l).1
after_loop-IsTurn (running actor) = ((omega arith, omega arith), (refl, refl))
after_loop-IsTurn (ended client_dropped rest) = ((omega arith, omega arith), refl)
after_loop-IsTurn (ended connection_lost rest) =
    sleep-IsTurn (record in_loop { connected = false }) ((omega arith, omega arith), refl)

-- From a server that is not connected and has a backoff from 100 ms to 30 s, any attempt keeps
-- the backoff in these bounds; if it sleeps, it sleeps that long, marked attempted and not
-- connected; if its session still runs, it is marked attempted and connected; if it has
-- returned, it is marked not connected.
pub try_server-IsTurn :
    (with_exceptions : Bool) (a : Attempt) (server : Server)
    → IsServer server
    → server.connected ≡ false
    → let ((after, turn), effects) = try_server with_exceptions a server in
      IsServer after × IsTurn after turn
unfolding try_server
try_server-IsTurn with_exceptions (refused e) server s down = sleep-IsTurn server (s, down)
try_server-IsTurn with_exceptions (accepted h inputs) server s down =
    elim (Bool-cases (is_ready with_exceptions h)) [
      | inl ready ↦ rw ready (after_loop-IsTurn (actor_loop inputs new_actor).0)
      | inr not_ready ↦ rw not_ready (sleep-IsTurn server (s, down))
    ]
