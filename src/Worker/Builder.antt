-- ===== src/Worker/Builder.antt =====
-- `WorkerBuilder` and `Worker` of src/worker/mod.rs without the transport: which connections a
-- worker starts, and when `shutdown` returns. A task is what `run_worker_connection` is started
-- with; a run of it is the list of attempts that it meets.
use native.Mathlib.Nat.{add-mul, one-mul, zero-mul, le-mul_of_pos_right}
use gearman_rs.Base.{
  ℕ, zero, suc, ◌+◌, ◌*◌, ◌≤◌, ◌≡◌, refl, sym, ap, subst, ◌∙◌, Bool, true, false, ◌&&◌,
  if◌then◌else◌, Option, none, some, List, [], ◌∷◌, ◌++◌, All, map, replicate, Bytes, bytes_eq,
  arith,
}
use gearman_rs.Worker.Job.{Registry}
use gearman_rs.Worker.Grab.{GrabMode, uniq}
use gearman_rs.Worker.Connection.{
  Attempt, Phase, returned, aborted, reconnecting, in_session, run_worker_connection,
}
use gearman_rs.Worker.Connection.Shutdown.{MeetsShutdown, run_worker_connection-returned}

pub record WorkerBuilder : Type 0 where
  pub servers : List Bytes
  pub concurrency : ℕ
  pub grab_mode : GrabMode
  pub registry : Registry

-- `available_parallelism().unwrap_or(1)`
abbrev pub parallelism_or_one : Option ℕ → ℕ
parallelism_or_one none = 1
parallelism_or_one (some n) = n

abbrev pub new_worker : Option ℕ → WorkerBuilder
new_worker available_parallelism = record {
  servers = [];
  concurrency = parallelism_or_one available_parallelism;
  grab_mode = uniq;
  registry = [];
}

abbrev pub with_servers : List Bytes → WorkerBuilder → WorkerBuilder
with_servers servers b = record {
  servers = servers;
  concurrency = b.concurrency;
  grab_mode = b.grab_mode;
  registry = b.registry;
}

-- `n.max(1)`
abbrev pub max_one : ℕ → ℕ
max_one zero = 1
max_one (suc n) = suc n

abbrev pub with_concurrency : ℕ → WorkerBuilder → WorkerBuilder
with_concurrency n b = record {
  servers = b.servers;
  concurrency = max_one n;
  grab_mode = b.grab_mode;
  registry = b.registry;
}

abbrev pub with_grab_mode : GrabMode → WorkerBuilder → WorkerBuilder
with_grab_mode mode b = record {
  servers = b.servers;
  concurrency = b.concurrency;
  grab_mode = mode;
  registry = b.registry;
}

pub record Task : Type 0 where
  pub addr : Bytes
  pub mode : GrabMode

pub record Worker : Type 0 where
  pub shutdown_flag : Bool
  pub tasks : List Task
  pub shared : Registry

-- The two loops of `run`.
unfoldable pub spawn : GrabMode → ℕ → List Bytes → List Task
spawn mode concurrency [] = []
spawn mode concurrency (addr ∷ servers) =
    replicate concurrency (record { addr = addr; mode = mode }) ++ spawn mode concurrency servers

unfoldable pub run : WorkerBuilder → Worker
run b = record {
  shutdown_flag = false;
  tasks = spawn b.grab_mode b.concurrency b.servers;
  shared = b.registry;
}

abbrev pub is_over : Phase → Bool
is_over returned = true
is_over aborted = true
is_over (reconnecting backoff) = false
is_over in_session = false

-- `while let Some(result) = self.tasks.join_next().await`: it ends when every task has returned.
unfoldable pub joined : List Phase → Bool
joined [] = true
joined (phase ∷ phases) = is_over phase && joined phases

-- Whether `shutdown` returns, when the tasks meet these attempts.
unfoldable pub shutdown : GrabMode → List (List Attempt) → Bool
shutdown mode runs = joined (map (λ attempts. (run_worker_connection mode attempts).phase) runs)

-- How many connections go to an address, and how often it is in a list of servers.
unfoldable pub task_count : Bytes → List Task → ℕ
task_count addr [] = 0
task_count addr (t ∷ tasks) = (if bytes_eq t.addr addr then 1 else 0) + task_count addr tasks

unfoldable pub server_count : Bytes → List Bytes → ℕ
server_count addr [] = 0
server_count addr (s ∷ servers) = (if bytes_eq s addr then 1 else 0) + server_count addr servers

task_count-append :
    (addr : Bytes) (xs ys : List Task)
    → task_count addr (xs ++ ys) ≡ task_count addr xs + task_count addr ys
unfolding task_count
task_count-append addr [] ys = omega arith
task_count-append addr (t ∷ xs) ys = omega (arith, task_count-append addr xs ys)

task_count-replicate :
    (addr server : Bytes) (mode : GrabMode) (n : ℕ)
    → task_count addr (replicate n (record { addr = server; mode = mode }))
      ≡ (if bytes_eq server addr then n else 0)
unfolding task_count
task_count-replicate addr server mode zero = ground arith
task_count-replicate addr server mode (suc n) =
    ground (arith, task_count-replicate addr server mode n)

count_of : (b : Bool) (m n : ℕ) → (if b then n else 0) + m * n ≡ ((if b then 1 else 0) + m) * n
count_of true m n = omega (arith, add-mul 1 m n, one-mul n)
count_of false m n = omega (arith, add-mul 0 m n, zero-mul n)

task_count-spawn :
    (addr : Bytes) (mode : GrabMode) (n : ℕ) (servers : List Bytes)
    → task_count addr (spawn mode n servers) ≡ server_count addr servers * n
unfolding spawn server_count task_count
task_count-spawn addr mode n [] = omega (arith, zero-mul n)
task_count-spawn addr mode n (s ∷ servers) =
    task_count-append addr (replicate n (record { addr = s; mode = mode })) (spawn mode n servers)
    ∙ rw (task_count-replicate addr s mode n, task_count-spawn addr mode n servers)
        (count_of (bytes_eq s addr) (server_count addr servers) n)

max_one-positive : (n : ℕ) → 1 ≤ max_one n
max_one-positive zero = omega arith
max_one-positive (suc n) = omega arith

-- theorem
pub run-tasks :
    (addr : Bytes) (n : ℕ) (b : WorkerBuilder)
    → (task_count addr (run (with_concurrency n b)).tasks ≡ server_count addr b.servers * max_one n)
      × (server_count addr b.servers ≤ task_count addr (run (with_concurrency n b)).tasks)
unfolding run
run-tasks addr n b =
    let counted = task_count-spawn addr b.grab_mode (max_one n) b.servers in
    (
      counted,
      subst (λ k. server_count addr b.servers ≤ k) (sym counted)
          (le-mul_of_pos_right (server_count addr b.servers) (max_one-positive n)),
    )

-- A run that meets the shutdown: the task comes to a turn where it is signalled.
pub record SeesShutdown (mode : GrabMode) (attempts : List Attempt) : Type 0 where
  pub earlier : List Attempt
  pub backoff : ℕ
  pub told : Attempt
  pub later : List Attempt
  pub split : attempts ≡ earlier ++ told ∷ later
  pub reached : (run_worker_connection mode earlier).phase ≡ reconnecting backoff
  pub met : MeetsShutdown mode told

SeesShutdown-returned :
    (mode : GrabMode) (attempts : List Attempt)
    → SeesShutdown mode attempts
    → (run_worker_connection mode attempts).phase ≡ returned
SeesShutdown-returned mode attempts h =
    ap (λ a. (run_worker_connection mode a).phase) h.split
    ∙ (run_worker_connection-returned mode h.earlier h.backoff h.told h.later h.reached h.met).0

-- If the task of each of a worker's connections comes to a turn where it meets the shutdown, then
-- `shutdown` returns.
pub shutdown-SeesShutdown :
    (mode : GrabMode) (runs : List (List Attempt))
    → All (SeesShutdown mode) runs
    → shutdown mode runs ≡ true
unfolding shutdown joined
shutdown-SeesShutdown mode [] h = refl
shutdown-SeesShutdown mode (attempts ∷ runs) (h, hs) =
    rw (SeesShutdown-returned mode attempts h) (shutdown-SeesShutdown mode runs hs)
