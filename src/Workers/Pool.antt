-- ===== src/Workers/Pool.antt =====
-- backend/lexmind/workers/worker.py, `WorkerPool`: workers that share the scheduler, the executor
-- and the bus, called in turn.
pub mod Turns
use lex_mind.Workers.Service.{Worker, start, stop, WorkerEvent, Floor, run_once, run_all}
use lex_mind.Common.{
  ℕ, zero, suc, ◌+◌, ◌%◌, String, Bool, false, Option, none, some, List, [], ◌∷◌, ltb,
  if◌then◌else◌, length, any, get_elem?,
}
use lex_mind.Jobs.Repository.{JobRepository}
use lex_mind.Jobs.State.{World}
use lex_mind.Jobs.Executor.{Executor}
use lex_mind.Jobs.Job.{Job}

pub record WorkerPool : Type 0 where
  pub workers : List Worker
  pub next : ℕ

-- the list of `__init__` from index `i` on; `name` is the f-string of prefix and index
abbrev pub make_workers : (String → ℕ → String) → String → ℕ → ℕ → List Worker
make_workers name prefix i zero = []
make_workers name prefix i (suc n) =
    record { worker_id = name prefix i; is_running = false } ∷ make_workers name prefix (suc i) n

-- `__init__`; `none` is the `ValueError`
unfoldable pub new_pool : (String → ℕ → String) → String → ℕ → Option WorkerPool
new_pool name prefix pool_size =
    if ltb pool_size 1
    then none
    else some (record { workers = make_workers name prefix 0 pool_size; next = 0 })

module _ {r : JobRepository} (w : World) (ex : Executor) where
  abbrev turn : Option Worker → WorkerPool → Floor r → Option (Option Job × WorkerPool × Floor r)
  turn none pool f = none
  turn (some worker) pool f =
      let (job, g) = run_once w ex f in
      some (job, record pool { next = (pool.next + 1) % length pool.workers }, g)

  -- `WorkerPool.run_once`; `none` is an `IndexError`
  unfoldable pub run_turn : WorkerPool → Floor r → Option (Option Job × WorkerPool × Floor r)
  run_turn pool f = turn (get_elem? pool.workers pool.next) pool f

  -- `WorkerPool.run_all`: the loop of the first worker
  unfoldable pub run_pool : WorkerPool → Floor r → Option (List Job × Floor r)
  run_pool pool f = elim (get_elem? pool.workers 0) [ none ↦ none | some worker ↦ run_all w ex f ]

  -- `n` calls of `run_once`
  unfoldable pub run_turns : ℕ → WorkerPool → Floor r → Option (WorkerPool × Floor r)
  run_turns zero pool f = some (pool, f)
  run_turns (suc n) pool f = elim (run_turn pool f) [
    | none ↦ none
    | some (job, pool', g) ↦ run_turns n pool' g
  ]

-- the loops of `start_all` and `stop_all`
unfoldable pub start_each :
    List Worker → Option (List WorkerEvent) → List Worker × Option (List WorkerEvent)
unfolding start
start_each [] bus = ([], bus)
start_each (worker ∷ rest) bus =
    let (worker', bus') = start worker bus in
    let (rest', bus'') = start_each rest bus' in (worker' ∷ rest', bus'')

unfoldable pub stop_each :
    List Worker → Option (List WorkerEvent) → List Worker × Option (List WorkerEvent)
unfolding stop
stop_each [] bus = ([], bus)
stop_each (worker ∷ rest) bus =
    let (worker', bus') = stop worker bus in
    let (rest', bus'') = stop_each rest bus' in (worker' ∷ rest', bus'')

unfoldable pub pool_is_running : WorkerPool → Bool
unfolding any
pool_is_running pool = any (λ worker. worker.is_running) pool.workers
