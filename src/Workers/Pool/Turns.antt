-- ===== src/Workers/Pool/Turns.antt =====
-- The pool goes round its workers, and starts and stops them together.
use mathlib.Core.List.{append-nil, append_assoc}
use native.Mathlib.Nat.{mod-lt, mod-eq_of_lt, mod-add-mod, add-zero}
use lex_mind.Workers.Pool.{
  WorkerPool, make_workers, new_pool, JobRepository, World, Executor, run_turn, run_turns, Floor,
  run_once, start_each, stop_each, WorkerEvent, pool_is_running,
}
use lex_mind.Workers.Service.{Worker, Floor, run_once, WorkerEvent, worker_started, worker_stopped}
use lex_mind.Common.{
  ℕ, zero, suc, ◌+◌, ◌%◌, ◌<◌, String, ◌≡◌, refl, ap, some, List, [], ◌∷◌, arith, length, get_elem?,
  sym, ◌∙◌, true, false, ◌++◌, map, any, Bool,
}
use lex_mind.Jobs.Repository.{JobRepository}
use lex_mind.Jobs.State.{World}
use lex_mind.Jobs.Executor.{Executor}

pub record IsPool (size : ℕ) (p : WorkerPool) : Type 0 where
  pub same_size : length p.workers ≡ size
  pub in_range : p.next < size

length-make_workers :
    (name : String → ℕ → String) (prefix : String) (i n : ℕ)
    → length (make_workers name prefix i n) ≡ n
length-make_workers name prefix i zero = refl
length-make_workers name prefix i (suc n) = ap suc (length-make_workers name prefix (suc i) n)

-- A pool that is made has as many workers as its size, which is at least one, and starts with
-- the first of them.
pub new_pool-IsPool :
    (name : String → ℕ → String) (prefix : String) (size : ℕ) (p : WorkerPool)
    → new_pool name prefix size ≡ some p
    → IsPool size p × (p.next ≡ 0)
unfolding new_pool
new_pool-IsPool name prefix size p e = ground (arith, length-make_workers name prefix 0 size)

get_elem?-some :
    {A : Type 0} (l : List A) (i : ℕ) → i < length l → (a : A) × (get_elem? l i ≡ some a)
get_elem?-some [] i h = absurd (omega arith)
get_elem?-some (x ∷ l) zero h = (x, refl)
get_elem?-some (x ∷ l) (suc i) h = get_elem?-some l i (omega arith)

zero-lt : {size : ℕ} {p : WorkerPool} → IsPool size p → 0 < size
zero-lt h = omega arith

module _ (r : JobRepository) (w : World) (ex : Executor) where
  run_turn-some :
      (size : ℕ) (p : WorkerPool) (f : Floor r)
      → IsPool size p
      → run_turn w ex p f
        ≡ some ((run_once w ex f).0, record p { next = (p.next + 1) % size }, (run_once w ex f).1)
  unfolding run_turn
  run_turn-some size p f h =
      let (worker, e) = get_elem?-some p.workers p.next (omega arith) in ground arith

  -- `n` calls of `run_once` never fail on the index, and move the turn on by `n`, modulo the size.
  pub run_turns-next :
      (size n : ℕ) (p : WorkerPool) (f : Floor r)
      → IsPool size p
      → (q : WorkerPool) × (g : Floor r) × (run_turns w ex n p f ≡ some (q, g))
        × IsPool size q
        × (q.workers ≡ p.workers)
        × (q.next ≡ (p.next + n) % size)
  unfolding run_turns
  run_turns-next size zero p f h =
      (p, f, refl, h, refl, sym (rw add-zero (mod-eq_of_lt h.in_range)))
  run_turns-next size (suc n) p f h =
      let p' = record p { next = (p.next + 1) % size } in
      let moved : IsPool size p' = record {
        same_size = h.same_size;
        in_range = mod-lt (p.next + 1) (zero-lt h);
      } in
      let (q, g, runs, valid, same, next) = run_turns-next size n p' (run_once w ex f).1 moved in
      (
        q,
        g,
        rw (run_turn-some size p f h, run_turns) runs,
        valid,
        same,
        next ∙ mod-add-mod (p.next + 1) size n ∙ ap (λ k. k % size) (omega arith),
      )

abbrev pub marked : Bool → Worker → Worker
marked b worker = record worker { is_running = b }

start_each_lem :
    (l : List Worker) (log : List WorkerEvent)
    → start_each l (some log)
      ≡ (map (marked true) l, some (log ++ map (λ worker. worker_started worker.worker_id) l))
unfolding start_each
start_each_lem [] log = rw append-nil
start_each_lem (worker ∷ l) log =
    rw (start_each_lem l (log ++ worker_started worker.worker_id ∷ [])) (rw append_assoc)

stop_each_lem :
    (l : List Worker) (log : List WorkerEvent)
    → stop_each l (some log)
      ≡ (map (marked false) l, some (log ++ map (λ worker. worker_stopped worker.worker_id) l))
unfolding stop_each
stop_each_lem [] log = rw append-nil
stop_each_lem (worker ∷ l) log =
    rw (stop_each_lem l (log ++ worker_stopped worker.worker_id ∷ [])) (rw append_assoc)

running_started :
    (l : List Worker)
    → 0 < length l
    → any (λ (x : Worker). x.is_running) (map (marked true) l) ≡ true
unfolding any
running_started [] h = absurd (omega arith)
running_started (worker ∷ l) h = refl

idle_stopped : (l : List Worker) → any (λ (x : Worker). x.is_running) (map (marked false) l) ≡ false
unfolding any
idle_stopped [] = refl
idle_stopped (worker ∷ l) = idle_stopped l

-- After `start_all` a pool that has a worker is running, and after `stop_all` no pool is. Each
-- publishes one event for each worker, in order, and changes nothing else of the workers.
pub start_stop :
    (l : List Worker) (log : List WorkerEvent)
    → 0 < length l
    → (start_each l (some log)
        ≡ (map (marked true) l, some (log ++ map (λ worker. worker_started worker.worker_id) l)))
      × (stop_each l (some log)
          ≡ (map (marked false) l, some (log ++ map (λ worker. worker_stopped worker.worker_id) l)))
      × ((n : ℕ) → pool_is_running (record { workers = map (marked true) l; next = n }) ≡ true)
      × ((n : ℕ) → pool_is_running (record { workers = map (marked false) l; next = n }) ≡ false)
unfolding pool_is_running
start_stop l log h =
    (start_each_lem l log, stop_each_lem l log, λ n. running_started l h, λ n. idle_stopped l)
