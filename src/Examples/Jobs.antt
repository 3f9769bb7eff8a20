-- ===== src/Examples/Jobs.antt =====
-- The theorems about jobs, the scheduler and the workers, at a small store.
use lex_mind.Jobs.State.{State, World}
use lex_mind.Jobs.Job.{
  Job, new_job, completed, failed, transition_to, can_retry, new, can_transition, running, retry,
  pending,
}
use lex_mind.Examples.Memory.{Row, memory, memory-IsDatabase, sort_desc}
use lex_mind.Common.{
  ◌+◌, ◌≡◌, refl, true, some, [], ◌∷◌, false, none, List, arith, length, All, filter, any,
}
use lex_mind.Common.Effect.{ok, err}
use lex_mind.Jobs.Repository.{JobRepository, IsJobRepository, is_pending}
use lex_mind.Jobs.Executor.{Executor, has_handler}
use lex_mind.Jobs.Scheduler.Drain.{HasHandlers, HasEnded, process_all_drains}
use lex_mind.Jobs.Queue.{dequeue, size}
use lex_mind.Common.Int.{pos, negsuc, ◌≤ℤ◌}
use lex_mind.Jobs.Repository.Sqlite.{
  sqlite, sqlite-IsJobRepository, list_pending, get_by_id, count_pending,
}
use lex_mind.Jobs.Scheduler.{process_all, process_all_loop}
use lex_mind.Workers.Service.{Floor, run_all, task_failed}
use lex_mind.Jobs.Job.Lifecycle.{
  IsStamped, retry_never_exhausted, new-IsStamped, Steps-IsStamped, Steps, Step,
}
use lex_mind.Jobs.Repository.Rows.{All-find}
use lex_mind.Jobs.Repository.Row.{DistinctRows, find_row, to_row}
use lex_mind.Jobs.Queue.Order.{dequeue_highest}
use lex_mind.Jobs.Scheduler.Blocked.{process_all_unsaved}
use lex_mind.Workers.Service.Runs.{run_all_drains, run_all_blocked}
use lex_mind.Common.Dict.{get}

abbrev pub world : World
world = record { now = λ n. n + 100; uuid = λ n. "new"; describe = λ e. "no handler" }

abbrev pub low : Job
low = new_job "w1" "ocr" [] (pos 1) 3 "a" 5

abbrev pub high : Job
high = record (new_job "w1" "pipeline" [] (pos 7) 3 "b" 6) { created_at = 8 }

abbrev pub done : Job
done = record (new_job "w1" "ocr" [] (negsuc 0) 3 "c" 6) { status = completed }

abbrev pub broken : Job
broken = record (new_job "w1" "ocr" [] (negsuc 0) 3 "d" 6) {
  status = failed;
  attempts = 1;
  started_at = some 7;
  completed_at = some 8;
}

abbrev pub repository : JobRepository
repository = sqlite memory

pub repository_laws : IsJobRepository repository
repository_laws = sqlite-IsJobRepository memory memory-IsDatabase

abbrev as_row : Job → Row
as_row = to_row memory.dumps memory.loads memory.is_blank

pub shelf : DistinctRows (as_row low ∷ as_row high ∷ as_row done ∷ as_row broken ∷ [])
unfolding find_row
shelf = (refl, (refl, (refl, (refl, tt))))

abbrev pub shop : State repository
shop = record {
  store = (as_row low ∷ as_row high ∷ as_row done ∷ as_row broken ∷ [], shelf);
  bus = some [];
  readings = 0;
  drawn = 0;
}

-- one type of job has a handler that works, the other one that raises
abbrev pub crew : Executor
crew = record {
  handlers = ("ocr", λ j. ok (some "text")) ∷ ("pipeline", λ j. err "broken") ∷ [];
  persists = true;
}

crew_known : HasHandlers repository repository_laws world crew shop
unfolding has_handler get
crew_known j =
    All-find (λ k. is_pending k ≡ true → has_handler k.job_type crew ≡ true) j j.id
      (repository.rows shop.store) (λ _. refl, (λ _. refl, (λ w. cc, (λ w. cc, tt))))

shop_runs : Unit {0}
unfolding dequeue list_pending sort_desc filter find_row get_by_id size count_pending has_handler
    get new retry
shop_runs = tt

head_high : dequeue shop ≡ some high
unfolding shop_runs
head_high = refl

process_all_drains_example :
    (final : List Job) × (t : State repository) × (process_all world crew shop ≡ some (ok final, t))
    × (repository.count_pending t.store ≡ 0)
    × (length final ≡ 2)
    × All HasEnded final
unfolding shop_runs
process_all_drains_example =
    process_all_drains repository repository_laws world crew shop refl crew_known

dequeue_highest_example :
    (repository.get_by_id high.id shop.store ≡ some high)
    × (high.status ≡ pending)
    × (pos 1 ≤ℤ pos 7)
unfolding shop_runs
dequeue_highest_example =
    dequeue_highest repository repository_laws shop high low "a" head_high refl refl

-- an executor that was given no repository
abbrev absent_minded : Executor
absent_minded = record crew { persists = false }

absent_known : HasHandlers repository repository_laws world absent_minded shop
unfolding has_handler
absent_known j present waits = crew_known j present waits

process_all_unsaved_example : process_all_loop world absent_minded 9 [] shop ≡ none
unfolding shop_runs
process_all_unsaved_example =
    process_all_unsaved repository repository_laws world absent_minded 9 [] shop refl absent_known
      (omega arith)

abbrev floor : Floor repository
floor = record { jobs = shop; worker_bus = some [] }

run_all_drains_example :
    (final : List Job) × (g : Floor repository) × (run_all world crew floor ≡ some (final, g))
    × (repository.count_pending g.jobs.store ≡ 0)
    × (length final ≡ 2)
    × All HasEnded final
unfolding shop_runs
run_all_drains_example = run_all_drains repository repository_laws world crew floor refl crew_known

-- nothing handles "pipeline", the type of the job with the highest priority
abbrev half_crew : Executor
half_crew = record { handlers = ("ocr", λ j. ok none) ∷ []; persists = true }

run_all_blocked_example :
    (g : Floor repository) × (run_all world half_crew floor ≡ some ([], g))
    × (g.jobs ≡ shop)
    × (g.worker_bus ≡ some (task_failed "" "" "no handler" ∷ []))
unfolding shop_runs
run_all_blocked_example =
    run_all_blocked repository repository_laws world half_crew high floor head_high refl

abbrev retried_twice : Job
retried_twice = record low {
  status = failed;
  attempts = 1;
  started_at = some 10;
  completed_at = some 11;
  updated_at = 11;
}

life : Steps low retried_twice
unfolding transition_to can_transition any
life = Steps.next (Steps.next Steps.here (Step.moved running 10 refl)) (Step.moved failed 11 refl)

retry_never_exhausted_example : can_retry retried_twice ≡ true
unfolding shop_runs
retry_never_exhausted_example =
    retry_never_exhausted "w1" "ocr" [] (pos 1) 3 "a" 5 refl (omega arith) life refl

low-IsStamped : IsStamped low
unfolding new
low-IsStamped = new-IsStamped "w1" "ocr" [] (pos 1) 3 "a" 5 refl

Steps-IsStamped_example : IsStamped retried_twice
Steps-IsStamped_example = Steps-IsStamped low-IsStamped life
