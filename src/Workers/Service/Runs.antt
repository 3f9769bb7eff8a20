-- ===== src/Workers/Service/Runs.antt =====
-- What a worker gets done: all pending jobs where each has a handler, and nothing once a job
-- without one is at the head of the queue.
use mathlib.Core.List.{append-nil, append_assoc}
use lex_mind.Jobs.Executor.Runs.{Executed}
use lex_mind.Jobs.State.{World}
use lex_mind.Jobs.Job.{Job, value_error}
use lex_mind.Common.{
  ◌<◌, ◌≡◌, refl, true, some, ℕ, zero, suc, sym, ◌∙◌, inl, inr, false, none, List, [], ◌∷◌, ◌++◌,
  arith, eqb, length, All, Bool-cases,
}
use lex_mind.Common.Effect.{ok}
use lex_mind.Jobs.Repository.{JobRepository, IsJobRepository}
use lex_mind.Jobs.Executor.{Executor, has_handler}
use lex_mind.Workers.Service.{
  run_once, Floor, process_next, run_all_loop, run_all, report, told, task_failed,
}
use lex_mind.Jobs.Scheduler.Drain.{
  HasHandlers, waiting, process_pending, HasEnded, HasHandlers-Executed, size-waiting,
}
use lex_mind.Jobs.Queue.{dequeue, size}
use lex_mind.Jobs.Scheduler.{process_next}
use lex_mind.Jobs.Queue.Order.{dequeue-none_of_idle}
use lex_mind.Jobs.Scheduler.Blocked.{process_unhandled}

module _ (r : JobRepository) (laws : IsJobRepository r) (w : World) (ex : Executor) where
  run_once_pending :
      (f : Floor r)
      → ex.persists ≡ true
      → HasHandlers r laws w ex f.jobs
      → 0 < waiting r laws w ex f.jobs
      → (j k : Job) × (g : Floor r) × (run_once w ex f ≡ (some k, g))
        × Executed r laws j f.jobs k g.jobs
  unfolding run_once
  run_once_pending f on known more =
      let (j, k, t, done, e) = process_pending r laws w ex f.jobs on known more in
      (j, k, (report {r = r} w ex f.worker_bus (ok (some k), t)).1, rw done refl, e)

  run_once_idle : (f : Floor r) → waiting r laws w ex f.jobs ≡ 0 → run_once w ex f ≡ (none, f)
  unfolding run_once process_next
  run_once_idle f idle = rw (dequeue-none_of_idle r laws f.jobs idle, process_next)

  -- what a run of the loop gives
  record Finished (fuel : ℕ) (results : List Job) (f : Floor r) : Type 0 where
    done : List Job
    final : Floor r
    returns : run_all_loop w ex fuel results f ≡ some (results ++ done, final)
    emptied : waiting r laws w ex final.jobs ≡ 0
    each_once : length done ≡ waiting r laws w ex f.jobs
    all_ended : All HasEnded done

  finish :
      (fuel : ℕ) (results : List Job) (f : Floor r)
      → ex.persists ≡ true
      → HasHandlers r laws w ex f.jobs
      → waiting r laws w ex f.jobs < fuel
      → Finished fuel results f
  unfolding run_all_loop
  finish zero results f on known h = elim h [ ]
  finish (suc fuel) results f on known h = elim (Bool-cases (eqb (waiting r laws w ex f.jobs) 0)) [
    | inl empty ↦ record {
      done = [];
      final = f;
      returns = rw (run_once_idle f (ground arith), append-nil);
      emptied = ground arith;
      each_once = ground arith;
      all_ended = tt;
    }
    | inr more ↦
        let (j, k, g, ran, e) = run_once_pending f on known (ground arith) in
        let rest =
          finish fuel (results ++ k ∷ []) g on (HasHandlers-Executed r laws w ex e known)
            (omega (arith, e.one_less)) in
        record {
          done = k ∷ rest.done;
          final = rest.final;
          returns = rw (← append_assoc results (k ∷ []) rest.done) (rw ran rest.returns);
          emptied = rest.emptied;
          each_once = omega (arith, e.one_less, rest.each_once);
          all_ended = (e.ended, rest.all_ended);
        }
  ]

  -- The first exception ends the loop, and the job that caused it stays where it is.
  blocked :
      (j : Job) (f : Floor r)
      → dequeue f.jobs ≡ some j
      → has_handler j.job_type ex ≡ false
      → run_all w ex f
        ≡ some (
          [],
          record f { worker_bus = told f.worker_bus (task_failed "" "" (w.describe value_error)) },
        )
  unfolding run_all run_all_loop run_once
  blocked j f head unknown = rw (process_unhandled r laws w ex j f.jobs head unknown)

-- Where the executor writes to the scheduler's repository and each pending job has a handler,
-- `run_all` of a worker leaves no job pending and returns as many jobs as were pending, all of
-- them completed or failed.
pub run_all_drains :
    (r : JobRepository) (laws : IsJobRepository r) (w : World) (ex : Executor) (f : Floor r)
    → ex.persists ≡ true
    → HasHandlers r laws w ex f.jobs
    → (done : List Job) × (final : Floor r) × (run_all w ex f ≡ some (done, final))
      × (r.count_pending final.jobs.store ≡ 0)
      × (length done ≡ r.count_pending f.jobs.store)
      × All HasEnded done
unfolding run_all
run_all_drains r laws w ex f on known =
    let d =
      finish r laws w ex (suc (size f.jobs)) [] f on known
        (omega (arith, size-waiting r laws w ex f.jobs)) in
    (
      d.done,
      d.final,
      d.returns,
      laws.count_pending_lem d.final.jobs.store ∙ d.emptied,
      d.each_once ∙ sym (laws.count_pending_lem f.jobs.store),
      d.all_ended,
    )

-- Once the job at the head of the queue has no handler, `run_all` of a worker runs no job at all,
-- whatever else is pending: it reports one failure, with no job id, and leaves the scheduler's
-- state as it was.
pub run_all_blocked :
    (r : JobRepository) (laws : IsJobRepository r) (w : World) (ex : Executor) (j : Job)
    (f : Floor r)
    → dequeue f.jobs ≡ some j
    → has_handler j.job_type ex ≡ false
    → (g : Floor r) × (run_all w ex f ≡ some ([], g))
      × (g.jobs ≡ f.jobs)
      × (g.worker_bus ≡ told f.worker_bus (task_failed "" "" (w.describe value_error)))
run_all_blocked r laws w ex j f head unknown = (
  record f { worker_bus = told f.worker_bus (task_failed "" "" (w.describe value_error)) },
  blocked r laws w ex j f head unknown,
  refl,
  refl,
)
