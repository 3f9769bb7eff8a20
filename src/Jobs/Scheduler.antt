-- ===== src/Jobs/Scheduler.antt =====
-- backend/lexmind/scheduler/job_scheduler.py. The queue, the executor and the scheduler share one
-- repository. The loop of `process_all` runs on fuel; `none` means that the fuel ran out.
pub mod Drain
pub mod Commands
pub mod Retry
pub mod Blocked
use lex_mind.Jobs.State.{State, World, emit, timed, write, job_cancelled, job_created}
use lex_mind.Common.{
  ℕ, zero, suc, ◌+◌, String, Option, none, some, List, [], ◌∷◌, ◌++◌, if◌then◌else◌,
}
use lex_mind.Jobs.Repository.{JobRepository}
use lex_mind.Jobs.Executor.{Executor, execute}
use lex_mind.Common.Effect.{Outcome, Action, ok, ◌>>=◌, err, pure, ◌>>◌}
use lex_mind.Jobs.Job.{Job, Error, can_retry, is_terminal, new, retry, transition_to, cancelled}
use lex_mind.Jobs.Queue.{size, is_empty, dequeue, enqueue}
use lex_mind.Common.Dict.{Dict}
use lex_mind.Common.Int.{ℤ}

-- what a run of the loop gives
abbrev pub Run : JobRepository → Type 0
Run r = Option (Outcome Error (List Job) × State r)

module _ {r : JobRepository} (w : World) where
  unfoldable pub submit : String → String → Dict String → ℤ → ℕ → Action Error (State r) Job
  unfolding emit
  submit workspace_id job_type payload priority max_retries = do
    id ← (λ s. (ok (w.uuid s.drawn), record s { drawn = s.drawn + 1 }))
    job ← timed w (new workspace_id job_type payload priority max_retries id)
    enqueue job
    emit (job_created job.id workspace_id job_type)
    pure job

  -- the body of `retry_job` once the job is loaded
  unfoldable pub retry_loaded : Job → Action Error (State r) (Option Job)
  retry_loaded job s =
      if can_retry job
      then (do
        reset ← timed w (λ now. retry now job)
        write (r.update reset)
        enqueue reset
        pure (some reset))
          s
      else (ok none, s)

  unfoldable pub retry_job : String → Action Error (State r) (Option Job)
  unfolding retry_loaded
  retry_job id s = elim (r.get_by_id id s.store) [
    | none ↦ (ok none, s)
    | some job ↦ retry_loaded job s
  ]

  -- the `except ValueError` of `cancel_job` catches what `transition_to` raises
  abbrev cancelled_or_none : Outcome Error Job → Action Error (State r) (Option Job)
  cancelled_or_none (err e) = pure none
  cancelled_or_none (ok job) = do
    write (r.update job)
    emit (job_cancelled job.id job.workspace_id job.job_type)
    pure (some job)

  -- the body of `cancel_job` once the job is loaded
  unfoldable pub cancel_loaded : Job → Action Error (State r) (Option Job)
  unfolding emit
  cancel_loaded job s =
      if is_terminal job
      then (ok none, s)
      else let (moved, t) = timed w (λ now. transition_to cancelled now job) s in
        cancelled_or_none moved t

  unfoldable pub cancel_job : String → Action Error (State r) (Option Job)
  unfolding cancel_loaded
  cancel_job id s = elim (r.get_by_id id s.store) [
    | none ↦ (ok none, s)
    | some job ↦ cancel_loaded job s
  ]

module _ {r : JobRepository} (w : World) (ex : Executor) where
  unfoldable pub process_next : Action Error (State r) (Option Job)
  process_next s = elim (dequeue s) [
    | none ↦ (ok none, s)
    | some job ↦ (execute w ex job >>= λ done. pure (some done)) s
  ]

  -- one round of the loop, from what `process_next` gave
  abbrev next_round :
      (List Job → State r → Run r) → List Job → Outcome Error (Option Job) × State r → Run r
  next_round loop results (err e, s) = some (err e, s)
  next_round loop results (ok none, s) = loop results s
  next_round loop results (ok (some job), s) = loop (results ++ job ∷ []) s

  unfoldable pub process_all_loop : ℕ → List Job → State r → Run r
  process_all_loop zero results s = none
  process_all_loop (suc fuel) results s =
      if is_empty s
      then some (ok results, s)
      else next_round (process_all_loop fuel) results (process_next s)

  -- fuel for each pending job and for the last test
  unfoldable pub process_all : State r → Run r
  process_all s = process_all_loop (suc (size s)) [] s

module _ {r : JobRepository} where
  unfoldable pub get_job : String → State r → Option Job
  get_job id s = r.get_by_id id s.store

  unfoldable pub recover_pending : State r → List Job
  recover_pending s = r.list_pending s.store
