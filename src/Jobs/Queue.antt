-- ===== src/Jobs/Queue.antt =====
-- backend/lexmind/scheduler/job_queue.py
pub mod Order
use lex_mind.Jobs.State.{State, write}
use lex_mind.Common.{ℕ, Bool, not, Option, eqb, if◌then◌else◌, is_some, head?}
use lex_mind.Jobs.Repository.{JobRepository}
use lex_mind.Jobs.Job.{Job, Error, status_eq, pending, value_error}
use lex_mind.Common.Effect.{Action, raise, pure, gets, ◌>>=◌, ◌>>◌}

module _ {r : JobRepository} where
  unfoldable pub enqueue : Job → Action Error (State r) Job
  enqueue job = if not (status_eq job.status pending) then raise value_error else do
    existing ← gets (λ s. r.get_by_id job.id s.store)
    write (if is_some existing then r.update job else r.create job)
    pure job

  -- `dequeue` and `peek`: the head of the repository's list, which stays there
  unfoldable pub dequeue : State r → Option Job
  dequeue s = head? (r.list_pending s.store)

  unfoldable pub size : State r → ℕ
  size s = r.count_pending s.store

  unfoldable pub is_empty : State r → Bool
  unfolding size
  is_empty s = eqb (size s) 0
