-- ===== src/Jobs/Repository.antt =====
-- backend/lexmind/scheduler/job_repository.py: the persistence contract of jobs, as the queue, the
-- executor and the scheduler use it. The store behind it is not the scheduler's code: it is a
-- parameter, with what the protocol's docstrings and the primary key of the table promise as laws.
pub mod Rows
pub mod Row
pub mod Reading
pub mod Sqlite
use mathlib.Core.List.{Perm, Pairwise}
use lex_mind.Jobs.Job.{Error, Job, status_eq, pending}
use lex_mind.Common.{List, Bool, String, Option, ◌≡◌, ℕ, none, ◌++◌, ◌∷◌, [], some, filter, length}
use lex_mind.Jobs.Repository.Rows.{Distinct, find, replace}
use lex_mind.Common.Effect.{Outcome, ok}
use lex_mind.Common.Int.{◌≤ℤ◌}

-- the operations; `rows` is what the store holds, for the laws
pub record JobRepository : Type 1 where
  pub Store : Type 0
  pub rows : Store → List Job
  pub create : Job → Store → Outcome Error Store
  pub update : Job → Store → Outcome Error Store
  pub get_by_id : String → Store → Option Job
  pub list_pending : Store → List Job
  pub count_pending : Store → ℕ

abbrev pub is_pending : Job → Bool
is_pending j = status_eq j.status pending

-- `j` is a later state of the job `old`: what no method of a job assigns to is as it was
abbrev pub SameOrigin : Job → Job → Type 0
SameOrigin j old =
    (j.workspace_id ≡ old.workspace_id)
    × (j.job_type ≡ old.job_type)
    × (j.created_at ≡ old.created_at)

pub record IsJobRepository (r : JobRepository) : Type 0 where
  -- the id is the primary key
  pub rows_distinct : (s : r.Store) → Distinct (r.rows s)
  pub get_by_id_lem : (id : String) (s : r.Store) → r.get_by_id id s ≡ find id (r.rows s)
  pub create_absent :
      (j : Job) (s : r.Store)
      → find j.id (r.rows s) ≡ none
      → (t : r.Store) × (r.create j s ≡ ok t) × (r.rows t ≡ r.rows s ++ j ∷ [])
  pub update_present :
      (j old : Job) (s : r.Store)
      → find j.id (r.rows s) ≡ some old
      → SameOrigin j old
      → (t : r.Store) × (r.update j s ≡ ok t) × (r.rows t ≡ replace j (r.rows s))
  pub list_pending-perm : (s : r.Store) → Perm (r.list_pending s) (filter is_pending (r.rows s))
  -- ordered by priority, descending
  pub list_pending-sorted :
      (s : r.Store) → Pairwise (λ a b. b.priority ≤ℤ a.priority) (r.list_pending s)
  pub count_pending_lem : (s : r.Store) → r.count_pending s ≡ length (filter is_pending (r.rows s))
