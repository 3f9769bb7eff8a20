-- ===== src/Jobs/Repository/Row.antt =====
-- backend/lexmind/metadata/models.py, `JobRow`, and how job_repository.py writes a job to a row and reads
-- it back. The status column, which holds the text of the member, is the member here. The text of the
-- payload column, and `json.dumps` and `json.loads`, are parameters.
use lex_mind.Jobs.Job.{Job, JobStatus, pending, status_eq}
use lex_mind.Common.{
  ℕ, String, Bool, ◌≡◌, refl, Option, none, some, List, [], ◌∷◌, ◌++◌, arith, ◌==◌, eq_iff,
  if◌then◌else◌, is_some,
}
use lex_mind.Common.Dict.{Dict}
use lex_mind.Common.Int.{ℤ}

pub record JobRow (Json : Type 0) : Type 0 where
  pub id : String
  pub workspace_id : String
  pub job_type : String
  pub status : JobStatus
  pub payload : Json
  pub result : String
  pub error_message : String
  pub attempts : ℕ
  pub max_retries : ℕ
  pub priority : ℤ
  pub created_at : ℕ
  pub started_at : Option ℕ
  pub completed_at : Option ℕ
  pub updated_at : ℕ

module _ {Json : Type 0} where
  -- session.get(JobRow, id)
  unfoldable pub find_row : String → List (JobRow Json) → Option (JobRow Json)
  find_row id [] = none
  find_row id (row ∷ l) = if row.id == id then some row else find_row id l

  unfoldable pub replace_row : JobRow Json → List (JobRow Json) → List (JobRow Json)
  replace_row row [] = []
  replace_row row (old ∷ l) = if old.id == row.id then row ∷ l else old ∷ replace_row row l

  unfoldable pub remove_row : String → List (JobRow Json) → List (JobRow Json)
  remove_row id [] = []
  remove_row id (row ∷ l) = if row.id == id then l else row ∷ remove_row id l

  -- no two rows have one id
  abbrev pub DistinctRows : List (JobRow Json) → Type 0
  DistinctRows [] = Unit
  DistinctRows (row ∷ l) = (find_row row.id l ≡ none) × DistinctRows l

  abbrev pub is_pending_row : JobRow Json → Bool
  is_pending_row row = status_eq row.status pending

  pub id_of_find_row :
      (row : JobRow Json) (id : String) (l : List (JobRow Json))
      → find_row id l ≡ some row
      → row.id ≡ id
  unfolding find_row
  id_of_find_row row id [] h = absurd cc
  id_of_find_row row id (k ∷ l) h = ground (arith, eq_iff k.id id, id_of_find_row row id l)

  pub find_row-snoc :
      (row : JobRow Json) (id : String) (l : List (JobRow Json))
      → find_row id (l ++ row ∷ []) ≡ (
          if is_some (find_row id l)
          then find_row id l
          else if row.id == id
          then some row
          else none)
  unfolding find_row
  find_row-snoc row id [] = refl
  find_row-snoc row id (k ∷ l) = ground (arith, find_row-snoc row id l)

  pub find_row-remove_row :
      (id k : String) (l : List (JobRow Json))
      → DistinctRows l
      → find_row k (remove_row id l) ≡ (if id == k then none else find_row k l)
  unfolding find_row remove_row
  find_row-remove_row id k [] d = ground arith
  find_row-remove_row id k (j ∷ l) d =
      ground (arith, eq_iff j.id id, eq_iff j.id k, eq_iff id k, find_row-remove_row id k l d.1)

module _ {Json : Type 0} (dumps : Dict String → Json) (loads : Json → Dict String)
    (is_blank : Json → Bool) where
  -- the row that `create` adds
  abbrev pub to_row : Job → JobRow Json
  to_row job = record {
    id = job.id;
    workspace_id = job.workspace_id;
    job_type = job.job_type;
    status = job.status;
    payload = dumps job.payload;
    result = job.result;
    error_message = job.error_message;
    attempts = job.attempts;
    max_retries = job.max_retries;
    priority = job.priority;
    created_at = job.created_at;
    started_at = job.started_at;
    completed_at = job.completed_at;
    updated_at = job.updated_at;
  }

  -- the assignments of `update` to the row that was loaded
  abbrev pub assigned : Job → JobRow Json → JobRow Json
  assigned job row = record row {
    status = job.status;
    payload = dumps job.payload;
    result = job.result;
    error_message = job.error_message;
    attempts = job.attempts;
    max_retries = job.max_retries;
    priority = job.priority;
    started_at = job.started_at;
    completed_at = job.completed_at;
    updated_at = job.updated_at;
  }

  -- `json.loads(row.payload) if row.payload else {}`
  abbrev pub read_payload : Json → Dict String
  read_payload text = if is_blank text then [] else loads text

  -- `_to_domain`
  abbrev pub to_domain : JobRow Json → Job
  to_domain row = record {
    workspace_id = row.workspace_id;
    job_type = row.job_type;
    id = row.id;
    status = row.status;
    payload = read_payload row.payload;
    result = row.result;
    error_message = row.error_message;
    attempts = row.attempts;
    max_retries = row.max_retries;
    priority = row.priority;
    created_at = row.created_at;
    started_at = row.started_at;
    completed_at = row.completed_at;
    updated_at = row.updated_at;
  }

  abbrev pub read : Option (JobRow Json) → Option Job
  read none = none
  read (some row) = some (to_domain row)
