-- ===== src/Ingestion/Manager.antt =====
-- backend/lexmind/ingestion/ingestion_manager.py and ingestion_registry.py. The job of a run is the one
-- that the registry holds; other jobs stay as they are while it runs.
pub mod Ends
use lex_mind.Ingestion.Job.{
  IngestionJob, JobState, new_job, failed, is_terminal, add_warning, transition_to, cancelled,
}
use lex_mind.Ingestion.Pipeline.{
  Ingest, Surroundings, FileResult, IngestionEvent, import_failed, process, transition, emit,
  no_statistics,
}
use lex_mind.Common.{
  ℕ, String, Bool, Option, none, some, List, [], ◌∷◌, if◌then◌else◌, map, ◌++◌, contains,
}
use lex_mind.Common.Dict.{Dict, get, put}
use lex_mind.Common.Effect.{ok, err, Outcome}

-- what `run` raises: IngestionError, by what it is about, no such source or the message of the exception of
-- a run; or another error
pub data IngestionError : Type 0 where
  no_source : IngestionError
  import_error : String → IngestionError
  -- what the publication of a failure raised, which is no IngestionError
  publication : String → IngestionError
  -- `transition_to` raised while a failure was handled
  invalid_state : String → IngestionError

-- a source is known by its name; what it yields is in the surroundings
pub record Registry : Type 0 where
  pub sources : List String
  pub jobs : Dict IngestionJob

unfoldable pub register_source : String → Registry → Registry
unfolding contains
register_source name r = record r {
  sources = if contains r.sources name then r.sources else r.sources ++ name ∷ [];
}

unfoldable pub add_job : IngestionJob → Registry → Registry
unfolding put
add_job job r = record r { jobs = put r.jobs job.job_id job }

abbrev pub or_no_job : Option IngestionJob → Outcome (Unit {0}) IngestionJob
or_no_job none = err tt
or_no_job (some job) = ok job

-- `IngestionRegistry.get_job`; the raise is JobNotFoundError
unfoldable pub get_job : String → Registry → Outcome (Unit {0}) IngestionJob
unfolding get
get_job id r = or_no_job (get r.jobs id)

-- `create_job`, with the id that `uuid4` draws
unfoldable pub create_job :
    (workspace_id source location id : String)
    → Registry
    → Outcome IngestionError IngestionJob × Registry
unfolding contains add_job
create_job workspace_id source location id r =
    if contains r.sources source
    then (ok (new_job workspace_id location id), add_job (new_job workspace_id location id) r)
    else (err no_source, r)

abbrev pub cancelled_at : ℕ → IngestionJob → Outcome String IngestionJob
cancelled_at now job = if is_terminal job then ok job else transition_to cancelled now job

-- `cancel_job`, at a time; the raise of the state machine cannot happen, since every job that has not
-- ended may be cancelled
unfoldable pub cancel_job : ℕ → String → Registry → Outcome (Unit {0}) Registry
unfolding get is_terminal transition_to put
cancel_job now id r = elim (or_no_job (get r.jobs id)) [
  | err e ↦ err e
  | ok job ↦ elim (cancelled_at now job) [
    | err e ↦ err tt
    | ok job' ↦ ok (record r { jobs = put r.jobs id job' })
  ]
]

module _ (w : Surroundings) where
  abbrev pub noted : String → Ingest → Ingest
  noted message s = record s { job = add_warning message s.job }

  -- the raise of IngestionError, unless the publication of the failure raised
  abbrev pub announced :
      String → Option String → Ingest → Outcome IngestionError (List FileResult) × Ingest
  announced message none s = (err (import_error message), s)
  announced message (some e) s = (err (publication e), s)

  abbrev pub failed_with :
      String
      → Outcome String (Unit {0}) × Ingest
      → Outcome IngestionError (List FileResult) × Ingest
  failed_with message (err e, s) = (err (invalid_state e), s)
  failed_with message (ok tt, s) =
      announced message (w.refuses message) (emit w (import_failed s.job.job_id message) s)

  -- `if not job.is_terminal: job.transition_to(JobState.FAILED)`
  unfoldable pub fail : Ingest → Outcome String (Unit {0}) × Ingest
  unfolding transition is_terminal
  fail s = if is_terminal s.job then (ok tt, s) else transition w failed s

  -- the handling of what the pipeline raises
  abbrev pub after_process :
      Outcome String (List FileResult) × Ingest → Outcome IngestionError (List FileResult) × Ingest
  after_process (ok files, s) = (ok files, s)
  after_process (err message, s) = failed_with message (fail (noted message s))

  abbrev pub fresh_context : IngestionJob → List IngestionEvent → ℕ → Ingest
  fresh_context job emitted transitions = record {
    job = job;
    statistics = no_statistics;
    files = [];
    seen = [];
    emitted = emitted;
    transitions = transitions;
  }

  -- `run` of the job, from what was emitted before and the number of transitions before
  unfoldable pub run :
      Registry
      → (location source : String) → (recursive : Bool) → IngestionJob
      → List IngestionEvent
      → ℕ
      → Outcome IngestionError (List FileResult) × Ingest
  unfolding process fail contains add_warning
  run r location source recursive job emitted transitions =
      let s = fresh_context job emitted transitions in
      if contains r.sources source
      then after_process (process w source (w.discover location recursive) s)
      else (err no_source, s)
