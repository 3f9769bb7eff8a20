-- ===== src/Ingestion/Pipeline.antt =====
-- backend/lexmind/ingestion/ingestion_pipeline.py, with ingestion_result.py, ingestion_statistics.py and
-- duplicate_detector.py. What the files and the sources answer is a parameter, and so is whether a
-- subscriber of an event cancels the job, through the manager, while the event is published. What `publish`
-- raises is a parameter for import_failed, `refuses`; for the other events it does not raise.
pub mod Accounts
pub mod Entries
pub mod Totals
pub mod Balance
use lex_mind.Ingestion.Job.{
  IngestionJob, JobState, discovering, validating, importing, completed, cancelled, state_eq,
  transition_to, is_terminal,
}
use lex_mind.Ingestion.Mime.{FileCategory}
use lex_mind.Common.{
  ℕ, ◌+◌, String, Bool, true, false, Option, none, some, List, [], ◌∷◌, ◌++◌, if◌then◌else◌, length,
  contains, filter, eqb,
}
use lex_mind.Common.Effect.{ok, err, pure, raise, modify, Outcome, Action, after, ◌>>=◌, ◌>>◌}

pub data FileOutcome : Type 0 where
  imported duplicate unsupported rejected error : FileOutcome

abbrev pub outcome_eq : FileOutcome → FileOutcome → Bool
outcome_eq imported imported = true
outcome_eq duplicate duplicate = true
outcome_eq unsupported unsupported = true
outcome_eq rejected rejected = true
outcome_eq error error = true
outcome_eq _ _ = false

pub record DiscoveredFile : Type 0 where
  pub path : String
  pub size_bytes : ℕ
  pub mime_type : String
  pub category : FileCategory

pub record FileResult : Type 0 where
  pub path : String
  pub outcome : FileOutcome
  pub checksum : Option String
  pub mime_type : Option String
  pub message : Option String

-- `IngestionResult.count`
unfoldable pub count : FileOutcome → List FileResult → ℕ
count outcome files = length (filter (λ (r : FileResult). outcome_eq r.outcome outcome) files)

pub record IngestionStatistics : Type 0 where
  pub total_files : ℕ
  pub imported : ℕ
  pub skipped : ℕ
  pub duplicates : ℕ
  pub unsupported : ℕ
  pub errors : ℕ

abbrev pub no_statistics : IngestionStatistics
no_statistics = record {
  total_files = 0;
  imported = 0;
  skipped = 0;
  duplicates = 0;
  unsupported = 0;
  errors = 0;
}

-- ingestion_events.py, with the payloads that the pipeline and the manager give
pub data IngestionEvent : Type 0 where
  import_started : (job_id source : String) → IngestionEvent
  import_progress : (job_id : String) → (progress : ℕ × ℕ) → IngestionEvent
  file_discovered : (job_id path : String) → IngestionEvent
  file_validated : (path : String) → IngestionEvent
  file_rejected duplicate_detected : (path detail : String) → IngestionEvent
  import_completed : (job_id : String) → IngestionEvent
  import_failed : (job_id error : String) → IngestionEvent

-- what a run reads: the clock at the n-th transition, the files that a source yields, with what it
-- raises after them, if it does, the checks of a path, and the checksum of a file. `cancels n`:
-- whether the job is cancelled while the n-th event is published.
pub record Surroundings : Type 0 where
  pub now : ℕ → ℕ
  pub cancels : ℕ → Bool
  pub discover : (location : String) → (recursive : Bool) → List DiscoveredFile × Option String
  pub validate : String → Outcome String (Unit {0})
  pub is_supported : String → Bool
  pub sha256_file : String → Outcome String String
  pub refuses : (message : String) → Option String

-- the job, and what the context holds: the statistics, the result, and the checksums that were seen
pub record Ingest : Type 0 where
  pub job : IngestionJob
  pub statistics : IngestionStatistics
  pub files : List FileResult
  pub seen : List String
  pub emitted : List IngestionEvent
  pub transitions : ℕ

abbrev pub Stage : Type 0 → Type 0
Stage A = Action String Ingest A

module _ (w : Surroundings) where
  abbrev pub moved : Ingest → Outcome String IngestionJob → Outcome String (Unit {0}) × Ingest
  moved s (err e) = (err e, s)
  moved s (ok job) = (ok tt, record s { job = job; transitions = s.transitions + 1 })

  -- `job.transition_to`
  unfoldable pub transition : JobState → Stage (Unit {0})
  unfolding transition_to
  transition target s = moved s (transition_to target (w.now s.transitions) s.job)

  -- `IngestionManager.cancel_job` of the job at hand
  unfoldable pub cancel_job : Stage (Unit {0})
  unfolding transition is_terminal
  cancel_job s = if is_terminal s.job then (ok tt, s) else transition cancelled s

  unfoldable pub emit : IngestionEvent → Ingest → Ingest
  unfolding cancel_job
  emit e s =
      let told = record s { emitted = s.emitted ++ e ∷ [] } in
      if w.cancels (length s.emitted) then (cancel_job told).1 else told

  abbrev pub announce : IngestionEvent → Stage (Unit {0})
  announce e = modify (emit e)

  unfoldable pub add_file : FileResult → Ingest → Ingest
  add_file r s = record s { files = s.files ++ r ∷ [] }

  abbrev pub counted : (IngestionStatistics → IngestionStatistics) → Ingest → Ingest
  counted f s = record s { statistics = f s.statistics }

  abbrev pub reject : DiscoveredFile → String → Ingest → Ingest
  reject file reason s = emit (file_rejected file.path reason) (
      add_file
        (record {
          path = file.path;
          outcome = rejected;
          checksum = none;
          mime_type = none;
          message = some reason;
        })
        (record (counted (λ st. record st { errors = st.errors + 1 }) s) {
          job = record s.job { files_failed = s.job.files_failed + 1 };
        }))

  abbrev pub pass_over : DiscoveredFile → Ingest → Ingest
  pass_over file s =
      add_file
        (record {
          path = file.path;
          outcome = unsupported;
          checksum = none;
          mime_type = some file.mime_type;
          message = some "Unsupported file type.";
        })
        (counted (λ st. record st { unsupported = st.unsupported + 1 }) s)

  abbrev pub result_with : FileOutcome → DiscoveredFile → String → FileResult
  result_with outcome file checksum = record {
    path = file.path;
    outcome = outcome;
    checksum = some checksum;
    mime_type = some file.mime_type;
    message = none;
  }

  -- `check_and_register` and what follows
  abbrev pub register : DiscoveredFile → String → Ingest → Ingest
  register file checksum s =
      if contains s.seen checksum
      then emit (duplicate_detected file.path checksum) (
          add_file (result_with duplicate file checksum)
            (counted (λ st. record st { duplicates = st.duplicates + 1 }) s))
      else add_file (result_with imported file checksum)
          (record (counted (λ st. record st { imported = st.imported + 1 }) s) {
            seen = checksum ∷ s.seen;
          })

  abbrev pub hashed : DiscoveredFile → Outcome String String → Stage (Unit {0})
  hashed file (err e) s = (err e, s)
  hashed file (ok checksum) s = (ok tt, register file checksum s)

  abbrev pub checked : DiscoveredFile → Outcome String (Unit {0}) → Stage (Unit {0})
  checked file (err reason) s = (ok tt, reject file reason s)
  checked file (ok tt) s =
      let told = emit (file_validated file.path) s in
      if w.is_supported file.path
      then hashed file (w.sha256_file file.path) told
      else (ok tt, pass_over file told)

  -- `_process_file`
  unfoldable pub process_file : DiscoveredFile → Stage (Unit {0})
  unfolding emit add_file
  process_file file = checked file (w.validate file.path)

  -- what follows `_process_file` in the loop
  unfoldable pub progressed : ℕ → ℕ → Ingest → Ingest
  unfolding emit
  progressed index total s =
      let job = record s.job {
        files_processed = s.job.files_processed + 1;
        progress = (index, total);
      } in
      emit (import_progress job.job_id job.progress) (record s { job = job })

  -- the loop over the files; `index` files were processed before
  unfoldable pub files_loop : ℕ → ℕ → List DiscoveredFile → Stage (Unit {0})
  unfolding process_file progressed
  files_loop total index [] s = (ok tt, s)
  files_loop total index (file ∷ l) s =
      if state_eq s.job.state cancelled
      then (ok tt, s)
      else after (process_file file s)
          (λ _ t. files_loop total (index + 1) l (progressed (index + 1) total t))

  abbrev pub discovery_end : Option String → Stage (Unit {0})
  discovery_end none s = (ok tt, s)
  discovery_end (some e) s = (err e, s)

  abbrev pub announce_each : List DiscoveredFile → Ingest → Ingest
  announce_each [] s = s
  announce_each (file ∷ l) s = announce_each l (emit (file_discovered s.job.job_id file.path) s)

  -- `_discover`
  unfoldable pub discover : List DiscoveredFile × Option String → Stage (List DiscoveredFile)
  unfolding emit
  discover (found, e) = do modify (announce_each found); discovery_end e; pure found

  -- `if not job.is_terminal: job.transition_to(JobState.COMPLETED)`
  unfoldable pub complete : Stage (Unit {0})
  unfolding transition is_terminal
  complete s = if is_terminal s.job then (ok tt, s) else transition completed s

  -- `process`, from the name of the source and what it yields
  unfoldable pub process : String → List DiscoveredFile × Option String → Stage (List FileResult)
  unfolding emit transition discover files_loop complete
  process source yielded s =
      (do
        announce (import_started s.job.job_id source)
        transition discovering
        found ← discover yielded
        modify (counted (λ st. record st { total_files = length found }))
        transition validating
        transition importing
        files_loop (length found) 0 found
        complete
        announce (import_completed s.job.job_id)
        (λ t. (ok t.files, t)))
        s
