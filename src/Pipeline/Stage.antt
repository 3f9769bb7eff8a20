-- ===== src/Pipeline/Stage.antt =====
-- backend/lexmind/pipeline: pipeline_stage.py, and what a stage is given and answers, from
-- pipeline_context.py and pipeline_result.py. The methods of a stage are given the number of calls
-- of stages that were made before, since a stage may have a state of its own. They read the shared
-- dictionary and the token of the context, and may change these; an exception is its text.
use lex_mind.Pipeline.Retry.{RetryPolicy}
use lex_mind.Common.{
  ℕ, String, Bool, true, false, Option, none, some, List, [], ◌∷◌, ◌==◌, ◌&&◌, if◌then◌else◌,
}
use lex_mind.Common.Dict.{Dict}
use lex_mind.Common.Effect.{Outcome}

pub data StageStatus : Type 0 where
  pending running completed failed skipped rolled_back : StageStatus

pub record StageResult : Type 0 where
  pub stage_id : String
  pub status : StageStatus
  pub success : Bool
  pub warnings : List String
  pub errors : List String
  pub metrics : Dict ℕ
  pub artifacts : Dict String
  pub execution_time_seconds : ℕ
  pub output_metadata : Dict String
  pub attempts : ℕ

-- `StageResult.failed`
unfoldable pub failed_result : String → String → StageResult
failed_result stage_id error = record {
  stage_id = stage_id;
  status = failed;
  success = false;
  warnings = [];
  errors = error ∷ [];
  metrics = [];
  artifacts = [];
  execution_time_seconds = 0;
  output_metadata = [];
  attempts = 1;
}

-- `StageResult.skipped`, with a reason that is not empty
unfoldable pub skipped_result : String → String → StageResult
skipped_result stage_id reason = record {
  stage_id = stage_id;
  status = skipped;
  success = true;
  warnings = reason ∷ [];
  errors = [];
  metrics = [];
  artifacts = [];
  execution_time_seconds = 0;
  output_metadata = [];
  attempts = 1;
}

pub record PipelineResult : Type 0 where
  pub pipeline_id : String
  pub document_id : String
  pub stage_results : List StageResult
  pub completed : Bool

unfoldable pub all_succeeded : List StageResult → Bool
all_succeeded [] = true
all_succeeded (r ∷ l) = r.success && all_succeeded l

-- `PipelineResult.succeeded`
abbrev pub succeeded : PipelineResult → Bool
succeeded r = all_succeeded r.stage_results

unfoldable pub first_with : List StageResult → String → Option StageResult
first_with [] id = none
first_with (r ∷ l) id = if r.stage_id == id then some r else first_with l id

abbrev pub result_for : PipelineResult → String → Option StageResult
result_for r id = first_with r.stage_results id

pub record CancellationToken : Type 0 where
  pub is_cancelled : Bool
  pub reason : Option String

-- `CancellationToken.cancel`
unfoldable pub cancel : Option String → CancellationToken → CancellationToken
cancel reason token = record { is_cancelled = true; reason = reason }

-- what a stage reads and changes of the context
pub record Workbench : Type 0 where
  pub shared : Dict String
  pub cancellation_token : CancellationToken

-- a raise of `PipelineCancelledError`, or of another exception
pub data RunError : Type 0 where
  cancelled : RunError
  other : String → RunError

pub record Stage : Type 0 where
  pub id : String
  pub dependencies : List String
  pub retry_policy : RetryPolicy
  pub validate : ℕ → Workbench → Outcome RunError Bool × Workbench
  pub execute : ℕ → Workbench → Outcome String StageResult × Workbench
  pub rollback : ℕ → Workbench → Outcome String (Unit {0}) × Workbench

-- the default of `Pipeline`
abbrev pub pipeline_stage_order : List String
pipeline_stage_order =
    "document_validation" ∷ "metadata_extraction" ∷ "ocr" ∷ "language_detection"
    ∷ "document_classification" ∷ "parser" ∷ "entity_extraction" ∷ "chunking" ∷ "embeddings"
    ∷ "indexing" ∷ "knowledge_graph" ∷ "timeline" ∷ "contradiction_detection"
    ∷ "search_registration" ∷ "completed" ∷ []
