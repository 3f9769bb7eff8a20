-- ===== src/Pipeline/Checkpoint.antt =====
-- backend/lexmind/pipeline/pipeline_checkpoint.py, with the store in memory.
use lex_mind.Common.{ℕ, String, Option, none, some, List, [], ◌∷◌, ◌++◌, if◌then◌else◌, contains}
use lex_mind.Common.Dict.{Dict, get, put, pop}
use lex_mind.Common.Effect.{ok, err, Outcome}
use lex_mind.Pipeline.Registry.{PipelineError, no_checkpoint}

pub record Checkpoint : Type 0 where
  pub pipeline_id : String
  pub document_id : String
  pub completed_stages : List String
  pub last_stage : Option String
  pub shared : Dict String
  pub created_at : ℕ

abbrev pub new_checkpoint : (pipeline_id document_id : String) → ℕ → Checkpoint
new_checkpoint pipeline_id document_id now = record {
  pipeline_id = pipeline_id;
  document_id = document_id;
  completed_stages = [];
  last_stage = none;
  shared = [];
  created_at = now;
}

unfoldable pub with_stage : String → Dict String → ℕ → Checkpoint → Checkpoint
with_stage stage_id shared now c = record {
  pipeline_id = c.pipeline_id;
  document_id = c.document_id;
  completed_stages =
      if contains c.completed_stages stage_id
      then c.completed_stages
      else c.completed_stages ++ stage_id ∷ [];
  last_stage = some stage_id;
  shared = shared;
  created_at = now;
}

unfoldable pub save : Checkpoint → Dict Checkpoint → Dict Checkpoint
save c store = put store c.pipeline_id c

unfoldable pub restore : String → Dict Checkpoint → Option Checkpoint
restore id store = get store id

abbrev or_none_there : Option Checkpoint → Outcome PipelineError Checkpoint
or_none_there none = err no_checkpoint
or_none_there (some c) = ok c

unfoldable pub resume : String → Dict Checkpoint → Outcome PipelineError Checkpoint
resume id store = or_none_there (get store id)

unfoldable pub reset : String → Dict Checkpoint → Dict Checkpoint
reset id store = pop store id
