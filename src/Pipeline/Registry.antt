-- ===== src/Pipeline/Registry.antt =====
-- backend/lexmind/pipeline/pipeline_registry.py. Of a stage the registry reads the id and the
-- dependencies. The recursion of `_toposort` runs on fuel; `none` means that the fuel ran out.
pub mod Ends
pub mod Order
use lex_mind.Common.{
  ℕ, zero, suc, String, Bool, true, ◌&&◌, Option, none, some, List, [], ◌∷◌, ◌++◌, map,
  if◌then◌else◌, length, contains,
}
use lex_mind.Pipeline.Stage.{Stage}
use lex_mind.Common.Effect.{ok, err, Outcome}
use lex_mind.Common.Dict.{Dict, has, pop, get, put}

-- DuplicateStageError, StageNotFoundError, and StageDependencyError for a missing stage and for a
-- cycle, and CheckpointError; `key_error` is `KeyError`
pub data PipelineError : Type 0 where
  duplicate_stage stage_not_found missing_stage cycle no_checkpoint key_error : PipelineError

unfoldable pub register : Stage → Dict Stage → Outcome PipelineError (Dict Stage)
register stage stages =
    if has stages stage.id then err duplicate_stage else ok (put stages stage.id stage)

unfoldable pub unregister : String → Dict Stage → Dict Stage
unregister id stages = pop stages id

abbrev or_not_found : Option Stage → Outcome PipelineError Stage
or_not_found none = err stage_not_found
or_not_found (some stage) = ok stage

-- `PipelineRegistry.get`
unfoldable pub get_stage : String → Dict Stage → Outcome PipelineError Stage
get_stage id stages = or_not_found (get stages id)

abbrev pub all_known : Dict Stage → List String → Bool
all_known stages [] = true
all_known stages (d ∷ l) = has stages d && all_known stages l

-- `_check_missing`: whether it does not raise
unfoldable pub none_missing : Dict Stage → Dict Stage → Bool
none_missing stages [] = true
none_missing stages ((id, stage) ∷ rest) =
    all_known stages stage.dependencies && none_missing stages rest

-- what `visit` makes of the ids in order. They are also the visited ones; `visiting` is what the
-- calls around it are at.
abbrev pub Order : Type 0
Order = Option (Outcome PipelineError (List String))

abbrev pub and_then : Order → (List String → Order) → Order
and_then none f = none
and_then (some (err e)) f = some (err e)
and_then (some (ok ordered)) f = f ordered

-- a loop that visits each id
unfoldable pub visit_each : (String → List String → Order) → List String → List String → Order
visit_each visit [] ordered = some (ok ordered)
visit_each visit (id ∷ l) ordered = and_then (visit id ordered) (visit_each visit l)

-- the visit of a stage that was looked up
abbrev pub visit_stage :
    (String → List String → Order) → String → List String → Option Stage → Order
visit_stage visit id ordered none = some (err key_error)
visit_stage visit id ordered (some stage) =
    and_then (visit_each visit stage.dependencies ordered) (λ before. some (ok (before ++ id ∷ [])))

unfoldable pub visit : Dict Stage → ℕ → List String → String → List String → Order
unfolding visit_each
visit stages zero visiting id ordered = none
visit stages (suc fuel) visiting id ordered =
    let deeper = visit_stage (visit stages fuel (id ∷ visiting)) id ordered (get stages id) in
    if contains ordered id
    then some (ok ordered)
    else if contains visiting id
    then some (err cycle)
    else deeper

abbrev pub keys : Dict Stage → List String
keys stages = map (λ (entry : String × Stage). entry.0) stages

-- fuel for each stage, and for the call that finds a cycle
unfoldable pub toposort : Dict Stage → Order
unfolding visit visit_each
toposort stages = visit_each (visit stages (suc (length stages)) []) (keys stages) []

unfoldable pub topological_order : Dict Stage → Order
unfolding none_missing toposort
topological_order stages =
    if none_missing stages stages then toposort stages else some (err missing_stage)

abbrev pub as_check : Order → Option (Outcome PipelineError (Unit {0}))
as_check none = none
as_check (some (err e)) = some (err e)
as_check (some (ok ordered)) = some (ok tt)

unfoldable pub validate_dependencies : Dict Stage → Option (Outcome PipelineError (Unit {0}))
unfolding none_missing toposort
validate_dependencies stages =
    if none_missing stages stages then as_check (toposort stages) else some (err missing_stage)

-- `PipelineRegistry.all`
abbrev pub all_stages : Dict Stage → List Stage
all_stages stages = map (λ (entry : String × Stage). entry.1) stages
