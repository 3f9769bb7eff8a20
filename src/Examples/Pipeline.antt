-- ===== src/Examples/Pipeline.antt =====
-- The theorem about the order of the stages, on three of them.
use lex_mind.Pipeline.Registry.{
  PipelineError, topological_order, keys, toposort, visit, visit_each, none_missing,
}
use lex_mind.Pipeline.Stage.{Stage, skipped_result}
use lex_mind.Pipeline.Retry.{no_retry}
use lex_mind.Pipeline.Registry.Order.{IsSorted, topological_order-IsSorted}
use lex_mind.Common.{String, ◌≡◌, ◌⊎◌, true, some, List, [], ◌∷◌, contains, refl}
use lex_mind.Common.Effect.{ok, err}
use lex_mind.Common.Dict.{Dict, get}

-- a stage that does its work at once
abbrev plain : String → List String → Stage
plain id dependencies = record {
  id = id;
  dependencies = dependencies;
  retry_policy = no_retry;
  validate = λ n bench. (ok true, bench);
  execute = λ n bench. (ok (skipped_result id "nothing to do"), bench);
  rollback = λ n bench. (ok tt, bench);
}

abbrev stages : Dict Stage
stages =
    ("parser", plain "parser" ("ocr" ∷ []))
    ∷ ("ocr", plain "ocr" ("validation" ∷ []))
    ∷ ("validation", plain "validation" [])
    ∷ []

topological_order-IsSorted_example :
    ((e : PipelineError) × (topological_order stages ≡ some (err e)))
    ⊎ ((p : List String) × (topological_order stages ≡ some (ok p))
        × IsSorted stages p
        × ((id : String) → contains (keys stages) id ≡ true → contains p id ≡ true))
topological_order-IsSorted_example = topological_order-IsSorted stages

-- the order that comes out
stages_in_order : topological_order stages ≡ some (ok ("validation" ∷ "ocr" ∷ "parser" ∷ []))
unfolding topological_order toposort visit visit_each none_missing contains get
stages_in_order = refl
