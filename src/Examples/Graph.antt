-- ===== src/Examples/Graph.antt =====
-- The theorems about the graph of dependencies, on a chain of three artifacts.
use lex_mind.Artifacts.Graph.{
  Edges, DependencyGraph, ArtifactDependency, GraphError, add, remove, children, would_create_cycle,
  next, parents,
}
use lex_mind.Artifacts.Graph.Search.{Reaches, would_create_cycle-Reaches}
use lex_mind.Artifacts.Graph.Acyclic.{IsAcyclic, IsMirrored, add_cases}
use lex_mind.Artifacts.Graph.Removal.{remove_edges}
use lex_mind.Artifacts.Lineage.{ancestors, descendants, relatives, walk_loop, meet_each, meet_new}
use lex_mind.Artifacts.Lineage.Relatives.{Follows, relatives_cases}
use lex_mind.Artifacts.Lineage.Duality.{ancestors-descendants}
use lex_mind.Artifacts.Graph.{count_edges}
use lex_mind.Common.{
  IsDistinct, List, ap, ◌↔◌, sym, ◌∙◌, eq_iff, Bool-cases, inl, inr, String, ◌≡◌, refl, ◌⊎◌, true,
  false, not, ◌&&◌, ◌||◌, some, [], ◌∷◌, arith, ◌==◌, contains,
}
use lex_mind.Common.Effect.{ok, err}
use lex_mind.Common.Dict.{get}

abbrev edge : String → String → ArtifactDependency
edge a b = record { parent_id = a; child_id = b; relationship = "produced_by"; pipeline_stage = "" }

abbrev empty : DependencyGraph
empty = record { edges = []; reverse = []; metadata = [] }

empty-IsAcyclic : IsAcyclic empty.edges
unfolding next get contains
empty-IsAcyclic = record { no_return = λ a b e path. cc }

empty-IsMirrored : IsMirrored empty
unfolding children parents get contains
empty-IsMirrored = record { mirror = λ a b. refl }

abbrev chain : Edges
chain = ("scan", "text" ∷ []) ∷ ("text", "entities" ∷ []) ∷ []

would_create_cycle-Reaches_example :
    ((would_create_cycle chain "entities" "scan" ≡ some true) × Reaches chain "scan" "entities")
    ⊎ ((would_create_cycle chain "entities" "scan" ≡ some false)
        × ¬ Reaches chain "scan" "entities")
would_create_cycle-Reaches_example = would_create_cycle-Reaches chain "entities" "scan"

add_cases_example :
    (Reaches [] "text" "scan" × (e : GraphError) × (add (edge "scan" "text") empty ≡ some (err e)))
    ⊎ (¬ Reaches [] "text" "scan"
        × (h : DependencyGraph) × (add (edge "scan" "text") empty ≡ some (ok h))
        × IsAcyclic h.edges
        × IsMirrored h
        × ((a b : String)
            → contains (children h a) b
              ≡ (("scan" == a && ("text" == b)) || contains (children empty a) b)))
add_cases_example = add_cases (edge "scan" "text") empty empty-IsAcyclic empty-IsMirrored

abbrev pair : DependencyGraph
pair = record {
  edges = ("scan", "text" ∷ []) ∷ [];
  reverse = ("text", "scan" ∷ []) ∷ [];
  metadata = [];
}

pair-IsMirrored : IsMirrored pair
unfolding children parents get contains
pair-IsMirrored = record { mirror = λ a b. ground arith }

the_edge : (a b : String) → contains (next pair.edges a) b ≡ true → (a ≡ "scan") × (b ≡ "text")
unfolding next get contains
the_edge a b e = elim (Bool-cases ("scan" == a)) [
  | inl from ↦ elim (Bool-cases ("text" == b)) [
    | inl to ↦ (sym ((eq_iff "scan" a).0 from), sym ((eq_iff "text" b).0 to))
    | inr other ↦ absurd (ground arith)
  ]
  | inr other ↦ absurd (ground arith)
]

stays : (x y : String) → x ≡ "text" → Reaches pair.edges x y → y ≡ "text"
stays x _ there Reaches.here = there
stays x y there (Reaches.step {b = b} e path) = stays b y (the_edge x b e).1 path

pair-IsAcyclic : IsAcyclic pair.edges
pair-IsAcyclic = record {
  no_return = λ a b e path.
      let (from, to) = the_edge a b e in
      let back : "scan" ≡ "text" = sym from ∙ stays b a to path in
      let clash : false ≡ true = ap (λ (s : String). s == "text") back in cc;
}

remove_edges_example :
    ((x y : String)
      → contains (children (remove "text" pair) x) y
        ≡ (contains (children pair x) y && not ("text" == x || (y == "text"))))
    × IsMirrored (remove "text" pair)
    × (IsAcyclic pair.edges → IsAcyclic (remove "text" pair).edges)
remove_edges_example = remove_edges pair "text" pair-IsMirrored

abbrev lineage : DependencyGraph
lineage = record {
  edges = ("scan", "text" ∷ []) ∷ ("text", "entities" ∷ []) ∷ [];
  reverse = ("text", "scan" ∷ []) ∷ ("entities", "text" ∷ []) ∷ [];
  metadata = [];
}

ancestors-lineage : ancestors lineage "entities" ≡ some ("text" ∷ "scan" ∷ [])
unfolding ancestors relatives walk_loop meet_each meet_new next get contains count_edges
ancestors-lineage = refl

relatives_cases_example :
    ((l : List String) × (ancestors lineage "entities" ≡ some l)
      × IsDistinct l
      × ((b : String) → (contains l b ≡ true) ↔ Follows lineage.reverse "entities" b))
    × ((l : List String) × (descendants lineage "entities" ≡ some l)
        × IsDistinct l
        × ((b : String) → (contains l b ≡ true) ↔ Follows lineage.edges "entities" b))
relatives_cases_example = relatives_cases lineage "entities"

ancestors-descendants_example :
    (up : List String) × (down : List String) × (ancestors pair "text" ≡ some up)
    × (descendants pair "scan" ≡ some down)
    × (contains up "scan" ≡ contains down "text")
    × (contains up "text" ≡ false)
    × (contains down "scan" ≡ false)
ancestors-descendants_example =
    ancestors-descendants pair "scan" "text" pair-IsMirrored pair-IsAcyclic
