-- ===== src/Artifacts/Graph.antt =====
-- backend/lexmind/artifacts/artifact_dependency.py and the searches of artifact_lineage.py. A set
-- is a list of texts to which `set_add` adds what is not there. The searches run on fuel; `none`
-- means that the fuel ran out.
pub mod Search
pub mod Acyclic
pub mod Removal
use lex_mind.Common.{
  ℕ, zero, suc, ◌+◌, String, Bool, true, false, not, ◌||◌, Option, none, some, List, [], ◌∷◌, ◌++◌,
  ◌==◌, if◌then◌else◌, length, contains, filter,
}
use lex_mind.Common.Effect.{ok, err, Outcome}
use lex_mind.Common.Dict.{Dict, get, put, pop}
use lex_mind.Common.Texts.{concat, startswith, endswith}

pub record ArtifactDependency : Type 0 where
  pub parent_id : String
  pub child_id : String
  pub relationship : String
  pub pipeline_stage : String

abbrev pub Edges : Type 0
Edges = Dict (List String)

pub record DependencyGraph : Type 0 where
  pub edges : Edges
  pub reverse : Edges
  pub metadata : Dict ArtifactDependency

-- `ValueError`
pub data GraphError : Type 0 where
  self_dependency cycle : GraphError

abbrev pub or_none : Option (List String) → List String
or_none none = []
or_none (some l) = l

-- `edges.get(a, set())`
unfoldable pub next : Edges → String → List String
next edges a = or_none (get edges a)

unfoldable pub set_add : List String → String → List String
set_add l a = if contains l a then l else a ∷ l

unfoldable pub discard : List String → String → List String
discard l a = filter (λ b. not (b == a)) l

-- `edges.setdefault(a, set()).add(b)`
unfoldable pub link : Edges → String → String → Edges
unfolding next set_add
link edges a b = put edges a (set_add (next edges a) b)

-- the loop of `_would_create_cycle`, the top of the stack first
unfoldable pub reach_loop : Edges → String → ℕ → List String → List String → Option Bool
unfolding next
reach_loop edges parent zero visited stack = none
reach_loop edges parent (suc fuel) visited [] = some false
reach_loop edges parent (suc fuel) visited (node ∷ stack) =
    let skipped = reach_loop edges parent fuel visited stack in
    let expanded = reach_loop edges parent fuel (node ∷ visited) (next edges node ++ stack) in
    if node == parent then some true else if contains visited node then skipped else expanded

-- how often a search can put a node on its stack
unfoldable pub count_edges : Edges → ℕ
count_edges [] = 0
count_edges ((a, l) ∷ edges) = length l + count_edges edges

-- fuel for each edge, for the first node, and for the last test
unfoldable pub would_create_cycle : Edges → String → String → Option Bool
unfolding reach_loop count_edges
would_create_cycle edges parent child =
    reach_loop edges parent (suc (suc (count_edges edges))) [] (child ∷ [])

unfoldable pub children : DependencyGraph → String → List String
unfolding next
children g a = next g.edges a

unfoldable pub parents : DependencyGraph → String → List String
unfolding next
parents g a = next g.reverse a

abbrev pub edge_key : String → String → String
edge_key a b = concat a (concat "->" b)

abbrev pub linked : ArtifactDependency → DependencyGraph → DependencyGraph
linked dep g = record {
  edges = link g.edges dep.parent_id dep.child_id;
  reverse = link g.reverse dep.child_id dep.parent_id;
  metadata = put g.metadata (edge_key dep.parent_id dep.child_id) dep;
}

unfoldable pub add :
    ArtifactDependency → DependencyGraph → Option (Outcome GraphError DependencyGraph)
unfolding would_create_cycle link
add dep g =
    if dep.parent_id == dep.child_id
    then some (err self_dependency)
    else elim (would_create_cycle g.edges dep.parent_id dep.child_id) [
      | none ↦ none
      | some true ↦ some (err cycle)
      | some false ↦ some (ok (linked dep g))
    ]

-- `edges.get(a, set()).discard(b)`, which changes a set that is there
unfoldable pub unlink : Edges → String → String → Edges
unfolding discard
unlink edges a b = elim (get edges a) [ none ↦ edges | some l ↦ put edges a (discard l b) ]

unfoldable pub unlink_each : Edges → List String → String → Edges
unfolding unlink
unlink_each edges [] b = edges
unlink_each edges (a ∷ l) b = unlink_each (unlink edges a b) l b

abbrev pub drop_keys : String → Dict ArtifactDependency → Dict ArtifactDependency
drop_keys a = filter (λ (entry : String × ArtifactDependency).
    not (startswith entry.0 (concat a "->") || endswith entry.0 (concat "->" a)))

unfoldable pub remove : String → DependencyGraph → DependencyGraph
unfolding next unlink_each
remove a g =
    let reverse1 = unlink_each g.reverse (next g.edges a) a in
    let edges1 = pop g.edges a in
    record {
      edges = unlink_each edges1 (next reverse1 a) a;
      reverse = pop reverse1 a;
      metadata = drop_keys a g.metadata;
    }
