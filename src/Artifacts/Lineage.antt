-- ===== src/Artifacts/Lineage.antt =====
-- backend/lexmind/artifacts/artifact_lineage.py: the ancestors and the descendants of an artifact. A
-- search runs on fuel; `none` means that the fuel ran out.
pub mod Walks
pub mod Relatives
pub mod Duality
use lex_mind.Artifacts.Graph.{Edges, DependencyGraph, next, count_edges}
use lex_mind.Common.{
  ℕ, zero, suc, String, Bool, true, false, Option, none, some, List, [], ◌∷◌, ◌++◌, if◌then◌else◌,
  contains,
}

-- what the loop of a search keeps
pub record Walk : Type 0 where
  pub visited : List String
  pub result : List String
  pub queue : List String

abbrev pub meet : String → Walk → Walk
meet node w = record {
  visited = node ∷ w.visited;
  result = w.result ++ node ∷ [];
  queue = w.queue ++ node ∷ [];
}

unfoldable pub meet_new : String → Walk → Walk
meet_new node w = if contains w.visited node then w else meet node w

-- the loop over the neighbours of a node
unfoldable pub meet_each : List String → Walk → Walk
unfolding meet_new
meet_each [] w = w
meet_each (node ∷ l) w = meet_each l (meet_new node w)

unfoldable pub walk_loop : Edges → ℕ → (visited result queue : List String) → Option (List String)
unfolding meet_each next
walk_loop edges zero visited result queue = none
walk_loop edges (suc fuel) visited result [] = some result
walk_loop edges (suc fuel) visited result (node ∷ queue) =
    let w =
      meet_each (next edges node) (record { visited = visited; result = result; queue = queue }) in
    walk_loop edges fuel w.visited w.result w.queue

-- fuel for each edge, for the first node, and for the last test
unfoldable pub relatives : Edges → String → Option (List String)
unfolding walk_loop count_edges
relatives edges a = walk_loop edges (suc (suc (count_edges edges))) [] [] (a ∷ [])

unfoldable pub ancestors : DependencyGraph → String → Option (List String)
unfolding relatives
ancestors g a = relatives g.reverse a

unfoldable pub descendants : DependencyGraph → String → Option (List String)
unfolding relatives
descendants g a = relatives g.edges a
