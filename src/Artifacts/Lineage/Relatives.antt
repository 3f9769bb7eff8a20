-- ===== src/Artifacts/Lineage/Relatives.antt =====
-- The ancestors and the descendants of an artifact are what can be reached from it.
use lex_mind.Artifacts.Graph.{Edges, DependencyGraph, next, count_edges}
use lex_mind.Artifacts.Graph.Search.{Reaches}
use lex_mind.Artifacts.Lineage.{Walk, meet_each, walk_loop, relatives, ancestors, descendants}
use lex_mind.Artifacts.Lineage.Walks.{
  open_targets, open_targets-all, meet_each-visited, meet_each-queue, meet_each-IsSame,
  meet_each-IsDistinct, meet_each-bound,
}
use lex_mind.Common.{
  ℕ, zero, suc, ◌+◌, ◌<◌, String, true, ◌||◌, ◌≡◌, ◌↔◌, refl, sym, subst, inl, inr, Option, some,
  List, [], ◌∷◌, arith, ◌==◌, eq_iff, eq_refl, length, contains, Bool-cases, IsDistinct, ◌∙◌,
}

-- there is a path of one edge or more
abbrev pub Follows : Edges → String → String → Type 0
Follows edges a b = (c : String) × (contains (next edges a) c ≡ true) × Reaches edges c b

module _ (edges : Edges) (a : String) where
  pub Reaches-snoc :
      (b x y : String) → Reaches edges b x → contains (next edges x) y ≡ true → Reaches edges b y
  Reaches-snoc b _ y Reaches.here e = Reaches.step e Reaches.here
  Reaches-snoc b x y (Reaches.step {b = c} first path) e =
      Reaches.step first (Reaches-snoc c x y path e)

  -- what the loop keeps: what was found follows the start, and what follows the start in one step, or a
  -- node that was visited, was visited too, unless that node waits
  record IsWalk (w : Walk) : Type 0 where
    same : (x : String) → contains w.result x ≡ contains w.visited x
    distinct : IsDistinct w.result
    waits : (x : String) → contains w.queue x ≡ true → (a == x || contains w.visited x) ≡ true
    found : (x : String) → contains w.visited x ≡ true → Follows edges a x
    closed :
        (x y : String)
        → (a == x || contains w.visited x) ≡ true
        → contains (next edges x) y ≡ true
        → (contains w.visited y || contains w.queue x) ≡ true

  Follows-next :
      (x y : String) (visited : List String)
      → (a == x || contains visited x) ≡ true
      → (contains visited x ≡ true → Follows edges a x)
      → contains (next edges x) y ≡ true
      → Follows edges a y
  Follows-next x y visited known found e = elim (Bool-cases (a == x)) [
    | inl start ↦
        let same = (eq_iff a x).0 start in
        (y, subst (λ c. contains (next edges c) y ≡ true) (sym same) e, Reaches.here)
    | inr other ↦
        let (c, first, path) = found (rw other at known) in (c, first, Reaches-snoc c x y path e)
  ]

  visit-IsWalk :
      (node : String) (queue : List String) (w : Walk)
      → w.queue ≡ queue
      → IsWalk (record w { queue = node ∷ queue })
      → IsWalk (meet_each (next edges node) w)
  unfolding contains
  visit-IsWalk node queue w rest h =
      let seen = meet_each-visited (next edges node) w in
      let after = meet_each-queue (next edges node) w in
      let there : (a == node || contains w.visited node) ≡ true =
        h.waits node (rw (eq_refl node) refl) in
      record {
        same = meet_each-IsSame (next edges node) w h.same;
        distinct = meet_each-IsDistinct (next edges node) w h.same h.distinct;
        waits = λ x q. ground (arith, seen x, after x, h.waits x, rest);
        found = λ x v. elim (Bool-cases (contains w.visited x)) [
          | inl old ↦ h.found x old
          | inr new ↦ Follows-next node x w.visited there (h.found node) (ground (arith, seen x))
        ];
        closed = λ x y v e. elim (Bool-cases (node == x)) [
          | inl same ↦
              let child =
                subst (λ c. contains (next edges c) y ≡ true) (sym ((eq_iff node x).0 same)) e in
              ground (arith, seen y)
          | inr other ↦ ground (arith, seen x, seen y, after x, h.closed x y, rest)
        ];
      }

  -- the result is complete where nothing waits
  record Answer (r : Option (List String)) : Type 0 where
    answer : List String
    returns : r ≡ some answer
    distinct : IsDistinct answer
    found : (x : String) → contains answer x ≡ true → Follows edges a x
    closed :
        (x y : String)
        → (a == x || contains answer x) ≡ true
        → contains (next edges x) y ≡ true
        → contains answer y ≡ true

  walk :
      (fuel : ℕ) (visited result queue : List String)
      → IsWalk (record { visited = visited; result = result; queue = queue })
      → length queue + open_targets visited edges < fuel
      → Answer (walk_loop edges fuel visited result queue)
  unfolding walk_loop contains
  walk zero visited result queue h enough = absurd (omega arith)
  walk (suc fuel) visited result [] h enough = record {
    answer = result;
    returns = refl;
    distinct = h.distinct;
    found = λ x r. h.found x (sym (h.same x) ∙ r);
    closed = λ x y r e. ground (arith, h.same x, h.same y, h.closed x y);
  }
  walk (suc fuel) visited result (node ∷ queue) h enough =
      let w : Walk = record { visited = visited; result = result; queue = queue } in
      let w' = meet_each (next edges node) w in
      let bound = meet_each-bound edges node (next edges node) w (λ x m. m) in
      walk fuel w'.visited w'.result w'.queue (visit-IsWalk node queue w refl h)
        (omega (arith, bound))

  closed-Reaches :
      (r : Option (List String)) (h : Answer r) (b c : String)
      → contains h.answer b ≡ true
      → Reaches edges b c
      → contains h.answer c ≡ true
  closed-Reaches r h b _ there Reaches.here = there
  closed-Reaches r h b c there (Reaches.step {b = d} e path) =
      closed-Reaches r h d c (h.closed b d (ground arith) e) path

  pub relatives-Follows :
      (l : List String) × (relatives edges a ≡ some l)
      × IsDistinct l
      × ((b : String) → (contains l b ≡ true) ↔ Follows edges a b)
  unfolding contains relatives
  relatives-Follows =
      let start : IsWalk (record { visited = []; result = []; queue = a ∷ [] }) = record {
        same = λ x. refl;
        distinct = IsDistinct.none_yet;
        waits = λ x q. q;
        found = λ x v. absurd cc;
        closed = λ x y v e. ground arith;
      } in
      let h =
        walk (suc (suc (count_edges edges))) [] [] (a ∷ []) start
          (omega (arith, open_targets-all edges)) in
      (
        h.answer,
        h.returns,
        h.distinct,
        λ b. (
          h.found b,
          λ (c, e, path). closed-Reaches _ h c b (h.closed a c (rw (eq_refl a) refl) e) path,
        ),
      )

-- `ancestors` and `descendants` end within their fuel, on any graph. Each lists without repetition the
-- artifacts that can be reached by one edge or more: the one against the edges, the other along them.
pub relatives_cases :
    (g : DependencyGraph) (a : String)
    → ((l : List String) × (ancestors g a ≡ some l)
        × IsDistinct l
        × ((b : String) → (contains l b ≡ true) ↔ Follows g.reverse a b))
      × ((l : List String) × (descendants g a ≡ some l)
          × IsDistinct l
          × ((b : String) → (contains l b ≡ true) ↔ Follows g.edges a b))
unfolding ancestors descendants
relatives_cases g a = (relatives-Follows g.reverse a, relatives-Follows g.edges a)
