-- ===== src/Pipeline/Registry/Order.antt =====
-- The order of the stages has the dependencies first.
use lex_mind.Pipeline.Registry.Ends.{toposort_ends}
use lex_mind.Pipeline.Registry.{
  Stage, Order, and_then, visit_each, visit_stage, visit, toposort, topological_order, keys,
  none_missing, Dict, PipelineError, missing_stage, validate_dependencies,
}
use lex_mind.Common.{
  ℕ, zero, suc, String, ◌≡◌, refl, sym, ◌∙◌, subst, inl, inr, true, false, Option, none, some, List,
  [], ◌∷◌, ◌++◌, arith, ◌==◌, eq_iff, eq_refl, length, contains, Bool-cases, contains-append, ◌⊎◌,
}
use lex_mind.Common.Effect.{ok, err}
use lex_mind.Common.Dict.{Dict, get}

module _ (stages : Dict Stage) where
  -- each id once, and after the dependencies of its stage
  pub data IsSorted : List String → Type 0 where
    empty : IsSorted []
    snoc :
        (l : List String) (id : String) (stage : Stage)
        → IsSorted l
        → get stages id ≡ some stage
        → contains l id ≡ false
        → ((d : String) → contains stage.dependencies d ≡ true → contains l d ≡ true)
        → IsSorted (l ++ id ∷ [])

  -- what visiting `ids` makes of `o`, while `visiting` is under way
  pub record Visited (visiting ids o p : List String) : Type 0 where
    pub sorted : IsSorted o → IsSorted p
    pub kept : (x : String) → contains o x ≡ true → contains p x ≡ true
    pub covered : (x : String) → contains ids x ≡ true → contains p x ≡ true
    pub apart :
        (v : String) → contains visiting v ≡ true → contains o v ≡ false → contains p v ≡ false

  abbrev Correct : (String → List String → Order) → List String → Type 0
  Correct f visiting =
      (id : String) (o p : List String) → f id o ≡ some (ok p) → Visited visiting (id ∷ []) o p

  and_then-ok :
      (m : Order) (f : List String → Order) (p : List String)
      → and_then m f ≡ some (ok p)
      → (q : List String) × (m ≡ some (ok q)) × (f q ≡ some (ok p))
  and_then-ok none f p e = cc
  and_then-ok (some (err x)) f p e = cc
  and_then-ok (some (ok q)) f p e = (q, refl, e)

  contains-one : (x y : String) → contains (x ∷ []) y ≡ (x == y)
  unfolding contains
  contains-one x y = ground arith

  visit_each-Visited :
      (f : String → List String → Order) (visiting : List String)
      → Correct f visiting
      → (l o p : List String) → visit_each f l o ≡ some (ok p)
      → Visited visiting l o p
  unfolding visit_each contains
  visit_each-Visited f visiting good [] o p e =
      let same : o ≡ p = ground arith in
      subst (Visited visiting [] o) same
        (record { sorted = λ s. s; kept = λ x h. h; covered = λ x h. cc; apart = λ v h k. k })
  visit_each-Visited f visiting good (id ∷ l) o p e =
      let (q, first, rest) = and_then-ok (f id o) (visit_each f l) p e in
      let a = good id o q first in
      let b = visit_each-Visited f visiting good l q p rest in
      record {
        sorted = λ s. b.sorted (a.sorted s);
        kept = λ x h. b.kept x (a.kept x h);
        covered = λ x h. elim (Bool-cases (id == x)) [
          | inl same ↦ b.kept x (a.covered x (contains-one id x ∙ same))
          | inr other ↦ b.covered x (rw other at h)
        ];
        apart = λ v h k. b.apart v h (a.apart v h k);
      }

  clash :
      (visiting : List String) (id v : String)
      → (id == v) ≡ true
      → contains visiting id ≡ false
      → contains visiting v ≡ true
      → ⊥
  clash visiting id v same free h =
      let held = subst (λ w. contains visiting w ≡ false) ((eq_iff id v).0 same) free in cc

  appended :
      (visiting : List String) (id : String) (o q : List String) (stage : Stage)
      → get stages id ≡ some stage
      → contains o id ≡ false
      → contains visiting id ≡ false
      → Visited (id ∷ visiting) stage.dependencies o q
      → Visited visiting (id ∷ []) o (q ++ id ∷ [])
  unfolding contains
  appended visiting id o q stage look new free a = record {
    sorted = λ s.
        IsSorted.snoc q id stage (a.sorted s) look (a.apart id (rw (eq_refl id) refl) new)
          (λ d h. a.covered d h);
    kept = λ x h. ground (arith, contains-append q (id ∷ []) x, a.kept x h);
    covered = λ x h. ground (arith, contains-append q (id ∷ []) x);
    apart = λ v h k. elim (Bool-cases (id == v)) [
      | inl same ↦ absurd (clash visiting id v same free h)
      | inr other ↦ contains-append q (id ∷ []) v ∙ rw (a.apart v (rw other h) k) (rw other refl)
    ];
  }

  already :
      (visiting : List String) (id : String) (o : List String)
      → contains o id ≡ true
      → Visited visiting (id ∷ []) o o
  already visiting id o known = record {
    sorted = λ s. s;
    kept = λ x h. h;
    covered = λ x h.
        subst (λ y. contains o y ≡ true) ((eq_iff id x).0 (sym (contains-one id x) ∙ h)) known;
    apart = λ v h k. k;
  }

  visit_stage-Visited :
      (f : String → List String → Order) (visiting : List String) (id : String) (o p : List String)
      (found : Option Stage)
      → Correct f (id ∷ visiting)
      → get stages id ≡ found
      → contains o id ≡ false
      → contains visiting id ≡ false
      → visit_stage f id o found ≡ some (ok p)
      → Visited visiting (id ∷ []) o p
  visit_stage-Visited f visiting id o p none good look new free e = cc
  visit_stage-Visited f visiting id o p (some stage) good look new free e =
      let (q, first, rest) =
        and_then-ok (visit_each f stage.dependencies o) (λ before. some (ok (before ++ id ∷ []))) p
          e in
      let same : q ++ id ∷ [] ≡ p = ground arith in
      let a = visit_each-Visited f (id ∷ visiting) good stage.dependencies o q first in
      subst (Visited visiting (id ∷ []) o) same (appended visiting id o q stage look new free a)

  visit-Visited :
      (fuel : ℕ) (visiting : List String) → Correct (visit stages fuel visiting) visiting
  unfolding visit
  visit-Visited zero visiting id o p e = cc
  visit-Visited (suc fuel) visiting id o p e = elim (Bool-cases (contains o id)) [
    | inl known ↦
        let same : o ≡ p = ground arith in
        subst (Visited visiting (id ∷ []) o) same (already visiting id o known)
    | inr new ↦ elim (Bool-cases (contains visiting id)) [
      | inl under_way ↦ absurd (ground arith)
      | inr free ↦
          visit_stage-Visited (visit stages fuel (id ∷ visiting)) visiting id o p (get stages id)
            (visit-Visited fuel (id ∷ visiting)) refl new free (rw (new, free) at e)
    ]
  ]

  toposort_sorts :
      (p : List String)
      → toposort stages ≡ some (ok p)
      → IsSorted p × ((id : String) → contains (keys stages) id ≡ true → contains p id ≡ true)
  unfolding toposort
  toposort_sorts p e =
      let v =
        visit_each-Visited (visit stages (suc (length stages)) []) []
          (visit-Visited (suc (length stages)) []) (keys stages) [] p e in
      (v.sorted empty, v.covered)

  order_cases :
      (m : Order)
      → (m ≡ none → ⊥)
      → ((p : List String)
          → m ≡ some (ok p)
          → IsSorted p × ((id : String) → contains (keys stages) id ≡ true → contains p id ≡ true))
      → ((e : PipelineError) × (m ≡ some (err e)))
        ⊎ ((p : List String) × (m ≡ some (ok p))
            × IsSorted p
            × ((id : String) → contains (keys stages) id ≡ true → contains p id ≡ true))
  order_cases none ends sorts = absurd (ends refl)
  order_cases (some (err e)) ends sorts = inl (e, refl)
  order_cases (some (ok p)) ends sorts =
      let (sorted, full) = sorts p refl in inr (p, refl, sorted, full)

  -- `topological_order` ends within its fuel: it raises, or it returns an order that has each
  -- registered stage, each id once, and each after all dependencies of its stage.
  pub topological_order-IsSorted :
      ((e : PipelineError) × (topological_order stages ≡ some (err e)))
      ⊎ ((p : List String) × (topological_order stages ≡ some (ok p))
          × IsSorted p
          × ((id : String) → contains (keys stages) id ≡ true → contains p id ≡ true))
  unfolding topological_order
  topological_order-IsSorted = elim (Bool-cases (none_missing stages stages)) [
    | inr missing ↦ inl (missing_stage, rw missing refl)
    | inl complete ↦
        rw complete (order_cases (toposort stages) (toposort_ends stages) toposort_sorts)
  ]

pub validate_dependencies-ends :
    (stages : Dict Stage)
    → ((e : PipelineError) × (validate_dependencies stages ≡ some (err e)))
      ⊎ (validate_dependencies stages ≡ some (ok tt))
unfolding validate_dependencies topological_order
validate_dependencies-ends stages = elim (topological_order-IsSorted stages) [
  | inl (e, refused) ↦ inl (e, ground (arith, refused))
  | inr (l, sorted, ids, all) ↦ inr (ground (arith, sorted))
]
