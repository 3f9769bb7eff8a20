-- ===== src/Artifacts/Graph/Search.antt =====
-- The search for a cycle decides reachability.
use lex_mind.Artifacts.Graph.{
  Edges, next, reach_loop, count_edges, would_create_cycle, contains, get,
}
use lex_mind.Common.{
  ℕ, zero, suc, ◌+◌, ◌≤◌, ◌<◌, String, ◌≡◌, refl, subst, inl, inr, Bool, true, false, ◌||◌, Option,
  some, List, [], ◌∷◌, ◌++◌, arith, ◌==◌, eq_iff, eq_refl, if◌then◌else◌, length, contains,
  Bool-cases, sym, ap, ◌∙◌, ◌⊎◌, contains-append, length-append,
}
use lex_mind.Common.Dict.{get}

-- `b` can be reached from `a` along the edges
pub data Reaches (edges : Edges) : String → String → Type 0 where
  here : {a : String} → Reaches edges a a
  step : {a b c : String} → contains (next edges a) b ≡ true → Reaches edges b c → Reaches edges a c

module _ (edges : Edges) (parent : String) where
  -- what the visited nodes and the stack satisfy: the target was not visited, and where a visited
  -- node has an edge to was visited or waits
  record IsFrontier (visited stack : List String) : Type 0 where
    missed : contains visited parent ≡ false
    closed :
        (a b : String)
        → contains visited a ≡ true
        → contains (next edges a) b ≡ true
        → (contains visited b || contains stack b) ≡ true

  -- the edges of the nodes that were not visited
  abbrev open_edges : List String → Edges → ℕ
  open_edges visited [] = 0
  open_edges visited ((a, l) ∷ rest) =
      (if contains visited a then 0 else length l) + open_edges visited rest

  open_edges-all : (rest : Edges) → open_edges [] rest ≡ count_edges rest
  unfolding contains count_edges
  open_edges-all [] = refl
  open_edges-all ((a, l) ∷ rest) = omega (arith, open_edges-all rest)

  open_edges-le :
      (visited : List String) (node : String) (rest : Edges)
      → open_edges (node ∷ visited) rest ≤ open_edges visited rest
  unfolding contains
  open_edges-le visited node [] = omega arith
  open_edges-le visited node ((a, l) ∷ rest) = ground (arith, open_edges-le visited node rest)

  -- a visit takes the node's edges away
  open_edges-visit :
      (visited : List String) (node : String) (rest : Edges)
      → contains visited node ≡ false
      → open_edges (node ∷ visited) rest + length (next rest node) ≤ open_edges visited rest
  unfolding contains next get
  open_edges-visit visited node [] new = omega arith
  open_edges-visit visited node ((a, l) ∷ rest) new = ground (
    arith,
    eq_iff a node,
    eq_iff node a,
    open_edges-visit visited node rest,
    open_edges-le visited node rest,
  )

  -- From the invariant the loop answers within the fuel, and the answer tells whether the target
  -- can be reached from the stack.
  record Answer (visited stack : List String) (r : Option Bool) : Type 0 where
    answer : Bool
    returns : r ≡ some answer
    found : answer ≡ true → (a : String) × (contains stack a ≡ true) × Reaches edges a parent
    exhausted :
        answer ≡ false
        → (final : List String) × IsFrontier final []
          × ((a : String)
              → (contains visited a || contains stack a) ≡ true
              → contains final a ≡ true)

  nothing_waits :
      (visited : List String) (a : String)
      → (contains visited a || contains [] a) ≡ true
      → contains visited a ≡ true
  unfolding contains
  nothing_waits visited a h = ground arith

  head_waits : (stack : List String) (node : String) → contains (node ∷ stack) node ≡ true
  unfolding contains
  head_waits stack node = rw (eq_refl node) refl

  tail_waits :
      (stack : List String) (node a : String)
      → contains stack a ≡ true
      → contains (node ∷ stack) a ≡ true
  unfolding contains
  tail_waits stack node a h = ground arith

  drop_seen :
      (visited stack : List String) (node b : String)
      → contains visited node ≡ true
      → (contains visited b || contains (node ∷ stack) b) ≡ true
      → (contains visited b || contains stack b) ≡ true
  unfolding contains
  drop_seen visited stack node b seen h = elim (Bool-cases (node == b)) [
    | inl same ↦ rw (subst (λ c. contains visited c ≡ true) ((eq_iff node b).0 same) seen) refl
    | inr other ↦ rw other at h
  ]

  put_seen :
      (visited stack more : List String) (node b : String)
      → (contains visited b || contains (node ∷ stack) b) ≡ true
      → (contains (node ∷ visited) b || contains (more ++ stack) b) ≡ true
  unfolding contains
  put_seen visited stack more node b h = ground (arith, contains-append more stack b)

  IsFrontier-skip :
      (visited stack : List String) (node : String)
      → contains visited node ≡ true
      → IsFrontier visited (node ∷ stack)
      → IsFrontier visited stack
  IsFrontier-skip visited stack node seen inv = record {
    missed = inv.missed;
    closed = λ a b v e. drop_seen visited stack node b seen (inv.closed a b v e);
  }

  IsFrontier-visit :
      (visited stack : List String) (node : String)
      → (node == parent) ≡ false
      → IsFrontier visited (node ∷ stack)
      → IsFrontier (node ∷ visited) (next edges node ++ stack)
  unfolding contains
  IsFrontier-visit visited stack node miss inv = record {
    missed = rw miss inv.missed;
    closed = λ a b v e. elim (Bool-cases (node == a)) [
      | inl same ↦
          let child =
            subst (λ c. contains (next edges c) b ≡ true) (sym ((eq_iff node a).0 same)) e in
          ground (arith, contains-append (next edges node) stack b)
      | inr other ↦
          put_seen visited stack (next edges node) node b (inv.closed a b (rw other at v) e)
    ];
  }

  step_back :
      (stack : List String) (node a : String)
      → contains (next edges node ++ stack) a ≡ true
      → Reaches edges a parent
      → (b : String) × (contains (node ∷ stack) b ≡ true) × Reaches edges b parent
  unfolding contains
  step_back stack node a h path = elim (Bool-cases (contains (next edges node) a)) [
    | inl child ↦ (node, rw (eq_refl node) refl, Reaches.step child path)
    | inr other ↦ (a, ground (arith, contains-append (next edges node) stack a), path)
  ]

  search :
      (fuel : ℕ) (visited stack : List String)
      → IsFrontier visited stack
      → length stack + open_edges visited edges < fuel
      → Answer visited stack (reach_loop edges parent fuel visited stack)
  unfolding reach_loop
  search zero visited stack inv enough = absurd (omega arith)
  search (suc fuel) visited [] inv enough = record {
    answer = false;
    returns = refl;
    found = λ e. cc;
    exhausted = λ _. (visited, inv, λ a h. nothing_waits visited a h);
  }
  search (suc fuel) visited (node ∷ stack) inv enough = elim (Bool-cases (node == parent)) [
    | inl hit ↦ record {
      answer = true;
      returns = rw hit refl;
      found = λ _. (
        node,
        head_waits stack node,
        subst (λ p. Reaches edges node p) ((eq_iff node parent).0 hit) Reaches.here,
      );
      exhausted = λ e. cc;
    }
    | inr miss ↦ elim (Bool-cases (contains visited node)) [
      | inl seen ↦
          let rest =
            search fuel visited stack (IsFrontier-skip visited stack node seen inv) (omega arith) in
          record {
            answer = rest.answer;
            returns = rw (miss, seen) rest.returns;
            found = λ t.
                let (a, waits, path) = rest.found t in (a, tail_waits stack node a waits, path);
            exhausted = λ f.
                let (final, inv', covers) = rest.exhausted f in
                (final, inv', λ a h. covers a (drop_seen visited stack node a seen h));
          }
      | inr new ↦
          let rest =
            search fuel (node ∷ visited) (next edges node ++ stack)
              (IsFrontier-visit visited stack node miss inv)
              (omega (
                arith,
                open_edges-visit visited node edges new,
                length-append (next edges node) stack,
              )) in
          record {
            answer = rest.answer;
            returns = rw (miss, new) rest.returns;
            found = λ t. let (a, waits, path) = rest.found t in step_back stack node a waits path;
            exhausted = λ f.
                let (final, inv', covers) = rest.exhausted f in
                (final, inv', λ a h. covers a (put_seen visited stack (next edges node) node a h));
          }
    ]
  ]

  -- what is closed under the edges and misses the target does not reach it
  closed-unreached :
      (final : List String) (a b : String)
      → IsFrontier final []
      → contains final a ≡ true
      → Reaches edges a b
      → contains final b ≡ true
  closed-unreached final a _ inv h Reaches.here = h
  closed-unreached final a c inv h (Reaches.step {b = b} e path) =
      closed-unreached final b c inv (nothing_waits final b (inv.closed a b h e)) path

-- `_would_create_cycle` ends within its fuel, and answers `true` exactly where the parent can be
-- reached from the child.
pub would_create_cycle-Reaches :
    (edges : Edges) (parent child : String)
    → ((would_create_cycle edges parent child ≡ some true) × Reaches edges child parent)
      ⊎ ((would_create_cycle edges parent child ≡ some false) × ¬ Reaches edges child parent)
unfolding would_create_cycle contains
would_create_cycle-Reaches edges parent child =
    let start : IsFrontier edges parent [] (child ∷ []) = record {
      missed = refl;
      closed = λ a b v e. cc;
    } in
    let r =
      search edges parent (suc (suc (count_edges edges))) [] (child ∷ []) start
        (omega (arith, open_edges-all edges parent edges)) in
    elim (Bool-cases r.answer) [
      | inl hit ↦
          let (a, waits, path) = r.found hit in
          let same : child ≡ a = ground (arith, eq_iff child a) in
          inl (r.returns ∙ ap some hit, subst (λ c. Reaches edges c parent) (sym same) path)
      | inr miss ↦
          let (final, inv, covers) = r.exhausted miss in
          inr (
            r.returns ∙ ap some miss,
            λ path.
                let reached =
                  closed-unreached edges parent final child parent inv
                    (covers child (rw (eq_refl child) refl)) path in
                let missed = inv.missed in cc,
          )
    ]
