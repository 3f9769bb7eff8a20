-- ===== src/Artifacts/Graph/Acyclic.antt =====
-- What `add` keeps: no cycle, and the same edges in both directions.
use lex_mind.Artifacts.Graph.{
  Edges, next, link, set_add, DependencyGraph, ArtifactDependency, add, linked, children, parents,
  cycle, self_dependency, contains, put, GraphError,
}
use lex_mind.Artifacts.Graph.Search.{Reaches, would_create_cycle-Reaches}
use lex_mind.Common.{
  String, ◌≡◌, ◌⊎◌, inl, true, ◌&&◌, ◌||◌, List, arith, ◌==◌, if◌then◌else◌, contains, refl, sym,
  ap, ◌∙◌, subst, inr, some, eq_iff, Bool-cases,
}
use lex_mind.Common.Dict.{put, get-put}
use lex_mind.Common.Effect.{ok, err}

-- no edge leads from a node to one that leads back
pub record IsAcyclic (edges : Edges) : Type 0 where
  pub no_return : (a b : String) → contains (next edges a) b ≡ true → ¬ Reaches edges b a

-- `b` is a child of `a` exactly where `a` is a parent of `b`
pub record IsMirrored (g : DependencyGraph) : Type 0 where
  pub mirror : (a b : String) → contains (children g a) b ≡ contains (parents g b) a

contains-set_add :
    (l : List String) (a b : String) → contains (set_add l a) b ≡ (a == b || contains l b)
unfolding contains set_add
contains-set_add l a b = elim (Bool-cases (contains l a)) [
  | inl known ↦ rw known (elim (Bool-cases (a == b)) [
    | inl same ↦ rw same (subst (λ c. contains l c ≡ true) ((eq_iff a b).0 same) known)
    | inr other ↦ rw other refl
  ])
  | inr new ↦ rw new refl
]

pub next-put :
    (edges : Edges) (k a : String) (l : List String)
    → next (put edges k l) a ≡ (if k == a then l else next edges a)
unfolding next
next-put edges k a l = ground (arith, get-put edges k a l)

-- a linked edge, and no other, is new
link-edge :
    (edges : Edges) (p c a b : String)
    → contains (next (link edges p c) a) b ≡ ((p == a && (c == b)) || contains (next edges a) b)
unfolding link
link-edge edges p c a b = elim (Bool-cases (p == a)) [
  | inl same ↦
      subst (λ m. contains m b ≡ ((p == a && (c == b)) || contains (next edges a) b))
        (sym (next-put edges p a (set_add (next edges p) c)))
        (rw same (
          subst (λ q. contains (set_add (next edges p) c) b ≡ (c == b || contains (next edges q) b))
            ((eq_iff p a).0 same) (contains-set_add (next edges p) c b)))
  | inr other ↦
      ap (λ m. contains m b) (next-put edges p a (set_add (next edges p) c)) ∙ rw other refl
]

link-edge_cases :
    (edges : Edges) (p c a b : String)
    → contains (next (link edges p c) a) b ≡ true
    → ((p ≡ a) × (c ≡ b)) ⊎ (contains (next edges a) b ≡ true)
link-edge_cases edges p c a b e =
    let split : ((p == a && (c == b)) || contains (next edges a) b) ≡ true =
      sym (link-edge edges p c a b) ∙ e in
    elim (Bool-cases (contains (next edges a) b)) [
      | inl old ↦ inr old
      | inr new ↦
          let first : (p == a) ≡ true = ground arith in
          let second : (c == b) ≡ true = ground arith in
          inl ((eq_iff p a).0 first, (eq_iff c b).0 second)
    ]

Reaches-append :
    {edges : Edges} {a b c : String} → Reaches edges a b → Reaches edges b c → Reaches edges a c
Reaches-append Reaches.here q = q
Reaches-append (Reaches.step e p) q = Reaches.step e (Reaches-append p q)

-- a path after a link is an old one, or goes over the new edge
Reaches-link :
    (edges : Edges) (p c : String) {a b : String}
    → Reaches (link edges p c) a b
    → Reaches edges a b ⊎ (Reaches edges a p × Reaches edges c b)
Reaches-link edges p c Reaches.here = inl Reaches.here
Reaches-link edges p c (Reaches.step {a} {b} {c = d} e path) =
    elim (link-edge_cases edges p c a b e) [
      | inl (from, to) ↦ elim (Reaches-link edges p c path) [
        | inl old ↦ inr (
          subst (λ q. Reaches edges a q) (sym from) Reaches.here,
          subst (λ q. Reaches edges q d) (sym to) old,
        )
        | inr (before, after) ↦ inr (subst (λ q. Reaches edges a q) (sym from) Reaches.here, after)
      ]
      | inr known ↦ elim (Reaches-link edges p c path) [
        | inl old ↦ inl (Reaches.step known old)
        | inr (before, after) ↦ inr (Reaches.step known before, after)
      ]
    ]

link-IsAcyclic :
    (edges : Edges) (p c : String)
    → IsAcyclic edges
    → ¬ Reaches edges c p
    → IsAcyclic (link edges p c)
link-IsAcyclic edges p c acyclic apart = record {
  no_return = λ a b e path. elim (link-edge_cases edges p c a b e) [
    | inl (from, to) ↦
        let back =
          subst (λ q. Reaches (link edges p c) q p) (sym to)
            (subst (λ q. Reaches (link edges p c) b q) (sym from) path) in
        elim (Reaches-link edges p c back) [
          | inl old ↦ apart old
          | inr (before, after) ↦ apart before
        ]
    | inr known ↦ elim (Reaches-link edges p c path) [
      | inl old ↦ acyclic.no_return a b known old
      | inr (before, after) ↦ apart (Reaches-append after (Reaches.step known before))
    ]
  ];
}

linked-mirror :
    (dep : ArtifactDependency) (g : DependencyGraph)
    → IsMirrored g
    → (a b : String)
    → contains (children (linked dep g) a) b ≡ contains (parents (linked dep g) b) a
unfolding children parents
linked-mirror dep g mirrored a b =
    let old = mirrored.mirror a b in
    link-edge g.edges dep.parent_id dep.child_id a b
    ∙ ground arith
    ∙ sym (link-edge g.reverse dep.child_id dep.parent_id b a)

-- `add` of an edge whose child reaches its parent, an edge of a node to itself among them, raises.
-- Any other edge is added to a mirrored graph without a cycle, and no more: the graph stays without
-- a cycle, and mirrored.
pub add_cases :
    (dep : ArtifactDependency) (g : DependencyGraph)
    → IsAcyclic g.edges
    → IsMirrored g
    → (Reaches g.edges dep.child_id dep.parent_id × (e : GraphError) × (add dep g ≡ some (err e)))
      ⊎ (¬ Reaches g.edges dep.child_id dep.parent_id
          × (h : DependencyGraph) × (add dep g ≡ some (ok h))
          × IsAcyclic h.edges
          × IsMirrored h
          × ((a b : String)
              → contains (children h a) b
                ≡ ((dep.parent_id == a && (dep.child_id == b)) || contains (children g a) b)))
unfolding add children parents
add_cases dep g acyclic mirrored = elim (Bool-cases (dep.parent_id == dep.child_id)) [
  | inl same ↦ inl (
    subst (λ q. Reaches g.edges q dep.parent_id) ((eq_iff dep.parent_id dep.child_id).0 same)
        Reaches.here,
    self_dependency,
    rw same refl,
  )
  | inr other ↦ elim (would_create_cycle-Reaches g.edges dep.parent_id dep.child_id) [
    | inl (found, path) ↦ inl (path, cycle, rw (other, found) refl)
    | inr (missed, apart) ↦ inr (
      apart,
      linked dep g,
      rw (other, missed) refl,
      link-IsAcyclic g.edges dep.parent_id dep.child_id acyclic apart,
      record { mirror = λ a b. linked-mirror dep g mirrored a b },
      λ a b. link-edge g.edges dep.parent_id dep.child_id a b,
    )
  ]
]
