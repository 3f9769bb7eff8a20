-- ===== src/Artifacts/Graph/Removal.antt =====
-- What `remove` leaves of the edges.
use lex_mind.Artifacts.Graph.{
  Edges, next, unlink, unlink_each, or_none, discard, DependencyGraph, remove, children, parents,
  contains, get, pop, filter, put,
}
use lex_mind.Artifacts.Graph.Search.{Reaches}
use lex_mind.Artifacts.Graph.Acyclic.{IsAcyclic, IsMirrored, next-put}
use lex_mind.Common.{
  String, ◌≡◌, refl, sym, ap, ◌∙◌, subst, inl, inr, Bool, true, not, ◌&&◌, ◌||◌, Option, none, some,
  List, [], ◌∷◌, arith, ◌==◌, eq_iff, if◌then◌else◌, contains, Bool-cases, Option-cases, filter,
}
use lex_mind.Common.Dict.{get, pop, get-pop, put}

-- the sets that `discard` and `pop` leave
contains-discard :
    (l : List String) (a b : String) → contains (discard l a) b ≡ (contains l b && not (b == a))
unfolding contains discard filter
contains-discard [] a b = refl
contains-discard (c ∷ l) a b =
    ground (arith, eq_iff c b, eq_iff c a, eq_iff b a, contains-discard l a b)

unlink_absent : (edges : Edges) (a b : String) → get edges a ≡ none → unlink edges a b ≡ edges
unfolding unlink
unlink_absent edges a b h = rw (h, unlink) refl

unlink_present :
    (edges : Edges) (a b : String) (l : List String)
    → get edges a ≡ some l
    → unlink edges a b ≡ put edges a (discard l b)
unfolding unlink
unlink_present edges a b l h = rw (h, unlink) refl

next_of :
    (edges : Edges) (a : String) (o : Option (List String))
    → get edges a ≡ o
    → next edges a ≡ or_none o
unfolding next
next_of edges a o h = ap or_none h

discarded_edge :
    (m l : List String) (a b x y : String)
    → (a ≡ x → m ≡ l)
    → contains (if a == x then discard l b else m) y ≡ (contains m y && not (a == x && (y == b)))
discarded_edge m l a b x y same = elim (Bool-cases (a == x)) [
  | inl here ↦ rw here (contains-discard l b y ∙ rw (same ((eq_iff a x).0 here)) refl)
  | inr other ↦ rw other (ground arith)
]

empty_edge :
    (m : List String) (a b x y : String)
    → (a ≡ x → m ≡ [])
    → contains m y ≡ (contains m y && not (a == x && (y == b)))
unfolding contains
empty_edge m a b x y same = elim (Bool-cases (a == x)) [
  | inl here ↦ rw (same ((eq_iff a x).0 here)) refl
  | inr other ↦ rw other (ground arith)
]

unlink-edge :
    (edges : Edges) (a b x y : String)
    → contains (next (unlink edges a b) x) y
      ≡ (contains (next edges x) y && not (a == x && (y == b)))
unlink-edge edges a b x y = elim (Option-cases (get edges a)) [
  | inl absent ↦
      let none_there : a ≡ x → next edges x ≡ [] =
        λ e. subst (λ q. next edges q ≡ []) e (next_of edges a none absent) in
      ap (λ q. contains (next q x) y) (unlink_absent edges a b absent)
      ∙ empty_edge (next edges x) a b x y none_there
  | inr (l, present) ↦
      let there : a ≡ x → next edges x ≡ l =
        λ e. subst (λ q. next edges q ≡ l) e (next_of edges a (some l) present) in
      ap (λ q. contains (next q x) y) (unlink_present edges a b l present)
      ∙ ap (λ m. contains m y) (next-put edges a x (discard l b))
      ∙ discarded_edge (next edges x) l a b x y there
]

unlink_each-edge :
    (edges : Edges) (l : List String) (b x y : String)
    → contains (next (unlink_each edges l b) x) y
      ≡ (contains (next edges x) y && not (contains l x && (y == b)))
unfolding unlink_each contains
unlink_each-edge edges [] b x y = ground arith
unlink_each-edge edges (a ∷ l) b x y =
    unlink_each-edge (unlink edges a b) l b x y ∙ ground (arith, unlink-edge edges a b x y)

next-pop :
    (edges : Edges) (a x : String) → next (pop edges a) x ≡ (if a == x then [] else next edges x)
unfolding next
next-pop edges a x = ground (arith, get-pop edges a x)

pop_edge :
    (edges : Edges) (a x y : String)
    → contains (next (pop edges a) x) y ≡ (contains (next edges x) y && not (a == x))
unfolding contains
pop_edge edges a x y = ap (λ m. contains m y) (next-pop edges a x) ∙ elim (Bool-cases (a == x)) [
  | inl here ↦ rw here (ground arith)
  | inr other ↦ rw other (ground arith)
]

-- the edges that `remove` leaves, in both directions
remove_forward :
    (g : DependencyGraph) (a x y : String)
    → IsMirrored g
    → contains (children (remove a g) x) y ≡ (contains (children g x) y && not (a == x || (y == a)))
unfolding remove children parents
remove_forward g a x y mirrored =
    let reverse1 = unlink_each g.reverse (next g.edges a) a in
    unlink_each-edge (pop g.edges a) (next reverse1 a) a x y
    ∙ ground (
      arith,
      pop_edge g.edges a x y,
      unlink_each-edge g.reverse (next g.edges a) a a x,
      mirrored.mirror x a,
      eq_iff a x,
      eq_iff x a,
      eq_iff y a,
    )

remove_backward :
    (g : DependencyGraph) (a x y : String)
    → IsMirrored g
    → contains (parents (remove a g) y) x ≡ (contains (children g x) y && not (a == x || (y == a)))
unfolding remove children parents
remove_backward g a x y mirrored =
    let reverse1 = unlink_each g.reverse (next g.edges a) a in
    pop_edge reverse1 a y x
    ∙ ground (
      arith,
      unlink_each-edge g.reverse (next g.edges a) a y x,
      mirrored.mirror x y,
      mirrored.mirror a y,
      eq_iff a y,
      eq_iff y a,
      eq_iff x a,
      eq_iff a x,
    )

Reaches-sub :
    (e f : Edges) (a b : String)
    → ((x y : String) → contains (next e x) y ≡ true → contains (next f x) y ≡ true)
    → Reaches e a b
    → Reaches f a b
Reaches-sub e f a _ sub Reaches.here = Reaches.here
Reaches-sub e f a c sub (Reaches.step {b = b} edge path) =
    Reaches.step (sub a b edge) (Reaches-sub e f b c sub path)

IsAcyclic-sub :
    (e f : Edges)
    → ((x y : String) → contains (next e x) y ≡ true → contains (next f x) y ≡ true)
    → IsAcyclic f
    → IsAcyclic e
IsAcyclic-sub e f sub acyclic = record {
  no_return = λ a b edge path. acyclic.no_return a b (sub a b edge) (Reaches-sub e f b a sub path);
}

still_there : (p q : Bool) → (p && q) ≡ true → p ≡ true
still_there p q h = ground arith

-- From a mirrored graph, `remove` takes away exactly the edges from and to the artifact, in both
-- directions, and the graph stays without a cycle.
pub remove_edges :
    (g : DependencyGraph) (a : String)
    → IsMirrored g
    → ((x y : String)
        → contains (children (remove a g) x) y
          ≡ (contains (children g x) y && not (a == x || (y == a))))
      × IsMirrored (remove a g)
      × (IsAcyclic g.edges → IsAcyclic (remove a g).edges)
unfolding children
remove_edges g a mirrored = (
  λ x y. remove_forward g a x y mirrored,
  record {
    mirror = λ x y. remove_forward g a x y mirrored ∙ sym (remove_backward g a x y mirrored);
  },
  IsAcyclic-sub (remove a g).edges g.edges
      (λ x y edge. still_there _ _ (sym (remove_forward g a x y mirrored) ∙ edge)),
)
