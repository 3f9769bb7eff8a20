-- ===== src/Artifacts/Lineage/Duality.antt =====
-- The two directions of the lineage agree.
use lex_mind.Artifacts.Graph.{Edges, DependencyGraph, next, children, parents}
use lex_mind.Artifacts.Graph.Search.{Reaches}
use lex_mind.Artifacts.Graph.Acyclic.{IsAcyclic, IsMirrored}
use lex_mind.Artifacts.Lineage.{ancestors, descendants}
use lex_mind.Artifacts.Lineage.Relatives.{Follows, Reaches-snoc, relatives_cases}
use lex_mind.Common.{String, Bool, true, false, ◌≡◌, ◌∙◌, sym, some, List, contains, refl}

-- one graph has the edges of the other, turned round
module _ (one two : Edges)
    (turn : (x y : String) → contains (next one x) y ≡ true → contains (next two y) x ≡ true) where
  turn-Reaches : (x y : String) → Reaches one x y → Reaches two y x
  turn-Reaches x _ Reaches.here = Reaches.here
  turn-Reaches x y (Reaches.step {b = b} e path) =
      Reaches-snoc two y y b x (turn-Reaches b y path) (turn x b e)

  at_last : (x y z : String) → Reaches two x y → contains (next two y) z ≡ true → Follows two x z
  at_last x _ z Reaches.here e = (z, e, Reaches.here)
  at_last x y z (Reaches.step {b = b} first path) e = (b, first, Reaches-snoc two b b y z path e)

  turn-Follows : (x y : String) → Follows one x y → Follows two y x
  turn-Follows x y (c, e, path) = at_last y c x (turn-Reaches c y path) (turn x c e)

same_iff : (p q : Bool) → (p ≡ true → q ≡ true) → (q ≡ true → p ≡ true) → p ≡ q
same_iff true q f g = sym (f refl)
same_iff false true f g = g refl
same_iff false false f g = refl

never : (b : Bool) → ¬ (b ≡ true) → b ≡ false
never true unlike = absurd (unlike refl)
never false unlike = refl

-- In a mirrored graph without a cycle, one artifact is among the ancestors of another exactly where that
-- one is among its descendants, and none is among its own ancestors or its own descendants.
pub ancestors-descendants :
    (g : DependencyGraph) (a b : String)
    → IsMirrored g
    → IsAcyclic g.edges
    → (up : List String) × (down : List String) × (ancestors g b ≡ some up)
      × (descendants g a ≡ some down)
      × (contains up a ≡ contains down b)
      × (contains up b ≡ false)
      × (contains down a ≡ false)
unfolding children parents
ancestors-descendants g a b mirrored acyclic =
    let (up, runs, _, ups) = (relatives_cases g b).0 in
    let (down, runs', _, downs) = (relatives_cases g a).1 in
    let there = turn-Follows g.reverse g.edges (λ x y e. mirrored.mirror y x ∙ e) in
    let back = turn-Follows g.edges g.reverse (λ x y e. sym (mirrored.mirror x y) ∙ e) in
    let apart : (x : String) → ¬ Follows g.edges x x =
      λ x (c, e, path). acyclic.no_return x c e path in
    (
      up,
      down,
      runs,
      runs',
      same_iff _ _ (λ h. (downs b).1 (there b a ((ups a).0 h)))
          (λ h. (ups a).1 (back a b ((downs b).0 h))),
      never _ (λ h. apart b (there b b ((ups b).0 h))),
      never _ (λ h. apart a ((downs a).0 h)),
    )
