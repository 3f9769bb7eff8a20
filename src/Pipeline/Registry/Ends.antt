-- ===== src/Pipeline/Registry/Ends.antt =====
-- The recursion of `_toposort` ends: each call around a visit is at another registered stage.
use lex_mind.Pipeline.Registry.{
  Stage, Order, and_then, visit_each, visit_stage, visit, toposort, keys, Dict,
}
use lex_mind.Common.{
  ℕ, zero, suc, String, ◌≡◌, refl, inl, inr, false, Option, none, some, List, [], ◌∷◌, ◌++◌, arith,
  eq_iff, length, contains, Bool-cases, ◌+◌, ◌≤◌, ◌<◌, if◌then◌else◌,
}
use lex_mind.Common.Effect.{ok, err}
use lex_mind.Common.Dict.{Dict, get}

module _ (stages : Dict Stage) where
  -- the stages that are not under way
  abbrev remaining : List String → Dict Stage → ℕ
  remaining visiting [] = 0
  remaining visiting ((k, stage) ∷ rest) =
      (if contains visiting k then 0 else 1) + remaining visiting rest

  remaining-all : (rest : Dict Stage) → remaining [] rest ≡ length rest
  unfolding contains
  remaining-all [] = refl
  remaining-all ((k, stage) ∷ rest) = omega (arith, remaining-all rest)

  remaining-le :
      (visiting : List String) (id : String) (rest : Dict Stage)
      → remaining (id ∷ visiting) rest ≤ remaining visiting rest
  unfolding contains
  remaining-le visiting id [] = omega arith
  remaining-le visiting id ((k, stage) ∷ rest) = ground (arith, remaining-le visiting id rest)

  remaining-visit :
      (visiting : List String) (id : String) (stage : Stage) (rest : Dict Stage)
      → get rest id ≡ some stage
      → contains visiting id ≡ false
      → remaining (id ∷ visiting) rest < remaining visiting rest
  unfolding contains get
  remaining-visit visiting id stage [] look free = cc
  remaining-visit visiting id stage ((k, t) ∷ rest) look free = ground (
    arith,
    eq_iff k id,
    eq_iff id k,
    remaining-visit visiting id stage rest,
    remaining-le visiting id rest,
  )

  abbrev Ends : (String → List String → Order) → Type 0
  Ends f = (id : String) (o : List String) → f id o ≡ none → ⊥

  and_then-none :
      (m : Order) (f : List String → Order)
      → (m ≡ none → ⊥)
      → ((q : List String) → f q ≡ none → ⊥)
      → and_then m f ≡ none
      → ⊥
  and_then-none none f a b e = a refl
  and_then-none (some (err x)) f a b e = cc
  and_then-none (some (ok q)) f a b e = b q e

  visit_each-Ends :
      (f : String → List String → Order)
      → Ends f
      → (l o : List String) → visit_each f l o ≡ none
      → ⊥
  unfolding visit_each
  visit_each-Ends f ends [] o e = cc
  visit_each-Ends f ends (id ∷ l) o e =
      and_then-none (f id o) (visit_each f l) (ends id o) (visit_each-Ends f ends l) e

  visit_stage-Ends :
      (f : String → List String → Order) (id : String) (o : List String) (found : Option Stage)
      → ((stage : Stage) → found ≡ some stage → Ends f)
      → visit_stage f id o found ≡ none
      → ⊥
  visit_stage-Ends f id o none ends e = cc
  visit_stage-Ends f id o (some stage) ends e =
      and_then-none (visit_each f stage.dependencies o) (λ before. some (ok (before ++ id ∷ [])))
        (visit_each-Ends f (ends stage refl) stage.dependencies o) (λ q h. cc) e

  visit-Ends :
      (fuel : ℕ) (visiting : List String)
      → remaining visiting stages < fuel
      → Ends (visit stages fuel visiting)
  unfolding visit
  visit-Ends zero visiting enough id o e = absurd (omega arith)
  visit-Ends (suc fuel) visiting enough id o e = elim (Bool-cases (contains o id)) [
    | inl known ↦ absurd (ground arith)
    | inr new ↦ elim (Bool-cases (contains visiting id)) [
      | inl under_way ↦ absurd (ground arith)
      | inr free ↦
          visit_stage-Ends (visit stages fuel (id ∷ visiting)) id o (get stages id)
            (λ stage look.
              visit-Ends fuel (id ∷ visiting)
                (omega (arith, remaining-visit visiting id stage stages look free)))
            (rw (new, free) at e)
    ]
  ]

  pub toposort_ends : toposort stages ≡ none → ⊥
  unfolding toposort
  toposort_ends =
      visit_each-Ends (visit stages (suc (length stages)) [])
        (visit-Ends (suc (length stages)) [] (omega (arith, remaining-all stages))) (keys stages) []
