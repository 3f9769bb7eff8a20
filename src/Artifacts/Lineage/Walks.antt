-- ===== src/Artifacts/Lineage/Walks.antt =====
-- What a step of a search adds to what was visited, to what was found and to what waits.
use lex_mind.Artifacts.Graph.{Edges, next, count_edges}
use lex_mind.Artifacts.Lineage.{Walk, meet_each, meet_new}
use lex_mind.Common.{
  ℕ, ◌+◌, ◌≤◌, String, true, false, not, ◌&&◌, ◌||◌, ◌≡◌, refl, inl, inr, List, [], ◌∷◌, arith,
  ◌==◌, eq_iff, if◌then◌else◌, length, contains, Bool-cases, contains-append, length-append, ap,
  ◌∙◌, eq_refl, IsDistinct,
}
use lex_mind.Common.Dict.{get}

-- the targets of edges that were not visited
abbrev pub out : List String → List String → ℕ
out visited [] = 0
out visited (x ∷ l) = (if contains visited x then 0 else 1) + out visited l

abbrev pub open_targets : List String → Edges → ℕ
open_targets visited [] = 0
open_targets visited ((a, l) ∷ rest) = out visited l + open_targets visited rest

out-all : (l : List String) → out [] l ≡ length l
unfolding contains
out-all [] = refl
out-all (x ∷ l) = omega (arith, out-all l)

pub open_targets-all : (edges : Edges) → open_targets [] edges ≡ count_edges edges
unfolding count_edges
open_targets-all [] = refl
open_targets-all ((a, l) ∷ rest) = omega (arith, out-all l, open_targets-all rest)

out-le :
    (visited : List String) (n : String) (l : List String) → out (n ∷ visited) l ≤ out visited l
unfolding contains
out-le visited n [] = omega arith
out-le visited n (x ∷ l) = ground (arith, out-le visited n l)

out-less :
    (visited : List String) (n : String) (l : List String)
    → contains visited n ≡ false
    → contains l n ≡ true
    → out (n ∷ visited) l + 1 ≤ out visited l
unfolding contains
out-less visited n [] new there = absurd cc
out-less visited n (x ∷ l) new there =
    ground (arith, eq_iff x n, eq_iff n x, out-le visited n l, out-less visited n l new)

open_targets-le :
    (visited : List String) (n : String) (edges : Edges)
    → open_targets (n ∷ visited) edges ≤ open_targets visited edges
open_targets-le visited n [] = omega arith
open_targets-le visited n ((a, l) ∷ rest) =
    omega (arith, out-le visited n l, open_targets-le visited n rest)

-- a new node that an edge leads to is one target less
open_targets-less :
    (visited : List String) (n a : String) (edges : Edges)
    → contains visited n ≡ false
    → contains (next edges a) n ≡ true
    → open_targets (n ∷ visited) edges + 1 ≤ open_targets visited edges
unfolding contains next get
open_targets-less visited n a [] new there = absurd cc
open_targets-less visited n a ((b, l) ∷ rest) new there = elim (Bool-cases (b == a)) [
  | inl same ↦
      let less = out-less visited n l new (rw same at there) in
      omega (arith, less, open_targets-le visited n rest)
  | inr other ↦
      let less = open_targets-less visited n a rest new (rw other at there) in
      omega (arith, less, out-le visited n l)
]

pub meet_new-visited :
    (n : String) (w : Walk) (x : String)
    → contains (meet_new n w).visited x ≡ (contains w.visited x || (n == x))
unfolding meet_new contains
meet_new-visited n w x = ground (arith, ap (contains w.visited), eq_iff n x)

meet_new-queue :
    (n : String) (w : Walk) (x : String)
    → contains (meet_new n w).queue x
      ≡ (contains w.queue x || (n == x && not (contains w.visited x)))
unfolding meet_new contains
meet_new-queue n w x = ground (arith, contains-append w.queue (n ∷ []) x, eq_iff n x)

-- the results are what was visited
abbrev pub IsSame : Walk → Type 0
IsSame w = (x : String) → contains w.result x ≡ contains w.visited x

meet_new-IsSame : (n : String) (w : Walk) → IsSame w → IsSame (meet_new n w)
unfolding meet_new contains
meet_new-IsSame n w same x = ground (arith, contains-append w.result (n ∷ []) x, same x)

meet_new-IsDistinct :
    (n : String) (w : Walk) → IsSame w → IsDistinct w.result → IsDistinct (meet_new n w).result
unfolding meet_new
meet_new-IsDistinct n w same d = elim (Bool-cases (contains w.visited n)) [
  | inl seen ↦ rw seen d
  | inr new ↦ rw new (IsDistinct.one_more w.result n d (same n ∙ new))
]

meet_new-bound :
    (edges : Edges) (a n : String) (w : Walk)
    → contains (next edges a) n ≡ true
    → length (meet_new n w).queue + open_targets (meet_new n w).visited edges
      ≤ length w.queue + open_targets w.visited edges
unfolding meet_new
meet_new-bound edges a n w there = elim (Bool-cases (contains w.visited n)) [
  | inl seen ↦ rw seen (omega arith)
  | inr new ↦
      let less = open_targets-less w.visited n a edges new there in
      rw new (omega (arith, less, length-append w.queue (n ∷ [])))
]

pub meet_each-visited :
    (l : List String) (w : Walk) (x : String)
    → contains (meet_each l w).visited x ≡ (contains w.visited x || contains l x)
unfolding meet_each contains
meet_each-visited [] w x = ground arith
meet_each-visited (n ∷ l) w x =
    ground (arith, meet_each-visited l (meet_new n w) x, meet_new-visited n w x)

-- what is new waits at the end of the queue
pub meet_each-queue :
    (l : List String) (w : Walk) (x : String)
    → contains (meet_each l w).queue x
      ≡ (contains w.queue x || (contains l x && not (contains w.visited x)))
unfolding meet_each contains
meet_each-queue [] w x = ground arith
meet_each-queue (n ∷ l) w x =
    ground (arith, meet_each-queue l (meet_new n w) x, meet_new-visited n w x, meet_new-queue n w x)

pub meet_each-IsSame : (l : List String) (w : Walk) → IsSame w → IsSame (meet_each l w)
unfolding meet_each
meet_each-IsSame [] w same = same
meet_each-IsSame (n ∷ l) w same = meet_each-IsSame l (meet_new n w) (meet_new-IsSame n w same)

pub meet_each-IsDistinct :
    (l : List String) (w : Walk)
    → IsSame w
    → IsDistinct w.result
    → IsDistinct (meet_each l w).result
unfolding meet_each
meet_each-IsDistinct [] w same d = d
meet_each-IsDistinct (n ∷ l) w same d =
    meet_each-IsDistinct l (meet_new n w) (meet_new-IsSame n w same)
      (meet_new-IsDistinct n w same d)

pub meet_each-bound :
    (edges : Edges) (a : String) (l : List String) (w : Walk)
    → ((x : String) → contains l x ≡ true → contains (next edges a) x ≡ true)
    → length (meet_each l w).queue + open_targets (meet_each l w).visited edges
      ≤ length w.queue + open_targets w.visited edges
unfolding meet_each contains
meet_each-bound edges a [] w sub = omega arith
meet_each-bound edges a (n ∷ l) w sub =
    let rest = meet_each-bound edges a l (meet_new n w) (λ x h. sub x (ground arith)) in
    omega (arith, rest, meet_new-bound edges a n w (sub n (rw (eq_refl n) refl)))
