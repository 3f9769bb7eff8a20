-- ===== src/Jobs/Repository/Rows.antt =====
-- Rows of the job table, keyed by the id.
use lex_mind.Jobs.Job.{Job}
use lex_mind.Common.{
  String, List, Bool, filter, Option, ℕ, ◌≡◌, none, if◌then◌else◌, some, ◌==◌, length, ◌+◌, ◌∷◌,
  arith, eq_iff, [], sym, ap, subst, eq_refl, refl, ◌++◌, is_some, ◌<◌, true, inl, inr, All,
  Bool-cases,
}

-- session.get(JobRow, id)
unfoldable pub find : String → List Job → Option Job
find id [] = none
find id (j ∷ l) = if j.id == id then some j else find id l

-- the row with the id of `j` is overwritten
unfoldable pub replace : Job → List Job → List Job
replace j [] = []
replace j (k ∷ l) = if k.id == j.id then j ∷ l else k ∷ replace j l

-- no two rows have one id
abbrev pub Distinct : List Job → Type 0
Distinct [] = Unit
Distinct (j ∷ l) = (find j.id l ≡ none) × Distinct l

abbrev pub weight : (Job → Bool) → Job → ℕ
weight p j = if p j then 1 else 0

pub find-replace :
    (j old : Job) (id : String) (l : List Job)
    → find j.id l ≡ some old
    → find id (replace j l) ≡ (if j.id == id then some j else find id l)
unfolding find replace
find-replace j old id [] h = cc
find-replace j old id (k ∷ l) h =
    ground (arith, eq_iff k.id j.id, eq_iff k.id id, eq_iff j.id id, find-replace j old id l)

-- An overwritten row counts for what it holds now, and no longer for what it held.
pub length-filter-replace :
    (p : Job → Bool) (j old : Job) (l : List Job)
    → find j.id l ≡ some old
    → length (filter p (replace j l)) + weight p old ≡ length (filter p l) + weight p j
unfolding find replace filter
length-filter-replace p j old [] h = cc
length-filter-replace p j old (k ∷ l) h =
    ground (arith, eq_iff k.id j.id, length-filter-replace p j old l)

pub find_written :
    (j old k : Job) (l l' : List Job)
    → find j.id l ≡ some old
    → l' ≡ replace j l
    → k.id ≡ j.id
    → find k.id l' ≡ some j
find_written j old k l l' h e i = ground (arith, find-replace j old j.id l, eq_refl j.id)

-- A row that is overwritten twice.
module _ (j a b : Job) (l l1 l2 : List Job) (present : find j.id l ≡ some j) (ia : a.id ≡ j.id)
    (ib : b.id ≡ a.id) (ea : l1 ≡ replace a l) (eb : l2 ≡ replace b l1) where
  present_a : find a.id l ≡ some j
  present_a = subst (λ i. find i l ≡ some j) (sym ia) present

  pub find_rewritten : (id : String) → find id l2 ≡ (if j.id == id then some b else find id l)
  find_rewritten id = ground (
    arith,
    present_a,
    find-replace a j id l,
    find_written a j b l l1 present_a ea ib,
    find-replace b a id l1,
  )

  pub length-filter_rewritten :
      (p : Job → Bool) → length (filter p l2) + weight p j ≡ length (filter p l) + weight p b
  length-filter_rewritten p = omega (
    arith,
    ap (λ (t : List Job). length (filter p t)) ea,
    ap (λ (t : List Job). length (filter p t)) eb,
    length-filter-replace p a j l present_a,
    length-filter-replace p b a l1 (find_written a j b l l1 present_a ea ib),
  )

pub find_snoc :
    (j : Job) (id : String) (l : List Job)
    → find id (l ++ j ∷ [])
      ≡ (if is_some (find id l) then find id l else if j.id == id then some j else none)
unfolding find
find_snoc j id [] = refl
find_snoc j id (k ∷ l) = ground (arith, find_snoc j id l)

pub id_of_find : (j : Job) (id : String) (l : List Job) → find id l ≡ some j → j.id ≡ id
unfolding find
id_of_find j id [] h = cc
id_of_find j id (k ∷ l) h = ground (arith, eq_iff k.id id, id_of_find j id l)

pub length-filter_pos :
    (p : Job → Bool) (j : Job) (id : String) (l : List Job)
    → find id l ≡ some j
    → p j ≡ true
    → 0 < length (filter p l)
unfolding find filter
length-filter_pos p j id [] h t = cc
length-filter_pos p j id (k ∷ l) h t = ground (arith, length-filter_pos p j id l)

pub All-find :
    (P : Job → Type 0) (j : Job) (id : String) (l : List Job) → All P l → find id l ≡ some j → P j
unfolding find
All-find P j id [] a h = cc
All-find P j id (k ∷ l) a h = elim (Bool-cases (k.id == id)) [
  | inl same ↦ subst P (ground arith) a.0
  | inr other ↦ All-find P j id l a.1 (ground arith)
]
