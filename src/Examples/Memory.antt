-- ===== src/Examples/Memory.antt =====
-- A database that keeps its rows in a list, and sorts by insertion. The payload column holds the
-- dictionary itself.
use mathlib.Core.Logic.Or
use native.Mathlib.Bridge.{le_prop}
use mathlib.Core.List.{Pairwise-singleton, Pairwise-cons, mem-cons, Perm, Pairwise}
use mathlib.Core.List.Perm
use lex_mind.Jobs.Repository.Row.{
  JobRow, find_row, replace_row, remove_row, DistinctRows, find_row-snoc,
}
use lex_mind.Common.Dict.{Dict}
use lex_mind.Common.{
  false, refl, inl, inr, List, [], ◌∷◌, if◌then◌else◌, Bool-cases, String, ◌≡◌, none, ◌++◌, arith,
  subst, Option, some, ◌==◌, eq_iff, Option-cases,
}
use lex_mind.Common.Int.{ℤ, leb_ℤ, ◌≤ℤ◌, leb_ℤ-true, leb_ℤ-false}
use lex_mind.Jobs.Repository.Sqlite.{Database, IsDatabase}

abbrev pub Row : Type 0
Row = JobRow (Dict String)

abbrev pub insert_desc : (Row → ℤ) → Row → List Row → List Row
insert_desc key j [] = j ∷ []
insert_desc key j (k ∷ l) = if leb_ℤ (key k) (key j) then j ∷ k ∷ l else k ∷ insert_desc key j l

unfoldable pub sort_desc : (Row → ℤ) → List Row → List Row
sort_desc key [] = []
sort_desc key (j ∷ l) = insert_desc key j (sort_desc key l)

insert_desc-perm : (key : Row → ℤ) (j : Row) (l : List Row) → Perm (insert_desc key j l) (j ∷ l)
insert_desc-perm key j [] = Perm.refl _
insert_desc-perm key j (k ∷ l) = elim (Bool-cases (leb_ℤ (key k) (key j))) [
  | inl before ↦ rw before (Perm.refl _)
  | inr later ↦ rw later (Perm.trans (Perm.cons k (insert_desc-perm key j l)) (Perm.swap _ _ _))
]

sort_desc-perm : (key : Row → ℤ) (l : List Row) → Perm (sort_desc key l) l
unfolding sort_desc
sort_desc-perm key [] = Perm.refl _
sort_desc-perm key (j ∷ l) =
    Perm.trans (insert_desc-perm key j (sort_desc key l)) (Perm.cons j (sort_desc-perm key l))

le_chain : (a b c : ℤ) → a ≤ℤ b → b ≤ℤ c → a ≤ℤ c
le_chain a b c p q = omega arith

insert_desc-sorted :
    (key : Row → ℤ) (j : Row) (l : List Row)
    → Pairwise (λ a b. key b ≤ℤ key a) l
    → Pairwise (λ a b. key b ≤ℤ key a) (insert_desc key j l)
insert_desc-sorted key j [] s = Pairwise-singleton _ j
insert_desc-sorted key j (k ∷ l) s =
    let below_k = (Pairwise-cons.0 s).0 in
    elim (Bool-cases (leb_ℤ (key k) (key j))) [
      | inl before ↦
          let first = leb_ℤ-true (key k) (key j) before in
          rw before (
            Pairwise-cons.1 (
              λ a m.
                  Or.elim le_prop (mem-cons.0 m) (λ e. rw e first)
                    (λ n. le_chain (key a) (key k) (key j) (below_k a n) first),
              s,
            ))
      | inr later ↦
          let first = leb_ℤ-false (key k) (key j) later in
          rw later (
            Pairwise-cons.1 (
              λ a m.
                  Or.elim le_prop (mem-cons.0 ((Perm.mem_iff (insert_desc-perm key j l)).0 m))
                    (λ e. rw e first) (below_k a),
              insert_desc-sorted key j l (Pairwise-cons.0 s).1,
            ))
    ]

sort_desc-sorted :
    (key : Row → ℤ) (l : List Row) → Pairwise (λ a b. key b ≤ℤ key a) (sort_desc key l)
unfolding sort_desc
sort_desc-sorted key [] = Pairwise.nil
sort_desc-sorted key (j ∷ l) = insert_desc-sorted key j (sort_desc key l) (sort_desc-sorted key l)

-- the rows, no two with one id
abbrev pub Table : Type 0
Table = (l : List Row) × DistinctRows l

absent-replace_row :
    (k : String) (j : Row) (l : List Row)
    → find_row k l ≡ none
    → find_row k (replace_row j l) ≡ none
unfolding find_row replace_row
absent-replace_row k j [] h = refl
absent-replace_row k j (i ∷ l) h =
    ground (arith, eq_iff i.id j.id, eq_iff i.id k, eq_iff j.id k, absent-replace_row k j l)

absent-remove_row :
    (k id : String) (l : List Row) → find_row k l ≡ none → find_row k (remove_row id l) ≡ none
unfolding find_row remove_row
absent-remove_row k id [] h = refl
absent-remove_row k id (i ∷ l) h = ground (arith, absent-remove_row k id l)

pub DistinctRows-replace_row :
    (j : Row) (l : List Row) → DistinctRows l → DistinctRows (replace_row j l)
unfolding replace_row
DistinctRows-replace_row j [] d = tt
DistinctRows-replace_row j (k ∷ l) d = elim (Bool-cases (k.id == j.id)) [
  | inl same ↦ rw same (subst (λ i. find_row i l ≡ none) ((eq_iff k.id j.id).0 same) d.0, d.1)
  | inr other ↦ rw other (absent-replace_row k.id j l d.0, DistinctRows-replace_row j l d.1)
]

pub DistinctRows-remove_row :
    (id : String) (l : List Row) → DistinctRows l → DistinctRows (remove_row id l)
unfolding remove_row
DistinctRows-remove_row id [] d = tt
DistinctRows-remove_row id (k ∷ l) d = elim (Bool-cases (k.id == id)) [
  | inl same ↦ rw same d.1
  | inr other ↦ rw other (absent-remove_row k.id id l d.0, DistinctRows-remove_row id l d.1)
]

pub DistinctRows-snoc :
    (j : Row) (l : List Row) → find_row j.id l ≡ none → DistinctRows l → DistinctRows (l ++ j ∷ [])
unfolding find_row
DistinctRows-snoc j [] fresh d = (refl, tt)
DistinctRows-snoc j (k ∷ l) fresh d = (
  ground (arith, find_row-snoc j k.id l, eq_iff k.id j.id, eq_iff j.id k.id),
  DistinctRows-snoc j l (ground arith) d.1,
)

unfoldable pub add : Row → Table → Option Table
add j (l, d) = elim (Option-cases (find_row j.id l)) [
  | inl fresh ↦ some (l ++ j ∷ [], DistinctRows-snoc j l fresh d)
  | inr taken ↦ none
]

abbrev pub memory : Database
memory = record {
  Json = Dict String;
  dumps = λ p. p;
  loads = λ p. p;
  is_blank = λ p. false;
  Table = Table;
  rows = λ t. t.0;
  get = λ id t. find_row id t.0;
  add = add;
  flush = λ j t. (replace_row j t.0, DistinctRows-replace_row j t.0 t.1);
  delete = λ id t. (remove_row id t.0, DistinctRows-remove_row id t.0 t.1);
  order_by_desc = sort_desc;
}

add_fresh :
    (j : Row) (t : Table)
    → find_row j.id t.0 ≡ none
    → (u : Table) × (add j t ≡ some u) × (u.0 ≡ t.0 ++ j ∷ [])
unfolding add
add_fresh j (l, d) fresh =
    elim (Option-cases (find_row j.id l))
      as (λ c.
        (u : Table) × (elim c [
          | inl e ↦ some (l ++ j ∷ [], DistinctRows-snoc j l e d)
          | inr taken ↦ none
        ]
          ≡ some u)
        × (u.0 ≡ l ++ j ∷ [])) [
          | inl e ↦ ((l ++ j ∷ [], DistinctRows-snoc j l e d), refl, refl)
          | inr taken ↦ cc
        ]

add_taken : (j old : Row) (t : Table) → find_row j.id t.0 ≡ some old → add j t ≡ none
unfolding add
add_taken j old (l, d) present =
    elim (Option-cases (find_row j.id l))
      as (λ c.
        ◌≡◌ {A = Option Table}
          (elim c [ inl e ↦ some (l ++ j ∷ [], DistinctRows-snoc j l e d) | inr taken ↦ none ])
          none) [ inl e ↦ cc | inr taken ↦ refl ]

pub memory-IsDatabase : IsDatabase memory
memory-IsDatabase = record {
  loads-dumps = λ p. refl;
  written = λ p. refl;
  primary_key = λ t. t.1;
  get_lem = λ id t. refl;
  add_fresh = add_fresh;
  add_taken = add_taken;
  flush_lem = λ j old t found. refl;
  delete_lem = λ id t. refl;
  order_by_desc-perm = sort_desc-perm;
  order_by_desc-sorted = sort_desc-sorted;
}
