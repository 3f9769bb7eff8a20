-- ===== src/Jobs/Queue/Order.antt =====
-- Which job `dequeue` hands out.
use mathlib.Core.HLevel.{prop→set}
use mathlib.Core.List.{Mem, Memᴰ, Perm, Pairwise, mem-cons, mem-cons_self, rel_of_Pairwise-cons}
use mathlib.Core.List.Memᴰ
use mathlib.Core.List.Perm
use mathlib.Core.Logic.{∥∥₁_elim}
use mathlib.Core.Logic.Or
use native.Mathlib.Nat.{le_refl}
use text.Mathlib.TextEquality.{IsScalar-prop}
use native.Mathlib.Bridge.{le_prop}
use lex_mind.Jobs.State.{State}
use lex_mind.Jobs.Job.{JobStatus, running, completed, failed, cancelled, Job, pending, status_eq}
use lex_mind.Common.{
  String, ◌≡◌, true, some, List, [], ◌∷◌, filter, refl, inl, inr, arith, ◌==◌, eq_iff, eq_refl,
  Bool-cases, ◌<◌, sym, subst, none, length, Memᴰ-filter, List-cases, Option-cases, ap, ◌∙◌,
  Memᴰ-filter_of, ℕ,
}
use lex_mind.Jobs.Repository.Rows.{Distinct, find, length-filter_pos}
use lex_mind.Jobs.Repository.{JobRepository, IsJobRepository, is_pending}
use lex_mind.Jobs.Queue.{dequeue}
use lex_mind.Common.Int.{◌≤ℤ◌}

-- A row is found under its id, where no two rows have one id.
find_of_mem : (j : Job) (l : List Job) → Distinct l → Memᴰ j l → find j.id l ≡ some j
unfolding find
find_of_mem j [] d m = absurd (Memᴰ.not-nil m)
find_of_mem j (k ∷ l) d (Memᴰ.head e) = rw e (rw (eq_refl k.id) refl)
find_of_mem j (k ∷ l) d (Memᴰ.tail m) = ground (arith, eq_iff k.id j.id, find_of_mem j l d.1 m)

mem_of_find : (j : Job) (id : String) (l : List Job) → find id l ≡ some j → Memᴰ j l
unfolding find
mem_of_find j id [] h = cc
mem_of_find j id (k ∷ l) h = elim (Bool-cases (k.id == id)) [
  | inl same ↦ Memᴰ.head (ground arith)
  | inr other ↦ Memᴰ.tail (mem_of_find j id l (ground arith))
]

pending_of_test : (q : JobStatus) → status_eq q pending ≡ true → q ≡ pending
pending_of_test pending e = refl
pending_of_test running e = cc
pending_of_test completed e = cc
pending_of_test failed e = cc
pending_of_test cancelled e = cc

module _ (r : JobRepository) (laws : IsJobRepository r) (s : State r) where
  abbrev pending_rows : List Job
  pending_rows = filter is_pending (r.rows s.store)

  found_prop : (j : Job) → IsProp ((find j.id (r.rows s.store) ≡ some j) × (is_pending j ≡ true))
  found_prop j = hlevel (λ (n : ℕ). prop→set (IsScalar-prop n))

  listed :
      {j : Job}
      → Mem j (r.list_pending s.store)
      → (find j.id (r.rows s.store) ≡ some j) × (is_pending j ≡ true)
  listed {j} m = ∥∥₁_elim ((Perm.mem_iff (laws.list_pending-perm s.store)).0 m) (found_prop j) λ n.
      let (k, t) = Memᴰ-filter is_pending (r.rows s.store) n in
      (find_of_mem j _ (laws.rows_distinct s.store) k, t)

  -- what `dequeue` returns is the row of a pending job
  pub dequeue-eq-some :
      (j : Job) → dequeue s ≡ some j → (find j.id (r.rows s.store) ≡ some j) × (is_pending j ≡ true)
  unfolding dequeue
  dequeue-eq-some j e = elim (List-cases (r.list_pending s.store)) [
    | inl empty ↦ ground arith
    | inr (x, l, split) ↦
        let same : x ≡ j = ground arith in
        listed
          (subst (λ q. Mem j q) (sym split) (subst (λ y. Mem j (y ∷ l)) (sym same) mem-cons_self))
  ]

  -- `dequeue` returns nothing exactly when no row is pending
  pub dequeue-eq-none : dequeue s ≡ none → length pending_rows ≡ 0
  unfolding dequeue
  dequeue-eq-none e =
      let empty : r.list_pending s.store ≡ [] = ground arith in
      ground (
        arith,
        sym (Perm.nil-eq (subst (λ q. Perm q pending_rows) empty (laws.list_pending-perm s.store))),
      )

  pub dequeue-none_of_idle : length pending_rows ≡ 0 → dequeue s ≡ none
  dequeue-none_of_idle h = elim (Option-cases (dequeue s)) [
    | inl e ↦ e
    | inr (j, e) ↦
        let (found, waits) = dequeue-eq-some j e in
        ground (arith, length-filter_pos is_pending j j.id (r.rows s.store))
  ]

  pub dequeue-some_of_pos : 0 < length pending_rows → (j : Job) × (dequeue s ≡ some j)
  dequeue-some_of_pos h = elim (Option-cases (dequeue s)) [
    | inl e ↦ absurd (omega (arith, dequeue-eq-none e))
    | inr found ↦ found
  ]

  above_pending :
      (j k : Job) (id : String)
      → dequeue s ≡ some j
      → r.get_by_id id s.store ≡ some k
      → k.status ≡ pending
      → k.priority ≤ℤ j.priority
  unfolding dequeue
  above_pending j k id e found waits =
      let held = mem_of_find k id (r.rows s.store) (sym (laws.get_by_id_lem id s.store) ∙ found) in
      let queued =
        Memᴰ-filter_of is_pending (r.rows s.store) held (ap (λ q. status_eq q pending) waits) in
      let sorted = laws.list_pending-sorted s.store in
      elim (List-cases (r.list_pending s.store)) [
        | inl empty ↦ ground arith
        | inr (x, l, split) ↦
            let first : x ≡ j = ground arith in
            let listed_k =
              subst (λ q. Mem k q) split
                ((Perm.mem_iff (laws.list_pending-perm s.store)).1 ∣ queued ∣₁) in
            Or.elim le_prop (mem-cons.0 listed_k) (λ same. rw (same ∙ first) (le_refl _))
              (λ later.
                subst (λ y. k.priority ≤ℤ y.priority) first
                  (rel_of_Pairwise-cons
                    (subst (λ q. Pairwise (λ a b. b.priority ≤ℤ a.priority) q) split sorted) later))
      ]

  -- Every pending job in the store, the returned one among them, has at most the priority of
  -- the job that `dequeue` returns, which is itself a pending job in the store.
  pub dequeue_highest :
      (j k : Job) (id : String)
      → dequeue s ≡ some j
      → r.get_by_id id s.store ≡ some k
      → k.status ≡ pending
      → (r.get_by_id j.id s.store ≡ some j) × (j.status ≡ pending) × (k.priority ≤ℤ j.priority)
  dequeue_highest j k id e found waits =
      let (held, first_waits) = dequeue-eq-some j e in
      (
        laws.get_by_id_lem j.id s.store ∙ held,
        pending_of_test j.status first_waits,
        above_pending j k id e found waits,
      )
