-- ===== src/Events/Subscriptions/Order.antt =====
-- The lists of handlers: no two of one name, higher priorities first.
use lex_mind.Events.Subscriptions.{
  Handler, add, remove, handlers_for, insert_desc, sort_desc, rank, Dict,
}
use lex_mind.Common.{
  ◌≤◌, String, ◌≡◌, subst, inl, inr, Bool, false, List, [], ◌∷◌, ◌++◌, arith, ◌==◌, eq_iff, leb,
  All, any, filter, Bool-cases, sym, if◌then◌else◌,
}
use lex_mind.Common.Effect.{ok}
use lex_mind.Common.Dict.{Dict, put, get-put}

module _ {W : Type 0} where
  abbrev Differs : Handler W → Handler W → Type 0
  Differs h k = (k.name == h.name) ≡ false

  abbrev Follows : Handler W → Handler W → Type 0
  Follows h k = Differs h k × (rank k ≤ rank h)

  abbrev pub IsOrdered : List (Handler W) → Type 0
  IsOrdered [] = Unit
  IsOrdered (h ∷ l) = All (Follows h) l × IsOrdered l

  -- of every event
  pub record IsWellFormed (d : Dict (List (Handler W))) : Type 0 where
    pub ordered : (event_name : String) → IsOrdered (handlers_for d event_name)

  abbrev Unique : List (Handler W) → Type 0
  Unique [] = Unit
  Unique (h ∷ l) = All (Differs h) l × Unique l

  All-insert :
      (P : Handler W → Type 0) (h : Handler W) (l : List (Handler W))
      → P h
      → All P l
      → All P (insert_desc h l)
  All-insert P h [] p a = (p, tt)
  All-insert P h (k ∷ l) p (q, a) = elim (Bool-cases (leb (rank k) (rank h))) [
    | inl before ↦ rw before (p, (q, a))
    | inr after ↦ rw after (q, All-insert P h l p a)
  ]

  All-sort : (P : Handler W → Type 0) (l : List (Handler W)) → All P l → All P (sort_desc l)
  unfolding sort_desc
  All-sort P [] a = tt
  All-sort P (h ∷ l) (p, a) = All-insert P h (sort_desc l) p (All-sort P l a)

  Differs-swap : (h k : Handler W) → Differs h k → Differs k h
  Differs-swap h k d = ground (arith, eq_iff h.name k.name, eq_iff k.name h.name)

  lowered :
      (h k : Handler W) (l : List (Handler W))
      → rank k ≤ rank h
      → All (Differs h) l
      → All (Follows k) l
      → All (Follows h) l
  lowered h k [] le d a = tt
  lowered h k (i ∷ l) le (e, d) ((f, r), a) = ((e, omega (arith, le, r)), lowered h k l le d a)

  IsOrdered-insert :
      (h : Handler W) (l : List (Handler W))
      → All (Differs h) l
      → IsOrdered l
      → IsOrdered (insert_desc h l)
  IsOrdered-insert h [] d o = (tt, tt)
  IsOrdered-insert h (k ∷ l) (e, d) (a, o) = elim (Bool-cases (leb (rank k) (rank h))) [
    | inl before ↦
        let le : rank k ≤ rank h = ground arith in
        rw before (((e, le), lowered h k l le d a), (a, o))
    | inr after ↦
        rw after (
          All-insert (Follows k) h l (Differs-swap h k e, ground arith) a,
          IsOrdered-insert h l d o,
        )
  ]

  sort_desc-IsOrdered : (l : List (Handler W)) → Unique l → IsOrdered (sort_desc l)
  unfolding sort_desc
  sort_desc-IsOrdered [] u = tt
  sort_desc-IsOrdered (h ∷ l) (d, u) =
      IsOrdered-insert h (sort_desc l) (All-sort (Differs h) l d) (sort_desc-IsOrdered l u)

  All-snoc :
      (P : Handler W → Type 0) (l : List (Handler W)) (h : Handler W)
      → All P l
      → P h
      → All P (l ++ h ∷ [])
  All-snoc P [] h a p = (p, tt)
  All-snoc P (k ∷ l) h (q, a) p = (q, All-snoc P l h a p)

  forget : (h : Handler W) (l : List (Handler W)) → All (Follows h) l → All (Differs h) l
  forget h [] a = tt
  forget h (k ∷ l) ((d, r), a) = (d, forget h l a)

  Unique-snoc :
      (l : List (Handler W)) (h : Handler W)
      → IsOrdered l
      → any (λ k. k.name == h.name) l ≡ false
      → Unique (l ++ h ∷ [])
  unfolding any
  Unique-snoc [] h o fresh = (tt, tt)
  Unique-snoc (k ∷ l) h (a, o) fresh =
      let apart : Differs h k = ground arith in
      (
        All-snoc (Differs k) l h (forget k l a) (Differs-swap h k apart),
        Unique-snoc l h o (ground arith),
      )

  All-filter :
      (P : Handler W → Type 0) (p : Handler W → Bool) (l : List (Handler W))
      → All P l
      → All P (filter p l)
  unfolding filter
  All-filter P p [] a = tt
  All-filter P p (k ∷ l) (q, a) = elim (Bool-cases (p k)) [
    | inl kept ↦ rw kept (q, All-filter P p l a)
    | inr dropped ↦ rw dropped (All-filter P p l a)
  ]

  filter-IsOrdered :
      (p : Handler W → Bool) (l : List (Handler W)) → IsOrdered l → IsOrdered (filter p l)
  unfolding filter
  filter-IsOrdered p [] o = tt
  filter-IsOrdered p (k ∷ l) (a, o) = elim (Bool-cases (p k)) [
    | inl kept ↦ rw kept (All-filter (Follows k) p l a, filter-IsOrdered p l o)
    | inr dropped ↦ rw dropped (filter-IsOrdered p l o)
  ]

  handlers_for-put :
      (d : Dict (List (Handler W))) (k n : String) (l : List (Handler W))
      → handlers_for (put d k l) n ≡ (if k == n then l else handlers_for d n)
  unfolding handlers_for
  handlers_for-put d k n l = ground (arith, get-put d k n l)

  put-IsWellFormed :
      (d : Dict (List (Handler W))) (k : String) (l : List (Handler W))
      → IsOrdered l
      → IsWellFormed d
      → IsWellFormed (put d k l)
  put-IsWellFormed d k l o wf = record {
    ordered = λ n.
        subst IsOrdered (sym (handlers_for-put d k n l)) (elim (Bool-cases (k == n)) [
          | inl same ↦ rw same o
          | inr other ↦ rw other (wf.ordered n)
        ]);
  }

  -- `add` keeps every event's handlers unique in name and sorted by descending priority.
  pub add-IsWellFormed :
      (event_name : String) (h : Handler W) (d e : Dict (List (Handler W)))
      → IsWellFormed d
      → add event_name h d ≡ ok e
      → IsWellFormed e
  unfolding add
  add-IsWellFormed event_name h d e wf added =
      elim (Bool-cases (any (λ k. k.name == h.name) (handlers_for d event_name))) [
        | inl taken ↦ absurd (ground arith)
        | inr fresh ↦
            let o = sort_desc-IsOrdered _ (Unique-snoc _ h (wf.ordered event_name) fresh) in
            subst IsWellFormed (ground arith) (put-IsWellFormed d event_name _ o wf)
      ]

  pub remove-IsWellFormed :
      (event_name handler_name : String) (d : Dict (List (Handler W)))
      → IsWellFormed d
      → IsWellFormed (remove event_name handler_name d)
  unfolding remove
  remove-IsWellFormed event_name handler_name d wf =
      put-IsWellFormed d event_name _ (filter-IsOrdered _ _ (wf.ordered event_name)) wf
