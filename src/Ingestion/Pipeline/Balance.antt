-- ===== src/Ingestion/Pipeline/Balance.antt =====
-- What the accounts of a whole run say.
use lex_mind.Ingestion.Job.{
  cancelled, state_eq, is_terminal, transition_to, JobState, can_transition, completed, discovering,
  validating, importing,
}
use lex_mind.Ingestion.Pipeline.{
  Ingest, Surroundings, DiscoveredFile, IngestionEvent, emit, files_loop, process_file, progressed,
  transition, cancel_job, complete, announce_each, discover, file_discovered, FileResult, counted,
  process, import_started, import_completed, no_statistics, count,
}
use lex_mind.Ingestion.Pipeline.Accounts.{
  IsAccounted, IsBalanced, Ledger, ledger, emit-ledger, sums_of,
}
use lex_mind.Ingestion.Pipeline.Totals.{Entered, checked-Entered, progressed-IsBalanced, recounted}
use lex_mind.Common.{
  none_yet, ℕ, suc, ◌+◌, String, true, ◌≡◌, sym, ap, subst, ◌⊎◌, inl, inr, List, [], ◌∷◌, arith,
  Bool-cases, length, refl, ◌∙◌, Option, none, some, filter, contains,
}
use lex_mind.Common.Effect.{ok, err, Outcome, after}

module _ (w : Surroundings) where
  emit-IsBalanced :
      (e : IngestionEvent) (s : Ingest) → IsBalanced (ledger s) → IsBalanced (ledger (emit w e s))
  emit-IsBalanced e s h = subst IsBalanced (sym (emit-ledger w e s)) h

  emit-files : (e : IngestionEvent) (s : Ingest) → length (emit w e s).files ≡ length s.files
  emit-files e s = ap (λ (l : Ledger). length l.files) (emit-ledger w e s)

  -- a call that returned has `P` of what it leaves; one that raised left the accounts in order
  abbrev Leaves : {A : Type 0} → (A → Ingest → Type 0) → Outcome String A × Ingest → Type 0
  Leaves P (ok a, t) = P a t
  Leaves P (err e, t) = IsAccounted (ledger t)

  chain :
      {A B : Type 0} (P : A → Ingest → Type 0) (Q : B → Ingest → Type 0)
      (run : Outcome String A × Ingest) (f : A → Ingest → Outcome String B × Ingest)
      → Leaves P run
      → ((a : A) (t : Ingest) → P a t → Leaves Q (f a t))
      → Leaves Q (after run f)
  chain P Q (ok a, t) f h go = go a t h
  chain P Q (err e, t) f h go = h

  abbrev IsCancelled : Ingest → Type 0
  IsCancelled s = state_eq s.job.state cancelled ≡ true

  -- of a loop over `n` more files: they are all there, unless the job was cancelled
  abbrev Full : (had n : ℕ) → Ingest → Type 0
  Full had n t = IsBalanced (ledger t) × (IsCancelled t ⊎ (length t.files ≡ had + n))

  after_file :
      (total index : ℕ) (l : List DiscoveredFile) (s : Ingest)
      (run : Outcome String (Unit {0}) × Ingest)
      → IsBalanced (ledger s)
      → Entered w s run
      → ((t : Ingest)
          → IsBalanced (ledger t)
          → Leaves (λ _. Full (length t.files) (length l)) (files_loop w total (index + 1) l t))
      → Leaves
          (λ _. Full (length s.files) (suc (length l)))
          (after run (λ _ t. files_loop w total (index + 1) l (progressed w (index + 1) total t)))
  after_file total index l s (err e, t) h k go = k.0
  after_file total index l s (ok tt, t) h k go =
      let (even, longer) = progressed-IsBalanced w (index + 1) total s t h k in
      let u = progressed w (index + 1) total t in
      lengthened (files_loop w total (index + 1) l u) longer (go u even)
    where
      lengthened :
          {had : ℕ} (run : Outcome String (Unit {0}) × Ingest)
          → had ≡ suc (length s.files)
          → Leaves (λ _. Full had (length l)) run
          → Leaves (λ _. Full (length s.files) (suc (length l))) run
      lengthened (err e, t) same h = h
      lengthened (ok tt, t) same (even, inl stop) = (even, inl stop)
      lengthened (ok tt, t) same (even, inr all) = (even, inr (omega (arith, all, same)))

  files_loop-Full :
      (total index : ℕ) (l : List DiscoveredFile) (s : Ingest)
      → IsBalanced (ledger s)
      → Leaves (λ _. Full (length s.files) (length l)) (files_loop w total index l s)
  unfolding files_loop process_file
  files_loop-Full total index [] s h = (h, inr (omega arith))
  files_loop-Full total index (file ∷ l) s h = elim (Bool-cases (state_eq s.job.state cancelled)) [
    | inl stop ↦ rw stop (h, inl stop)
    | inr on ↦ rw on (
        after_file total index l s (process_file w file s) h
          (checked-Entered w file (w.validate file.path) s h.0)
          (λ t even. files_loop-Full total (index + 1) l t even))
  ]

  transition-Leaves :
      (target : JobState) (s : Ingest)
      → IsBalanced (ledger s)
      → Leaves
          (λ _ t. IsBalanced (ledger t) × (length t.files ≡ length s.files))
          (transition w target s)
  unfolding transition transition_to
  transition-Leaves target s h = elim (Bool-cases (can_transition s.job.state target)) [
    | inl may ↦ rw may (h, refl)
    | inr not_so ↦ rw not_so h.0
  ]

  cancelled_terminal : (s : Ingest) → IsCancelled s → is_terminal s.job ≡ true
  unfolding is_terminal
  cancelled_terminal s stop = ground (arith, stop)

  emit-IsCancelled : (e : IngestionEvent) (s : Ingest) → IsCancelled s → IsCancelled (emit w e s)
  unfolding emit cancel_job
  emit-IsCancelled e s stop = elim (Bool-cases (w.cancels (length s.emitted))) [
    | inl again ↦ rw (again, cancelled_terminal s stop) stop
    | inr on ↦ rw on stop
  ]

  complete-Leaves :
      (had n : ℕ) (s : Ingest) → Full had n s → Leaves (λ _. Full had n) (complete w s)
  unfolding complete transition transition_to
  complete-Leaves had n s (even, full) = elim (Bool-cases (is_terminal s.job)) [
    | inl over ↦ rw over (even, full)
    | inr live ↦ elim (Bool-cases (can_transition s.job.state completed)) [
      | inr not_so ↦ rw (live, not_so) even.0
      | inl may ↦
          rw (live, may)
            (
              even,
              elim full [
                | inr all ↦ inr all
                | inl stop ↦ absurd (ground (arith, live, cancelled_terminal s stop))
              ],
            )
    ]
  ]

  announce_each-ledger :
      (l : List DiscoveredFile) (s : Ingest) → ledger (announce_each w l s) ≡ ledger s
  announce_each-ledger [] s = refl
  announce_each-ledger (file ∷ l) s =
      announce_each-ledger l (emit w (file_discovered s.job.job_id file.path) s)
      ∙ emit-ledger w (file_discovered s.job.job_id file.path) s

  -- nothing was processed yet
  abbrev Ready : Ingest → Type 0
  Ready s = IsBalanced (ledger s) × (length s.files ≡ 0)

  Ready-ledger : (s t : Ingest) → ledger t ≡ ledger s → Ready s → Ready t
  Ready-ledger s t same h = subst (λ (l : Ledger). IsBalanced l × (length l.files ≡ 0)) (sym same) h

  transition-Ready :
      (target : JobState) (s : Ingest) → Ready s → Leaves (λ _ t. Ready t) (transition w target s)
  unfolding transition transition_to
  transition-Ready target s h = elim (Bool-cases (can_transition s.job.state target)) [
    | inl may ↦ rw may h
    | inr not_so ↦ rw not_so h.0.0
  ]

  discover-Ready :
      (found : List DiscoveredFile) (failure : Option String) (s : Ingest)
      → Ready s
      → Leaves (λ l t. (l ≡ found) × Ready t) (discover w (found, failure) s)
  unfolding discover
  discover-Ready found none s h =
      (refl, Ready-ledger s (announce_each w found s) (announce_each-ledger found s) h)
  discover-Ready found (some e) s h =
      (Ready-ledger s (announce_each w found s) (announce_each-ledger found s) h).0.0

  emit-Full : (e : IngestionEvent) (had n : ℕ) (s : Ingest) → Full had n s → Full had n (emit w e s)
  emit-Full e had n s (even, inl stop) = (emit-IsBalanced e s even, inl (emit-IsCancelled e s stop))
  emit-Full e had n s (even, inr all) = (emit-IsBalanced e s even, inr (emit-files e s ∙ all))

  abbrev pub Settled : ℕ → List FileResult → Ingest → Type 0
  Settled n files t =
      (files ≡ t.files)
      × IsBalanced (ledger t)
      × ((state_eq t.job.state cancelled ≡ true) ⊎ (length t.files ≡ n))

  at-Settled : (n : ℕ) (s : Ingest) → Full 0 n s → Settled n s.files s
  at-Settled n s (even, inl stop) = (refl, even, inl stop)
  at-Settled n s (even, inr all) = (refl, even, inr (omega (arith, all)))

  from-Full :
      (n : ℕ) (s : Ingest) (run : Outcome String (Unit {0}) × Ingest)
      → length s.files ≡ 0
      → Leaves (λ _. Full (length s.files) n) run
      → Leaves (λ _. Full 0 n) run
  from-Full n s (err e, t) none_there h = h
  from-Full n s (ok u, t) none_there (even, inl stop) = (even, inl stop)
  from-Full n s (ok u, t) none_there (even, inr all) = (even, inr (omega (arith, all, none_there)))

  total-Ready :
      (found : List DiscoveredFile) (t : Ingest)
      → Ready t
      → Ready (counted w (λ st. record st { total_files = length found }) t)
  total-Ready found t ((h, even), none_there) =
      ((recounted w (ledger t) (length found) t.job.files_processed h, even), none_there)

  process-Settled :
      (source : String) (found : List DiscoveredFile) (failure : Option String) (s : Ingest)
      → Ready s
      → Leaves (Settled (length found)) (process w source (found, failure) s)
  unfolding process
  process-Settled source found failure s h =
      let n = length found in
      let Q : List FileResult → Ingest → Type 0 = Settled n in
      let e = import_started s.job.job_id source in
      let s1 = emit w e s in
      chain (λ (_ : Unit {0}) t. Ready t) Q (transition w discovering s1) _
        (transition-Ready discovering s1 (Ready-ledger s s1 (emit-ledger w e s) h))
        (λ _ s2 h2.
          chain (λ (l : List DiscoveredFile) t. (l ≡ found) × Ready t) Q
            (discover w (found, failure) s2) _ (discover-Ready found failure s2 h2)
            (λ l s3 (same, h3).
              let s4 = counted w (λ st. record st { total_files = length l }) s3 in
              chain (λ (_ : Unit {0}) t. Ready t) Q (transition w validating s4) _
                (transition-Ready validating s4 (total-Ready l s3 h3))
                (λ _ s5 h5.
                  chain (λ (_ : Unit {0}) t. Ready t) Q (transition w importing s5) _
                    (transition-Ready importing s5 h5)
                    (λ _ s6 h6.
                      chain (λ (_ : Unit {0}). Full 0 n) Q (files_loop w (length l) 0 l s6) _
                        (subst
                          (λ (k : List DiscoveredFile).
                            Leaves (λ (_ : Unit {0}). Full 0 (length k))
                              (files_loop w (length l) 0 l s6))
                          same
                          (from-Full (length l) s6 (files_loop w (length l) 0 l s6) h6.1
                            (files_loop-Full (length l) 0 l s6 h6.0)))
                        (λ _ s7 h7.
                          chain (λ (_ : Unit {0}). Full 0 n) Q (complete w s7) _
                            (complete-Leaves 0 n s7 h7)
                            (λ _ s8 h8.
                              let last = import_completed s.job.job_id in
                              at-Settled n (emit w last s8) (emit-Full last 0 n s8 h8)))))))

-- what a run answers: where it returns, the result is that of the context, with one entry for each
-- file that was processed, and one for each that was found unless the job was cancelled
abbrev pub Accounts : ℕ → Outcome String (List FileResult) × Ingest → Type 0
Accounts n (err e, t) = IsAccounted (ledger t)
Accounts n (ok files, t) =
    (files ≡ t.files)
    × IsBalanced (ledger t)
    × ((state_eq t.job.state cancelled ≡ true) ⊎ (length t.files ≡ n))

abbrev pub fresh_ledger : Ledger
fresh_ledger = record {
  files = [];
  statistics = no_statistics;
  seen = [];
  files_failed = 0;
  files_processed = 0;
}

fresh_ledger-IsBalanced : IsBalanced fresh_ledger
unfolding count filter sums_of contains
fresh_ledger-IsBalanced = (
  record {
    imported_count = refl;
    duplicate_count = refl;
    unsupported_count = refl;
    rejected_count = refl;
    failed_count = refl;
    all_counted = refl;
    distinct = none_yet;
    seen = λ c. refl;
    covered = λ c k. k;
  },
  refl,
)

-- A run that starts with nothing processed leaves the accounts in order, also where it raises: the
-- statistics count the results of each kind, and a failed file of the job for each rejected one; no
-- checksum is imported twice, and that of a duplicate is that of a file that was imported. Where the
-- run returns, the job counts one processed file for each result, and there is a result for each file
-- that was found, unless the job was cancelled.
pub process-Accounts :
    (w : Surroundings) (source : String) (found : List DiscoveredFile) (failure : Option String)
    (s : Ingest)
    → ledger s ≡ fresh_ledger
    → Accounts (length found) (process w source (found, failure) s)
process-Accounts w source found failure s fresh = stated (process w source (found, failure) s) (
    process-Settled w source found failure s (
      subst IsBalanced (sym fresh) fresh_ledger-IsBalanced,
      ap (λ (l : Ledger). length l.files) fresh,
    ))
  where
    stated :
        (run : Outcome String (List FileResult) × Ingest)
        → Leaves w (Settled w (length found)) run
        → Accounts (length found) run
    stated (ok files, t) h = h
    stated (err e, t) h = h
