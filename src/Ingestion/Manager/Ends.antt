-- ===== src/Ingestion/Manager/Ends.antt =====
-- How a run of the manager ends: the job is in a terminal state, whatever the files and sources do.
use lex_mind.Ingestion.Job.{
  cancelled, paused, state_eq, transition_to, is_terminal, is_end, can_transition, JobState,
  discovering, completed, validating, importing, add_warning, failed, moved_to, IngestionJob,
}
use lex_mind.Ingestion.Pipeline.{
  Ingest, Surroundings, DiscoveredFile, IngestionEvent, emit, transition, cancel_job, files_loop,
  process_file, progressed, checked, hashed, register, add_file, file_validated, complete,
  announce_each, discover, process, FileResult, file_discovered, import_started, counted,
  import_completed, import_failed,
}
use lex_mind.Common.{
  Option-cases, ℕ, ◌+◌, String, true, false, ◌≡◌, refl, ◌∙◌, ap, ◌⊎◌, inl, inr, List, [], ◌∷◌,
  Bool-cases, length, contains, Option, none, some, arith, any, Bool,
}
use lex_mind.Common.Effect.{ok, err, Outcome, after}
use lex_mind.Ingestion.Manager.{
  IngestionError, import_error, after_process, fail, run, noted, Registry, failed_with,
  import_failed, fresh_context, announced, publication,
}

-- the only change of state that a subscriber makes
abbrev Moves : Ingest → Ingest → Type 0
Moves s t = (t.job.state ≡ s.job.state) ⊎ (t.job.state ≡ cancelled)

Moves-trans : (s t u : Ingest) → Moves s t → Moves t u → Moves s u
Moves-trans s t u h (inr stop) = inr stop
Moves-trans s t u (inl same) (inl same') = inl (same' ∙ same)
Moves-trans s t u (inr stop) (inl same') = inr (same' ∙ stop)

abbrev Live : Ingest → Type 0
Live s = state_eq s.job.state paused ≡ false

abbrev Over : Ingest → Type 0
Over s = is_end s.job.state ≡ true

Live-Moves : (s t : Ingest) → Moves s t → Live s → Live t
Live-Moves s t (inl same) h = ap (λ x. state_eq x paused) same ∙ h
Live-Moves s t (inr stop) h = ap (λ x. state_eq x paused) stop

Over-Moves : (s t : Ingest) → Moves s t → Over s → Over t
Over-Moves s t (inl same) h = ap is_end same ∙ h
Over-Moves s t (inr stop) h = ap is_end stop

module _ (w : Surroundings) where
  emit-Moves : (e : IngestionEvent) (s : Ingest) → Moves s (emit w e s)
  unfolding emit cancel_job transition transition_to
  emit-Moves e s = elim (Bool-cases (w.cancels (length s.emitted))) [
    | inr on ↦ rw on (inl refl)
    | inl stop ↦ elim (Bool-cases (is_terminal s.job)) [
      | inl over ↦ rw (stop, over) (inl refl)
      | inr live ↦ elim (Bool-cases (can_transition s.job.state cancelled)) [
        | inl may ↦ rw (stop, live, may) (inr refl)
        | inr not_so ↦ rw (stop, live, not_so) (inl refl)
      ]
    ]
  ]

  -- every outcome of a call
  abbrev Goes : {A : Type 0} → Ingest → Outcome String A × Ingest → Type 0
  Goes s (ok a, t) = Moves s t
  Goes s (err e, t) = Moves s t

  register-Moves :
      (file : DiscoveredFile) (sum : String) (s : Ingest) → Moves s (register w file sum s)
  unfolding add_file
  register-Moves file sum s = elim (Bool-cases (contains s.seen sum)) [
    | inl known ↦ rw known (emit-Moves _ _)
    | inr new ↦ rw new (inl refl)
  ]

  hashed-Goes :
      (file : DiscoveredFile) (sum : Outcome String String) (s : Ingest)
      → Goes s (hashed w file sum s)
  hashed-Goes file (err e) s = inl refl
  hashed-Goes file (ok sum) s = register-Moves file sum s

  from_event :
      {A : Type 0} (s t : Ingest) (run : Outcome String A × Ingest)
      → Moves s t
      → Goes t run
      → Goes s run
  from_event s t (ok a, u) h k = Moves-trans s t u h k
  from_event s t (err e, u) h k = Moves-trans s t u h k

  checked-Goes :
      (file : DiscoveredFile) (answer : Outcome String (Unit {0})) (s : Ingest)
      → Goes s (checked w file answer s)
  unfolding add_file
  checked-Goes file (err reason) s = emit-Moves _ _
  checked-Goes file (ok u) s =
      let told = emit w (file_validated file.path) s in
      elim (Bool-cases (w.is_supported file.path)) [
        | inl supported ↦ rw supported (
            from_event s told _ (emit-Moves (file_validated file.path) s)
              (hashed-Goes file (w.sha256_file file.path) told))
        | inr other ↦ rw other (emit-Moves (file_validated file.path) s)
      ]

  after_file-Goes :
      (run : Outcome String (Unit {0}) × Ingest)
      (f : Unit {0} → Ingest → Outcome String (Unit {0}) × Ingest) (s : Ingest)
      → Goes s run
      → ((t : Ingest) → Goes t (f tt t))
      → Goes s (after run f)
  after_file-Goes (err e, t) f s h k = h
  after_file-Goes (ok u, t) f s h k = from_event s t (f tt t) h (k t)

  files_loop-Goes :
      (total index : ℕ) (l : List DiscoveredFile) (s : Ingest)
      → Goes s (files_loop w total index l s)
  unfolding files_loop process_file progressed
  files_loop-Goes total index [] s = inl refl
  files_loop-Goes total index (file ∷ l) s = elim (Bool-cases (state_eq s.job.state cancelled)) [
    | inl stop ↦ rw stop (inl refl)
    | inr on ↦ rw on (
        after_file-Goes (process_file w file s) _ s (checked-Goes file (w.validate file.path) s)
          (λ t.
            from_event t (progressed w (index + 1) total t) _ (emit-Moves _ _)
              (files_loop-Goes total (index + 1) l (progressed w (index + 1) total t))))
  ]

  abbrev Closes : {A : Type 0} → (A → Ingest → Type 0) → Outcome String A × Ingest → Type 0
  Closes P (ok a, t) = P a t
  Closes P (err e, t) = Live t

  chain :
      {A B : Type 0} (P : A → Ingest → Type 0) (Q : B → Ingest → Type 0)
      (run : Outcome String A × Ingest) (f : A → Ingest → Outcome String B × Ingest)
      → Closes P run
      → ((a : A) (t : Ingest) → P a t → Closes Q (f a t))
      → Closes Q (after run f)
  chain P Q (ok a, t) f h go = go a t h
  chain P Q (err e, t) f h go = h

  abbrev Stays : {A : Type 0} → A → Ingest → Type 0
  Stays a t = Live t

  -- a paused job may go on to be discovered, so that one that may not is not paused
  discovering-Closes : (s : Ingest) → Closes Stays (transition w discovering s)
  unfolding transition transition_to can_transition any
  discovering-Closes s = elim (Bool-cases (can_transition s.job.state discovering)) [
    | inl may ↦ rw may refl
    | inr not_so ↦ rw not_so (ground (arith, not_so))
  ]

  transition-Closes :
      (target : JobState) (s : Ingest)
      → state_eq target paused ≡ false
      → Live s
      → Closes Stays (transition w target s)
  unfolding transition transition_to
  transition-Closes target s other h = elim (Bool-cases (can_transition s.job.state target)) [
    | inl may ↦ rw may other
    | inr not_so ↦ rw not_so h
  ]

  complete-Closes : (s : Ingest) → Live s → Closes (λ (_ : Unit {0}) t. Over t) (complete w s)
  unfolding complete transition transition_to is_terminal
  complete-Closes s h = elim (Bool-cases (is_end s.job.state)) [
    | inl over ↦ rw over over
    | inr live ↦ elim (Bool-cases (can_transition s.job.state completed)) [
      | inl may ↦ rw (live, may) refl
      | inr not_so ↦ rw (live, not_so) h
    ]
  ]

  announce_each-Moves : (l : List DiscoveredFile) (s : Ingest) → Moves s (announce_each w l s)
  announce_each-Moves [] s = inl refl
  announce_each-Moves (file ∷ l) s =
      let told = emit w (file_discovered s.job.job_id file.path) s in
      Moves-trans s told (announce_each w l told) (emit-Moves _ s) (announce_each-Moves l told)

  discover-Closes :
      (found : List DiscoveredFile) (failure : Option String) (s : Ingest)
      → Live s
      → Closes Stays (discover w (found, failure) s)
  unfolding discover
  discover-Closes found none s h =
      Live-Moves s (announce_each w found s) (announce_each-Moves found s) h
  discover-Closes found (some e) s h =
      Live-Moves s (announce_each w found s) (announce_each-Moves found s) h

  loop_closes :
      (s : Ingest) (run : Outcome String (Unit {0}) × Ingest)
      → Live s
      → Goes s run
      → Closes Stays run
  loop_closes s (ok u, t) h k = Live-Moves s t k h
  loop_closes s (err e, t) h k = Live-Moves s t k h

  process-Closes :
      (source : String) (found : List DiscoveredFile) (failure : Option String) (s : Ingest)
      → Closes (λ (_ : List FileResult) t. Over t) (process w source (found, failure) s)
  unfolding process
  process-Closes source found failure s =
      let Q : List FileResult → Ingest → Type 0 = λ _ t. Over t in
      let s1 = emit w (import_started s.job.job_id source) s in
      chain Stays Q (transition w discovering s1) _ (discovering-Closes s1) (λ _ s2 h2.
        chain Stays Q (discover w (found, failure) s2) _ (discover-Closes found failure s2 h2)
          (λ l s3 h3.
            let s4 = counted w (λ st. record st { total_files = length l }) s3 in
            chain Stays Q (transition w validating s4) _ (transition-Closes validating s4 refl h3)
              (λ _ s5 h5.
                chain Stays Q (transition w importing s5) _ (transition-Closes importing s5 refl h5)
                  (λ _ s6 h6.
                    chain Stays Q (files_loop w (length l) 0 l s6) _
                      (loop_closes s6 (files_loop w (length l) 0 l s6) h6
                        (files_loop-Goes (length l) 0 l s6))
                      (λ _ s7 h7.
                        chain (λ (_ : Unit {0}) t. Over t) Q (complete w s7) _
                          (complete-Closes s7 h7)
                          (λ _ s8 h8.
                            let last = import_completed s.job.job_id in
                            Over-Moves s8 (emit w last s8) (emit-Moves last s8) h8))))))

  -- every job that is neither paused nor at its end may fail
  fail-Over : (u : Ingest) → Live u → (v : Ingest) × (fail w u ≡ (ok tt, v)) × Over v
  unfolding fail transition transition_to is_terminal can_transition any
  fail-Over u h = elim (Bool-cases (is_end u.job.state)) [
    | inl over ↦ (u, rw over refl, over)
    | inr live ↦
        let may : can_transition u.job.state failed ≡ true = ground (arith, h, live) in
        (
          record u {
            job = moved_to failed (w.now u.transitions) u.job;
            transitions = u.transitions + 1;
          },
          rw (live, may) refl,
          refl,
        )
  ]

  -- how a run ends where the pipeline came to this: with its result; or with an IngestionError that has the
  -- message of what it raised, or with what the publication of the failure raised
  abbrev pub EndsAs :
      Outcome String (List FileResult) × Ingest
      → Outcome IngestionError (List FileResult) × Ingest
      → Type 0
  EndsAs (ok files, t) outcome = (outcome ≡ (ok files, t)) × (is_terminal t.job ≡ true)
  EndsAs (err message, u) outcome =
      (t : Ingest) × (is_terminal t.job ≡ true)
      × (((w.refuses message ≡ none) × (outcome ≡ (err (import_error message), t)))
          ⊎ ((e : String) × (w.refuses message ≡ some e) × (outcome ≡ (err (publication e), t))))

  after_process-EndsAs :
      (outcome : Outcome String (List FileResult) × Ingest)
      → Closes (λ (_ : List FileResult) t. Over t) outcome
      → EndsAs outcome (after_process w outcome)
  unfolding is_terminal add_warning
  after_process-EndsAs (ok files, t) h = (refl, h)
  after_process-EndsAs (err m, t) h =
      let (v, fails, over) = fail-Over (noted w m t) h in
      let e = import_failed v.job.job_id m in
      let t' = emit w e v in
      (
        t',
        Over-Moves v t' (emit-Moves e v) over,
        elim (Option-cases (w.refuses m)) [
          | inl heard ↦ inl (
            heard,
            ap (failed_with w m) fails ∙ ap (λ (o : Option String). announced w m o t') heard,
          )
          | inr (x, refused) ↦ inr (
            x,
            refused,
            ap (failed_with w m) fails ∙ ap (λ (o : Option String). announced w m o t') refused,
          )
        ],
      )

-- Whatever the source yields or raises, whatever becomes of the files, and whether or not a subscriber
-- cancels the job on the way, where no publication raises in the pipeline: a run of a registered source
-- leaves the job in a terminal state. It returns what the pipeline returned. Where the pipeline raised, it
-- raises `IngestionError` with the message of what the pipeline raised, or, where the publication of that
-- failure raises, what this raised; the handling of the failure raises nothing else.
pub run_ends :
    (w : Surroundings) (r : Registry) (location source : String) (recursive : Bool)
    (job : IngestionJob) (emitted : List IngestionEvent) (transitions : ℕ)
    → contains r.sources source ≡ true
    → EndsAs w
        (process w source (w.discover location recursive) (fresh_context w job emitted transitions))
        (run w r location source recursive job emitted transitions)
unfolding run
run_ends w r location source recursive job emitted transitions known =
    let s = fresh_context w job emitted transitions in
    let (found, failure) = w.discover location recursive in
    rw known (
      after_process-EndsAs w (process w source (found, failure) s)
        (process-Closes w source found failure s))
