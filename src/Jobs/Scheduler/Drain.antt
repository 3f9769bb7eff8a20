-- ===== src/Jobs/Scheduler/Drain.antt =====
-- `process_all` empties the queue.
use mathlib.Core.List.{append-nil, append_assoc}
use lex_mind.Jobs.State.{State, World}
use lex_mind.Jobs.Job.{Job, pending, status_eq, completed, failed}
use lex_mind.Common.{
  ℕ, ◌<◌, ◌≡◌, refl, true, some, length, filter, zero, suc, inl, inr, ◌||◌, List, [], ◌∷◌, ◌++◌,
  arith, eqb, All, Bool-cases, sym, ap, ◌∙◌,
}
use lex_mind.Common.Effect.{ok}
use lex_mind.Jobs.Repository.{JobRepository, IsJobRepository, is_pending}
use lex_mind.Jobs.Executor.{Executor, has_handler, execute}
use lex_mind.Jobs.Scheduler.{process_next, process_all_loop, is_empty, process_all}
use lex_mind.Jobs.Repository.Rows.{find}
use lex_mind.Jobs.Executor.Runs.{Executed, execute_pending}
use lex_mind.Jobs.Queue.Order.{dequeue-some_of_pos, dequeue-eq-some}
use lex_mind.Jobs.Queue.{is_empty, size, dequeue}

pub status_of_test : (j : Job) → is_pending j ≡ true → j.status ≡ pending
status_of_test j p = ground arith

abbrev pub HasEnded : Job → Type 0
HasEnded j = status_eq j.status completed || status_eq j.status failed ≡ true

module _ (r : JobRepository) (laws : IsJobRepository r) (w : World) (ex : Executor) where
  abbrev pub waiting : State r → ℕ
  waiting s = length (filter is_pending (r.rows s.store))

  pub is_empty-waiting : (s : State r) → is_empty s ≡ eqb (waiting s) 0
  unfolding is_empty
  is_empty-waiting s = ap (λ n. eqb n 0) (laws.count_pending_lem s.store)

  pub size-waiting : (s : State r) → size s ≡ waiting s
  unfolding size
  size-waiting s = laws.count_pending_lem s.store

  -- each pending row has a handler for its type
  abbrev pub HasHandlers : State r → Type 0
  HasHandlers s =
      (j : Job)
      → find j.id (r.rows s.store) ≡ some j
      → is_pending j ≡ true
      → has_handler j.job_type ex ≡ true

  pub process_dequeued :
      (j k : Job) (s t : State r)
      → dequeue s ≡ some j
      → execute w ex j s ≡ (ok k, t)
      → process_next w ex s ≡ (ok (some k), t)
  unfolding process_next
  process_dequeued j k s t head done = rw (head, process_next, done) refl

  pub process_pending :
      (s : State r)
      → ex.persists ≡ true
      → HasHandlers s
      → 0 < waiting s
      → (j k : Job) × (t : State r) × (process_next w ex s ≡ (ok (some k), t))
        × Executed r laws j s k t
  process_pending s on known more =
      let (j, head) = dequeue-some_of_pos r laws s more in
      let (present, p) = dequeue-eq-some r laws s j head in
      let (k, t, done, executed) =
        execute_pending r laws w ex j s on (known j present p) (status_of_test j p) present in
      (j, k, t, process_dequeued j k s t head done, executed)

  pub HasHandlers-Executed :
      {j k : Job} {s t : State r} → Executed r laws j s k t → HasHandlers s → HasHandlers t
  HasHandlers-Executed {j} {k} e known i present p = ground (arith, e.found i.id, e.ended, known i)

  -- What a run of the loop gives, from the results and the state that it starts with.
  pub record Drained (fuel : ℕ) (results : List Job) (s : State r) : Type 0 where
    pub done : List Job
    pub final : State r
    pub returns : process_all_loop w ex fuel results s ≡ some (ok (results ++ done), final)
    pub emptied : waiting final ≡ 0
    pub each_once : length done ≡ waiting s
    pub all_ended : All HasEnded done

  drain :
      (fuel : ℕ) (results : List Job) (s : State r)
      → ex.persists ≡ true
      → HasHandlers s
      → waiting s < fuel
      → Drained fuel results s
  unfolding process_all_loop
  drain zero results s on known h = elim h [ ]
  drain (suc fuel) results s on known h = elim (Bool-cases (eqb (waiting s) 0)) [
    | inl empty ↦ record {
      done = [];
      final = s;
      returns = rw (is_empty-waiting s ∙ empty, append-nil);
      emptied = ground arith;
      each_once = ground arith;
      all_ended = tt;
    }
    | inr more ↦
        let (j, k, t, processed, e) = process_pending s on known (ground arith) in
        let rest =
          drain fuel (results ++ k ∷ []) t on (HasHandlers-Executed e known)
            (omega (arith, e.one_less)) in
        record {
          done = k ∷ rest.done;
          final = rest.final;
          returns =
              rw (← append_assoc results (k ∷ []) rest.done)
                (rw (is_empty-waiting s ∙ more, processed) rest.returns);
          emptied = rest.emptied;
          each_once = omega (arith, e.one_less, rest.each_once);
          all_ended = (e.ended, rest.all_ended);
        }
  ]

-- From any state in which each pending job has a handler, with an executor that writes to the
-- scheduler's repository, `process_all` returns without raising: no job is pending any more, it
-- returns as many jobs as were pending, and each of these is completed or failed. The fuel of one
-- more than the number of pending jobs suffices.
pub process_all_drains :
    (r : JobRepository) (laws : IsJobRepository r) (w : World) (ex : Executor) (s : State r)
    → ex.persists ≡ true
    → HasHandlers r laws w ex s
    → (done : List Job) × (final : State r) × (process_all w ex s ≡ some (ok done, final))
      × (r.count_pending final.store ≡ 0)
      × (length done ≡ r.count_pending s.store)
      × All HasEnded done
unfolding process_all
process_all_drains r laws w ex s on known =
    let d =
      drain r laws w ex (suc (size s)) [] s on known (omega (arith, size-waiting r laws w ex s)) in
    (
      d.done,
      d.final,
      d.returns,
      laws.count_pending_lem d.final.store ∙ d.emptied,
      d.each_once ∙ sym (laws.count_pending_lem s.store),
      d.all_ended,
    )
