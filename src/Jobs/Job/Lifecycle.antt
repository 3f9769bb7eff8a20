-- ===== src/Jobs/Job/Lifecycle.antt =====
-- The life of a job as the entity's methods allow it, and what its counters and time stamps say on every life.
use lex_mind.Common.Dict.{Dict}
use lex_mind.Common.Int.{ℤ}
use lex_mind.Common.{ℕ, ◌≡◌, true, false, arith, is_some, ◌∙◌, String, subst, ◌≤◌, sym, refl, ◌||◌}
use lex_mind.Common.Effect.{ok}
use lex_mind.Jobs.Job.{
  JobStatus, running, Job, transition_to, retry, status_eq, new, is_terminal, can_retry, failed,
  completed, cancelled,
}

-- one successful call of a method that changes the job
pub data Step (j : Job) : Job → Type 0 where
  moved : {k : Job} (target : JobStatus) (now : ℕ) → transition_to target now j ≡ ok k → Step j k
  retried : {k : Job} (now : ℕ) → retry now j ≡ ok k → Step j k

pub data Steps (j : Job) : Job → Type 0 where
  here : Steps j j
  next : {k l : Job} → Steps j k → Step k l → Steps j l

-- What every life keeps: `attempts` counts the first start and no other, and the time stamps are
-- there once the status says so.
pub record IsStamped (j : Job) : Type 0 where
  pub unstarted : is_some j.started_at ≡ false → j.attempts ≡ 0
  pub started : is_some j.started_at ≡ true → j.attempts ≡ 1
  pub ran :
      status_eq j.status running || (status_eq j.status completed || status_eq j.status failed)
        ≡ true
      → is_some j.started_at ≡ true
  pub ended :
      status_eq j.status completed || (status_eq j.status failed || status_eq j.status cancelled)
        ≡ true
      → is_some j.completed_at ≡ true

pub new-IsStamped :
    (w t : String) (p : Dict String) (pr : ℤ) (m : ℕ) (id : String) (now : ℕ) {j : Job}
    → new w t p pr m id now ≡ ok j
    → IsStamped j
unfolding new
new-IsStamped w t p pr m id now e = ground arith

pub Step-IsStamped : {j k : Job} → Step j k → IsStamped j → IsStamped k
unfolding transition_to retry
Step-IsStamped {j} (moved running now e) h = ground arith
Step-IsStamped {j} (moved _ now e) h = ground arith
Step-IsStamped (retried now e) h = ground arith

Step-max_retries : {j k : Job} → Step j k → k.max_retries ≡ j.max_retries
unfolding transition_to retry
Step-max_retries {j} (moved running now e) = ground arith
Step-max_retries {j} (moved _ now e) = ground arith
Step-max_retries (retried now e) = ground arith

Step-terminal : {j k : Job} → Step j k → is_terminal j ≡ true → ⊥
unfolding transition_to retry is_terminal
Step-terminal {j} (moved target now e) h = ground arith
Step-terminal (retried now e) h = ground arith

new-max_retries :
    (w t : String) (p : Dict String) (pr : ℤ) (m : ℕ) (id : String) (now : ℕ) {j : Job}
    → new w t p pr m id now ≡ ok j
    → j.max_retries ≡ m
unfolding new
new-max_retries w t p pr m id now e = ground arith

can_retry_of_sound :
    (k : Job) → IsStamped k → k.status ≡ failed → 2 ≤ k.max_retries → can_retry k ≡ true
unfolding can_retry
can_retry_of_sound k h f two = ground arith

-- From a job whose counters and time stamps are so, as those of a new job are, they stay so on every life
-- that the methods give it: `attempts` is 0 before the first start and 1 after it, through every retry and
-- every further start, though the acceptance criteria say that `retry` increments it; and the time stamps
-- of start and end are there once the status says so.
pub Steps-IsStamped : {j k : Job} → IsStamped j → Steps j k → IsStamped k
Steps-IsStamped h here = h
Steps-IsStamped h (next r s) = Step-IsStamped s (Steps-IsStamped h r)

Steps-max_retries : {j k : Job} → Steps j k → k.max_retries ≡ j.max_retries
Steps-max_retries here = refl
Steps-max_retries (next r s) = Step-max_retries s ∙ Steps-max_retries r

-- A job that is completed or cancelled never changes again.
pub terminal_absorbs : {j k : Job} → is_terminal j ≡ true → Steps j k → k ≡ j
terminal_absorbs h here = refl
terminal_absorbs {j} h (next r s) =
    absurd (Step-terminal s (subst (λ i. is_terminal i ≡ true) (sym (terminal_absorbs h r)) h))

-- Whatever was done to a job that was made with two retries or more, it can be retried whenever it
-- has failed: the limit is never reached.
pub retry_never_exhausted :
    (w t : String) (p : Dict String) (pr : ℤ) (m : ℕ) (id : String) (now : ℕ) {j k : Job}
    → new w t p pr m id now ≡ ok j
    → 2 ≤ m
    → Steps j k
    → k.status ≡ failed
    → can_retry k ≡ true
retry_never_exhausted w t p pr m id now {j} {k} e two r f =
    let sound = Steps-IsStamped (new-IsStamped w t p pr m id now e) r in
    let limit = Steps-max_retries r in
    let made = new-max_retries w t p pr m id now e in
    can_retry_of_sound k sound f (omega (arith, limit, made))
