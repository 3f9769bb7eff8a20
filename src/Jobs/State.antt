-- ===== src/Jobs/State.antt =====
-- What the queue, the executor and the scheduler share: the store, the event bus, the clock and
-- the source of ids. The events are those of backend/lexmind/scheduler/job_events.py, without the
-- id and the time that the base class draws for each.
use lex_mind.Jobs.Repository.{JobRepository}
use lex_mind.Common.{ℕ, ◌+◌, String, Option, List}
use lex_mind.Common.Effect.{Outcome, Action, ok, err, published}
use lex_mind.Jobs.Job.{Error, Job}

pub data JobEvent : Type 0 where
  job_created job_started job_cancelled : (aggregate_id workspace_id job_type : String) → JobEvent
  job_completed : (aggregate_id workspace_id job_type result : String) → JobEvent
  job_failed : (aggregate_id workspace_id job_type error_message : String) → JobEvent

-- the n-th readings of `datetime.now` and of `uuid4`, and the text of an exception
pub record World : Type 0 where
  pub now : ℕ → ℕ
  pub uuid : ℕ → String
  pub describe : Error → String

pub record State (r : JobRepository) : Type 0 where
  pub store : r.Store
  -- what was published, oldest first; `none` where no bus was given
  pub bus : Option (List JobEvent)
  pub readings : ℕ
  pub drawn : ℕ

module _ {r : JobRepository} where
  -- `_emit`
  unfoldable pub emit : JobEvent → Action Error (State r) (Unit {0})
  emit e s = (ok tt, record s { bus = published s.bus e })

  abbrev stored : Outcome Error r.Store → State r → Outcome Error (Unit {0}) × State r
  stored (ok t) s = (ok tt, record s { store = t })
  stored (err e) s = (err e, s)

  -- a call of the repository that writes
  abbrev pub write : (r.Store → Outcome Error r.Store) → Action Error (State r) (Unit {0})
  write f s = stored (f s.store) s

  abbrev pub clocked : Outcome Error Job → State r → Outcome Error Job × State r
  clocked (ok j) s = (ok j, record s { readings = s.readings + 1 })
  clocked (err e) s = (err e, s)

  -- a method of the job that reads the clock once, and only where it does not raise
  abbrev pub timed : World → (ℕ → Outcome Error Job) → Action Error (State r) Job
  timed w f s = clocked (f (w.now s.readings)) s
