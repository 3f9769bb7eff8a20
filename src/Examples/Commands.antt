-- ===== src/Examples/Commands.antt =====
-- The theorems about the scheduler's commands, and the database behind them, at a small store.
use lex_mind.Examples.Jobs.{world, repository, repository_laws, shop}
use lex_mind.Examples.Memory.{memory, memory-IsDatabase}
use lex_mind.Jobs.Scheduler.Commands.{Changed, cancel_cases, is_live}
use lex_mind.Jobs.Scheduler.Retry.{retry_cases}
use lex_mind.Jobs.Scheduler.{cancel_job, retry_job}
use lex_mind.Jobs.Repository.Sqlite.{sqlite, sqlite-IsJobRepository, get_by_id}
use lex_mind.Jobs.Repository.{IsJobRepository}
use lex_mind.Jobs.Job.{Job, can_retry, pending, cancelled}
use lex_mind.Jobs.State.{State, job_cancelled}
use lex_mind.Common.{◌≡◌, none, some, [], ◌∷◌, ◌⊎◌, true, false}
use lex_mind.Common.Effect.{ok}

sqlite-IsJobRepository_example : IsJobRepository (sqlite memory)
sqlite-IsJobRepository_example = sqlite-IsJobRepository memory memory-IsDatabase

cancel_cases_example :
    ((j k : Job) × (t : State repository) × (get_by_id memory "b" shop.store ≡ some j)
      × (is_live repository repository_laws j ≡ true)
      × (cancel_job world "b" shop ≡ (ok (some k), t))
      × Changed repository repository_laws j cancelled shop k t
      × (t.bus ≡ some (job_cancelled k.id k.workspace_id k.job_type ∷ [])))
    ⊎ (((get_by_id memory "b" shop.store ≡ none)
          ⊎ ((j : Job) × (get_by_id memory "b" shop.store ≡ some j)
              × (is_live repository repository_laws j ≡ false)))
        × (cancel_job world "b" shop ≡ (ok none, shop)))
cancel_cases_example = cancel_cases repository repository_laws world "b" shop

retry_cases_example :
    ((j k : Job) × (t : State repository) × (get_by_id memory "d" shop.store ≡ some j)
      × (can_retry j ≡ true)
      × (retry_job world "d" shop ≡ (ok (some k), t))
      × Changed repository repository_laws j pending shop k t
      × (k.attempts ≡ j.attempts))
    ⊎ (((get_by_id memory "d" shop.store ≡ none)
          ⊎ ((j : Job) × (get_by_id memory "d" shop.store ≡ some j) × (can_retry j ≡ false)))
        × (retry_job world "d" shop ≡ (ok none, shop)))
retry_cases_example = retry_cases repository repository_laws world "d" shop
