-- ===== src/Workspaces/Lock.antt =====
-- backend/lexmind/workspace/workspace_lock.py, `SingleProcessLock`, as one thread sees it: a lock
-- that is taken is not given to the thread that holds it again. `none` means that the call waits
-- for ever.
use lex_mind.Workspaces.Workspace.{WorkspaceError, runtime_error}
use lex_mind.Common.{
  String, Bool, true, false, not, Option, none, some, List, ◌∷◌, ◌==◌, if◌then◌else◌, contains,
  filter,
}
use lex_mind.Common.Effect.{ok, err, Outcome}
use lex_mind.Common.Dict.{Dict, has, get, put, pop}

-- the ids with a lock, those whose lock is taken, and the owners
pub record Locks : Type 0 where
  pub known : List String
  pub taken : List String
  pub held : Dict String
  pub owner_name : String

abbrev remember : String → List String → List String
remember id l = if contains l id then l else id ∷ l

-- `timed`: whether the time-out is positive
unfoldable pub acquire : Bool → String → Locks → Option (Bool × Locks)
acquire timed id locks =
    let seen = record locks { known = remember id locks.known } in
    if contains locks.taken id
    then if timed then some (false, seen) else none
    else some
        (true, record seen { taken = id ∷ locks.taken; held = put locks.held id locks.owner_name })

-- `Lock.release` raises where the lock is not taken
unfoldable pub release : String → Locks → Outcome WorkspaceError (Unit {0}) × Locks
release id locks =
    if not (contains locks.known id)
    then (ok tt, locks)
    else let freed = record locks { held = pop locks.held id } in
      if contains locks.taken id
      then (ok tt, record freed { taken = filter (λ b. not (b == id)) locks.taken })
      else (err runtime_error, freed)

unfoldable pub is_locked : String → Locks → Bool
is_locked id locks = has locks.held id

unfoldable pub owner : String → Locks → Option String
owner id locks = get locks.held id
