-- ===== src/Workspaces/Manager.antt =====
-- backend/lexmind/workspace/workspace_manager.py over the lock of its package. The factory, the
-- loader and the registry are protocols without an implementation: they are parameters.
-- `validate_workspace` and `migrate_workspace` are left out.
pub mod Contract
pub mod Paths
pub mod Archive
use lex_mind.Workspaces.Workspace.{
  Workspace, WorkspaceError, WorkspaceStatus, transition, opened, closed, archived, not_found,
  already_open, lock_error,
}
use lex_mind.Workspaces.Lock.{Locks, acquire, release}
use lex_mind.Common.{ℕ, ◌+◌, String, Bool, true, false, Option, none, some, List, if◌then◌else◌}
use lex_mind.Common.Effect.{ok, err, pure, raise, lift, Action, Outcome, ◌>>=◌, ◌>>◌, published}

-- the n-th calls of the factory and the loader, and the registry
pub record Collaborators : Type 1 where
  pub Store : Type 0
  pub create :
      ℕ
      → (name description owner_id language jurisdiction : String)
      → Outcome WorkspaceError Workspace
  pub load : ℕ → String → Outcome WorkspaceError Workspace
  pub register : Workspace → Store → Store
  pub unregister : String → Store → Store
  pub find : String → Store → Option Workspace
  pub is_registered : String → Store → Bool
  pub list_open : Store → List Workspace

-- workspace_events.py
pub data WorkspaceEvent : Type 0 where
  workspace_created : (id name : String) → WorkspaceEvent
  workspace_opened workspace_closed workspace_archived workspace_deleted :
      (id : String) → WorkspaceEvent

pub record Hall (c : Collaborators) : Type 0 where
  pub store : c.Store
  pub lock : Option Locks
  pub bus : Option (List WorkspaceEvent)
  pub calls : ℕ

module _ {c : Collaborators} where
  -- `_publish`
  unfoldable pub publish : WorkspaceEvent → Action WorkspaceError (Hall c) (Unit {0})
  publish e s = (ok tt, record s { bus = published s.bus e })

  abbrev pub called :
      Outcome WorkspaceError Workspace → Hall c → Outcome WorkspaceError Workspace × Hall c
  called result s = (result, record s { calls = s.calls + 1 })

  abbrev pub register : Workspace → Action WorkspaceError (Hall c) (Unit {0})
  register ws s = (ok tt, record s { store = c.register ws s.store })

  abbrev pub unregister : String → Action WorkspaceError (Hall c) (Unit {0})
  unregister id s = (ok tt, record s { store = c.unregister id s.store })

  abbrev pub locking :
      Hall c
      → Outcome WorkspaceError (Unit {0}) × Locks
      → Outcome WorkspaceError (Unit {0}) × Hall c
  locking s (result, locks) = (result, record s { lock = some locks })

  abbrev pub free_with : String → Hall c → Option Locks → Outcome WorkspaceError (Unit {0}) × Hall c
  free_with id s none = (ok tt, s)
  free_with id s (some locks) = locking s (release id locks)

  -- `if self._lock is not None: self._lock.release(...)`
  abbrev pub free : String → Action WorkspaceError (Hall c) (Unit {0})
  free id s = free_with id s s.lock

  abbrev pub acquired : Hall c → Option (Bool × Locks) → Option (Bool × Hall c)
  acquired s none = none
  acquired s (some (got, locks)) = some (got, record s { lock = some locks })

  -- the guard of `open_workspace`; without a lock nothing is to be acquired
  abbrev pub take_with : String → Hall c → Option Locks → Option (Bool × Hall c)
  take_with id s none = some (true, s)
  take_with id s (some locks) = acquired s (acquire false id locks)

  abbrev pub take : String → Hall c → Option (Bool × Hall c)
  take id s = take_with id s s.lock

  unfoldable pub create_workspace :
      (name description owner_id language jurisdiction : String)
      → Action WorkspaceError (Hall c) Workspace
  unfolding publish
  create_workspace name description owner_id language jurisdiction = do
    ws ← (λ s. called (c.create s.calls name description owner_id language jurisdiction) s)
    register ws
    publish (workspace_created ws.id ws.name)
    pure ws

  -- `open_workspace` once the lock is acquired
  unfoldable pub load_workspace : String → Action WorkspaceError (Hall c) Workspace
  unfolding publish
  load_workspace id = do
    ws ← (λ s. called (c.load s.calls id) s)
    ready ← lift (transition opened ws)
    register ready
    publish (workspace_opened ready.id)
    pure ready

  abbrev pub once_taken :
      String → Option (Bool × Hall c) → Option (Outcome WorkspaceError Workspace × Hall c)
  once_taken id none = none
  once_taken id (some (false, t)) = some (err lock_error, t)
  once_taken id (some (true, t)) = some (load_workspace id t)

  -- `none`: the call waits for the lock for ever
  unfoldable pub open_workspace :
      String → Hall c → Option (Outcome WorkspaceError Workspace × Hall c)
  open_workspace id s =
      if c.is_registered id s.store then some (err already_open, s) else once_taken id (take id s)

  -- the common course of `close_workspace` and `archive_workspace`
  abbrev pub retire_found :
      WorkspaceStatus
      → (String → WorkspaceEvent)
      → String
      → Option Workspace
      → Action WorkspaceError (Hall c) (Unit {0})
  retire_found target event id none = raise not_found
  retire_found target event id (some ws) = do
    moved ← lift (transition target ws)
    unregister id
    free id
    publish (event moved.id)

  unfoldable pub close_workspace : String → Action WorkspaceError (Hall c) (Unit {0})
  close_workspace id s = retire_found closed workspace_closed id (c.find id s.store) s

  unfoldable pub archive_workspace : String → Action WorkspaceError (Hall c) (Unit {0})
  archive_workspace id s = retire_found archived workspace_archived id (c.find id s.store) s

  abbrev pub forget_found : String → Option Workspace → Action WorkspaceError (Hall c) (Unit {0})
  forget_found id none = pure tt
  forget_found id (some ws) = do unregister id; free id

  unfoldable pub delete_workspace : String → Action WorkspaceError (Hall c) (Unit {0})
  unfolding publish
  delete_workspace id s = (forget_found id (c.find id s.store) >> publish (workspace_deleted id)) s
