-- ===== src/Workspaces/Manager/Contract.antt =====
-- What the manager relies on in its registry and its factory, as their protocols say.
use lex_mind.Workspaces.Manager.{Collaborators}
use lex_mind.Workspaces.Workspace.{Workspace, created}
use lex_mind.Common.{ℕ, String, ◌≡◌, none, some, ◌==◌, if◌then◌else◌, is_some}
use lex_mind.Common.Effect.{ok}

pub record IsContract (c : Collaborators) : Type 0 where
  pub find-register :
      (ws : Workspace) (id : String) (s : c.Store)
      → c.find id (c.register ws s) ≡ (if ws.id == id then some ws else c.find id s)
  pub find-unregister :
      (k id : String) (s : c.Store)
      → c.find id (c.unregister k s) ≡ (if k == id then none else c.find id s)
  pub is_registered_lem : (id : String) (s : c.Store) → c.is_registered id s ≡ is_some (c.find id s)
  pub creates :
      (n : ℕ) (name description owner_id language jurisdiction : String) (ws : Workspace)
      → c.create n name description owner_id language jurisdiction ≡ ok ws
      → ws.status ≡ created
  pub loads-id : (n : ℕ) (id : String) (ws : Workspace) → c.load n id ≡ ok ws → ws.id ≡ id
