-- ===== src/Examples/Workspaces.antt =====
-- The theorems about the workspace manager, with a registry that is a dictionary.
use lex_mind.Workspaces.Workspace.{
  Workspace, WorkspaceError, WorkspaceStatus, created, closed, opened, corrupted_data, not_found,
  validation_error, can_transition,
}
use lex_mind.Workspaces.Lock.{Locks}
use lex_mind.Workspaces.Manager.{
  Collaborators, Hall, open_workspace, close_workspace, archive_workspace, create_workspace,
  workspace_opened, workspace_closed,
}
use lex_mind.Workspaces.Manager.Contract.{IsContract}
use lex_mind.Workspaces.Manager.Paths.{IsFree, open_leaks, open_close}
use lex_mind.Workspaces.Manager.Archive.{Reachable, archive_fails}
use lex_mind.Common.{
  String, ◌≡◌, refl, ◌⊎◌, none, some, [], ◌∷◌, map, arith, ◌==◌, if◌then◌else◌, is_some, contains,
  any,
}
use lex_mind.Common.Effect.{ok, err, Outcome}
use lex_mind.Common.Dict.{Dict, get-put, get, put, get-pop, pop}

abbrev named : String → WorkspaceStatus → Workspace
named id status = record {
  id = id;
  name = "case";
  description = "";
  owner_id = "";
  status = status;
  version = "1.0.0";
  tags = [];
  language = "ro";
  jurisdiction = "";
  document_count = 0;
  case_count = 0;
}

-- one workspace cannot be read
abbrev loaded : String → Outcome WorkspaceError Workspace
loaded id = if id == "broken" then err corrupted_data else ok (named id closed)

abbrev office : Collaborators
office = record {
  Store = Dict Workspace;
  create = λ n name description owner_id language jurisdiction. ok (named "new" created);
  load = λ n id. loaded id;
  register = λ ws s. put s ws.id ws;
  unregister = λ id s. pop s id;
  find = λ id s. get s id;
  is_registered = λ id s. is_some (get s id);
  list_open = λ s. map (λ (entry : String × Workspace). entry.1) s;
}

office_laws : IsContract office
office_laws = record {
  find-register = λ ws id s. get-put s ws.id id ws;
  find-unregister = λ k id s. get-pop s k id;
  is_registered_lem = λ id s. refl;
  creates = λ n name description owner_id language jurisdiction ws e. ground arith;
  loads-id = λ n id ws e. ground arith;
}

abbrev locks : Locks
locks = record { known = []; taken = []; held = []; owner_name = "1" }

abbrev hall : Hall office
hall = record { store = []; lock = some locks; bus = some []; calls = 0 }

hall-IsFree : (id : String) → IsFree office office_laws id hall locks
unfolding contains get
hall-IsFree id = record { guarded = refl; idle = refl; absent = refl }

open_leaks_example :
    (t : Hall office) × (open_workspace "broken" hall ≡ some (err corrupted_data, t))
    × (open_workspace "broken" t ≡ none)
open_leaks_example =
    open_leaks office office_laws "broken" hall locks corrupted_data (hall-IsFree "broken") refl

open_close_example :
    (k : Workspace) × (t : Hall office) × (u : Hall office) × (after_locks : Locks)
    × (open_workspace "a" hall ≡ some (ok k, t))
    × (k.status ≡ opened)
    × (get t.store "a" ≡ some k)
    × (close_workspace "a" t ≡ (ok tt, u))
    × ((i : String) → get u.store i ≡ get hall.store i)
    × (u.lock ≡ some after_locks)
    × ((i : String) → contains after_locks.taken i ≡ contains [] i)
    × (u.bus ≡ some (workspace_opened k.id ∷ workspace_closed k.id ∷ []))
unfolding can_transition any
open_close_example =
    open_close office office_laws "a" hall locks (named "a" closed) (hall-IsFree "a") refl refl

abbrev later : Hall office
later = (close_workspace "new" (create_workspace "case" "" "" "ro" "" hall).1).1

archive_fails_example :
    (archive_workspace "new" later ≡ (err not_found, later))
    ⊎ (archive_workspace "new" later ≡ (err validation_error, later))
unfolding get
archive_fails_example = archive_fails office office_laws later "new" (
    Reachable.after_close "new"
      (Reachable.after_create "case" "" "" "ro" "" (Reachable.empty (λ id. refl))))
