-- ===== src/Workspaces/Workspace.antt =====
-- backend/lexmind/workspace/workspace.py and workspace_state.py, without the manifest and the
-- metadata. `opened` is OPEN.
use lex_mind.Common.{ℕ, String, Bool, true, false, ◌||◌, List, [], ◌∷◌, if◌then◌else◌, any}
use lex_mind.Common.Effect.{ok, err, Outcome}

pub data WorkspaceStatus : Type 0 where
  created opened active read_only locked closed archived corrupted : WorkspaceStatus

abbrev pub status_eq : WorkspaceStatus → WorkspaceStatus → Bool
status_eq created created = true
status_eq opened opened = true
status_eq active active = true
status_eq read_only read_only = true
status_eq locked locked = true
status_eq closed closed = true
status_eq archived archived = true
status_eq corrupted corrupted = true
status_eq _ _ = false

-- VALID_TRANSITIONS
abbrev pub valid_transitions : WorkspaceStatus → List WorkspaceStatus
valid_transitions created = opened ∷ []
valid_transitions opened = active ∷ read_only ∷ closed ∷ []
valid_transitions active = read_only ∷ locked ∷ closed ∷ []
valid_transitions read_only = active ∷ closed ∷ []
valid_transitions locked = active ∷ []
valid_transitions closed = archived ∷ opened ∷ []
valid_transitions archived = opened ∷ []
valid_transitions corrupted = []

unfoldable pub can_transition : WorkspaceStatus → WorkspaceStatus → Bool
unfolding any
can_transition source target = any (λ s. status_eq s target) (valid_transitions source)

-- workspace_exceptions.py, `RuntimeError` of a lock, and what a factory or a loader raises
pub data WorkspaceError : Type 0 where
  not_found already_open lock_error validation_error runtime_error corrupted_data : WorkspaceError

pub record Workspace : Type 0 where
  pub id : String
  pub name : String
  pub description : String
  pub owner_id : String
  pub status : WorkspaceStatus
  pub version : String
  pub tags : List String
  pub language : String
  pub jurisdiction : String
  pub document_count : ℕ
  pub case_count : ℕ

-- `_transition`
unfoldable pub transition : WorkspaceStatus → Workspace → Outcome WorkspaceError Workspace
unfolding can_transition
transition target ws =
    if can_transition ws.status target
    then ok (record ws { status = target })
    else err validation_error

unfoldable pub mark_corrupted : Workspace → Workspace
mark_corrupted ws = record ws { status = corrupted }

unfoldable pub reopen : Workspace → Outcome WorkspaceError Workspace
unfolding transition
reopen ws =
    if status_eq ws.status closed || status_eq ws.status archived
    then ok (record ws { status = opened })
    else transition opened ws
