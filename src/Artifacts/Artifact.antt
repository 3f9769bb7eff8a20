-- ===== src/Artifacts/Artifact.antt =====
-- backend/lexmind/artifacts/artifact.py, artifact_state.py and artifact_version.py. A `datetime` is
-- a number of ticks; a method takes the time that it reads.
pub mod Versions
use lex_mind.Common.{
  ℕ, ◌+◌, String, Bool, true, false, not, ◌||◌, Option, none, some, List, [], ◌∷◌, ◌++◌, ◌==◌,
  if◌then◌else◌, any, contains, filter,
}
use lex_mind.Common.Effect.{ok, err, Outcome}
use lex_mind.Common.Dict.{Dict}

pub data ArtifactStatus : Type 0 where
  registered available invalid superseded archived deleted : ArtifactStatus

abbrev pub status_eq : ArtifactStatus → ArtifactStatus → Bool
status_eq registered registered = true
status_eq available available = true
status_eq invalid invalid = true
status_eq superseded superseded = true
status_eq archived archived = true
status_eq deleted deleted = true
status_eq _ _ = false

-- ArtifactValidationError and ArtifactStateError
pub data ArtifactError : Type 0 where
  validation_error state_error : ArtifactError

-- VALID_ARTIFACT_TRANSITIONS
abbrev pub valid_artifact_transitions : ArtifactStatus → List ArtifactStatus
valid_artifact_transitions registered = available ∷ invalid ∷ []
valid_artifact_transitions available = superseded ∷ archived ∷ deleted ∷ []
valid_artifact_transitions invalid = deleted ∷ []
valid_artifact_transitions superseded = archived ∷ deleted ∷ []
valid_artifact_transitions archived = deleted ∷ []
valid_artifact_transitions deleted = []

unfoldable pub can_transition_artifact : ArtifactStatus → ArtifactStatus → Bool
unfolding any
can_transition_artifact source target =
    any (λ s. status_eq s target) (valid_artifact_transitions source)

pub record ArtifactVersion : Type 0 where
  pub artifact_id : String
  pub version_number : ℕ
  pub checksum : String
  pub producer_module : String
  pub producer_version : String
  pub storage_uri : String
  pub media_type : String
  pub notes : String
  pub created_at : ℕ

pub record Artifact : Type 0 where
  pub id : String
  pub workspace_id : String
  pub investigation_id : String
  pub artifact_type : String
  pub subtype : String
  pub status : ArtifactStatus
  pub current_version : ℕ
  pub producer_module : String
  pub producer_version : String
  pub checksum : String
  pub media_type : String
  pub storage_uri : String
  pub tags : List String
  pub extra : Dict String
  pub versions : List ArtifactVersion
  pub created_at : ℕ
  pub updated_at : ℕ

-- `__post_init__`
unfoldable pub checked : Artifact → Outcome ArtifactError Artifact
checked a =
    if a.id == ""
    then err validation_error
    else if a.workspace_id == ""
    then err validation_error
    else ok a

-- `_transition`
unfoldable pub transition : ArtifactStatus → ℕ → Artifact → Outcome ArtifactError Artifact
unfolding can_transition_artifact
transition target now a =
    if can_transition_artifact a.status target
    then ok (record a { status = target; updated_at = now })
    else err state_error

abbrev pub mark_available : ℕ → Artifact → Outcome ArtifactError Artifact
mark_available = transition available

abbrev pub mark_invalid : ℕ → Artifact → Outcome ArtifactError Artifact
mark_invalid = transition invalid

abbrev pub supersede : ℕ → Artifact → Outcome ArtifactError Artifact
supersede = transition superseded

abbrev pub archive : ℕ → Artifact → Outcome ArtifactError Artifact
archive = transition archived

unfoldable pub delete : ℕ → Artifact → Artifact
delete now a = record a { status = deleted; updated_at = now }

-- the artifact and the version after the assignments of `create_new_version`; a new version
-- reads the clock once more
abbrev pub next_version : ArtifactVersion → Artifact → ArtifactVersion
next_version content a = record content {
  artifact_id = a.id;
  version_number = a.current_version + 1;
}

abbrev pub with_version : ArtifactVersion → ℕ → Artifact → Artifact
with_version content now a = record a {
  current_version = a.current_version + 1;
  versions = a.versions ++ next_version content a ∷ [];
  checksum = content.checksum;
  storage_uri = if content.storage_uri == "" then a.storage_uri else content.storage_uri;
  media_type = if content.media_type == "" then a.media_type else content.media_type;
  updated_at = now;
}

-- `content` holds the arguments of the call and the version's `created_at`
unfoldable pub create_new_version :
    ArtifactVersion → ℕ → Artifact → Outcome ArtifactError (ArtifactVersion × Artifact)
create_new_version content now a =
    if status_eq a.status deleted || status_eq a.status archived
    then err state_error
    else ok (next_version content a, with_version content now a)

unfoldable pub validate_checksum : String → Artifact → Bool
validate_checksum expected a = a.checksum == expected

abbrev pub last? {ℓ} : {A : Type ℓ} → List A → Option A
last? [] = none
last? (x ∷ []) = some x
last? (x ∷ y ∷ l) = last? (y ∷ l)

unfoldable pub latest_version : Artifact → Option ArtifactVersion
latest_version a = last? a.versions

unfoldable pub add_tag : String → ℕ → Artifact → Artifact
add_tag tag now a =
    if contains a.tags tag then a else record a { tags = a.tags ++ tag ∷ []; updated_at = now }

unfoldable pub remove_tag : String → ℕ → Artifact → Artifact
remove_tag tag now a = record a { tags = filter (λ t. not (t == tag)) a.tags; updated_at = now }
