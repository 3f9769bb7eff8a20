-- ===== src/Storage/Manager.antt =====
-- backend/lexmind/storage/manager.py, over a provider that is a parameter. Its operations may raise
-- and change its state; a walk is the list of what it yields.
pub mod Aliasing
use lex_mind.Storage.Uri.{StorageUri, UriError, parse_uri}
use lex_mind.Common.{ℕ, String, Bool, Option, List, ◌==◌, if◌then◌else◌}
use lex_mind.Common.Effect.{ok, err, Outcome, Action}

pub record StorageStat : Type 0 where
  pub exists : Bool
  pub is_directory : Bool
  pub size : ℕ
  pub modified : Option ℕ

-- provider.py: the protocol, with the part that the manager calls
pub record StorageProvider (Data : Type 0) : Type 1 where
  pub State : Type 0
  pub Failure : Type 0
  pub exists : String → Action Failure State Bool
  pub read_bytes : String → Action Failure State Data
  pub write_bytes : String → Data → Action Failure State (Unit {0})
  pub read_text : String → (encoding : String) → Action Failure State String
  pub write_text : String → String → (encoding : String) → Action Failure State (Unit {0})
  pub delete : String → Action Failure State (Unit {0})
  pub copy : String → String → Action Failure State (Unit {0})
  pub move : String → String → Action Failure State (Unit {0})
  pub mkdir : String → Action Failure State (Unit {0})
  pub list : String → Action Failure State (List String)
  pub walk : String → Action Failure State (List (String × List String × List String))
  pub stat : String → Action Failure State StorageStat
  pub checksum : String → (algorithm : String) → Action Failure State String
  pub backend_name : String

-- a raise by the parser of the URI, or by the provider
pub data StorageError (F : Type 0) : Type 0 where
  invalid_uri : UriError → StorageError F
  from_provider : F → StorageError F

abbrev pub from_call : {F S A : Type 0} → Outcome F A × S → Outcome (StorageError F) A × S
from_call (ok a, s) = (ok a, s)
from_call (err e, s) = (err (from_provider e), s)

abbrev pub with_path :
    {F S A : Type 0}
    → Outcome UriError StorageUri
    → (String → Action F S A)
    → Action (StorageError F) S A
with_path (err e) f s = (err (invalid_uri e), s)
with_path (ok parsed) f s = from_call (f parsed.path s)

-- a call of the provider with the path that `_extract_path` gives
unfoldable pub at_path :
    {F S A : Type 0} → String → (String → Action F S A) → Action (StorageError F) S A
unfolding parse_uri
at_path uri f = with_path (parse_uri uri) f

-- the paths of two URIs, the first one first
abbrev pub with_paths :
    {F S A : Type 0}
    → Outcome UriError StorageUri
    → Outcome UriError StorageUri
    → (String → String → Action F S A)
    → Action (StorageError F) S A
with_paths (err e) dst f s = (err (invalid_uri e), s)
with_paths (ok from) dst f s = with_path dst (f from.path) s

module _ {Data : Type 0} (p : StorageProvider Data) where
  abbrev pub Stored : Type 0 → Type 0
  Stored = Action (StorageError p.Failure) p.State

  unfoldable pub save : String → Data → Stored (Unit {0})
  unfolding at_path
  save uri data' = at_path uri (λ path. p.write_bytes path data')

  unfoldable pub load : String → Stored Data
  unfolding at_path
  load uri = at_path uri p.read_bytes

  unfoldable pub load_text : String → (encoding : String) → Stored String
  unfolding at_path
  load_text uri encoding = at_path uri (λ path. p.read_text path encoding)

  unfoldable pub save_text : String → (text encoding : String) → Stored (Unit {0})
  unfolding at_path
  save_text uri text encoding = at_path uri (λ path. p.write_text path text encoding)

  unfoldable pub delete : String → Stored (Unit {0})
  unfolding at_path
  delete uri = at_path uri p.delete

  unfoldable pub copy : (src_uri dst_uri : String) → Stored (Unit {0})
  unfolding parse_uri
  copy src_uri dst_uri = with_paths (parse_uri src_uri) (parse_uri dst_uri) p.copy

  unfoldable pub move : (src_uri dst_uri : String) → Stored (Unit {0})
  unfolding parse_uri
  move src_uri dst_uri = with_paths (parse_uri src_uri) (parse_uri dst_uri) p.move

  unfoldable pub checksum : String → (algorithm : String) → Stored String
  unfolding at_path
  checksum uri algorithm = at_path uri (λ path. p.checksum path algorithm)

  unfoldable pub exists : String → Stored Bool
  unfolding at_path
  exists uri = at_path uri p.exists

  unfoldable pub stat : String → Stored StorageStat
  unfolding at_path
  stat uri = at_path uri p.stat

  unfoldable pub list : String → Stored (List String)
  unfolding at_path
  list uri s = if uri == "" then from_call (p.list "" s) else at_path uri p.list s

  unfoldable pub mkdir : String → Stored (Unit {0})
  unfolding at_path
  mkdir uri = at_path uri p.mkdir

  unfoldable pub walk : String → Stored (List (String × List String × List String))
  unfolding at_path
  walk uri s = if uri == "" then from_call (p.walk "" s) else at_path uri p.walk s

  abbrev pub backend : String
  backend = p.backend_name
