-- ===== src/Watcher/Config.antt =====
-- backend/lexmind/watcher/watch_config.py, and the raw event of watch_backend.py. `lower` and `strip`
-- are the methods of `str`; a window is a number of ticks.
use lex_mind.Storage.Paths.{pure_path, path_name, suffix_of_name}
use lex_mind.Common.{ℕ, String, Bool, true, List, [], ◌∷◌, ◌==◌, if◌then◌else◌, contains}
use lex_mind.Common.Texts.{concat, startswith}
use lex_mind.Common.Effect.{ok, err, Outcome}

pub data FileEventType : Type 0 where
  created modified deleted : FileEventType

-- `timestamp` is the reading of `time.time`
pub record BackendFileEvent : Type 0 where
  pub watch_id : String
  pub uri : String
  pub name : String
  pub event_type : FileEventType
  pub size : ℕ
  pub timestamp : ℕ

pub record WatchConfig : Type 0 where
  pub watch_id : String
  pub workspace_id : String
  pub root_uri : String
  pub patterns : List String
  pub recursive : Bool
  pub debounce_seconds : ℕ
  pub enabled : Bool

abbrev pub with_dot : String → String
with_dot value = if startswith value "." then value else concat "." value

module _ (lower strip : String → String) where
  -- `_normalize_patterns`
  unfoldable pub normalize_patterns : List String → List String
  normalize_patterns [] = []
  normalize_patterns (pattern ∷ l) =
      let value = lower (strip pattern) in
      let rest = normalize_patterns l in if value == "" then rest else with_dot value ∷ rest

  -- `__post_init__`: the raise is ValueError
  unfoldable pub checked_config : WatchConfig → Outcome (Unit {0}) WatchConfig
  unfolding normalize_patterns
  checked_config config =
      if config.root_uri == ""
      then err tt
      else ok (record config { patterns = normalize_patterns config.patterns })

module _ (lower : String → String) where
  abbrev pub accepts : List String → String → Bool
  accepts [] suffix = true
  accepts (p ∷ l) suffix = contains (p ∷ l) (lower suffix)

  unfoldable pub accepts_extension : String → WatchConfig → Bool
  unfolding pure_path
  accepts_extension uri config =
      accepts config.patterns (suffix_of_name (path_name (pure_path uri)))
