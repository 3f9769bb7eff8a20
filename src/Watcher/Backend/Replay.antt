-- ===== src/Watcher/Backend/Replay.antt =====
-- What the events of a poll say of the two snapshots.
use lex_mind.Watcher.Config.{
  BackendFileEvent, FileEventType, created, modified, deleted, WatchConfig,
}
use lex_mind.Watcher.Backend.{WatchConfig}
use lex_mind.Common.{
  ℕ, String, Bool, true, false, not, Option, none, some, List, [], ◌∷◌, ◌==◌, eqb,
}
use lex_mind.Common.Dict.{Dict, put, pop}

-- what an event does to a snapshot
abbrev pub apply_type : FileEventType → BackendFileEvent → Dict ℕ → Dict ℕ
apply_type created e d = put d e.uri e.size
apply_type modified e d = put d e.uri e.size
apply_type deleted e d = pop d e.uri

unfoldable pub replay : List BackendFileEvent → Dict ℕ → Dict ℕ
replay [] d = d
replay (e ∷ l) d = replay l (apply_type e.event_type e d)

-- whether an event is about a file
abbrev pub is_for : String → BackendFileEvent → Bool
is_for uri e = e.uri == uri

abbrev pub differ : Option ℕ → Option ℕ → Bool
differ none none = false
differ none (some b) = true
differ (some a) none = true
differ (some a) (some b) = not (eqb a b)
