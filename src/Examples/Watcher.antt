-- ===== src/Examples/Watcher.antt =====
-- The theorems about the watcher, on a folder with two files.
use lex_mind.Watcher.Config.{WatchConfig, BackendFileEvent, FileEventType, created, modified}
use lex_mind.Watcher.Backend.{Polling}
use lex_mind.Watcher.Service.{Watcher, flush}
use lex_mind.Watcher.Service.Delivery.{last_for, latest}
use lex_mind.Watcher.Service.Last.{receive_each, last_taken, flush_delivers}
use lex_mind.Storage.Manager.{StorageStat}
use lex_mind.Common.{ℕ, ◌*◌, String, true, false, ◌≡◌, Option, none, some, List, [], ◌∷◌}
use lex_mind.Common.Effect.{ok, Outcome}
use lex_mind.Common.Dict.{Dict, get}

abbrev inbox : WatchConfig
inbox = record {
  watch_id = "inbox";
  workspace_id = "w1";
  root_uri = "storage://w1/in/";
  patterns = ".pdf" ∷ [];
  recursive = true;
  debounce_seconds = 5;
  enabled = true;
}

abbrev file : String → Outcome String StorageStat
file uri = ok (record { exists = true; is_directory = false; size = 7; modified = none })

abbrev listing : String → Option (List String)
listing uri = some ("a.pdf" ∷ "b.pdf" ∷ [])

abbrev before : Polling
before = record {
  configs = ("inbox", inbox) ∷ [];
  callbacks = ("inbox", "on_backend_event") ∷ [];
  snapshots = ("inbox", ("storage://w1/in/a.pdf", 5) ∷ ("storage://w1/in/old.pdf", 1) ∷ []) ∷ [];
}

-- the only folder is the one that is watched
abbrev one_folder : String → ℕ
one_folder uri = 1

abbrev service : Watcher
service = record {
  configs = ("inbox", inbox) ∷ [];
  pending = [];
  watching = "inbox" ∷ [];
  dispatched = [];
  calls = [];
  readings = 0;
}

abbrev change_of : FileEventType → ℕ → BackendFileEvent
change_of type size = record {
  watch_id = "inbox";
  uri = "storage://w1/in/a.pdf";
  name = "a.pdf";
  event_type = type;
  size = size;
  timestamp = 0;
}

abbrev burst : List BackendFileEvent
burst = change_of created 1 ∷ change_of modified 7 ∷ []

abbrev clock : ℕ → ℕ
clock n = 2 * n

abbrev as_it_is : String → String
as_it_is s = s

flush_delivers_example :
    ((uri : String)
      → get (flush clock (receive_each clock as_it_is burst service)).pending uri ≡ none)
    × ((uri : String)
        → last_for uri (flush clock (receive_each clock as_it_is burst service)).dispatched
          ≡ last_taken as_it_is service.configs uri burst (latest uri service))
unfolding get
flush_delivers_example = flush_delivers clock as_it_is burst service (λ uri. tt)
