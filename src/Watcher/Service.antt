-- ===== src/Watcher/Service.antt =====
-- backend/lexmind/watcher/file_watcher.py, `FileWatcherService`. The clock is read in ticks. The
-- dispatcher keeps what it was given; of the backend the calls are kept.
pub mod Delivery
pub mod Last
use lex_mind.Watcher.Config.{WatchConfig, BackendFileEvent, FileEventType, accepts_extension}
use lex_mind.Common.{
  ℕ, ◌+◌, String, Bool, true, false, not, ◌||◌, Option, none, some, List, [], ◌∷◌, ◌++◌, ◌==◌, leb,
  if◌then◌else◌, contains, filter,
}
use lex_mind.Common.Dict.{Dict, get, put, pop}
use lex_mind.Common.Effect.{ok, err, Outcome}

-- file_event.py, without the id and the time that the base class draws; `aggregate_id` is the
-- workspace's
pub record FileEvent : Type 0 where
  pub workspace_id : String
  pub watch_id : String
  pub uri : String
  pub name : String
  pub event_type : FileEventType
  pub size : ℕ

pub record Pending : Type 0 where
  pub timestamp : ℕ
  pub event : BackendFileEvent

pub data BackendCall : Type 0 where
  watch : WatchConfig → BackendCall
  unwatch : String → BackendCall

pub record Watcher : Type 0 where
  pub configs : Dict WatchConfig
  pub pending : Dict Pending
  pub watching : List String
  pub dispatched : List FileEvent
  pub calls : List BackendCall
  pub readings : ℕ

unfoldable pub register : WatchConfig → Watcher → Watcher
unfolding put
register config s = record s { configs = put s.configs config.watch_id config }

abbrev pub file_event : WatchConfig → BackendFileEvent → FileEvent
file_event config raw = record {
  workspace_id = config.workspace_id;
  watch_id = raw.watch_id;
  uri = raw.uri;
  name = raw.name;
  event_type = raw.event_type;
  size = raw.size;
}

abbrev pub dispatch_with : Option WatchConfig → BackendFileEvent → Watcher → Watcher
dispatch_with none raw s = s
dispatch_with (some config) raw s = record s {
  dispatched = s.dispatched ++ file_event config raw ∷ [];
}

-- `_dispatch`
unfoldable pub dispatch : BackendFileEvent → Watcher → Watcher
unfolding get
dispatch raw s = dispatch_with (get s.configs raw.watch_id) raw s

abbrev pub window_of : Option WatchConfig → ℕ
window_of none = 0
window_of (some config) = config.debounce_seconds

abbrev pub window_for : Watcher → Option Pending → ℕ
window_for s none = 0
window_for s (some p) = window_of (get s.configs p.event.watch_id)

-- `_debounce_seconds`
unfoldable pub debounce_seconds : String → Watcher → ℕ
unfolding get
debounce_seconds uri s = window_for s (get s.pending uri)

-- the uris of the entries whose window is over
unfoldable pub due_in : ℕ → Bool → Watcher → Dict Pending → List String
unfolding debounce_seconds
due_in now force s [] = []
due_in now force s ((uri, p) ∷ rest) =
    let more = due_in now force s rest in
    if force || leb (p.timestamp + debounce_seconds uri s) now then uri ∷ more else more

-- a key that is not there would be a `KeyError`, but the uris that are due are keys
abbrev pub release_found : String → Option Pending → Watcher → Watcher
release_found uri none s = s
release_found uri (some p) s = dispatch p.event (record s { pending = pop s.pending uri })

unfoldable pub release_each : List String → Watcher → Watcher
unfolding dispatch get pop
release_each [] s = s
release_each (uri ∷ l) s = release_each l (release_found uri (get s.pending uri) s)

-- `_drain`
unfoldable pub drain : ℕ → Bool → Watcher → Watcher
unfolding due_in release_each
drain now force s = release_each (due_in now force s s.pending) s

module _ (clock : ℕ → ℕ) where
  unfoldable pub flush : Watcher → Watcher
  unfolding drain
  flush s = drain (clock s.readings) true (record s { readings = s.readings + 1 })

  abbrev pub start_with : String → Option WatchConfig → Watcher → Outcome (Unit {0}) Watcher
  start_with id none s = err tt
  start_with id (some config) s = ok (record s {
    calls = s.calls ++ watch config ∷ [];
    watching = if contains s.watching id then s.watching else s.watching ++ id ∷ [];
  })

  -- the raise is `KeyError`
  unfoldable pub start : String → Watcher → Outcome (Unit {0}) Watcher
  unfolding get contains
  start id s = start_with id (get s.configs id) s

  unfoldable pub stop : String → Watcher → Watcher
  unfolding flush filter
  stop id s = flush (record s {
    calls = s.calls ++ unwatch id ∷ [];
    watching = filter (λ w. not (w == id)) s.watching;
  })

  -- `_on_backend_event` of an event that is taken
  abbrev pub buffer : BackendFileEvent → Watcher → Watcher
  buffer raw s =
      let now = clock s.readings in
      drain now false (record s {
        pending = put s.pending raw.uri (record { timestamp = now; event = raw });
        readings = s.readings + 1;
      })

  module _ (lower : String → String) where
    abbrev pub receive : Option WatchConfig → BackendFileEvent → Watcher → Watcher
    receive none raw s = s
    receive (some config) raw s =
        if not config.enabled
        then s
        else if not (accepts_extension lower raw.uri config)
        then s
        else buffer raw s

    -- `_on_backend_event`
    unfoldable pub on_backend_event : BackendFileEvent → Watcher → Watcher
    unfolding drain put accepts_extension get
    on_backend_event raw s = receive (get s.configs raw.watch_id) raw s
