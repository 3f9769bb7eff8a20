-- ===== src/Watcher/Backend.antt =====
-- backend/lexmind/watcher/storage_watch_backend.py. The storage is a parameter: what `list` gives, or
-- that it raises, and what `stat` gives, or what it raises. The search runs on fuel; `none` means that it
-- ran out. The callback does not raise.
pub mod Unique
pub mod Bounds
pub mod Replay
use lex_mind.Watcher.Config.{
  WatchConfig, BackendFileEvent, FileEventType, created, modified, deleted,
}
use lex_mind.Storage.Paths.{pure_path, path_name, is_slash}
use lex_mind.Storage.Manager.{StorageStat}
use lex_mind.Common.{
  ℕ, zero, suc, String, Bool, true, false, not, ◌&&◌, Option, none, some, List, [], ◌∷◌, ◌++◌, ◌==◌,
  eqb, if◌then◌else◌, is_some,
}
use lex_mind.Common.Effect.{ok, err, Outcome}
use lex_mind.Common.Texts.{concat}
use lex_mind.Common.Dict.{Dict, get, put, pop, has}

-- `callbacks` has the name of each watch's callback
pub record Polling : Type 0 where
  pub configs : Dict WatchConfig
  pub callbacks : Dict String
  pub snapshots : Dict (Dict ℕ)

-- `s.rstrip("/")`
unfoldable pub rstrip_slash : String → String
rstrip_slash String.[] = ""
rstrip_slash (String.◌∷◌ c s) =
    let rest = rstrip_slash s in if is_slash c && (rest == "") then "" else String.◌∷◌ c rest

module _ (list : String → Option (List String)) (stat : String → Outcome String StorageStat) where
  -- the directories that wait, and the files with their sizes
  abbrev pub Scan : Type 0
  Scan = Outcome String (List String × Dict ℕ)

  -- the children of a directory; what `stat` raises is not caught
  unfoldable pub scan : Bool → String → List String → List String → Dict ℕ → Scan
  unfolding put
  scan recursive base [] stack result = ok (stack, result)
  scan recursive base (name ∷ l) stack result =
      let child = concat base (concat "/" name) in
      elim (stat child) [
        | err e ↦ err e
        | ok s ↦
            scan recursive base l (if s.is_directory && recursive then child ∷ stack else stack)
              (if s.is_directory then result else put result child s.size)
      ]

  abbrev pub children_of : Option (List String) → List String
  children_of none = []
  children_of (some names) = names

  abbrev pub Snapshot : Type 0
  Snapshot = Option (Outcome String (Dict ℕ))

  abbrev pub and_then : Scan → (List String → Dict ℕ → Snapshot) → Snapshot
  and_then (err e) rest = some (err e)
  and_then (ok (stack, result)) rest = rest stack result

  -- the loop of `_snapshot`; the last entry of the stack comes first
  unfoldable pub snapshot_loop : Bool → ℕ → List String → Dict ℕ → Snapshot
  unfolding scan rstrip_slash
  snapshot_loop recursive zero stack result = none
  snapshot_loop recursive (suc fuel) [] result = some (ok result)
  snapshot_loop recursive (suc fuel) (current ∷ stack) result =
      and_then (scan recursive (rstrip_slash current) (children_of (list current)) stack result)
        (snapshot_loop recursive fuel)

  -- `_snapshot`
  unfoldable pub snapshot : ℕ → WatchConfig → Snapshot
  unfolding snapshot_loop
  snapshot fuel config = snapshot_loop config.recursive fuel (config.root_uri ∷ []) []

  -- the snapshot is taken when the other two are written
  abbrev pub watched_with :
      String → Polling → Snapshot → Option (Outcome String (Unit {0}) × Polling)
  watched_with id p none = none
  watched_with id p (some (err e)) = some (err e, p)
  watched_with id p (some (ok current)) =
      some (ok tt, record p { snapshots = put p.snapshots id current })

  unfoldable pub watch :
      ℕ → WatchConfig → (callback : String) → Polling → Option (Outcome String (Unit {0}) × Polling)
  unfolding snapshot put
  watch fuel config callback p =
      let p' = record p {
        configs = put p.configs config.watch_id config;
        callbacks = put p.callbacks config.watch_id callback;
      } in
      watched_with config.watch_id p' (snapshot fuel config)

  unfoldable pub unwatch : String → Polling → Polling
  unfolding pop
  unwatch id p = record {
    configs = pop p.configs id;
    callbacks = pop p.callbacks id;
    snapshots = pop p.snapshots id;
  }

  abbrev pub is_watching : String → Polling → Bool
  is_watching id p = has p.callbacks id

  abbrev pub raw_event : String → ℕ → FileEventType → String → ℕ → BackendFileEvent
  raw_event watch_id now type uri size = record {
    watch_id = watch_id;
    uri = uri;
    name = path_name (pure_path uri);
    event_type = type;
    size = size;
    timestamp = now;
  }

  abbrev pub change : Option ℕ → (FileEventType → BackendFileEvent) → ℕ → List BackendFileEvent
  change none event size = event created ∷ []
  change (some before) event size = if eqb before size then [] else event modified ∷ []

  -- the loop over the current snapshot
  unfoldable pub upserts : String → ℕ → Dict ℕ → Dict ℕ → List BackendFileEvent
  unfolding get
  upserts id now previous [] = []
  upserts id now previous ((uri, size) ∷ rest) =
      change (get previous uri) (λ type. raw_event id now type uri size) size
      ++ upserts id now previous rest

  -- the loop over the previous one
  unfoldable pub deletes : String → ℕ → Dict ℕ → Dict ℕ → List BackendFileEvent
  unfolding get
  deletes id now current [] = []
  deletes id now current ((uri, size) ∷ rest) =
      let more = deletes id now current rest in
      if has current uri then more else raw_event id now deleted uri 0 ∷ more

  abbrev pub or_empty : Option (Dict ℕ) → Dict ℕ
  or_empty none = []
  or_empty (some d) = d

  -- what a poll reported, or what it raised
  abbrev pub Polled : Type 0
  Polled = Option (Outcome String (List BackendFileEvent) × Polling)

  abbrev pub compared : String → ℕ → Polling → Snapshot → Polled
  compared id now p none = none
  compared id now p (some (err e)) = some (err e, p)
  compared id now p (some (ok current)) =
      let previous = or_empty (get p.snapshots id) in
      some (
        ok (upserts id now previous current ++ deletes id now current previous),
        record p { snapshots = put p.snapshots id current },
      )

  abbrev pub poll_with : ℕ → String → ℕ → Polling → Option WatchConfig → Option String → Polled
  poll_with fuel id now p none callback = some (ok [], p)
  poll_with fuel id now p (some config) none = some (ok [], p)
  poll_with fuel id now p (some config) (some callback) = compared id now p (snapshot fuel config)

  -- `poll` at the time `now`, with the events in the order in which the callback is given them
  unfoldable pub poll : ℕ → String → ℕ → Polling → Polled
  unfolding snapshot upserts deletes get put pure_path
  poll fuel id now p = poll_with fuel id now p (get p.configs id) (get p.callbacks id)
