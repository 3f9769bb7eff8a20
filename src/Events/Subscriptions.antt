-- ===== src/Events/Subscriptions.antt =====
-- backend/lexmind/events/subscriptions.py, event_handler.py and event_priority.py. A handler may
-- change the state `W` of whatever it belongs to; it does not call the bus.
pub mod Order
use lex_mind.Common.Effect.{Outcome, ok, err}
use lex_mind.Common.{
  ℕ, ◌+◌, String, Bool, true, false, not, Option, none, some, List, [], ◌∷◌, ◌++◌, ◌==◌, leb,
  if◌then◌else◌, length, any, filter,
}
use lex_mind.Common.Dict.{Dict, get, put}

pub data EventPriority : Type 0 where
  low normal high critical : EventPriority

-- what the bus reads of event.py's `Event`
pub record Event : Type 0 where
  pub name : String
  pub source_module : String
  pub payload : Dict String
  pub priority : EventPriority

-- DuplicateHandlerError, UnknownEventError, and what a handler's code raised
pub data EventError : Type 0 where
  duplicate_handler unknown_event : EventError
  raised : (text : String) → EventError

-- `FunctionHandler`
pub record Handler (W : Type 0) : Type 0 where
  pub name : String
  pub fn : Event → W → Outcome String String × W
  pub priority : EventPriority
  pub enabled : Bool
  pub event_filter : Option (Event → Outcome String Bool)

-- _priority_rank
abbrev pub priority_rank : EventPriority → ℕ
priority_rank low = 0
priority_rank normal = 1
priority_rank high = 2
priority_rank critical = 3

module _ {W : Type 0} where
  abbrev pub accepts : Handler W → Event → Outcome String Bool
  accepts h e =
      if h.enabled then elim h.event_filter [ none ↦ ok true | some f ↦ f e ] else ok false

  abbrev pub rank : Handler W → ℕ
  rank h = priority_rank h.priority

  -- `list.sort` by descending rank, which keeps the order of equals
  abbrev pub insert_desc : Handler W → List (Handler W) → List (Handler W)
  insert_desc h [] = h ∷ []
  insert_desc h (k ∷ l) = if leb (rank k) (rank h) then h ∷ k ∷ l else k ∷ insert_desc h l

  unfoldable pub sort_desc : List (Handler W) → List (Handler W)
  sort_desc [] = []
  sort_desc (h ∷ l) = insert_desc h (sort_desc l)

  unfoldable pub handlers_for : Dict (List (Handler W)) → String → List (Handler W)
  handlers_for d event_name = elim (get d event_name) [ none ↦ [] | some l ↦ l ]

  -- Where `add` raises, the event has handlers already, so that `setdefault` added nothing.
  unfoldable pub add :
      String → Handler W → Dict (List (Handler W)) → Outcome EventError (Dict (List (Handler W)))
  unfolding handlers_for sort_desc
  add event_name h d =
      let handlers = handlers_for d event_name in
      if any (λ k. k.name == h.name) handlers
      then err duplicate_handler
      else ok (put d event_name (sort_desc (handlers ++ h ∷ [])))

  unfoldable pub remove : String → String → Dict (List (Handler W)) → Dict (List (Handler W))
  unfolding handlers_for
  remove event_name handler_name d =
      put d event_name (filter (λ h. not (h.name == handler_name)) (handlers_for d event_name))

  unfoldable pub count : Dict (List (Handler W)) → ℕ
  count [] = 0
  count ((event_name, l) ∷ d) = length l + count d
