-- ===== src/Events/Bus.antt =====
-- backend/lexmind/events/event_bus.py, event_registry.py and event_types.py
pub mod Accounts
pub mod Publication
use lex_mind.Events.Subscriptions.{
  Event, EventError, Handler, add, remove, handlers_for, unknown_event,
}
use lex_mind.Events.Dispatcher.{Dispatcher, EventResult, dispatch}
use lex_mind.Common.{ℕ, ◌+◌, String, List, [], ◌∷◌, ◌++◌, if◌then◌else◌, length, contains}
use lex_mind.Common.Effect.{ok, err, Action, Outcome}
use lex_mind.Common.Dict.{Dict}

-- the values of `EventType`
abbrev pub event_types : List String
event_types =
    "application.started" ∷ "application.stopped" ∷ "module.loaded" ∷ "module.started"
    ∷ "module.stopped" ∷ "module.failed" ∷ "configuration.loaded" ∷ "document.added"
    ∷ "document.updated" ∷ "document.removed" ∷ "plugin.loaded" ∷ "plugin.unloaded"
    ∷ "health.changed" ∷ []

-- `published` to `errors` are the fields of `BusStatistics`, `known` those of the event registry
pub record Bus (W : Type 0) : Type 0 where
  pub known : List String
  pub subscriptions : Dict (List (Handler W))
  pub dispatcher : Dispatcher W
  pub published : ℕ
  pub dropped : ℕ
  pub handler_invocations : ℕ
  pub errors : ℕ
  pub history : List Event

-- `EventRegistry.register`
unfoldable pub register : String → List String → List String
register event_name known = if contains known event_name then known else known ++ event_name ∷ []

unfoldable pub validate : String → List String → Outcome EventError (Unit {0})
validate event_name known = if contains known event_name then ok tt else err unknown_event

module _ {W : Type 0} where
  unfoldable pub new_bus : W → Bus W
  new_bus world = record {
    known = event_types;
    subscriptions = [];
    dispatcher = record { total = 0; errors = 0; durations = []; readings = 0; world = world };
    published = 0;
    dropped = 0;
    handler_invocations = 0;
    errors = 0;
    history = [];
  }

  abbrev pub subscribed :
      Bus W → Outcome EventError (Dict (List (Handler W))) → Outcome EventError (Unit {0}) × Bus W
  subscribed b (err x) = (err x, b)
  subscribed b (ok d) = (ok tt, record b { subscriptions = d })

  unfoldable pub subscribe : String → Handler W → Action EventError (Bus W) (Unit {0})
  unfolding register
  subscribe event_name h b =
      subscribed (record b { known = register event_name b.known })
        (add event_name h b.subscriptions)

  unfoldable pub unsubscribe : String → String → Bus W → Bus W
  unsubscribe event_name handler_name b = record b {
    subscriptions = remove event_name handler_name b.subscriptions;
  }

  unfoldable pub clear : Bus W → Bus W
  clear b = record b { subscriptions = [] }

  -- `publish` from what `dispatch` gave
  abbrev pub accounted :
      Bus W
      → Outcome String (List EventResult) × Dispatcher W
      → Outcome String (List EventResult) × Bus W
  accounted b (err text, d) = (err text, record b { dispatcher = d })
  accounted b (ok results, d) = (
    ok results,
    record b {
      dispatcher = d;
      handler_invocations = b.handler_invocations + length results;
      errors = d.errors;
    },
  )

  -- `publish` to the handlers of the event; the error is what a filter raised
  unfoldable pub deliver :
      (ℕ → ℕ) → Event → List (Handler W) → Action String (Bus W) (List EventResult)
  deliver clock e [] b = (ok [], record b { dropped = b.dropped + 1 })
  deliver clock e (h ∷ l) b =
      accounted (record b { published = b.published + 1; history = b.history ++ e ∷ [] })
        (dispatch clock e (h ∷ l) b.dispatcher)

  unfoldable pub publish : (ℕ → ℕ) → Event → Action String (Bus W) (List EventResult)
  unfolding deliver
  publish clock e b = deliver clock e (handlers_for b.subscriptions e.name) b
