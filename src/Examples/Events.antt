-- ===== src/Examples/Events.antt =====
-- The theorems about the event bus, with one handler that works and one that raises.
use lex_mind.Events.Subscriptions.{Event, Handler, normal, high}
use lex_mind.Events.Dispatcher.{Dispatcher, EventResult, dispatch}
use lex_mind.Events.Dispatcher.Isolation.{Answers, Called, dispatch_isolates}
use lex_mind.Events.Bus.{Bus, new_bus, subscribe, publish}
use lex_mind.Events.Bus.Accounts.{Reachable, IsAccounted, Reachable-IsAccounted}
use lex_mind.Common.{ℕ, ◌+◌, ◌*◌, ◌≡◌, refl, true, none, some, List, [], ◌∷◌, ◌==◌}
use lex_mind.Common.Effect.{ok, err}

abbrev ticks : ℕ → ℕ
ticks n = n * 3

-- the handlers count their calls
abbrev counting : Handler ℕ
counting = record {
  name = "counting";
  fn = λ e n. (ok "done", n + 1);
  priority = normal;
  enabled = true;
  event_filter = none;
}

abbrev breaking : Handler ℕ
breaking = record {
  name = "breaking";
  fn = λ e n. (err "broken", n + 1);
  priority = high;
  enabled = true;
  event_filter = some (λ e. ok (e.name == "document.added"));
}

abbrev arrival : Event
arrival = record {
  name = "document.added";
  source_module = "watcher";
  payload = [];
  priority = normal;
}

abbrev idle : Dispatcher ℕ
idle = record { total = 0; errors = 0; durations = []; readings = 0; world = 0 }

dispatch_isolates_example :
    (results : List EventResult) × (t : Dispatcher ℕ) × (dispatch ticks arrival
        (breaking ∷ counting ∷ [])
        idle
      ≡ (ok results, t))
    × Called ticks arrival (breaking ∷ counting ∷ []) idle results t
dispatch_isolates_example =
    dispatch_isolates ticks arrival (breaking ∷ counting ∷ []) idle
      (Answers.answers_cons true refl (Answers.answers_cons true refl Answers.answers_nil))

abbrev busy : Bus ℕ
busy =
    (publish ticks arrival
      (subscribe "document.added" breaking (subscribe "document.added" counting (new_bus 0)).1).1).1

Reachable-IsAccounted_example : IsAccounted ticks busy
Reachable-IsAccounted_example = Reachable-IsAccounted ticks busy (
    Reachable.after_publish arrival (
      Reachable.after_subscribe "document.added" breaking
        (Reachable.after_subscribe "document.added" counting (Reachable.made 0))))

abbrev ready : Bus ℕ
ready = (subscribe "document.added" breaking (subscribe "document.added" counting (new_bus 0)).1).1
