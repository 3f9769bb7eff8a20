-- ===== src/Events/Bus/Publication.antt =====
-- What one call of `publish` does to the bus.
use lex_mind.Events.Subscriptions.{Event, Handler, handlers_for}
use lex_mind.Events.Dispatcher.{EventResult}
use lex_mind.Events.Dispatcher.Isolation.{Called}
use lex_mind.Events.Bus.{Bus, handlers_for}
use lex_mind.Common.{ℕ, ◌+◌, String, ◌≡◌, List, [], ◌∷◌, ◌++◌, length}
use lex_mind.Common.Effect.{ok, Outcome}

module _ {W : Type 0} (clock : ℕ → ℕ) (b : Bus W) (e : Event) where
  -- what `publish` gives where the handlers `l` are called
  pub record Delivered (l : List (Handler W)) (r : Outcome String (List EventResult) × Bus W)
      : Type 0 where
    pub results : List EventResult
    pub bus : Bus W
    pub returns : r ≡ (ok results, bus)
    pub called : Called clock e l b.dispatcher results bus.dispatcher
    pub published : bus.published ≡ b.published + 1
    pub recorded : bus.history ≡ b.history ++ e ∷ []
    pub invoked : bus.handler_invocations ≡ b.handler_invocations + length results
    pub total : bus.dispatcher.total ≡ b.dispatcher.total + length results
    pub errors : bus.errors ≡ bus.dispatcher.errors
