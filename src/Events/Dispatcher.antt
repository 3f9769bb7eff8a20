-- ===== src/Events/Dispatcher.antt =====
-- backend/lexmind/events/event_dispatcher.py and event_result.py. The clock is read twice for each
-- call; a duration is in its ticks. The bus's logging hook does nothing.
pub mod Isolation
use lex_mind.Events.Subscriptions.{Event, Handler, accepts}
use lex_mind.Common.{
  ℕ, ◌+◌, ◌-◌, String, Bool, true, false, Option, none, some, List, [], ◌∷◌, ◌++◌,
}
use lex_mind.Common.Effect.{ok, err, Action, Outcome}

-- `output` and `error`: the one or the other is there
pub record EventResult : Type 0 where
  pub handler_name : String
  pub success : Bool
  pub duration : ℕ
  pub error : Option String
  pub output : Option String

-- the `DispatchStats`, the clock, and the state that the handlers change
pub record Dispatcher (W : Type 0) : Type 0 where
  pub total : ℕ
  pub errors : ℕ
  pub durations : List ℕ
  pub readings : ℕ
  pub world : W

module _ {W : Type 0} (clock : ℕ → ℕ) where
  abbrev pub elapsed : Dispatcher W → ℕ
  elapsed d = clock (d.readings + 1) - clock d.readings

  -- the two branches of the `try`, from what the handler gave
  abbrev pub recorded :
      Handler W → Dispatcher W → Outcome String String × W → EventResult × Dispatcher W
  recorded h d (err text, world) = (
    record {
      handler_name = h.name;
      success = false;
      duration = elapsed d;
      error = some text;
      output = none;
    },
    record {
      total = d.total + 1;
      errors = d.errors + 1;
      durations = d.durations ++ elapsed d ∷ [];
      readings = d.readings + 2;
      world = world;
    },
  )
  recorded h d (ok output, world) = (
    record {
      handler_name = h.name;
      success = true;
      duration = elapsed d;
      error = none;
      output = some output;
    },
    record {
      total = d.total + 1;
      errors = d.errors;
      durations = d.durations ++ elapsed d ∷ [];
      readings = d.readings + 2;
      world = world;
    },
  )

  abbrev pub call : Handler W → Event → Dispatcher W → EventResult × Dispatcher W
  call h e d = recorded h d (h.fn e d.world)

  -- the rest of the loop after one call
  abbrev pub proceed :
      (List EventResult → Action String (Dispatcher W) (List EventResult))
      → List EventResult
      → EventResult × Dispatcher W
      → Outcome String (List EventResult) × Dispatcher W
  proceed loop results (result, d) = loop (results ++ result ∷ []) d

  -- one round of the loop of `dispatch`, from the handler's answer: `accepts` stands before the
  -- `try`, so that what a filter raises ends the loop
  abbrev pub offered :
      (List EventResult → Action String (Dispatcher W) (List EventResult))
      → Handler W
      → Event
      → List EventResult
      → Dispatcher W
      → Outcome String Bool
      → Outcome String (List EventResult) × Dispatcher W
  offered loop h e results d (err text) = (err text, d)
  offered loop h e results d (ok false) = loop results d
  offered loop h e results d (ok true) = proceed loop results (call h e d)

  unfoldable pub dispatch_loop :
      Event → List (Handler W) → List EventResult → Action String (Dispatcher W) (List EventResult)
  dispatch_loop e [] results d = (ok results, d)
  dispatch_loop e (h ∷ l) results d = offered (dispatch_loop e l) h e results d (accepts h e)

  unfoldable pub dispatch :
      Event → List (Handler W) → Action String (Dispatcher W) (List EventResult)
  unfolding dispatch_loop
  dispatch e l d = dispatch_loop e l [] d
