-- ===== src/Events/Bus/Accounts.antt =====
-- What holds of a bus after any calls of its methods.
use lex_mind.Events.Subscriptions.{Event, Handler, EventError, accepts, add, handlers_for}
use lex_mind.Events.Subscriptions.Order.{IsWellFormed, add-IsWellFormed, remove-IsWellFormed}
use lex_mind.Events.Dispatcher.{
  Dispatcher, EventResult, dispatch, dispatch_loop, call, recorded, elapsed, offered,
}
use lex_mind.Common.Dict.{get}
use lex_mind.Events.Bus.{
  Bus, new_bus, subscribe, unsubscribe, clear, publish, deliver, register, subscribed, accounted,
  Dict,
}
use lex_mind.Common.{
  ℕ, ◌+◌, ◌≤◌, String, ◌≡◌, List, [], ◌∷◌, length, refl, Bool, true, false, ◌++◌, arith,
  length-append,
}
use lex_mind.Common.Effect.{ok, err, Action, Outcome}
use lex_mind.Common.Dict.{Dict}

module _ {W : Type 0} (clock : ℕ → ℕ) where
  -- the buses that calls of the methods lead to
  pub data Reachable : Bus W → Type 0 where
    made : (world : W) → Reachable (new_bus world)
    after_subscribe :
        {b : Bus W} (event_name : String) (h : Handler W)
        → Reachable b
        → Reachable (subscribe event_name h b).1
    after_unsubscribe :
        {b : Bus W} (event_name handler_name : String)
        → Reachable b
        → Reachable (unsubscribe event_name handler_name b)
    after_clear : {b : Bus W} → Reachable b → Reachable (clear b)
    after_publish : {b : Bus W} (e : Event) → Reachable b → Reachable (publish clock e b).1

  -- one duration for each call, not more errors than calls
  pub record IsCounted (d : Dispatcher W) : Type 0 where
    pub timed : length d.durations ≡ d.total
    pub failing : d.errors ≤ d.total

  pub record IsAccounted (b : Bus W) : Type 0 where
    pub subscribed : IsWellFormed b.subscriptions
    pub counted : IsCounted b.dispatcher
    pub recorded : length b.history ≡ b.published
    pub invoked : b.handler_invocations ≤ b.dispatcher.total
    pub failed : b.errors ≤ b.dispatcher.errors

  recorded_counts :
      (h : Handler W) (d : Dispatcher W) (o : Outcome String String × W)
      → IsCounted d
      → IsCounted (recorded clock h d o).1
        × ((recorded clock h d o).1.total ≡ d.total + 1)
        × (d.errors ≤ (recorded clock h d o).1.errors)
  recorded_counts h d (err text, world) c = (
    record {
      timed = omega (arith, c.timed, length-append d.durations (elapsed clock d ∷ []));
      failing = omega (arith, c.failing);
    },
    refl,
    omega arith,
  )
  recorded_counts h d (ok output, world) c = (
    record {
      timed = omega (arith, c.timed, length-append d.durations (elapsed clock d ∷ []));
      failing = omega (arith, c.failing);
    },
    refl,
    omega arith,
  )

  -- `r`, which the loop gave from `results` and `d`, has one result more for each call
  pub record Counts (results : List EventResult) (d : Dispatcher W)
      (r : Outcome String (List EventResult) × Dispatcher W) : Type 0 where
    pub counted : IsCounted r.1
    pub calls : d.total ≤ r.1.total
    pub failures : d.errors ≤ r.1.errors
    pub exact :
        (final : List EventResult)
        → r.0 ≡ ok final
        → length final + d.total ≡ length results + r.1.total

  offered-Counts :
      (loop : List EventResult → Action String (Dispatcher W) (List EventResult)) (h : Handler W)
      (e : Event) (results : List EventResult) (d : Dispatcher W) (answer : Outcome String Bool)
      → ((acc : List EventResult) (t : Dispatcher W) → IsCounted t → Counts acc t (loop acc t))
      → IsCounted d
      → Counts results d (offered clock loop h e results d answer)
  offered-Counts loop h e results d (err text) ih c = record {
    counted = c;
    calls = omega arith;
    failures = omega arith;
    exact = λ final q. cc;
  }
  offered-Counts loop h e results d (ok false) ih c = ih results d c
  offered-Counts loop h e results d (ok true) ih c =
      let (result, t) = call clock h e d in
      let (counted, one, fails) = recorded_counts h d (h.fn e d.world) c in
      let rest = ih (results ++ (call clock h e d).0 ∷ []) (call clock h e d).1 counted in
      record {
        counted = rest.counted;
        calls = omega (arith, one, rest.calls);
        failures = omega (arith, fails, rest.failures);
        exact = λ final q.
            omega
              (arith, rest.exact final q, one, length-append results ((call clock h e d).0 ∷ []));
      }

  pub dispatch_loop-Counts :
      (e : Event) (l : List (Handler W)) (results : List EventResult) (d : Dispatcher W)
      → IsCounted d
      → Counts results d (dispatch_loop clock e l results d)
  unfolding dispatch_loop
  dispatch_loop-Counts e [] results d c = record {
    counted = c;
    calls = omega arith;
    failures = omega arith;
    exact = λ final q. ground arith;
  }
  dispatch_loop-Counts e (h ∷ l) results d c =
      offered-Counts (dispatch_loop clock e l) h e results d (accepts h e)
        (λ acc t k. dispatch_loop-Counts e l acc t k) c

  accounted_keeps :
      (b : Bus W) (r : Outcome String (List EventResult) × Dispatcher W)
      → IsAccounted b
      → Counts [] b.dispatcher r
      → IsAccounted (accounted b r).1
  accounted_keeps b (err text, d) a c = record {
    subscribed = a.subscribed;
    counted = c.counted;
    recorded = a.recorded;
    invoked = omega (arith, a.invoked, c.calls);
    failed = omega (arith, a.failed, c.failures);
  }
  accounted_keeps b (ok results, d) a c = record {
    subscribed = a.subscribed;
    counted = c.counted;
    recorded = a.recorded;
    invoked = omega (arith, a.invoked, c.exact results refl);
    failed = omega arith;
  }

  deliver_keeps :
      (e : Event) (l : List (Handler W)) (b : Bus W)
      → IsAccounted b
      → IsAccounted (deliver clock e l b).1
  unfolding deliver dispatch
  deliver_keeps e [] b a = record {
    subscribed = a.subscribed;
    counted = a.counted;
    recorded = a.recorded;
    invoked = a.invoked;
    failed = a.failed;
  }
  deliver_keeps e (h ∷ l) b a =
      accounted_keeps (record b { published = b.published + 1; history = b.history ++ e ∷ [] })
        (dispatch_loop clock e (h ∷ l) [] b.dispatcher)
        (record {
          subscribed = a.subscribed;
          counted = a.counted;
          recorded = omega (arith, a.recorded, length-append b.history (e ∷ []));
          invoked = a.invoked;
          failed = a.failed;
        })
        (dispatch_loop-Counts e (h ∷ l) [] b.dispatcher a.counted)

  subscribed_keeps :
      (b : Bus W) (event_name : String) (h : Handler W)
      (r : Outcome EventError (Dict (List (Handler W))))
      → add event_name h b.subscriptions ≡ r
      → IsAccounted b
      → IsAccounted (subscribed b r).1
  subscribed_keeps b event_name h (err x) q a = a
  subscribed_keeps b event_name h (ok d) q a = record {
    subscribed = add-IsWellFormed event_name h b.subscriptions d a.subscribed q;
    counted = a.counted;
    recorded = a.recorded;
    invoked = a.invoked;
    failed = a.failed;
  }

  -- Of every bus that calls of its methods lead to: the handlers of each event are unique in name
  -- and sorted by descending priority; there is a duration for each call of a handler and there are
  -- not more errors than calls; the history is as long as the number of published events; the bus
  -- counts at most the invocations and the errors that the dispatcher counts.
  pub Reachable-IsAccounted : (b : Bus W) → Reachable b → IsAccounted b
  unfolding new_bus subscribe unsubscribe clear publish handlers_for get
  Reachable-IsAccounted _ (made world) = record {
    subscribed = record { ordered = λ n. tt };
    counted = record { timed = refl; failing = omega arith };
    recorded = refl;
    invoked = omega arith;
    failed = omega arith;
  }
  Reachable-IsAccounted _ (after_subscribe {b} event_name h s) =
      let a = Reachable-IsAccounted b s in
      subscribed_keeps (record b { known = register event_name b.known }) event_name h
        (add event_name h b.subscriptions) refl
        (record {
          subscribed = a.subscribed;
          counted = a.counted;
          recorded = a.recorded;
          invoked = a.invoked;
          failed = a.failed;
        })
  Reachable-IsAccounted _ (after_unsubscribe {b} event_name handler_name s) =
      let a = Reachable-IsAccounted b s in
      record {
        subscribed = remove-IsWellFormed event_name handler_name b.subscriptions a.subscribed;
        counted = a.counted;
        recorded = a.recorded;
        invoked = a.invoked;
        failed = a.failed;
      }
  Reachable-IsAccounted _ (after_clear {b} s) =
      let a = Reachable-IsAccounted b s in
      record {
        subscribed = record { ordered = λ n. tt };
        counted = a.counted;
        recorded = a.recorded;
        invoked = a.invoked;
        failed = a.failed;
      }
  Reachable-IsAccounted _ (after_publish {b} e s) =
      deliver_keeps e (handlers_for b.subscriptions e.name) b (Reachable-IsAccounted b s)
