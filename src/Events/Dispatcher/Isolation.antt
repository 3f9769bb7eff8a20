-- ===== src/Events/Dispatcher/Isolation.antt =====
-- One handler's failure does not keep the others from being called.
use mathlib.Core.List.{append-nil, append_assoc}
use lex_mind.Events.Subscriptions.{Event, Handler, accepts}
use lex_mind.Events.Dispatcher.{EventResult, Dispatcher, dispatch, dispatch_loop, call}
use lex_mind.Common.{ℕ, ◌≡◌, refl, Bool, true, false, List, [], ◌∷◌, ◌++◌, ◌∙◌}
use lex_mind.Common.Effect.{ok}

module _ {W : Type 0} (clock : ℕ → ℕ) (e : Event) where
  -- no filter raises for the event
  pub data Answers : List (Handler W) → Type 0 where
    answers_nil : Answers []
    answers_cons :
        {h : Handler W} {l : List (Handler W)} (answer : Bool)
        → accepts h e ≡ ok answer
        → Answers l
        → Answers (h ∷ l)

  -- what the accepting handlers give, each called in the state that the one before left
  pub data Called : List (Handler W) → Dispatcher W → List EventResult → Dispatcher W → Type 0 where
    called_nil : {d : Dispatcher W} → Called [] d [] d
    called_skip :
        {h : Handler W} {l : List (Handler W)} {d t : Dispatcher W} {results : List EventResult}
        → accepts h e ≡ ok false
        → Called l d results t
        → Called (h ∷ l) d results t
    called_cons :
        {h : Handler W} {l : List (Handler W)} {d t : Dispatcher W} {results : List EventResult}
        → accepts h e ≡ ok true
        → Called l (call clock h e d).1 results t
        → Called (h ∷ l) d ((call clock h e d).0 ∷ results) t

  loop_calls :
      (l : List (Handler W)) (results : List EventResult) (d : Dispatcher W)
      → Answers l
      → (more : List EventResult) × (t : Dispatcher W) × (dispatch_loop clock e l results d
          ≡ (ok (results ++ more), t))
        × Called l d more t
  unfolding dispatch_loop
  loop_calls [] results d a = ([], d, rw (append-nil results) refl, called_nil)
  loop_calls (h ∷ l) results d (answers_cons false said a) =
      let (more, t, ran, called) = loop_calls l results d a in
      (more, t, rw said ran, called_skip said called)
  loop_calls (h ∷ l) results d (answers_cons true said a) =
      let (more, t, ran, called) =
        loop_calls l (results ++ (call clock h e d).0 ∷ []) (call clock h e d).1 a in
      (
        (call clock h e d).0 ∷ more,
        t,
        rw said (ran ∙ rw (append_assoc results ((call clock h e d).0 ∷ []) more) refl),
        called_cons said called,
      )

  -- Where no filter raises, `dispatch` returns normally, whatever the handlers raise: its results
  -- are those of the accepting handlers, in their order, each of which is called.
  pub dispatch_isolates :
      (l : List (Handler W)) (d : Dispatcher W)
      → Answers l
      → (results : List EventResult) × (t : Dispatcher W) × (dispatch clock e l d ≡ (ok results, t))
        × Called l d results t
  unfolding dispatch
  dispatch_isolates l d a = loop_calls l [] d a
