-- ===== src/Common/Effect.antt =====
-- Methods of objects that mutate state and may raise. What was written before a raise stays
-- written, so the state comes back on both outcomes.
use mathlib.Core.Path.{◌≡◌, refl}
use mathlib.Core.Logic.{◌⊎◌, inl, inr}
use mathlib.Core.Option.{Option, none, some}
use mathlib.Core.List.{List, [], ◌∷◌, ◌++◌}

module _ {ℓ κ} where
  pub data Outcome (E : Type κ) (A : Type ℓ) : Type (ℓ ⊔ κ) where
    ok : A → Outcome E A
    err : E → Outcome E A

module _ {E A : Type 0} where
  abbrev pub after : {S B : Type 0} → Outcome E A × S → (A → S → Outcome E B × S) → Outcome E B × S
  after (ok a, s) f = f a s
  after (err e, s) f = (err e, s)

-- `S` is the state of the objects at hand, `E` what may be raised.
abbrev pub Action : Type 0 → Type 0 → Type 0 → Type 0
Action E S A = S → Outcome E A × S

module _ {E S A : Type 0} where
  abbrev pub pure : A → Action E S A
  pure a s = (ok a, s)

  abbrev pub raise : E → Action E S A
  raise e s = (err e, s)

  -- a call that reads or writes no state
  abbrev pub lift : Outcome E A → Action E S A
  lift r s = (r, s)

  abbrev pub gets : (S → A) → Action E S A
  gets f s = (ok (f s), s)

module _ {E S : Type 0} where
  abbrev pub modify : (S → S) → Action E S (Unit {0})
  modify f s = (ok tt, f s)

  infixl 5 ◌>>=◌ ◌>>◌
  abbrev pub ◌>>=◌ : {A B : Type 0} → Action E S A → (A → Action E S B) → Action E S B
  m >>= f = λ s. after (m s) f

  abbrev pub ◌>>◌ : {A B : Type 0} → Action E S A → Action E S B → Action E S B
  m >> n = m >>= λ _. n

pub Outcome-cases {ℓ κ} :
    {E : Type κ} {A : Type ℓ} (o : Outcome E A) → ((a : A) × (o ≡ ok a)) ⊎ ((e : E) × (o ≡ err e))
Outcome-cases (ok a) = inl (a, refl)
Outcome-cases (err e) = inr (e, refl)

-- what a bus holds after one more event, `none` where an object was given no bus
abbrev pub published : {E : Type 0} → Option (List E) → E → Option (List E)
published none e = none
published (some l) e = some (l ++ e ∷ [])
