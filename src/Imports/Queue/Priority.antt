-- ===== src/Imports/Queue/Priority.antt =====
-- Which request a queue hands out.
use lex_mind.Imports.Queue.{sort_desc, insert_desc}
use lex_mind.Imports.Request.{ImportRequest}
use lex_mind.Common.{◌≡◌, refl, inl, inr, false, List, [], ◌∷◌, arith, All, Bool-cases}
use lex_mind.Common.Int.{◌≤ℤ◌, leb_ℤ, leb_ℤ-false, leb_ℤ-true}

-- `h` is the earliest of the requests with the highest priority in the list
pub data FirstHighest (h : ImportRequest) : List ImportRequest → Type 0 where
  here : {l : List ImportRequest} → All (λ q. q.priority ≤ℤ h.priority) l → FirstHighest h (h ∷ l)
  later :
      {q : ImportRequest} {l : List ImportRequest}
      → leb_ℤ h.priority q.priority ≡ false
      → FirstHighest h l
      → FirstHighest h (q ∷ l)

raised :
    (h q : ImportRequest) (l : List ImportRequest)
    → h.priority ≤ℤ q.priority
    → All (λ p. p.priority ≤ℤ h.priority) l
    → All (λ p. p.priority ≤ℤ q.priority) l
raised h q [] le a = tt
raised h q (p ∷ l) le (a, rest) = (omega (arith, le, a), raised h q l le rest)

All-below :
    (h q : ImportRequest) (l : List ImportRequest)
    → h.priority ≤ℤ q.priority
    → FirstHighest h l
    → All (λ p. p.priority ≤ℤ q.priority) l
All-below h q _ le (here {l} a) = (le, raised h q l le a)
All-below h q _ le (later {q = p} {l = l} lt f) =
    (omega (arith, leb_ℤ-false h.priority p.priority lt, le), All-below h q l le f)

pub sort_desc-first :
    (q : ImportRequest) (l : List ImportRequest)
    → (h : ImportRequest) × (rest : List ImportRequest) × (sort_desc (q ∷ l) ≡ h ∷ rest)
      × FirstHighest h (q ∷ l)
unfolding sort_desc
sort_desc-first q [] = (q, [], refl, here tt)
sort_desc-first q (p ∷ l) =
    let (h, rest, sorted, first) = sort_desc-first p l in
    elim (Bool-cases (leb_ℤ h.priority q.priority)) [
      | inl before ↦ (
        q,
        h ∷ rest,
        rw (sorted, before) refl,
        here (All-below h q (p ∷ l) (leb_ℤ-true h.priority q.priority before) first),
      )
      | inr after ↦ (h, insert_desc q rest, rw (sorted, after) refl, later after first)
    ]

pub All-first :
    (P : ImportRequest → Type 0) {h : ImportRequest} {l : List ImportRequest}
    → FirstHighest h l
    → All P l
    → P h
All-first P (here a) (p, ps) = p
All-first P (later lt f) (p, ps) = All-first P f ps
