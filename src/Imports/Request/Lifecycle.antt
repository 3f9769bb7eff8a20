-- ===== src/Imports/Request/Lifecycle.antt =====
-- The life of an import request as its methods allow it.
use lex_mind.Imports.Request.{
  ImportRequest, RequestStatus, processing, transition_to, retry, checked,
}
use lex_mind.Common.{ℕ, suc, ◌+◌, ◌≤◌, ◌≡◌, arith}
use lex_mind.Common.Effect.{ok}

-- a life, and how often `retry` was called in it
pub data Steps (r : ImportRequest) : ℕ → ImportRequest → Type 0 where
  here : Steps r 0 r
  move :
      {q p : ImportRequest} {n : ℕ} (target : RequestStatus) (now : ℕ)
      → Steps r n q
      → transition_to target now q ≡ ok p
      → Steps r n p
  again : {q p : ImportRequest} {n : ℕ} → Steps r n q → retry q ≡ ok p → Steps r (suc n) p

moved_counts :
    (target : RequestStatus) (now : ℕ) (q p : ImportRequest)
    → transition_to target now q ≡ ok p
    → (p.retries ≡ q.retries) × (p.max_retries ≡ q.max_retries)
unfolding transition_to
moved_counts processing now q p e = ground arith
moved_counts _ now q p e = ground arith

retried_counts :
    (q p : ImportRequest)
    → retry q ≡ ok p
    → (p.retries ≡ q.retries + 1) × (p.max_retries ≡ q.max_retries) × (p.retries ≤ p.max_retries)
unfolding retry
retried_counts q p e = ground arith

counts :
    {r : ImportRequest} {n : ℕ} {q : ImportRequest}
    → r.retries ≤ r.max_retries
    → Steps r n q
    → (q.retries ≡ r.retries + n) × (q.max_retries ≡ r.max_retries) × (q.retries ≤ q.max_retries)
counts h here = omega arith
counts h (move {q} {p} target now s e) = omega (arith, counts h s, moved_counts target now q p e)
counts h (again {q} {p} s e) = omega (arith, counts h s, retried_counts q p e)

checked-le : (m r : ImportRequest) → checked m ≡ ok r → r.retries ≤ r.max_retries
unfolding checked
checked-le m r e = ground arith

-- In the whole life of a request that was made, however it is moved between its states, `retry`
-- succeeds at most `max_retries - retries` times.
pub retry_bounded :
    (n : ℕ) (m r q : ImportRequest) → checked m ≡ ok r → Steps r n q → n + r.retries ≤ r.max_retries
retry_bounded n m r q made s = omega (arith, counts (checked-le m r made) s)
