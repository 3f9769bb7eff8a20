-- ===== src/Pipeline/Retry.antt =====
-- backend/lexmind/pipeline/pipeline_retry.py. Delays and the multiplier are whole numbers.
use lex_mind.Common.{
  ℕ, ◌-◌, ◌*◌, ◌^◌, Bool, false, leb, ltb, if◌then◌else◌, ◌≤◌, ◌<◌, ◌≡◌, true, arith, suc, refl,
  ◌⊎◌, inl, inr, Bool-cases,
}

pub data RetryStrategy : Type 0 where
  never immediate fixed_delay exponential_backoff custom : RetryStrategy

pub record RetryPolicy : Type 0 where
  pub strategy : RetryStrategy
  pub max_attempts : ℕ
  pub base_delay_seconds : ℕ
  pub max_delay_seconds : ℕ
  pub multiplier : ℕ

abbrev pub no_retry : RetryPolicy
no_retry = record {
  strategy = never;
  max_attempts = 1;
  base_delay_seconds = 0;
  max_delay_seconds = 60;
  multiplier = 2;
}

abbrev pub allowed : RetryStrategy → Bool → Bool
allowed never below = false
allowed _ below = below

unfoldable pub should_retry : RetryPolicy → ℕ → Bool
should_retry p attempt = allowed p.strategy (ltb attempt p.max_attempts)

abbrev pub capped : ℕ → ℕ → ℕ
capped delay limit = if leb delay limit then delay else limit

abbrev pub delay_by : RetryStrategy → RetryPolicy → ℕ → ℕ
delay_by never p attempt = 0
delay_by immediate p attempt = 0
delay_by fixed_delay p attempt = p.base_delay_seconds
delay_by exponential_backoff p attempt =
    capped (p.base_delay_seconds * p.multiplier ^ (attempt - 1)) p.max_delay_seconds
delay_by custom p attempt = p.base_delay_seconds

unfoldable pub delay_for : RetryPolicy → ℕ → ℕ
delay_for p attempt = delay_by p.strategy p attempt

abbrev pub limit_by : RetryStrategy → ℕ → ℕ
limit_by never n = 1
limit_by _ n = if leb n 1 then 1 else n

-- how many attempts the policy admits
abbrev pub attempt_limit : RetryPolicy → ℕ
attempt_limit p = limit_by p.strategy p.max_attempts

-- after an attempt within the limit, another is admitted exactly where it was not the last
abbrev pub Admits : (again : Bool) → (attempt limit : ℕ) → Type 0
Admits again attempt limit =
    ((again ≡ true) × (attempt < limit)) ⊎ ((again ≡ false) × (attempt ≡ limit))

below-Admits :
    (n attempt : ℕ)
    → 1 ≤ attempt
    → attempt ≤ (if leb n 1 then 1 else n)
    → Admits (ltb attempt n) attempt (if leb n 1 then 1 else n)
below-Admits n attempt low up = elim (Bool-cases (ltb attempt n)) [
  | inl below ↦ inl (below, ground arith)
  | inr over ↦ inr (over, ground arith)
]

allowed-Admits :
    (st : RetryStrategy) (n attempt : ℕ)
    → 1 ≤ attempt
    → attempt ≤ limit_by st n
    → Admits (allowed st (ltb attempt n)) attempt (limit_by st n)
allowed-Admits never n attempt low up = inr (refl, omega arith)
allowed-Admits immediate n attempt low up = below-Admits n attempt low up
allowed-Admits fixed_delay n attempt low up = below-Admits n attempt low up
allowed-Admits exponential_backoff n attempt low up = below-Admits n attempt low up
allowed-Admits custom n attempt low up = below-Admits n attempt low up

pub should_retry-Admits :
    (p : RetryPolicy) (attempt : ℕ)
    → 1 ≤ attempt
    → attempt ≤ attempt_limit p
    → Admits (should_retry p attempt) attempt (attempt_limit p)
unfolding should_retry
should_retry-Admits p attempt low up = allowed-Admits p.strategy p.max_attempts attempt low up

limit_by-bounds : (st : RetryStrategy) (n : ℕ) → (1 ≤ limit_by st n) × (limit_by st n ≤ suc n)
limit_by-bounds never n = (omega arith, omega arith)
limit_by-bounds immediate n = (ground arith, ground arith)
limit_by-bounds fixed_delay n = (ground arith, ground arith)
limit_by-bounds exponential_backoff n = (ground arith, ground arith)
limit_by-bounds custom n = (ground arith, ground arith)

pub attempt_limit-bounds :
    (p : RetryPolicy) → (1 ≤ attempt_limit p) × (attempt_limit p ≤ suc p.max_attempts)
attempt_limit-bounds p = limit_by-bounds p.strategy p.max_attempts
