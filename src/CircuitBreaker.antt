-- ===== src/CircuitBreaker.antt =====
-- internal/upload/circuitbreaker.go: the three-state breaker. `Call` holds the mutex twice, before
-- and after the protected function: `admit` and `settle` are these two critical sections.
pub mod Interleaving
pub mod Sequential
mod Tests
use progetto_sdcc.Prelude.{
  ℕ, suc, ◌+◌, Bool, true, false, ◌||◌, Option, none, some, Error, circuit_open, leb, if◌then◌else◌,
}

pub data State : Type 0 where
  state_closed state_open state_half_open : State

-- Time is a number of nanoseconds; the failure count does not wrap.
pub record CircuitBreaker : Type 0 where
  pub current : State
  pub consecutive_failures : ℕ
  pub last_failure : ℕ
  pub probing : Bool
  pub max_failures : ℕ
  pub reset_timeout : ℕ

pub new_circuit_breaker : ℕ → ℕ → CircuitBreaker
new_circuit_breaker max_failures reset_timeout = record {
  current = state_closed;
  consecutive_failures = 0;
  last_failure = 0;
  probing = false;
  max_failures = max_failures;
  reset_timeout = reset_timeout;
}

abbrev pub is_half_open : State → Bool
is_half_open state_half_open = true
is_half_open _ = false

-- The first critical section, at time `now`: the new state, and whether the function runs.
-- `time.Since(lastFailure) >= resetTimeout` is written without a subtraction.
unfoldable pub admit : CircuitBreaker → ℕ → CircuitBreaker × Bool
admit cb now = elim cb.current [
  | state_closed ↦ (cb, true)
  | state_open ↦
      if leb (cb.last_failure + cb.reset_timeout) now
      then (record cb { current = state_half_open; probing = true }, true)
      else (cb, false)
  | state_half_open ↦ if cb.probing then (cb, false) else (record cb { probing = true }, true)
]

-- The second critical section, after a failure at time `now`.
unfoldable pub settle_failure : CircuitBreaker → ℕ → CircuitBreaker
settle_failure cb now =
    if is_half_open cb.current || leb cb.max_failures (suc cb.consecutive_failures)
    then record cb {
      probing = false;
      consecutive_failures = suc cb.consecutive_failures;
      last_failure = now;
      current = state_open;
    }
    else record cb {
      probing = false;
      consecutive_failures = suc cb.consecutive_failures;
      last_failure = now;
    }

-- The second critical section: `failed` says that the function returned an error.
unfoldable pub settle : CircuitBreaker → ℕ → Bool → CircuitBreaker
unfolding settle_failure
settle cb now failed =
    if failed
    then settle_failure cb now
    else record cb { probing = false; current = state_closed; consecutive_failures = 0 }

abbrev pub is_failure : Option Error → Bool
is_failure none = false
is_failure (some e) = true

-- `Call` with nothing else running: entered at `start`, the function returning at `end`.
-- `none` is a nil error.
unfoldable pub call :
    {S : Type 0}
    → CircuitBreaker
    → ℕ
    → ℕ
    → (S → Option Error × S)
    → S
    → record { error : Option Error; breaker : CircuitBreaker; state : S }
unfolding admit settle
call cb start end fn s =
    let (cb', runs) = admit cb start in
    let (e, s') = fn s in
    if runs
    then record { error = e; breaker = settle cb' end (is_failure e); state = s' }
    else record { error = some circuit_open; breaker = cb'; state = s }
