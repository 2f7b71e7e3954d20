-- ===== src/CircuitBreaker/Sequential.antt =====
-- One goroutine's calls, one after the other: the breaker against the two-state machine that its
-- callers see.
use progetto_sdcc.Prelude.{
  ℕ, suc, ◌+◌, ◌≤◌, ◌<◌, ◌≡◌, ◌≢◌, Bool, true, false, Option, some, List, [], ◌∷◌, arith, Error,
  circuit_open, leb, if◌then◌else◌, length,
}
use native.Mathlib.Nat.{add-zero}
use progetto_sdcc.CircuitBreaker.{
  CircuitBreaker, state_closed, state_open, state_half_open, new_circuit_breaker, is_failure, call,
}

-- What a caller sees between its calls: a service with so many failures in a row, or one that was
-- given up at some time.
pub data Health : Type 0 where
  serving : ℕ → Health
  given_up : ℕ → Health

abbrev pub health : CircuitBreaker → Health
health cb = elim cb.current [
  | state_closed ↦ serving cb.consecutive_failures
  | state_open ↦ given_up cb.last_failure
  | state_half_open ↦ given_up cb.last_failure
]

-- Whether a call at time `t` reaches the service.
abbrev pub lets_in : ℕ → Health → ℕ → Bool
lets_in reset (serving n) t = true
lets_in reset (given_up since) t = leb (since + reset) t

-- The health after a call that reached the service.
abbrev pub judged : ℕ → Health → ℕ → Bool → Health
judged max h end false = serving 0
judged max (serving n) end true = if leb max (suc n) then given_up end else serving (suc n)
judged max (given_up since) end true = given_up end

-- The breaker between calls: never half-open, and closed only below the limit.
pub record AtRest (cb : CircuitBreaker) : Type 0 where
  pub positive : 0 < cb.max_failures
  pub settled : cb.current ≢ state_half_open
  pub quiet : cb.probing ≡ false
  pub below : cb.current ≡ state_closed → cb.consecutive_failures < cb.max_failures
  pub tripped : cb.current ≡ state_open → cb.max_failures ≤ cb.consecutive_failures

pub new-AtRest : (max reset : ℕ) → 0 < max → AtRest (new_circuit_breaker max reset)
unfolding new_circuit_breaker
new-AtRest max reset h = ground arith

-- Calls made one at a time refine the machine of `health`: the call runs the function exactly if
-- the machine lets it in, hands on its error and its effect, and the health is judged by it;
-- otherwise the call answers `circuit_open`, and neither the function's state nor the health
-- changes. The breaker is at rest again.
pub call_refines :
    {S : Type 0} (cb : CircuitBreaker) (start end : ℕ) (fn : S → Option Error × S) (s : S)
    → AtRest cb
    → let r = call cb start end fn s in
      let enters = lets_in cb.reset_timeout (health cb) start in
      AtRest r.breaker
      × (r.error ≡ (if enters then (fn s).0 else some circuit_open))
      × (r.state ≡ (if enters then (fn s).1 else s))
      × (health r.breaker ≡ (
          if enters
          then judged cb.max_failures (health cb) end (is_failure (fn s).0)
          else health cb))
unfolding call
call_refines cb start end fn s v = ground arith

-- One call whose function fails, whatever its error.
abbrev pub fail_once : CircuitBreaker → ℕ × ℕ → CircuitBreaker
fail_once cb (start, end) =
    (call cb start end (λ (u : Unit {0}). (some (Error.plain "down"), u)) tt).breaker

-- Such calls one after the other, with the times at which they enter and return.
abbrev pub run_failing : CircuitBreaker → List (ℕ × ℕ) → CircuitBreaker
run_failing cb [] = cb
run_failing cb (t ∷ ts) = run_failing (fail_once cb t) ts

-- A breaker that still serves, after `n` failures in a row.
pub record Serving (max reset n : ℕ) (cb : CircuitBreaker) : Type 0 where
  pub rest : AtRest cb
  pub now : cb.current ≡ state_closed
  pub count : cb.consecutive_failures ≡ n
  pub max_kept : cb.max_failures ≡ max
  pub reset_kept : cb.reset_timeout ≡ reset

pub new-Serving : (max reset : ℕ) → 0 < max → Serving max reset 0 (new_circuit_breaker max reset)
unfolding new_circuit_breaker
new-Serving max reset h = ground arith

pub fail_once-Serving :
    (max reset n : ℕ) (cb : CircuitBreaker) (t : ℕ × ℕ)
    → n + 1 < max
    → Serving max reset n cb
    → Serving max reset (n + 1) (fail_once cb t)
unfolding call
fail_once-Serving max reset n cb (start, end) h v = ground arith

-- The breaker stays open until the end of that call and the reset time have passed.
pub record Refusing (reset since : ℕ) (cb : CircuitBreaker) : Type 0 where
  pub opened : cb.current ≡ state_open
  pub since_then : cb.last_failure ≡ since
  pub reset_kept : cb.reset_timeout ≡ reset

pub fail_once-Refusing :
    (max reset n : ℕ) (cb : CircuitBreaker) (t : ℕ × ℕ)
    → n + 1 ≡ max
    → Serving max reset n cb
    → Refusing reset t.1 (fail_once cb t)
unfolding call
fail_once-Refusing max reset n cb (start, end) h v = ground arith

run_failing-Serving :
    (max reset n : ℕ) (cb : CircuitBreaker) (ts : List (ℕ × ℕ))
    → n + length ts < max
    → Serving max reset n cb
    → Serving max reset (n + length ts) (run_failing cb ts)
run_failing-Serving max reset n cb [] h v = rw add-zero v
run_failing-Serving max reset n cb (t ∷ ts) h v =
    let e : n + suc (length ts) ≡ n + 1 + length ts = omega arith in
    rw e (
      run_failing-Serving max reset (n + 1) (fail_once cb t) ts (omega arith)
        (fail_once-Serving max reset n cb t (omega arith) v))

-- A new breaker opens at the `max`-th failure in a row and not before: after fewer failing calls it
-- is closed and counts them, and after the `max`-th, which returned at `end`, each call that enters
-- before `end + reset` gets `circuit_open`, its function does not run and the breaker stays as it is.
pub opens_after_max :
    {S : Type 0} (max reset : ℕ) (ts : List (ℕ × ℕ)) (last : ℕ × ℕ) (start end : ℕ)
    (fn : S → Option Error × S) (s : S)
    → length ts + 1 ≡ max
    → start < last.1 + reset
    → let cb = run_failing (new_circuit_breaker max reset) ts in
      (cb.current ≡ state_closed)
      × (cb.consecutive_failures ≡ length ts)
      × ((fail_once cb last).current ≡ state_open)
      × (call (fail_once cb last) start end fn s
          ≡ record { error = some circuit_open; breaker = fail_once cb last; state = s })
unfolding call
opens_after_max max reset ts last start end fn s h early =
    let v =
      run_failing-Serving max reset 0 (new_circuit_breaker max reset) ts (omega arith)
        (new-Serving max reset (omega arith)) in
    (ground arith, ground arith, ground arith, ground arith)
