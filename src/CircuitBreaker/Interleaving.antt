-- ===== src/CircuitBreaker/Interleaving.antt =====
-- Concurrent calls of one breaker: any number of goroutines, interleaved at the two critical
-- sections of `Call`. The protected function runs between them, outside the lock.
use progetto_sdcc.Prelude.{
  ℕ, suc, ◌+◌, ◌≤◌, ◌<◌, ◌≡◌, ◌≢◌, ◌⊎◌, ◌↔◌, Bool, true, false, List, [], ◌∷◌, ◌++◌, ap, subst,
  arith,
}
use progetto_sdcc.CircuitBreaker.{
  CircuitBreaker, state_closed, state_open, state_half_open, new_circuit_breaker, is_half_open,
  admit, settle,
}

-- `in_flight` has an entry for each call whose function is running: whether it is the probe, that
-- is, was admitted by moving the breaker to half-open.
pub record System : Type 0 where
  pub breaker : CircuitBreaker
  pub clock : ℕ
  pub in_flight : List Bool

-- A call enters at time `t`; it joins the calls in flight if it is admitted.
abbrev pub entered : System → ℕ → Bool → System
entered s t true = record {
  breaker = (admit s.breaker t).0;
  clock = t;
  in_flight = is_half_open (admit s.breaker t).0.current ∷ s.in_flight;
}
entered s t false = record s { breaker = (admit s.breaker t).0; clock = t }

-- Some call in flight comes back at time `t`.
abbrev pub returned : System → ℕ → Bool → List Bool → System
returned s t failed rest = record {
  breaker = settle s.breaker t failed;
  clock = t;
  in_flight = rest;
}

pub data Step (s : System) : System → Type 0 where
  enter : (t : ℕ) → s.clock ≤ t → Step s (entered s t (admit s.breaker t).1)
  leave :
      (t : ℕ) (failed probe : Bool) (before after : List Bool)
      → s.clock ≤ t
      → s.in_flight ≡ before ++ (probe ∷ after)
      → Step s (returned s t failed (before ++ after))

abbrev pub initial : ℕ → ℕ → System
initial max reset = record { breaker = new_circuit_breaker max reset; clock = 0; in_flight = [] }

pub data Reach (max reset : ℕ) : System → Type 0 where
  start : Reach max reset (initial max reset)
  later : {s t : System} → Reach max reset s → Step s t → Reach max reset t

-- Whether a probe is among the calls in flight.
abbrev pub probe_runs : List Bool → Bool
probe_runs [] = false
probe_runs (true ∷ rest) = true
probe_runs (false ∷ rest) = probe_runs rest

pub record Inv (max reset : ℕ) (s : System) : Type 0 where
  pub max_kept : s.breaker.max_failures ≡ max
  pub reset_kept : s.breaker.reset_timeout ≡ reset
  pub below : s.breaker.current ≡ state_closed → s.breaker.consecutive_failures < max
  pub tripped : s.breaker.current ≢ state_closed → max ≤ s.breaker.consecutive_failures
  pub marked : s.breaker.probing ≡ is_half_open s.breaker.current
  pub past : s.breaker.last_failure ≤ s.clock
  pub probed : s.breaker.current ≡ state_half_open → probe_runs s.in_flight ≡ true

initial-Inv : (max reset : ℕ) → 0 < max → Inv max reset (initial max reset)
unfolding new_circuit_breaker
initial-Inv max reset h = ground arith

Step-Inv : {max reset : ℕ} {s t : System} → 0 < max → Step s t → Inv max reset s → Inv max reset t
unfolding admit settle
Step-Inv h (enter t le) v = ground arith
Step-Inv h (leave t failed probe before after le e) v = ground arith

-- In every state that any interleaving of calls reaches, the breaker is closed exactly while fewer
-- than `max` failures in a row are counted, `probing` is set exactly in the half-open state, the
-- last failure lies in the past, and in the half-open state the probe is still running.
pub Reach-Inv : {max reset : ℕ} {s : System} → 0 < max → Reach max reset s → Inv max reset s
Reach-Inv {max} {reset} h start = initial-Inv max reset h
Reach-Inv h (later r st) = Step-Inv h st (Reach-Inv h r)

-- In every reachable state a call that enters at time `t` is admitted exactly if the breaker is
-- closed, or is open and `reset` has passed since the last failure; a half-open breaker admits none.
pub admit_iff :
    {max reset : ℕ} {s : System} (t : ℕ)
    → 0 < max
    → Reach max reset s
    → ((admit s.breaker t).1 ≡ true) ↔ (
        (s.breaker.current ≡ state_closed)
        ⊎ ((s.breaker.current ≡ state_open) × (s.breaker.last_failure + reset ≤ t)))
unfolding admit
admit_iff {s} t h r = let v = Reach-Inv h r in ground arith

abbrev pub probes : List Bool → ℕ
probes [] = 0
probes (true ∷ rest) = suc (probes rest)
probes (false ∷ rest) = probes rest

probes-append : (xs ys : List Bool) → probes (xs ++ ys) ≡ probes xs + probes ys
probes-append [] ys = omega arith
probes-append (true ∷ xs) ys = omega (arith, probes-append xs ys)
probes-append (false ∷ xs) ys = omega (arith, probes-append xs ys)

probes-positive : (xs : List Bool) → probe_runs xs ≡ true → 0 < probes xs
probes-positive [] h = absurd cc
probes-positive (true ∷ xs) h = omega arith
probes-positive (false ∷ xs) h = probes-positive xs h

-- After the late failure of the call behind `before`, and then a new probe.
abbrev pub after_late_failure : System → List Bool → System
after_late_failure s rest = returned s s.clock true rest

abbrev pub reprobed : System → List Bool → System
reprobed s rest =
    let u = after_late_failure s rest in entered u (u.clock + s.breaker.reset_timeout) true

-- From every reachable half-open state in which a call admitted earlier is still running, a state
-- is reachable in which one more probe runs. In the half-open state `probing` is set and a probe is
-- in flight. The failure of the late call leads to a reachable state in which `probing` is cleared
-- and the breaker open with no probe gone, and there, when `reset` has passed, a second probe is
-- admitted, so that one more is in flight.
pub second_probe :
    {max reset : ℕ} {s : System} (before after : List Bool)
    → 0 < max
    → Reach max reset s
    → s.breaker.current ≡ state_half_open
    → s.in_flight ≡ before ++ (false ∷ after)
    → let u = after_late_failure s (before ++ after) in
      (s.breaker.probing ≡ true)
      × (0 < probes s.in_flight)
      × Reach max reset u
      × (u.breaker.probing ≡ false)
      × (u.breaker.current ≡ state_open)
      × (probes u.in_flight ≡ probes s.in_flight)
      × ((admit u.breaker (u.clock + s.breaker.reset_timeout)).1 ≡ true)
      × Reach max reset (reprobed s (before ++ after))
      × (probes (reprobed s (before ++ after)).in_flight ≡ probes s.in_flight + 1)
unfolding admit settle
second_probe {max} {reset} {s} before after h r half e =
    let u = after_late_failure s (before ++ after) in
    let admitted : (admit u.breaker (u.clock + s.breaker.reset_timeout)).1 ≡ true = ground arith in
    let again : Step u (reprobed s (before ++ after)) =
      subst (λ b. Step u (entered u (u.clock + s.breaker.reset_timeout) b)) admitted
        (enter (u.clock + s.breaker.reset_timeout) (omega arith)) in
    let v = Reach-Inv h r in
    let late : Reach max reset u =
      later r (leave s.clock true false before after (omega arith) e) in
    let counts : probes u.in_flight ≡ probes s.in_flight =
      omega
        (arith, probes-append before after, probes-append before (false ∷ after), ap probes e) in
    (
      ground (arith, v.marked),
      probes-positive s.in_flight (v.probed half),
      late,
      ground arith,
      ground (arith, v.tripped),
      counts,
      admitted,
      later late again,
      ground (arith, counts),
    )
