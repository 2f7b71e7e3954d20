-- ===== src/CircuitBreaker/Tests.antt =====
-- The breaker at concrete inputs, after internal/upload/circuit_test.go.
use progetto_sdcc.Prelude.{ℕ, ◌≡◌, ◌+◌, ◌<◌, refl, true, false, Option, none, [], ◌∷◌, arith, Error}
use progetto_sdcc.CircuitBreaker.{state_open, new_circuit_breaker, admit, settle, call}
use progetto_sdcc.CircuitBreaker.Interleaving.{
  System, Reach, start, later, enter, leave, initial, entered, returned, Inv, Reach-Inv, probes,
  after_late_failure, reprobed, second_probe,
}
use progetto_sdcc.CircuitBreaker.Sequential.{
  new-AtRest, serving, health, judged, call_refines, run_failing,
}

abbrev counted : ℕ → Option Error × ℕ
counted n = (none, n + 1)

-- Two failures open a breaker with limit 2; a call within the hour does not run its function.
rejects_while_open :
    (call (run_failing (new_circuit_breaker 2 60) ((0, 1) ∷ (2, 3) ∷ [])) 10 11 counted 0).state ≡ 0
unfolding call new_circuit_breaker
rejects_while_open = refl

probes_after_timeout :
    (call (run_failing (new_circuit_breaker 2 60) ((0, 1) ∷ (2, 3) ∷ [])) 63 64 counted 0).state ≡ 1
unfolding call new_circuit_breaker
probes_after_timeout = refl

call_refines_example :
    health (call (new_circuit_breaker 2 60) 5 6 counted 0).breaker ≡ judged 2 (serving 0) 6 false
unfolding new_circuit_breaker
call_refines_example =
    (call_refines (new_circuit_breaker 2 60) 5 6 counted 0 (new-AtRest 2 60 (omega arith))).3

-- Two calls enter a breaker with limit 1; the first one fails at time 2.
abbrev tripped : System
tripped = returned (entered (entered (initial 1 10) 0 true) 1 true) 2 true (false ∷ [])

tripped-Reach : Reach 1 10 tripped
unfolding admit settle new_circuit_breaker
tripped-Reach =
    later (later (later start (enter 0 (omega arith))) (enter 1 (omega arith)))
      (leave 2 true false [] (false ∷ []) (omega arith) refl)

-- Then the first probe enters, while the second call is still running.
abbrev half : System
half = entered tripped 12 true

half-Reach : Reach 1 10 half
unfolding admit settle new_circuit_breaker
half-Reach = later tripped-Reach (enter 12 (omega arith))

Reach-Inv_example : Inv 1 10 half
Reach-Inv_example = Reach-Inv (omega arith) half-Reach

abbrev late : System
late = after_late_failure half (true ∷ [])

second_probe_example :
    (half.breaker.probing ≡ true)
    × (0 < probes half.in_flight)
    × Reach 1 10 late
    × (late.breaker.probing ≡ false)
    × (late.breaker.current ≡ state_open)
    × (probes late.in_flight ≡ probes half.in_flight)
    × ((admit late.breaker (late.clock + half.breaker.reset_timeout)).1 ≡ true)
    × Reach 1 10 (reprobed half (true ∷ []))
    × (probes (reprobed half (true ∷ [])).in_flight ≡ probes half.in_flight + 1)
unfolding admit settle new_circuit_breaker
second_probe_example = second_probe (true ∷ []) [] (omega arith) half-Reach refl refl
