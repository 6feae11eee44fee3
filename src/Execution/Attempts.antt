-- ===== src/Execution/Attempts.antt =====
-- The attempts of a step: how many there are, and how long it waits between them.
use dbos_workload.Execution.{retry}
use dbos_workload.Execution.{call_step}
use dbos_workload.Prelude.{◌-◌}
use dbos_workload.Execution.{StepOptions, Tried, is_final, max_retry_interval, wait_time}
use dbos_workload.Prelude.{
  All, Bool-cases, List, [], arith, inl, inr, length, suc, zero, ◌++◌, ◌∷◌, ◌≤◌,
}
use dbos_workload.Steps.Call.{UserCode}
use dbos_workload.Transaction.{Error, Result, err, ok}
use dbos_workload.Prelude.{ℕ}
use dbos_workload.Execution.{retry_from, attempted, after_wait}

module _ {V W : Type 0} (o : StepOptions) (exceeded : ℕ → List Error → Error)
    (fn : UserCode W V) where
  abbrev Bounded : ℕ → Tried W V → Type 0
  Bounded k t = (length t.2 ≤ k) × All (λ wait. wait ≤ max_retry_interval) t.2

  Bounded-after :
      (k wait : ℕ) (t : Tried W V)
      → wait ≤ max_retry_interval
      → Bounded k t
      → Bounded (suc k) (after_wait wait t)
  Bounded-after k wait t short h = (omega (arith, h.0), (short, h.1))

  Bounded-attempted :
      (left i : ℕ) (errors : List Error) (r : Result V × W) (rest : List Error → W → Tried W V)
      → ((es : List Error) (w : W) → Bounded left (rest es w))
      → Bounded (suc left) (attempted o exceeded fn (suc left) i errors r rest)
  unfolding attempted
  Bounded-attempted left i errors (ok v, w) rest h = (omega arith, tt)
  Bounded-attempted left i errors (err e, w) rest h = elim (Bool-cases (is_final o e)) [
    | inl f ↦ rw f (omega arith, tt)
    | inr f ↦ rw f (
        Bounded-after left (wait_time o i) (rest (errors ++ (e ∷ [])) w) (omega arith)
          (h (errors ++ (e ∷ [])) w))
  ]

  Bounded-last :
      (i : ℕ) (errors : List Error) (r : Result V × W) (rest : List Error → W → Tried W V)
      → Bounded 0 (attempted o exceeded fn 0 i errors r rest)
  unfolding attempted
  Bounded-last i errors (ok v, w) rest = (omega arith, tt)
  Bounded-last i errors (err e, w) rest = elim (Bool-cases (is_final o e)) [
    | inl f ↦ rw f (omega arith, tt)
    | inr f ↦ rw f (omega arith, tt)
  ]

  Bounded-from :
      (left i : ℕ) (errors : List Error) (w : W)
      → Bounded left (retry_from o exceeded fn left i errors w)
  unfolding retry_from
  Bounded-from zero i errors w =
      Bounded-last i errors (fn w) (λ es w'. (err (exceeded i es), w', []))
  Bounded-from (suc left) i errors w =
      Bounded-attempted left i errors (fn w) (retry_from o exceeded fn left (suc i))
        (Bounded-from left (suc i))

  Bounded-retry : (k : ℕ) (w : W) → 1 ≤ k → Bounded (k - 1) (retry o exceeded fn k w)
  unfolding retry
  Bounded-retry zero w some_attempt = absurd (omega arith)
  Bounded-retry (suc left) w some_attempt =
      let within = Bounded-from left 0 [] w in (omega (arith, within.0), within.1)

-- A step without retries is tried once and waits for nothing. With them it waits at least one time
-- less than it has attempts, each time an hour at most, so it ends after its attempts at the
-- latest.
pub call_step_waits :
    {V W : Type 0} (o : StepOptions) (exceeded : ℕ → List Error → Error) (fn : UserCode W V) (w : W)
    → 1 ≤ o.max_attempts
    → (length (call_step o exceeded fn w).2 ≤ o.max_attempts - 1)
      × All (λ wait. wait ≤ max_retry_interval) (call_step o exceeded fn w).2
unfolding call_step
call_step_waits o exceeded fn w some_attempt = elim (Bool-cases o.retries_allowed) [
  | inl e ↦ rw e (Bounded-retry o exceeded fn o.max_attempts w some_attempt)
  | inr e ↦ rw e (omega arith, tt)
]
