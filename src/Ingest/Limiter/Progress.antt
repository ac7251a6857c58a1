-- ===== src/Ingest/Limiter/Progress.antt =====
-- Waiting among the goroutines of a limiter of ingest.go.
use charmstore_client.Base.{
  ℕ, ℤ, zero, suc, pos, negsuc, ◌+◌, ◌*◌, ◌<◌, ◌≡◌, ◌≢◌, refl, arith, ◌⊎◌, inl, inr,
}
use charmstore_client.Ingest.Limiter.{
  concurrency_or_default, start, stop, done, Caller, ready, inside, waiting, returned, Pool,
  new_pool, Step, starts, launches, stops, ends, waits, returns, Reach,
}
use charmstore_client.Ingest.Limiter.Safety.{token, IsSound, Reach-IsSound}

abbrev calls_left : Caller → ℕ
calls_left ready = 2
calls_left inside = 2
calls_left waiting = 1
calls_left returned = 0

-- How many steps are left.
abbrev pub steps_left : Pool → ℕ
steps_left p = 4 * p.todo + 3 * token p.caller + 2 * p.running + p.stopped + calls_left p.caller

Step-steps_left : {p q : Pool} → Step p q → steps_left q < steps_left p
Step-steps_left (starts l n c t s e) = ground arith
Step-steps_left (launches c e) = ground arith
Step-steps_left (stops l n r s e) = ground arith
Step-steps_left (ends l n r d e) = ground arith
Step-steps_left (waits c t e) = ground arith
Step-steps_left (returns c z e) = ground arith

abbrev CanStep : Pool → Type 0
CanStep p = (q : Pool) × Step p q

ℕ-cases : (n : ℕ) → (n ≡ 0) ⊎ ((k : ℕ) × (n ≡ suc k))
ℕ-cases zero = inl refl
ℕ-cases (suc k) = inr (k, refl)

module _ (n tasks : ℕ) (p : Pool) (v : IsSound n tasks p) where
  stop_step : (k : ℕ) → p.running ≡ suc k → CanStep p
  unfolding stop
  stop_step k r = (
    _,
    stops (record p.limiter { length = k + token p.caller }) k r
        (let l : p.limiter.length ≡ suc (k + token p.caller) = omega arith in rw (stop, l)) refl,
  )

  end_step : (k : ℕ) → p.running ≡ 0 → p.stopped ≡ suc k → CanStep p
  unfolding done
  end_step k r s = (
    _,
    ends (record p.limiter { count = k }) k s
        (let c : p.limiter.count ≡ suc k = omega arith in rw (done, c)) refl,
  )

  start_step : (k : ℕ) → 0 < n → p.caller ≡ ready → p.running ≡ 0 → p.todo ≡ suc k → CanStep p
  unfolding start
  start_step k h c r t =
      (_, starts (record p.limiter { length = p.limiter.length + 1 }) k c t (ground arith) refl)

  step_by_caller : (c : Caller) → 0 < n → p.caller ≡ c → c ≢ returned → CanStep p
  step_by_caller inside h e other = (_, launches e refl)
  step_by_caller ready h e other = elim (ℕ-cases p.todo) [
    | inl no_more ↦ (_, waits e no_more refl)
    | inr (m, more) ↦ elim (ℕ-cases p.running) [
      | inl idle ↦ start_step m h e idle more
      | inr (k, busy) ↦ stop_step k busy
    ]
  ]
  step_by_caller waiting h e other = elim (ℕ-cases p.running) [
    | inr (k, busy) ↦ stop_step k busy
    | inl idle ↦ elim (ℕ-cases p.stopped) [
      | inr (k, more) ↦ end_step k idle more
      | inl no_more ↦ (_, returns e (omega arith) refl)
    ]
  ]
  step_by_caller returned h e other = absurd (other refl)

concurrency_positive : (concurrency : ℤ) → 0 < concurrency_or_default concurrency
unfolding concurrency_or_default
concurrency_positive (pos zero) = omega arith
concurrency_positive (pos (suc n)) = omega arith
concurrency_positive (negsuc n) = omega arith

-- Whatever the configured number, in every state that can be reached some goroutine can take a step
-- until wait has returned, and every step makes the number of steps left smaller: so the calls of
-- do and wait return if the tasks do, and no order of the steps stops them.
pub Reach-progress :
    (concurrency : ℤ) {tasks : ℕ} {p : Pool}
    → Reach (new_pool (concurrency_or_default concurrency) tasks) p
    → (p.caller ≢ returned → (q : Pool) × Step p q)
      × ((q : Pool) → Step p q → steps_left q < steps_left p)
Reach-progress concurrency {tasks} {p} r = (
  step_by_caller (concurrency_or_default concurrency) tasks p (Reach-IsSound r) p.caller
      (concurrency_positive concurrency) refl,
  λ q. Step-steps_left,
)
