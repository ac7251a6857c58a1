-- ===== src/Ingest/Limiter/Safety.antt =====
-- How many tasks run at once under the limiter of ingest.go, and when wait returns.
use charmstore_client.Base.{ℕ, ℤ, ◌+◌, ◌≤◌, ◌≡◌, arith}
use charmstore_client.Ingest.Limiter.{
  new_limiter, concurrency_or_default, start, stop, add, done, Caller, ready, inside, waiting,
  returned, Pool, new_pool, Step, starts, launches, stops, ends, waits, returns, Reach, here, next,
}

-- The token that the caller has put into the channel for a task that is not yet launched.
abbrev pub token : Caller → ℕ
token ready = 0
token inside = 1
token waiting = 0
token returned = 0

-- Behind the last call of do.
abbrev pub tasks_left : Caller → ℕ → ℕ
tasks_left ready n = 0
tasks_left inside n = 0
tasks_left waiting n = n
tasks_left returned n = n

-- Behind wait.
abbrev pub count_left : Caller → ℕ → ℕ
count_left ready n = 0
count_left inside n = 0
count_left waiting n = 0
count_left returned n = n

pub record IsSound (n tasks : ℕ) (p : Pool) : Type 0 where
  pub sized : p.limiter.capacity ≡ n
  pub within : p.limiter.length ≤ n
  pub tokens : p.limiter.length ≡ p.running + token p.caller
  pub counted : p.limiter.count ≡ p.running + p.stopped
  pub conserved : p.todo + token p.caller + p.running + p.stopped + p.finished ≡ tasks
  pub all_started : tasks_left p.caller p.todo ≡ 0
  pub all_ended : count_left p.caller p.limiter.count ≡ 0

new_pool-IsSound : (n tasks : ℕ) → IsSound n tasks (new_pool n tasks)
unfolding new_limiter
new_pool-IsSound n tasks = ground arith

pub Step-IsSound : {n tasks : ℕ} {p q : Pool} → Step p q → IsSound n tasks p → IsSound n tasks q
unfolding start stop add done
Step-IsSound (starts l n c t s e) v = ground arith
Step-IsSound (launches c e) v = ground arith
Step-IsSound (stops l n r s e) v = ground arith
Step-IsSound (ends l n r d e) v = ground arith
Step-IsSound (waits c t e) v = ground arith
Step-IsSound (returns c z e) v = ground arith

pub Reach-IsSound : {n tasks : ℕ} {p : Pool} → Reach (new_pool n tasks) p → IsSound n tasks p
Reach-IsSound {n} {tasks} here = new_pool-IsSound n tasks
Reach-IsSound (next r s) = Step-IsSound s (Reach-IsSound r)

-- However the goroutines take turns, at most as many tasks run at once as the configured number, or
-- 20 where that is not positive; and when wait has returned, all the tasks have ended.
pub Reach-running_le :
    (concurrency : ℤ) {tasks : ℕ} {p : Pool}
    → Reach (new_pool (concurrency_or_default concurrency) tasks) p
    → (p.running ≤ concurrency_or_default concurrency)
      × (p.caller ≡ returned → (p.running ≡ 0) × (p.finished ≡ tasks))
Reach-running_le concurrency r = let v = Reach-IsSound r in ground arith
