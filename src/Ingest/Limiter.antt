-- ===== src/Ingest/Limiter.antt =====
-- limiter of ingest.go, and a goroutine that calls do for each of some tasks and then wait.
pub mod Safety
pub mod Progress
use charmstore_client.Base.{
  ℕ, ℤ, zero, suc, pos, negsuc, ◌+◌, ◌≡◌, Bool, true, Option, none, some, if◌then◌else◌, ltb,
}

-- The buffered channel by its capacity and its length, and the count of the wait group.
pub record Limiter : Type 0 where
  pub capacity : ℕ
  pub length : ℕ
  pub count : ℕ

unfoldable pub new_limiter : ℕ → Limiter
new_limiter n = record { capacity = n; length = 0; count = 0 }

-- p.concurrency after its default
unfoldable pub concurrency_or_default : ℤ → ℕ
concurrency_or_default (pos zero) = 20
concurrency_or_default (pos (suc n)) = suc n
concurrency_or_default (negsuc n) = 20

-- l.limitc <- struct{}{}; `none` while it waits
unfoldable pub start : Limiter → Option Limiter
start l = if ltb l.length l.capacity then some (record l { length = l.length + 1 }) else none

abbrev less_one : ℕ → Option ℕ
less_one zero = none
less_one (suc n) = some n

abbrev with_length : Limiter → Option ℕ → Option Limiter
with_length l none = none
with_length l (some n) = some (record l { length = n })

abbrev with_count : Limiter → Option ℕ → Option Limiter
with_count l none = none
with_count l (some n) = some (record l { count = n })

-- <-l.limitc; `none` while it waits
unfoldable pub stop : Limiter → Option Limiter
stop l = with_length l (less_one l.length)

-- l.wg.Add(1)
unfoldable pub add : Limiter → Limiter
add l = record l { count = l.count + 1 }

-- l.wg.Done(); `none` for the panic of a negative count
unfoldable pub done : Limiter → Option Limiter
done l = with_count l (less_one l.count)

-- The goroutine that makes the calls: before a call of do or of wait; inside do, behind l.start();
-- inside wait; behind wait.
pub data Caller : Type 0 where
  ready inside waiting returned : Caller

-- The tasks: those to come, those that run their function, those behind l.stop(), and the rest.
pub record Pool : Type 0 where
  pub limiter : Limiter
  pub caller : Caller
  pub todo : ℕ
  pub running : ℕ
  pub stopped : ℕ
  pub finished : ℕ

abbrev pub new_pool : ℕ → ℕ → Pool
new_pool n tasks = record {
  limiter = new_limiter n;
  caller = ready;
  todo = tasks;
  running = 0;
  stopped = 0;
  finished = 0;
}

-- One step of one of the goroutines.
pub data Step (p q : Pool) : Type 0 where
  -- l.start() of do
  starts :
      (l : Limiter) (n : ℕ)
      → p.caller ≡ ready
      → p.todo ≡ suc n
      → start p.limiter ≡ some l
      → q ≡ record p { limiter = l; caller = inside; todo = n }
      → Step p q
  -- l.wg.Add(1) and the go statement of do
  launches :
      p.caller ≡ inside
      → q ≡ record p { limiter = add p.limiter; caller = ready; running = p.running + 1 }
      → Step p q
  -- the end of f and the deferred l.stop()
  stops :
      (l : Limiter) (n : ℕ)
      → p.running ≡ suc n
      → stop p.limiter ≡ some l
      → q ≡ record p { limiter = l; running = n; stopped = p.stopped + 1 }
      → Step p q
  -- the deferred l.wg.Done()
  ends :
      (l : Limiter) (n : ℕ)
      → p.stopped ≡ suc n
      → done p.limiter ≡ some l
      → q ≡ record p { limiter = l; stopped = n; finished = p.finished + 1 }
      → Step p q
  -- the call of wait
  waits : p.caller ≡ ready → p.todo ≡ 0 → q ≡ record p { caller = waiting } → Step p q
  -- l.wg.Wait() returns
  returns : p.caller ≡ waiting → p.limiter.count ≡ 0 → q ≡ record p { caller = returned } → Step p q

pub data Reach (p : Pool) : Pool → Type 0 where
  here : Reach p p
  next : {q r : Pool} → Reach p q → Step q r → Reach p r
