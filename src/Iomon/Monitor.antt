-- ===== src/Iomon/Monitor.antt =====
-- iomon.go: the worker that passes the status on. The worker and the caller of Update share one
-- number under a lock, so a run is a sequence of updates and of ticks of the worker's clock.
pub mod Laws
use charmstore_client.Base.{
  ℕ, Bool, true, false, not, ◌&&◌, List, [], ◌∷◌, ◌++◌, ◌==◌, nat_eq, if◌then◌else◌,
}

pub record Status : Type 0 where
  pub current : ℕ
  pub total : ℕ

abbrev pub same_status : Status → Status → Bool
same_status s t = s.current == t.current && s.total == t.total

-- `sent` has the calls of SetStatus so far.
pub record Monitor : Type 0 where
  pub size : ℕ
  pub current_status : Status
  pub current : ℕ
  pub sent : List Status

-- The zero value of a status.
abbrev pub zero_status : Status
zero_status = record { current = 0; total = 0 }

-- New, before the worker runs
abbrev pub new_monitor : ℕ → Monitor
new_monitor size = record { size = size; current_status = zero_status; current = 0; sent = [] }

unfoldable pub update : ℕ → Monitor → Monitor
update current m = record m { current = current }

unfoldable pub set_status : Monitor → Monitor
set_status m =
    let status : Status = record { current = m.current; total = m.size } in
    if not (same_status status m.current_status)
    then record m { sent = m.sent ++ status ∷ []; current_status = status }
    else m

-- What happens while the worker waits: an update, or its clock, after which it loops.
pub data Event : Type 0 where
  updated : ℕ → Event
  tick : Event

unfoldable pub loop : List Event → Monitor → Monitor
unfolding update set_status
loop [] m = m
loop (updated current ∷ events) m = loop events (update current m)
loop (tick ∷ events) m = loop events (set_status m)

unfoldable pub update_all : List ℕ → Monitor → Monitor
unfolding update
update_all [] m = m
update_all (current ∷ counts) m = update_all counts (update current m)

-- The worker from its start until it is killed, after the events; the final status is always set.
-- The `early` updates come before the worker, which New starts, passes on its first status.
unfoldable pub run : List ℕ → List Event → Monitor → Monitor
unfolding loop update_all
run early events m = set_status (loop events (set_status (update_all early m)))
