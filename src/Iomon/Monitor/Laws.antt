-- ===== src/Iomon/Monitor/Laws.antt =====
-- What a monitor passes on.
use charmstore_client.Base.{
  ℕ, ◌≡◌, refl, ◌∙◌, ap, false, List, [], ◌∷◌, ◌++◌, nat_eq, arith, Bool-cases, inl, inr,
}
use charmstore_client.Iomon.Monitor.{
  Status, same_status, Monitor, zero_status, new_monitor, update, set_status, Event, updated, tick,
  update_all, loop, run,
}

-- The last status that was passed on, or `s` if there is none.
abbrev pub last_of : Status → List Status → Status
last_of s [] = s
last_of s (t ∷ l) = last_of t l

-- No status is like the one before it, the first one like `s` neither.
abbrev pub NoRepeat : Status → List Status → Type 0
NoRepeat s [] = Unit
NoRepeat s (t ∷ l) = (same_status t s ≡ false) × NoRepeat t l

-- The count of the last update, or `n` if there is none.
abbrev pub last_update : ℕ → List Event → ℕ
last_update n [] = n
last_update n (updated c ∷ events) = last_update c events
last_update n (tick ∷ events) = last_update n events

-- The last of some counts, or `n` if there is none
abbrev pub last_count : ℕ → List ℕ → ℕ
last_count n [] = n
last_count n (c ∷ counts) = last_count c counts

record IsSound (size : ℕ) (m : Monitor) : Type 0 where
  sized : m.size ≡ size
  last : last_of zero_status m.sent ≡ m.current_status
  distinct : NoRepeat zero_status m.sent

last_of-snoc : (s : Status) (l : List Status) (t : Status) → last_of s (l ++ t ∷ []) ≡ t
last_of-snoc s [] t = refl
last_of-snoc s (u ∷ l) t = last_of-snoc u l t

NoRepeat-snoc :
    (s : Status) (l : List Status) (t : Status)
    → NoRepeat s l
    → same_status t (last_of s l) ≡ false
    → NoRepeat s (l ++ t ∷ [])
NoRepeat-snoc s [] t n h = (h, tt)
NoRepeat-snoc s (u ∷ l) t (d, n) h = (d, NoRepeat-snoc u l t n h)

module _ (size : ℕ) where
  set_status-IsSound : (m : Monitor) → IsSound size m → IsSound size (set_status m)
  unfolding set_status
  set_status-IsSound m v =
      let status : Status = record { current = m.current; total = m.size } in
      elim (Bool-cases (same_status status m.current_status)) [
        | inl same ↦ rw same v
        | inr other ↦ rw other (record {
          sized = v.sized;
          last = last_of-snoc zero_status m.sent status;
          distinct = NoRepeat-snoc zero_status m.sent status v.distinct (rw v.last other);
        })
      ]

  loop-IsSound : (events : List Event) (m : Monitor) → IsSound size m → IsSound size (loop events m)
  unfolding loop update
  loop-IsSound [] m v = v
  loop-IsSound (updated c ∷ events) m v =
      loop-IsSound events (update c m)
        (record { sized = v.sized; last = v.last; distinct = v.distinct })
  loop-IsSound (tick ∷ events) m v = loop-IsSound events (set_status m) (set_status-IsSound m v)

module _ (size : ℕ) where
  update_all-IsSound :
      (early : List ℕ) (m : Monitor) → IsSound size m → IsSound size (update_all early m)
  unfolding update_all update
  update_all-IsSound [] m v = v
  update_all-IsSound (c ∷ early) m v =
      update_all-IsSound early (update c m)
        (record { sized = v.sized; last = v.last; distinct = v.distinct })

current-update_all :
    (early : List ℕ) (m : Monitor) → (update_all early m).current ≡ last_count m.current early
unfolding update_all update
current-update_all [] m = refl
current-update_all (c ∷ early) m = current-update_all early (update c m)

current-set_status : (m : Monitor) → (set_status m).current ≡ m.current
unfolding set_status
current-set_status m = ground arith

size-set_status : (m : Monitor) → (set_status m).size ≡ m.size
unfolding set_status
size-set_status m = ground arith

current-loop :
    (events : List Event) (m : Monitor) → (loop events m).current ≡ last_update m.current events
unfolding loop update
current-loop [] m = refl
current-loop (updated c ∷ events) m = current-loop events (update c m)
current-loop (tick ∷ events) m = current-loop events (set_status m) ∙ rw current-set_status

current_status-set_status :
    (m : Monitor) → (set_status m).current_status ≡ record { current = m.current; total = m.size }
unfolding set_status
current_status-set_status m = ground arith

abbrev status_of : ℕ → ℕ → Status
status_of current total = record { current = current; total = total }

run_from :
    (size c : ℕ) (events : List Event) (start : Monitor)
    → IsSound size start
    → start.current ≡ c
    → let m = set_status (loop events start) in
      (last_of zero_status m.sent ≡ record { current = last_update c events; total = size })
      × NoRepeat zero_status m.sent
run_from size c events start sound from =
    let middle = loop events start in
    let middle_sound = loop-IsSound size events start sound in
    let end_sound = set_status-IsSound size middle middle_sound in
    let counted : middle.current ≡ last_update c events =
      current-loop events start ∙ ap (λ n. last_update n events) from in
    (
      end_sound.last
          ∙ current_status-set_status middle
          ∙ ap (λ n. status_of n middle.size) counted
          ∙ ap (status_of (last_update c events)) middle_sound.sized,
      end_sound.distinct,
    )

-- Whatever the updates, also those before the first status, and the ticks: when the monitor has stopped, the last status that it passed
-- on, or the zero status if it passed on none, has the count of the last update and the size of the
-- transfer; and it passed on no status that was like the one before.
pub run_final_status :
    (size : ℕ) (early : List ℕ) (events : List Event)
    → let m = run early events (new_monitor size) in
      (last_of zero_status m.sent
        ≡ record { current = last_update (last_count 0 early) events; total = size })
      × NoRepeat zero_status m.sent
unfolding run
run_final_status size early events =
    let first = update_all early (new_monitor size) in
    run_from size (last_count 0 early) events (set_status first)
      (set_status-IsSound size first (
        update_all-IsSound size early (new_monitor size)
          (record { sized = refl; last = refl; distinct = tt })))
      (current-set_status first ∙ current-update_all early (new_monitor size))
