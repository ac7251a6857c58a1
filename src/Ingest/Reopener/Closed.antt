-- ===== src/Ingest/Reopener/Closed.antt =====
-- The readers that a seekReopener of ingest.go opens and closes.
use charmstore_client.Base.{
  ℕ, ℤ, pos, ◌+◌, ◌≡◌, refl, ◌&&◌, Option, none, some, List, [], ◌∷◌, ◌==◌, Result, ok, err, Error,
  arith, Bool-cases, inl, inr, int_eq,
}
use charmstore_client.Ingest.Reopener.{
  Opener, Whence, is_start, Call, seek, read, close, Reopener, opened, closed_first, seek_to,
  read_handle, read_from, close_reopener, call, calls,
}

-- The readers that were opened, and those that were closed, are counted.
pub record Counts (S : Type 0) : Type 0 where
  pub state : S
  pub opens : ℕ
  pub closes : ℕ

abbrev pub count_open : {S H : Type 0} → ℕ → ℕ → Result Error H × S → Result Error H × Counts S
count_open m n (ok h, s) = (ok h, record { state = s; opens = m + 1; closes = n })
count_open m n (err e, s) = (err e, record { state = s; opens = m; closes = n })

abbrev pub counted : Opener → Opener
counted O = record {
  State = Counts O.State;
  Handle = O.Handle;
  open_reader = λ s. count_open s.opens s.closes (O.open_reader s.state);
  read = λ h n s. let (r, t) = O.read h n s.state in (r, record s { state = t });
  close =
      λ h s. let (r, t) = O.close h s.state in (r, record s { state = t; closes = s.closes + 1 });
}

module _ (O : Opener) where
  -- The readers in use.
  abbrev pub in_use : Option O.Handle → ℕ
  in_use none = 0
  in_use (some h) = 1

  abbrev pub IsBalanced : Reopener (counted O) → Type 0
  IsBalanced (r, s) = s.opens ≡ s.closes + in_use r

  opened-IsBalanced :
      {A : Type 0} (m n : ℕ) (x : Result Error O.Handle × O.State)
      (f : O.Handle → Counts O.State → Result Error A × Reopener (counted O))
      → m ≡ n
      → ((h : O.Handle) (s : Counts O.State) → s.opens ≡ s.closes + 1 → IsBalanced (f h s).1)
      → IsBalanced (opened (counted O) (count_open m n x) f).1
  opened-IsBalanced m n (ok h, s) f e k =
      k h (record { state = s; opens = m + 1; closes = n }) (omega arith)
  opened-IsBalanced m n (err x, s) f e k = omega arith

  closed_first-balanced :
      (sr : Reopener (counted O))
      → IsBalanced sr
      → (closed_first (counted O) sr).opens ≡ (closed_first (counted O) sr).closes
  closed_first-balanced (none, s) h = omega arith
  closed_first-balanced (some r, s) h = h

  seek_to-IsBalanced :
      (offset : ℤ) (whence : Whence) (sr : Reopener (counted O))
      → IsBalanced sr
      → IsBalanced (seek_to (counted O) offset whence sr).1
  unfolding seek_to
  seek_to-IsBalanced offset whence sr h = elim (Bool-cases (offset == pos 0 && is_start whence)) [
    | inr n ↦ rw (seek_to, n) h
    | inl y ↦
        let s = closed_first (counted O) sr in
        rw (seek_to, y)
          (opened-IsBalanced s.opens s.closes (O.open_reader s.state)
            (λ h s. (ok (pos 0), (some h, s))) (closed_first-balanced sr h) (λ r t e. e))
  ]

  call-IsBalanced :
      (c : Call) (sr : Reopener (counted O)) → IsBalanced sr → IsBalanced (call (counted O) c sr)
  unfolding call seek_to read_from close_reopener
  call-IsBalanced (seek offset whence) sr h = seek_to-IsBalanced offset whence sr h
  call-IsBalanced (read n) (none, s) h =
      opened-IsBalanced s.opens s.closes (O.open_reader s.state) (read_handle (counted O) n)
        (omega arith) (λ r t e. e)
  call-IsBalanced (read n) (some r, s) h = ground arith
  call-IsBalanced close (none, s) h = h
  call-IsBalanced close (some r, s) h = ground arith

  calls-IsBalanced :
      (cs : List Call) (sr : Reopener (counted O))
      → IsBalanced sr
      → IsBalanced (calls (counted O) cs sr)
  unfolding calls
  calls-IsBalanced [] sr h = h
  calls-IsBalanced (c ∷ cs) sr h =
      calls-IsBalanced cs (call (counted O) c sr) (call-IsBalanced c sr h)

  close-none :
      (sr : Reopener (counted O))
      → IsBalanced sr
      → (close_reopener (counted O) sr).1.1.opens ≡ (close_reopener (counted O) sr).1.1.closes
  unfolding close_reopener
  close-none (none, s) h = omega arith
  close-none (some r, s) h = h

  -- After any calls of Seek, Read and Close, whatever of them has failed, the readers that were opened
  -- have all been closed, but for the one in use where there is one; and after a further Close, all.
  pub calls_lem :
      (cs : List Call) (s : O.State)
      → let sr = calls (counted O) cs (none, record { state = s; opens = 0; closes = 0 }) in
        IsBalanced sr
        × ((close_reopener (counted O) sr).1.1.opens ≡ (close_reopener (counted O) sr).1.1.closes)
  calls_lem cs s =
      let start : Reopener (counted O) = (none, record { state = s; opens = 0; closes = 0 }) in
      let v = calls-IsBalanced cs start refl in (v, close-none (calls (counted O) cs start) v)
