-- ===== src/Ingest/Reopener.antt =====
-- seekReopener of ingest.go: a reader that opens its source again when it seeks back to the start.
pub mod Closed
use charmstore_client.Base.{
  ℕ, ℤ, pos, ◌+◌, Bool, true, false, ◌&&◌, Option, none, some, List, [], ◌∷◌, Str, ◌==◌,
  if◌then◌else◌, Result, ok, err, Error, Reply, new, mask, masked, int_eq,
}

-- What is opened: a reader is a handle of it.
pub record Opener : Type 1 where
  pub State : Type 0
  pub Handle : Type 0
  pub open_reader : State → Result Error Handle × State
  -- up to so many bytes
  pub read : Handle → ℕ → State → Result Error Str × State
  pub close : Handle → State → Reply × State

pub data Whence : Type 0 where
  seek_start seek_current seek_end : Whence

abbrev pub is_start : Whence → Bool
is_start seek_start = true
is_start _ = false

-- One of the calls on a seekReopener.
pub data Call : Type 0 where
  seek : ℤ → Whence → Call
  read : ℕ → Call
  close : Call

module _ (O : Opener) where
  -- The open reader, which is `none` for nil, and the source.
  abbrev pub Reopener : Type 0
  Reopener = Option O.Handle × O.State

  -- sr.open(), with the answer to what follows it
  abbrev pub opened :
      {A : Type 0}
      → Result Error O.Handle × O.State
      → (O.Handle → O.State → Result Error A × Reopener)
      → Result Error A × Reopener
  opened (ok h, s) f = f h s
  opened (err e, s) f = (err (masked e), (none, s))

  abbrev pub reopened : O.State → Result Error ℤ × Reopener
  reopened s = opened (O.open_reader s) (λ h s. (ok (pos 0), (some h, s)))

  -- The error of closing the reader is not looked at.
  abbrev pub closed_first : Reopener → O.State
  closed_first (none, s) = s
  closed_first (some h, s) = (O.close h s).1

  unfoldable pub seek_to : ℤ → Whence → Reopener → Result Error ℤ × Reopener
  seek_to offset whence sr =
      if offset == pos 0 && is_start whence
      then reopened (closed_first sr)
      else (err (new "cannot seek except to start of file"), sr)

  abbrev pub read_handle : ℕ → O.Handle → O.State → Result Error Str × Reopener
  read_handle n h s = let (r, s') = O.read h n s in (r, (some h, s'))

  unfoldable pub read_from : ℕ → Reopener → Result Error Str × Reopener
  read_from n (none, s) = opened (O.open_reader s) (read_handle n)
  read_from n (some h, s) = read_handle n h s

  unfoldable pub close_reopener : Reopener → Reply × Reopener
  close_reopener (none, s) = (ok tt, (none, s))
  close_reopener (some h, s) = let (r, s') = O.close h s in (mask r, (none, s'))

  unfoldable pub call : Call → Reopener → Reopener
  unfolding seek_to read_from close_reopener
  call (seek offset whence) sr = (seek_to offset whence sr).1
  call (read n) sr = (read_from n sr).1
  call close sr = (close_reopener sr).1

  unfoldable pub calls : List Call → Reopener → Reopener
  unfolding call
  calls [] sr = sr
  calls (c ∷ cs) sr = calls cs (call c sr)
