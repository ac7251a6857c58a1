-- ===== src/Tests/Readers.antt =====
-- The theorem on the reader that reopens its source, at a concrete input.
use charmstore_client.Base.{ℕ, pos, ◌+◌, ◌≡◌, refl, none, some, List, [], ◌∷◌, ok, int_eq, nat_eq}
use charmstore_client.Ingest.Reopener.{
  Opener, seek_start, Call, seek, read, Reopener, close_reopener, calls,
}
use charmstore_client.Ingest.Reopener.Closed.{counted, IsBalanced, calls_lem}

abbrev opener : Opener
opener = record {
  State = ℕ;
  Handle = ℕ;
  open_reader = λ n. (ok n, n + 1);
  read = λ h n s. (ok [], s);
  close = λ h s. (ok tt, s);
}

-- Read, seek back, and read again.
abbrev twice : List Call
twice = read 5 ∷ seek (pos 0) seek_start ∷ read 5 ∷ []

abbrev fresh : Reopener (counted opener)
fresh = (none, record { state = 0; opens = 0; closes = 0 })

calls_lem_example :
    IsBalanced opener (calls (counted opener) twice fresh)
    × ((close_reopener (counted opener) (calls (counted opener) twice fresh)).1.1.opens
        ≡ (close_reopener (counted opener) (calls (counted opener) twice fresh)).1.1.closes)
calls_lem_example = calls_lem opener twice 0

-- The source was opened twice.
calls-twice :
    calls (counted opener) twice fresh ≡ (some 1, record { state = 2; opens = 2; closes = 1 })
unfolding calls int_eq
calls-twice = refl
