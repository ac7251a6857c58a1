-- ===== src/Ingest/Space.antt =====
-- getDisk and Close of a temporary file, in ingest.go, by several transfers at once. The weighted
-- semaphore is that of a library: a record of operations, with its documented behaviour as laws.
pub mod Bounds
use charmstore_client.Base.{
  ℕ, ◌+◌, ◌≤◌, ◌≡◌, Option, some, List, [], ◌∷◌, ◌++◌, Result, ok, err, Error,
}
use charmstore_client.Ingest.Resources.{Disk, share}

-- Acquire gives `none` while it waits.
pub record Semaphore : Type 1 where
  pub State : Type 0
  pub new_weighted : ℕ → State
  pub acquire : ℕ → State → Option State
  pub release : ℕ → State → State

-- The units that are held, and their limit. Acquire lets nobody past it.
pub record IsWeighted (S : Semaphore) : Type 0 where
  pub held : S.State → ℕ
  pub size : S.State → ℕ
  pub none_held : (n : ℕ) → held (S.new_weighted n) ≡ 0
  pub sized : (n : ℕ) → size (S.new_weighted n) ≡ n
  pub acquired :
      (n : ℕ) (s s' : S.State)
      → S.acquire n s ≡ some s'
      → (held s' ≡ held s + n) × (held s' ≤ size s') × (size s' ≡ size s)
  pub released :
      (n : ℕ) (s : S.State)
      → n ≤ held s
      → (held (S.release n s) + n ≡ held s) × (size (S.release n s) ≡ size s)

-- tempFile: the size of the resource, and the share of the limit that getDisk took for it
pub record TempFile : Type 0 where
  pub resource_size : ℕ
  pub size : ℕ

-- The open files, and the units taken for files that could not be made.
pub record Space (S : Semaphore) : Type 0 where
  pub limiter : S.State
  pub files : List TempFile
  pub lost : ℕ

abbrev pub no_files : (S : Semaphore) → Disk → Space S
no_files S d = record { limiter = S.new_weighted d.max_disk; files = []; lost = 0 }

-- What one of the transfers does, where there is a limit.
pub data Step (S : Semaphore) (d : Disk) (p q : Space S) : Type 0 where
  -- getDisk returns a file
  opens :
      (size n : ℕ) (s : S.State)
      → share d size ≡ ok n
      → S.acquire n p.limiter ≡ some s
      → q ≡ record p { limiter = s; files = record { resource_size = size; size = n } ∷ p.files }
      → Step S d p q
  -- ioutil.TempFile fails in getDisk: the error is returned, and nothing is released
  fails :
      (size n : ℕ) (s : S.State)
      → share d size ≡ ok n
      → S.acquire n p.limiter ≡ some s
      → q ≡ record p { limiter = s; lost = p.lost + n }
      → Step S d p q
  -- f.Close()
  closes :
      (f : TempFile) (before behind : List TempFile)
      → p.files ≡ before ++ f ∷ behind
      → q ≡ record p { limiter = S.release f.size p.limiter; files = before ++ behind }
      → Step S d p q

pub data Reach (S : Semaphore) (d : Disk) (p : Space S) : Space S → Type 0 where
  here : Reach S d p p
  next : {q r : Space S} → Reach S d p q → Step S d q r → Reach S d p r
