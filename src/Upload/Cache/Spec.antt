-- ===== src/Upload/Cache/Spec.antt =====
-- What the cache of upload ids promises: a map from names to entries and a clock, with the calls that
-- UploadIdCache of cmd/charm/charmcmd/uploadidcache.go answers. Files do not appear.
use charmstore_client.Base.{
  ℕ, ◌≤◌, ◌≡◌, ◌⊎◌, Bool, true, false, Option, none, some, List, [], ◌∷◌, Str, Result, ok, err,
  Error, Reply, is_cache_entry_not_found, ◌==◌, list_eq, nat_eq, if◌then◌else◌,
}
use charmstore_client.Charm.{Url}
use charmstore_client.Upload.Cache.{UploadIdCache, Entry, is_expired}

pub data Call : Type 0 where
  store : Str → Url → Str → Str → Call
  find : Url → Str → Str → Call
  forget : Url → Str → Str → Call
  expire : Call

pub data Answer : Type 0 where
  done : Reply → Answer
  found : Result Error Entry → Answer

abbrev pub Map : Type 0
Map = Str → Option Entry

abbrev pub IsSame : Map → Map → Type 0
IsSame m m' = (p : Str) → m' p ≡ m p

abbrev pub Puts : Str → Option Entry → Map → Map → Type 0
Puts p o m m' = (q : Str) → m' q ≡ (if q == p then o else m q)

-- `name` gives the name of a key, and `entry` the entry that is made for one.
module _ (c : UploadIdCache) (name : Url → Str → Str → Str)
    (entry : Str → Url → Str → Str → ℕ → Entry) where
  -- No entry, or one that has expired.
  abbrev pub is_dead : ℕ → Option Entry → Bool
  is_dead now none = true
  is_dead now (some e) = is_expired c now e

  -- Only what is dead may go.
  abbrev pub Clears : ℕ → Option Entry → Option Entry → Type 0
  Clears now o o' = (o' ≡ o) ⊎ ((o' ≡ none) × (is_dead now o ≡ true))

  -- The answers to a call that begins at the time `t` and ends at `t'`, and what becomes of the map.
  abbrev pub Allowed : Call → Answer → ℕ → ℕ → Map → Map → Type 0
  Allowed (store u curl n hash) (done (ok _)) t t' m m' =
      (now : ℕ) × (t ≤ now)
      × (now ≤ t')
      × Puts (name curl n hash) (some (entry u curl n hash now)) m m'
  Allowed (store u curl n hash) (done (err e)) t t' m m' = IsSame m m'
  Allowed (find curl n hash) (found (ok e)) t t' m m' =
      (m (name curl n hash) ≡ some e) × (is_expired c t e ≡ false) × IsSame m m'
  Allowed (find curl n hash) (found (err e)) t t' m m' =
      (is_cache_entry_not_found e ≡ true → is_dead t (m (name curl n hash)) ≡ true)
      × ((q : Str) → (q == name curl n hash) ≡ false → m' q ≡ m q)
      × Clears t (m (name curl n hash)) (m' (name curl n hash))
  Allowed (forget curl n hash) (done (ok _)) t t' m m' = Puts (name curl n hash) none m m'
  Allowed (forget curl n hash) (done (err e)) t t' m m' = IsSame m m'
  Allowed expire (done r) t t' m m' = (q : Str) → Clears t' (m q) (m' q)
  Allowed _ _ _ _ _ _ = ⊥

  pub data Allows : ℕ → Map → List (Call × Answer) → ℕ → Map → Type 0 where
    end : (t : ℕ) (m : Map) → Allows t m [] t m
    pause :
        (t u t' : ℕ) (m n m' : Map) (l : List (Call × Answer))
        → IsSame m n
        → t ≤ u
        → Allows u n l t' m'
        → Allows t m l t' m'
    call :
        (t u t' : ℕ) (m n m' : Map) (k : Call) (a : Answer) (l : List (Call × Answer))
        → Allowed k a t u m n
        → t ≤ u
        → Allows u n l t' m'
        → Allows t m ((k, a) ∷ l) t' m'
