-- ===== src/Ingest/Space/Bounds.antt =====
-- How much disk space the temporary files of a run take.
use Prim.Native.Nat.{max}
use charmstore_client.Base.{
  ℕ, ◌+◌, ◌≤◌, ◌<◌, ◌≡◌, refl, none, some, List, [], ◌∷◌, ◌++◌, ok, arith, All, false, Option-cases,
  ◌⊎◌, inl, inr, subst,
}
use charmstore_client.Ingest.Resources.{Disk, share}
use charmstore_client.Ingest.Space.{
  Semaphore, IsWeighted, TempFile, Space, no_files, Step, opens, fails, closes, Reach, here, next,
}

-- The units that are taken for the files.
abbrev pub shares : List TempFile → ℕ
shares [] = 0
shares (f ∷ files) = f.size + shares files

-- The sizes of the resources that the files are for.
abbrev pub total : List TempFile → ℕ
total [] = 0
total (f ∷ files) = f.resource_size + total files

abbrev pub largest : List TempFile → ℕ
largest [] = 0
largest (f ∷ files) = max f.resource_size (largest files)

shares-append : (xs ys : List TempFile) → shares (xs ++ ys) ≡ shares xs + shares ys
shares-append [] ys = omega arith
shares-append (f ∷ xs) ys = omega (arith, shares-append xs ys)

-- The file's share is its size, or with a soft limit all there is.
abbrev IsShared : Disk → TempFile → Type 0
IsShared d f = share d f.resource_size ≡ ok f.size

All-drop :
    (P : TempFile → Type 0) (xs : List TempFile) (f : TempFile) (ys : List TempFile)
    → All P (xs ++ f ∷ ys)
    → All P (xs ++ ys)
All-drop P [] f ys h = h.1
All-drop P (x ∷ xs) f ys h = (h.0, All-drop P xs f ys h.1)

module _ (S : Semaphore) (W : IsWeighted S) (d : Disk) where
  pub record IsSound (p : Space S) : Type 0 where
    pub sized : W.size p.limiter ≡ d.max_disk
    pub within : W.held p.limiter ≤ d.max_disk
    pub conserved : W.held p.limiter ≡ shares p.files + p.lost
    pub shared : All (IsShared d) p.files

  no_files-IsSound : IsSound (no_files S d)
  no_files-IsSound = record {
    sized = W.sized d.max_disk;
    within = omega (arith, W.none_held d.max_disk);
    conserved = omega (arith, W.none_held d.max_disk);
    shared = tt;
  }

  opens-IsSound :
      (p : Space S) (size n : ℕ) (s : S.State)
      → share d size ≡ ok n
      → S.acquire n p.limiter ≡ some s
      → IsSound p
      → IsSound
          (record p { limiter = s; files = record { resource_size = size; size = n } ∷ p.files })
  opens-IsSound p size n s sh a v =
      let (h, w, z) = W.acquired n p.limiter s a in
      record {
        sized = omega (arith, v.sized);
        within = omega (arith, v.sized);
        conserved = omega (arith, v.conserved);
        shared = (sh, v.shared);
      }

  fails-IsSound :
      (p : Space S) (n : ℕ) (s : S.State)
      → S.acquire n p.limiter ≡ some s
      → IsSound p
      → IsSound (record p { limiter = s; lost = p.lost + n })
  fails-IsSound p n s a v =
      let (h, w, z) = W.acquired n p.limiter s a in
      record {
        sized = omega (arith, v.sized);
        within = omega (arith, v.sized);
        conserved = omega (arith, v.conserved);
        shared = v.shared;
      }

  closes-IsSound :
      (p : Space S) (f : TempFile) (xs ys : List TempFile)
      → p.files ≡ xs ++ f ∷ ys
      → IsSound p
      → IsSound (record p { limiter = S.release f.size p.limiter; files = xs ++ ys })
  closes-IsSound p f xs ys e v =
      let held : W.held p.limiter ≡ shares (xs ++ f ∷ ys) + p.lost =
        subst (λ l. W.held p.limiter ≡ shares l + p.lost) e v.conserved in
      let (h, z) = W.released f.size p.limiter (omega (arith, shares-append xs (f ∷ ys))) in
      record {
        sized = omega (arith, v.sized);
        within = omega (arith, v.within);
        conserved = omega (arith, shares-append xs (f ∷ ys), shares-append xs ys);
        shared = All-drop (IsShared d) xs f ys (subst (All (IsShared d)) e v.shared);
      }

  Step-IsSound : {p q : Space S} → Step S d p q → IsSound p → IsSound q
  Step-IsSound {p} (opens size n s sh a e) v = rw e (opens-IsSound p size n s sh a v)
  Step-IsSound {p} (fails size n s sh a e) v = rw e (fails-IsSound p n s a v)
  Step-IsSound {p} (closes f xs ys k e) v = rw e (closes-IsSound p f xs ys k v)

  Step-lost : {p q : Space S} → Step S d p q → p.lost ≤ q.lost
  Step-lost (opens size n s sh a e) = ground arith
  Step-lost (fails size n s sh a e) = ground arith
  Step-lost (closes f xs ys k e) = ground arith

  Reach-IsSound : {p : Space S} → Reach S d (no_files S d) p → IsSound p
  Reach-IsSound here = no_files-IsSound
  Reach-IsSound (next r s) = Step-IsSound s (Reach-IsSound r)

module _ (d : Disk) where
  -- The shares are the sizes, or one file has all there is.
  abbrev ByShares : List TempFile → Type 0
  ByShares files =
      (total files ≡ shares files) ⊎ ((shares files ≡ d.max_disk) × (total files ≤ largest files))

  files-ByShares :
      (files : List TempFile)
      → 0 < d.max_disk
      → All (IsShared d) files
      → shares files ≤ d.max_disk
      → ByShares files
  unfolding share
  files-ByShares [] m h w = inl refl
  files-ByShares (f ∷ files) m h w = ground (arith, files-ByShares files m h.1)

  hard_total :
      (files : List TempFile)
      → d.soft_disk_limit ≡ false
      → All (IsShared d) files
      → total files ≡ shares files
  unfolding share
  hard_total [] hard h = refl
  hard_total (f ∷ files) hard h = ground (arith, hard_total files hard h.1)

module _ (S : Semaphore) (W : IsWeighted S) (d : Disk) where
  -- However the transfers take turns: with a limit on the disk space, the resources whose temporary
  -- files are open are together no larger than the limit, or, where the limit is soft, than the
  -- larger of the limit and of the largest one of them.
  pub Reach-total_le :
      {p : Space S}
      → Reach S d (no_files S d) p
      → 0 < d.max_disk
      → (total p.files ≤ max d.max_disk (largest p.files))
        × (d.soft_disk_limit ≡ false → total p.files ≤ d.max_disk)
  Reach-total_le {p} r m =
      let v = Reach-IsSound S W d r in
      let fits : shares p.files ≤ d.max_disk = omega (arith, v.within, v.conserved) in
      (
        ground (arith, files-ByShares d p.files m v.shared fits),
        λ hard. omega (arith, hard_total d p.files hard v.shared),
      )

  -- The units that getDisk took for files that could not be made are never given back: they count
  -- against the limit in every later state, so that a transfer whose share goes past what is left
  -- of the limit waits for ever.
  pub Reach-lost :
      {p : Space S} (n : ℕ)
      → Reach S d (no_files S d) p
      → d.max_disk < p.lost + n
      → (S.acquire n p.limiter ≡ none) × ((q : Space S) → Step S d p q → p.lost ≤ q.lost)
  Reach-lost {p} n r full =
      let v = Reach-IsSound S W d r in
      (
        elim (Option-cases (S.acquire n p.limiter)) [
          | inl waits ↦ waits
          | inr (s, got) ↦
              absurd (omega (arith, W.acquired n p.limiter s got, v.conserved, v.sized))
        ],
        λ q. Step-lost S W d,
      )
