-- ===== src/Upload/Cache/Entries.antt =====
-- What readEntry finds and what it removes, and that Update, Lookup and Remove work on one entry.
use charmstore_client.Base.{
  [], ℕ, ◌≤◌, ◌≡◌, refl, ◌⊎◌, inl, Bool, true, false, none, some, Str, if◌then◌else◌, Result, ok,
  err, Error, Reply, masked, notef, is_not_exist, not_exist, cache_entry_not_found,
  is_cache_entry_not_found, arith, ◌==◌, list_eq, nat_eq,
}
use charmstore_client.Upload.Files.{Files, IsFileSystem}
use charmstore_client.Upload.Cache.{
  UploadIdCache, Entry, Packages, is_expired, after_remove, decoded, read, read_entry,
}

-- The bytes of a file are no entry, or one that has expired.
abbrev pub is_stale : Packages → UploadIdCache → ℕ → Str → Bool
is_stale P c now d = elim (P.unmarshal d) [ err _ ↦ true | ok e ↦ is_expired c now e ]

module _ (F : Files) (L : IsFileSystem F) (P : Packages) (c : UploadIdCache) where
  -- What readEntry answers, and what it leaves.
  pub record ReadsEntry (path : Str) (s : F.State) (r : Result Error Entry) (s' : F.State)
      : Type 0 where
    pub entry :
        (e : Entry)
        → r ≡ ok e
        → (s' ≡ s)
          × ((d : Str) × (L.content path s ≡ some d)
              × (P.unmarshal d ≡ ok e)
              × (is_expired c (F.now s) e ≡ false))
    pub others : (q : Str) → (q == path) ≡ false → L.content q s' ≡ L.content q s
    pub this :
        (L.content path s' ≡ L.content path s)
        ⊎ ((L.content path s' ≡ none)
            × ((d : Str) × (L.content path s ≡ some d) × (is_stale P c (F.now s) d ≡ true)))
    pub gone :
        (e : Error) → r ≡ err e → is_cache_entry_not_found e ≡ true → L.content path s' ≡ none
    pub later : F.now s ≤ F.now s'

  not_exist_eq : (e : Error) → is_not_exist e ≡ true → e ≡ not_exist
  not_exist_eq e h = ground arith

  -- The file is removed, or was gone already.
  removed_lem :
      (path : Str) (s s' : F.State) (d : Str)
      → ((q : Str)
          → (L.content q s' ≡ (if q == path then none else L.content q s)) × (F.now s ≤ F.now s'))
      → L.content path s ≡ some d
      → is_stale P c (F.now s) d ≡ true
      → ReadsEntry path s (err cache_entry_not_found) s'
  removed_lem path s s' d h w t = record {
    entry = λ e p. ground arith;
    others = λ q n. ground (arith, h q);
    this = ground (arith, h path);
    gone = λ e p n. ground (arith, h path);
    later = (h path).1;
  }

  failed_lem :
      (path : Str) (s s' : F.State) (e : Error)
      → is_cache_entry_not_found e ≡ false
      → ((q : Str) → (L.content q s' ≡ L.content q s) × (F.now s ≤ F.now s'))
      → ReadsEntry path s (err e) s'
  failed_lem path s s' e n h = record {
    entry = λ e' p. ground arith;
    others = λ q m. (h q).0;
    this = inl ((h path).0);
    gone = λ e' p m. ground arith;
    later = (h path).1;
  }

  after_remove_lem :
      (path : Str) (s s' : F.State) (x : Reply) (d : Str)
      → F.remove_file path s ≡ (x, s')
      → L.content path s ≡ some d
      → is_stale P c (F.now s) d ≡ true
      → ReadsEntry path s (after_remove F P c (x, s')).0 (after_remove F P c (x, s')).1
  after_remove_lem path s s' (ok _) d h w t =
      removed_lem path s s' d (λ q. L.removed path q s s' h) w t
  after_remove_lem path s s' (err not_exist) d h w t = ground (arith, L.none_removed path s s' h)
  after_remove_lem path s s' (err e) d h w t = ground (
    arith,
    failed_lem path s s' (notef e "cannot remove upload ID cache entry" []) refl
        (λ q. L.not_removed path q s s' e h),
  )

  found_lem :
      (path : Str) (s : F.State) (d : Str) (e : Entry)
      → L.content path s ≡ some d
      → P.unmarshal d ≡ ok e
      → is_expired c (F.now s) e ≡ false
      → ReadsEntry path s (ok e) s
  found_lem path s d e w u n = record {
    entry = λ e' p. (refl, (d, w, ground arith, ground arith));
    others = λ q m. refl;
    this = inl refl;
    gone = λ e' p m. ground arith;
    later = omega arith;
  }

  decoded_lem :
      (path : Str) (s : F.State) (d : Str) (x : Result Error Entry)
      → L.content path s ≡ some d
      → P.unmarshal d ≡ x
      → ReadsEntry path s (decoded F P c path x s).0 (decoded F P c path x s).1
  decoded_lem path s d (err e) w u =
      after_remove_lem path s (F.remove_file path s).1 (F.remove_file path s).0 d refl w
        (rw (is_stale, u) refl)
  decoded_lem path s d (ok e) w u = ground (
    arith,
    after_remove_lem path s (F.remove_file path s).1 (F.remove_file path s).0 d refl w,
    found_lem path s d e w u,
  )

  not_read_lem :
      (path : Str) (s : F.State) (e : Error)
      → F.read_file path s ≡ err e
      → ReadsEntry path s (read F P c path (err e) s).0 (read F P c path (err e) s).1
  not_read_lem path s not_exist h = record {
    entry = λ e' p. ground arith;
    others = λ q m. refl;
    this = inl refl;
    gone = λ e' p m. L.not_there path s h;
    later = omega arith;
  }
  not_read_lem path s e h =
      ground (arith, failed_lem path s s (masked e) refl (λ q. (refl, omega arith)))

  read_lem :
      (path : Str) (s : F.State) (x : Result Error Str)
      → F.read_file path s ≡ x
      → ReadsEntry path s (read F P c path x s).0 (read F P c path x s).1
  read_lem path s (ok d) h = decoded_lem path s d (P.unmarshal d) (L.reads path s d h) refl
  read_lem path s (err e) h = not_read_lem path s e h

  pub read_entry-ReadsEntry :
      (path : Str) (s : F.State)
      → ReadsEntry path s (read_entry F P c path s).0 (read_entry F P c path s).1
  unfolding read_entry
  read_entry-ReadsEntry path s = read_lem path s (F.read_file path s) refl
