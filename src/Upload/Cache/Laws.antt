-- ===== src/Upload/Cache/Laws.antt =====
-- Update, Lookup and Remove of UploadIdCache, and the one entry that they work on.
use charmstore_client.Base.{
  ℕ, ℤ, ◌+◌, ◌≤◌, ◌≡◌, refl, ◌∙◌, ◌⊎◌, inl, inr, false, none, some, Str, not_exist, Result, ok, err,
  Error, Reply, masked, arith, list_eq, nat_eq, [], ◌≢◌,
}
use charmstore_client.Charm.{Url}
use charmstore_client.Upload.Files.{Files, IsFileSystem}
use charmstore_client.Upload.Cache.{
  UploadIdCache, Entry, Packages, is_expired, filename, lookup, update, remove, new_entry, with_dir,
  read, marshalled, removed_reply, masked_reply,
}
use charmstore_client.Upload.Cache.Entries.{read_entry-ReadsEntry}

-- What json.Marshal has written, json.Unmarshal reads.
abbrev pub IsMarshal : Packages → Type 0
IsMarshal P = (e : Entry) (d : Str) → P.marshal e ≡ ok d → P.unmarshal d ≡ ok e

module _ (F : Files) (L : IsFileSystem F) (P : Packages) (c : UploadIdCache) where
  written_lem :
      (path d : Str) (s s' : F.State) (x : Reply × F.State)
      → F.write_file path d s ≡ x
      → masked_reply F P c x ≡ (ok tt, s')
      → (L.content path s' ≡ some d) × (F.now s ≤ F.now s')
  written_lem path d s s' (ok _, t) h k = ground (arith, L.written path path d s t h)
  written_lem path d s s' (err e, t) h k = ground arith

  marshalled_lem :
      (path : Str) (e : Entry) (s s' : F.State) (x : Result Error Str)
      → IsMarshal P
      → P.marshal e ≡ x
      → marshalled F P c path x s ≡ (ok tt, s')
      → (d : Str) × (L.content path s' ≡ some d) × (P.unmarshal d ≡ ok e) × (F.now s ≤ F.now s')
  marshalled_lem path e s s' (ok d) m h k =
      let w = written_lem path d s s' (F.write_file path d s) refl k in (d, w.0, m e d h, w.1)
  marshalled_lem path e s s' (err x) m h k = ground arith

  -- What a successful Update leaves.
  abbrev pub Updated : Str → Str → Str → Url → F.State → F.State → Type 0
  Updated u name hash curl s s' =
      (d : Str) × (now : ℕ) × (L.content (filename F P c curl name hash) s' ≡ some d)
      × (P.unmarshal d ≡ ok (new_entry F P c u curl name hash now))
      × (F.now s ≤ now)
      × (now ≤ F.now s')

  with_dir_lem :
      (u name hash : Str) (curl : Url) (s s' : F.State) (x : Reply × F.State)
      → IsMarshal P
      → F.make_dirs c.dir s ≡ x
      → with_dir F P c u curl name hash x ≡ (ok tt, s')
      → Updated u name hash curl s s'
  with_dir_lem u name hash curl s s' (ok _, t) m h k =
      let e = new_entry F P c u curl name hash (F.now t) in
      let (d, w, r, l) =
        marshalled_lem (filename F P c curl name hash) e t s' (P.marshal e) m refl k in
      (d, F.now t, w, r, (L.made c.dir [] s t (ok tt) h).1, l)
  with_dir_lem u name hash curl s s' (err x, t) m h k = ground arith

  pub update-Updated :
      (u name hash : Str) (curl : Url) (s s' : F.State)
      → IsMarshal P
      → update F P c u curl name hash s ≡ (ok tt, s')
      → Updated u name hash curl s s'
  unfolding update
  update-Updated u name hash curl s s' m h =
      with_dir_lem u name hash curl s s' (F.make_dirs c.dir s) m refl h

  -- The entry, or an error of reading its file.
  abbrev pub Finds : Entry → Result Error Entry × F.State → F.State → Type 0
  Finds e r t = (r ≡ (ok e, t)) ⊎ ((x : Error) × (r ≡ (err (masked x), t)))

  read_lem :
      (path d : Str) (e : Entry) (t : F.State) (x : Result Error Str)
      → L.content path t ≡ some d
      → P.unmarshal d ≡ ok e
      → is_expired c (F.now t) e ≡ false
      → F.read_file path t ≡ x
      → Finds e (read F P c path x t) t
  read_lem path d e t (ok b) w u n h =
      inl (let b_eq : d ≡ b = ground (arith, L.reads path t b h) in ground arith)
  read_lem path d e t (err not_exist) w u n h = ground (arith, L.not_there path t h)
  read_lem path d e t (err x) w u n h = inr (x, refl)

  -- While an entry is there that has not expired, Lookup finds it.
  pub lookup_found :
      (name hash d : Str) (curl : Url) (e : Entry) (t : F.State)
      → L.content (filename F P c curl name hash) t ≡ some d
      → P.unmarshal d ≡ ok e
      → is_expired c (F.now t) e ≡ false
      → Finds e (lookup F P c curl name hash t) t
  unfolding lookup
  lookup_found name hash d curl e t w u n =
      let path = filename F P c curl name hash in
      read_lem path d e t (F.read_file path t) w u n refl

  -- When Update has returned no error, then as long as the file of the entry stays as it is, and
  -- for the time of the expiry after the call, Lookup gives the upload id that was stored, for the
  -- URL with any revision; or else the file could not be read.
  pub lookup-update :
      (u name hash : Str) (curl : Url) (revision : ℤ) (s s' t : F.State)
      → IsMarshal P
      → update F P c u curl name hash s ≡ (ok tt, s')
      → L.content (filename F P c curl name hash) t ≡ L.content (filename F P c curl name hash) s'
      → F.now t ≤ F.now s + c.expiry_duration
      → (now : ℕ) × Finds
          (new_entry F P c u curl name hash now)
          (lookup F P c (record curl { revision = revision }) name hash t)
          t
  unfolding filename
  lookup-update u name hash curl revision s s' t m h same young =
      let (d, now, w, r, l, _) = update-Updated u name hash curl s s' m h in
      (
        now,
        lookup_found name hash d (record curl { revision = revision })
            (new_entry F P c u curl name hash now) t (same ∙ w) r (ground arith),
      )

  removed_lem :
      (path : Str) (s s' : F.State) (x : Reply × F.State)
      → F.remove_file path s ≡ x
      → removed_reply F P c x ≡ (ok tt, s')
      → L.content path s' ≡ none
  removed_lem path s s' (ok _, t) h k = ground (arith, L.removed path path s t h)
  removed_lem path s s' (err not_exist, t) h k =
      ground (arith, L.none_removed path s t h, L.not_removed path path s t not_exist h)
  removed_lem path s s' (err x, t) h k = ground arith

  remove_lem :
      (name hash : Str) (curl : Url) (s s' : F.State)
      → remove F P c curl name hash s ≡ (ok tt, s')
      → L.content (filename F P c curl name hash) s' ≡ none
  unfolding remove
  remove_lem name hash curl s s' h =
      let path = filename F P c curl name hash in
      removed_lem path s s' (F.remove_file path s) refl h

  -- When Remove has returned no error, Lookup finds no entry for as long as no file is put in its
  -- place.
  pub lookup-remove :
      (name hash : Str) (curl : Url) (s s' t : F.State)
      → remove F P c curl name hash s ≡ (ok tt, s')
      → L.content (filename F P c curl name hash) t ≡ L.content (filename F P c curl name hash) s'
      → (e : Entry) → (lookup F P c curl name hash t).0 ≢ ok e
  unfolding lookup
  lookup-remove name hash curl s s' t h same e found =
      let (_, (d, w, _, _)) =
        (read_entry-ReadsEntry F L P c (filename F P c curl name hash) t).entry e found in
      ground (arith, remove_lem name hash curl s s' h)
