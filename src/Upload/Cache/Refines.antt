-- ===== src/Upload/Cache/Refines.antt =====
-- UploadIdCache against its specification: the entries that its files hold are the map.
use charmstore_client.Base.{◌≤◌, ◌≡◌, refl, List, [], ◌∷◌, Str, list_eq, nat_eq}
use charmstore_client.Upload.Files.{Files, IsFileSystem}
use charmstore_client.Upload.Cache.{
  UploadIdCache, Packages, filename, read_entry, lookup, new_entry, update, remove,
  remove_expired_entries,
}
use charmstore_client.Upload.Cache.Entries.{read_entry-ReadsEntry}
use charmstore_client.Upload.Cache.Laws.{IsMarshal}
use charmstore_client.Upload.Cache.Spec.{
  Call, store, find, forget, expire, Answer, done, found, Allows,
}
use charmstore_client.Upload.Cache.Meets.{
  entries, Meets, same_lem, find_lem, with_dir_lem, forget_lem, expire_lem,
}

module _ (F : Files) (L : IsFileSystem F) (P : Packages) (c : UploadIdCache) (M : IsMarshal P) where
  unfoldable pub answer : Call → F.State → Answer × F.State
  answer (store u curl name hash) s = let (r, s') = update F P c u curl name hash s in (done r, s')
  answer (find curl name hash) s = let (r, s') = lookup F P c curl name hash s in (found r, s')
  answer (forget curl name hash) s = let (r, s') = remove F P c curl name hash s in (done r, s')
  answer expire s = let (r, s') = remove_expired_entries F P c s in (done r, s')

  -- Calls of the cache with their answers; between two calls time may pass.
  pub data Runs : F.State → List (Call × Answer) → F.State → Type 0 where
    stop : (s : F.State) → Runs s [] s
    wait :
        (s t s' : F.State) (l : List (Call × Answer))
        → ((q : Str) → L.content q t ≡ L.content q s)
        → F.now s ≤ F.now t
        → Runs t l s'
        → Runs s l s'
    ask :
        (s s' : F.State) (k : Call) (l : List (Call × Answer))
        → Runs (answer k s).1 l s'
        → Runs s ((k, (answer k s).0) ∷ l) s'

  answer-Meets : (k : Call) (s : F.State) → Meets F L P c M k (answer k s).0 s (answer k s).1
  unfolding answer update lookup remove
  answer-Meets (store u curl name hash) s =
      with_dir_lem F L P c M u curl name hash s (F.make_dirs c.dir s).1 (F.make_dirs c.dir s).0 refl
  answer-Meets (find curl name hash) s =
      let path = filename F P c curl name hash in
      find_lem F L P c M curl name hash s (read_entry F P c path s).1 (read_entry F P c path s).0
        (read_entry-ReadsEntry F L P c path s)
  answer-Meets (forget curl name hash) s =
      let path = filename F P c curl name hash in
      forget_lem F L P c M curl name hash s (F.remove_file path s).1 (F.remove_file path s).0 refl
  answer-Meets expire s = expire_lem F L P c M s (F.read_dir c.dir s) refl

  -- However Update, Lookup, Remove and RemoveExpiredEntries are called, in any order, with any errors
  -- of the file system and with pauses between them, they answer as the specification allows: the cache
  -- behaves as a map from names to entries in which Update puts an entry that is made during the
  -- call or changes nothing, Lookup finds the entry that is there and has not expired, says that there is none
  -- only where there is none or it has expired, Remove takes the entry away or changes nothing, and
  -- no call loses an entry of another name that has not expired.
  pub Runs-Allows :
      (s s' : F.State) (l : List (Call × Answer))
      → Runs s l s'
      → Allows c
          (filename F P c)
          (new_entry F P c)
          (F.now s)
          (entries F L P c M s)
          l
          (F.now s')
          (entries F L P c M s')
  Runs-Allows s s' l (stop _) = Allows.end (F.now s) (entries F L P c M s)
  Runs-Allows s s' l (wait _ t _ _ k later r) =
      Allows.pause (F.now s) (F.now t) (F.now s') (entries F L P c M s) (entries F L P c M t)
        (entries F L P c M s') l (same_lem F L P c M s t k) later (Runs-Allows t s' l r)
  Runs-Allows s s' _ (ask _ _ k l r) =
      let (allowed, later) = answer-Meets k s in
      Allows.call (F.now s) (F.now (answer k s).1) (F.now s') (entries F L P c M s)
        (entries F L P c M (answer k s).1) (entries F L P c M s') k (answer k s).0 l allowed later
        (Runs-Allows (answer k s).1 s' l r)
