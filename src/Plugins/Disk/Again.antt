-- ===== src/Plugins/Disk/Again.antt =====
-- Two runs of plugin.go one after the other, with the file of the cache between them.
use charmstore_client.Base.{
  ◌≡◌, refl, sym, ap, ◌∙◌, Bool, true, false, none, some, List, [], ◌∷◌, Str, All, All-append,
  contains, is_empty, list_eq, nat_eq, arith, Bool-cases, inl, inr, ==_refl, Result, ok, err, Error,
  Reply,
}
use charmstore_client.Base.Dict
use charmstore_client.Base.Dict.{Dict}
use charmstore_client.Plugins.{
  Cache, FileStat, System, FileInfo, unix, Found, nothing_found, path_of, find_plugins, refreshed,
  fetch, descriptions_by, get_plugin_descriptions, fetch_all, remove_missing_plugins, described,
  white_listed,
}
use charmstore_client.Plugins.Search.{added, find_plugins-P}
use charmstore_client.Plugins.Fresh.{
  paths, IsFresh, IsFresh-lookup, IsDescribed, SamePaths, find_plugins-SamePaths,
  get_plugin_descriptions-IsDescribed,
}
use charmstore_client.Plugins.Disk.{
  Disk, CachePath, cache_dir, cache_file, open_cache, save, save_created, write_encoded,
  described_from, cached_descriptions,
}

module _ (S : System) where
  -- The file of a plugin can be looked at, and its description is as old as the file.
  abbrev IsCurrent : Cache → FileInfo → Type 0
  IsCurrent cache fi =
      (stat : FileStat) × (S.stat (path_of S fi) ≡ some stat) × IsFresh (path_of S fi) stat cache

  refreshed-current :
      (fi : FileInfo) (stat : FileStat) (cache : Cache)
      → IsFresh (path_of S fi) stat cache
      → refreshed S fi stat (Dict.lookup (path_of S fi) cache) cache ≡ (cache, true)
  refreshed-current fi stat cache (d, there, age) =
      rw (there, age, ==_refl (unix stat.mod_time)) refl

  fetch-current :
      (fi : FileInfo) (cache : Cache) → IsCurrent cache fi → fetch S fi cache ≡ (cache, true)
  unfolding fetch
  fetch-current fi cache (stat, there, fresh) = rw there (refreshed-current fi stat cache fresh)

  fetch_all-current :
      (fis : List FileInfo) (cache : Cache)
      → All (IsCurrent cache) fis
      → fetch_all S fis (cache, true) ≡ (cache, true)
  unfolding fetch_all
  fetch_all-current [] cache _ = refl
  fetch_all-current (fi ∷ fis) cache (v, vs) =
      rw (fetch-current fi cache v) (fetch_all-current fis cache vs)

  remove_missing_plugins-none :
      (fis : List Str) (cache : Cache)
      → ((path : Str) → contains fis path ≡ false → Dict.lookup path cache ≡ none)
      → remove_missing_plugins fis cache ≡ cache
  unfolding remove_missing_plugins Dict.lookup
  remove_missing_plugins-none fis [] h = refl
  remove_missing_plugins-none fis ((key, p) ∷ cache) h = elim (Bool-cases (contains fis key)) [
    | inl y ↦ rw y (
        ap (λ rest. (key, p) ∷ rest)
          (remove_missing_plugins-none fis cache (λ path n. ground (arith, h path n))))
    | inr n ↦ ground (arith, h key n, ==_refl key)
  ]

  abbrev IsLooked : FileInfo → Type 0
  IsLooked fi = (stat : FileStat) × (S.stat (path_of S fi) ≡ some stat)

  added-IsLooked :
      (dir name : Str) (stat : FileStat) (w : Found)
      → S.stat (S.join_path dir name) ≡ some stat
      → All IsLooked w.plugins
      → All IsLooked (added S dir name stat w).plugins
  added-IsLooked dir name stat w h v = All-append IsLooked w.plugins _ v ((stat, h), tt)

  all-IsCurrent :
      (fis : List FileInfo) (cache : Cache)
      → All IsLooked fis
      → ((path : Str)
          → contains (paths S fis) path ≡ true
          → (stat : FileStat) → S.stat path ≡ some stat
          → IsFresh path stat cache)
      → All (IsCurrent cache) fis
  all-IsCurrent [] cache _ h = tt
  all-IsCurrent (fi ∷ fis) cache ((stat, there), vs) h = (
    (stat, there, h (path_of S fi) (rw (==_refl (path_of S fi)) refl) stat there),
    all-IsCurrent fis cache vs (λ path k. h path (ground arith)),
  )

  -- A cache that is right for all plugins and holds nothing else is not changed, and is used for each.
  described-again :
      (w : Found) (cache : Cache)
      → All IsLooked w.plugins
      → SamePaths S w
      → ((path : Str) → IsDescribed S w.plugins path cache)
      → described S w cache ≡ (cache, true)
  described-again w cache looked same h =
      let current = all-IsCurrent w.plugins cache looked (λ path. (h path).1) in
      rw (fetch_all-current w.plugins cache current) (
        ap (λ c. (c, true))
          (remove_missing_plugins-none w.fullpath_seen cache
            (λ path n. (h path).0 (sym (same path) ∙ n))))

  descriptions_by-again :
      (commands : Dict Str Bool) (cache : Cache) (last : Cache × Bool)
      → let w = find_plugins S commands S.path_dirs nothing_found in
        is_empty w.plugins ≡ false
        → ((path : Str) → IsDescribed S w.plugins path cache)
        → descriptions_by S commands [] cache last ≡ (cache, true)
  unfolding descriptions_by
  descriptions_by-again commands cache last some_plugin h =
      let w = find_plugins S commands S.path_dirs nothing_found in
      let looked =
        find_plugins-P S commands (λ v. All IsLooked v.plugins) added-IsLooked S.path_dirs
          nothing_found tt in
      let same = find_plugins-SamePaths S commands S.path_dirs in
      rw some_plugin (described-again w cache looked same h)

-- The disk as it behaves while only one run writes to the file of the cache.
pub record IsDisk (D : Disk) : Type 0 where
  pub written :
      (file : Str) (text : D.Text) (s s1 s2 : D.State)
      → D.create file s ≡ (ok tt, s1)
      → D.write file text s1 ≡ (ok tt, s2)
      → D.read_file file s2 ≡ ok text
  pub kept :
      (dir file : Str) (text : D.Text) (s : D.State)
      → D.read_file file s ≡ ok text
      → D.read_file file (D.make_dirs dir s).1 ≡ ok text
  -- The map comes back; the order of its keys need not.
  pub decoded :
      (c : Cache) (text : D.Text) (path : Str)
      → D.encode c ≡ ok text
      → Dict.lookup path (D.decode text) ≡ Dict.lookup path c

module _ {D : Disk} (L : IsDisk D) where
  save_created-read :
      (file : Str) (c : Cache) (s s' : D.State) (out : Reply × D.State)
      → D.create file s ≡ out
      → save_created D file c out ≡ (ok tt, s')
      → (text : D.Text) × (D.encode c ≡ ok text) × (D.read_file file s' ≡ ok text)
  save_created-read file c s s' (err e, s1) made h = cc
  save_created-read file c s s' (ok tt, s1) made h = encoded (D.encode c) refl h
    where
      encoded :
          (r : Result Error D.Text)
          → D.encode c ≡ r
          → write_encoded D file r s1 ≡ (ok tt, s')
          → (text : D.Text) × (D.encode c ≡ ok text) × (D.read_file file s' ≡ ok text)
      encoded (ok text) k h = (text, k, L.written file text s s1 s' made h)
      encoded (err e) k h = cc

  described_from-saved :
      (S : System) (commands : Dict Str Bool) (file : Str) (last : Cache × Bool) (s : D.State)
      → let one = described_from D S commands file last s in
        one.saved ≡ ok tt
        → (text : D.Text) × (D.encode one.results ≡ ok text) × (D.read_file file one.disk ≡ ok text)
  unfolding save
  described_from-saved S commands file last s h =
      let c = (get_plugin_descriptions S commands [] (open_cache D file s) last).0 in
      let (r, s') = save D file c s in
      save_created-read file c s s' (D.create file s) refl (ap (λ q. (q, s')) h)

  described_from-again :
      (S : System) (commands : Dict Str Bool) (file : Str) (text : D.Text)
      (last last' : Cache × Bool) (s s' : D.State)
      → is_empty (find_plugins S (white_listed S commands) S.path_dirs nothing_found).plugins
        ≡ false
      → let one = described_from D S commands file last s in
        D.encode one.results ≡ ok text
        → D.read_file file s' ≡ ok text
        → let two = described_from D S commands file last' s' in
          (two.returned_cache ≡ true)
          × ((path : Str) → Dict.lookup path two.results ≡ Dict.lookup path one.results)
  unfolding open_cache get_plugin_descriptions
  described_from-again S commands file text last last' s s' some_plugin encoded read =
      let listed = white_listed S commands in
      let c = D.decode text in
      let one = described_from D S commands file last s in
      let same = λ (path : Str). L.decoded one.results text path encoded in
      let out = descriptions_by-again S listed c last' some_plugin (λ path.
        let (gone, fresh) =
          get_plugin_descriptions-IsDescribed S commands (open_cache D file s) last path in
        (
          λ n. same path ∙ gone n,
          λ y stat h. IsFresh-lookup path stat one.results c (same path) (fresh y stat h),
        )) in
      let opened : open_cache D file s' ≡ c = rw (open_cache, read) refl in
      let all = ap (λ x. get_plugin_descriptions S commands [] x last') opened ∙ out in
      (ap (λ x. x.1) all, λ path. ap (λ x. Dict.lookup path x.0) all ∙ same path)

  -- When a run has found some plugin and has saved the cache, a later run that finds the same files and
  -- the disk as it was left has the same descriptions, and each of them was cached.
  pub cached_descriptions-again :
      (S : System) (commands : Dict Str Bool) (p : CachePath) (last last' : Bool) (s : D.State)
      → is_empty (find_plugins S (white_listed S commands) S.path_dirs nothing_found).plugins
        ≡ false
      → let one = cached_descriptions D S commands p ([], last) s in
        one.saved ≡ ok tt
        → let two = cached_descriptions D S commands p ([], last') one.disk in
          (two.returned_cache ≡ true)
          × ((path : Str) → Dict.lookup path two.results ≡ Dict.lookup path one.results)
  unfolding cached_descriptions
  cached_descriptions-again S commands p last last' s some_plugin =
      let s0 = (D.make_dirs (cache_dir p) s).1 in
      rw some_plugin λ saved.
        let (text, encoded, read) =
          described_from-saved S commands (cache_file p) ([], last) s0 saved in
        described_from-again S commands (cache_file p) text ([], last) ([], last') s0 _ some_plugin
          encoded (L.kept (cache_dir p) (cache_file p) text _ read)
