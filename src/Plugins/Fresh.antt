-- ===== src/Plugins/Fresh.antt =====
-- The descriptions of plugin.go, against the plugins that are found.
use charmstore_client.Base.{
  is_empty, ◌≡◌, refl, sym, subst, ◌∙◌, Bool, true, false, ◌&&◌, ◌||◌, Option, none, some, List, [],
  ◌∷◌, ◌++◌, Str, contains, ◌==◌, if◌then◌else◌, list_eq, nat_eq, arith, Bool-cases, inl, inr,
  ==_true, ==_refl,
}
use charmstore_client.Base.Dict
use charmstore_client.Base.Dict.{Dict, lookup-insert}
use charmstore_client.Plugins.Search.{added, find_plugins-P}
use charmstore_client.Plugins.{
  FileStat, Directory, System, FileInfo, PluginDescription, Cache, unix, Found, nothing_found,
  path_of, find_plugins, new_description, refreshed, fetched, fetch, fetch_all,
  get_plugin_descriptions, descriptions_by, white_listed, remove_missing_plugins, described,
}

-- The description of the plugin at a path is there, and is as old as the file.
abbrev pub IsFresh : Str → FileStat → Cache → Type 0
IsFresh path stat cache =
    (d : PluginDescription) × (Dict.lookup path cache ≡ some d)
    × (unix d.mod_time ≡ unix stat.mod_time)

pub IsFresh-lookup :
    (path : Str) (stat : FileStat) (c d : Cache)
    → Dict.lookup path d ≡ Dict.lookup path c
    → IsFresh path stat c
    → IsFresh path stat d
IsFresh-lookup path stat c d same (x, h, age) = (x, same ∙ h, age)

lookup-remove_missing_plugins :
    (fis : List Str) (path : Str) (cache : Cache)
    → Dict.lookup path (remove_missing_plugins fis cache)
      ≡ (if contains fis path then Dict.lookup path cache else none)
unfolding remove_missing_plugins Dict.lookup
lookup-remove_missing_plugins fis path [] = ground arith
lookup-remove_missing_plugins fis path ((key, p) ∷ cache) =
    ground (arith, lookup-remove_missing_plugins fis path cache)

module _ (S : System) where
  abbrev pub paths : List FileInfo → List Str
  paths [] = []
  paths (fi ∷ fis) = path_of S fi ∷ paths fis

  inserted-IsFresh :
      (fi : FileInfo) (stat : FileStat) (cache : Cache)
      → IsFresh (path_of S fi) stat (Dict.insert (path_of S fi) (new_description S fi stat) cache)
  inserted-IsFresh fi stat cache =
      let path = path_of S fi in
      let d = new_description S fi stat in
      (d, lookup-insert path path d cache ∙ rw (==_refl path) refl, refl)

  refreshed-IsFresh :
      (fi : FileInfo) (stat : FileStat) (cache : Cache) (o : Option PluginDescription)
      → Dict.lookup (path_of S fi) cache ≡ o
      → IsFresh (path_of S fi) stat (refreshed S fi stat o cache).0
  refreshed-IsFresh fi stat cache none h = inserted-IsFresh fi stat cache
  refreshed-IsFresh fi stat cache (some p) h =
      elim (Bool-cases (unix stat.mod_time == unix p.mod_time)) [
        | inl y ↦ rw y (p, h, sym (==_true (unix stat.mod_time) (unix p.mod_time) y))
        | inr n ↦ rw n (inserted-IsFresh fi stat cache)
      ]

  lookup-refreshed :
      (fi : FileInfo) (stat : FileStat) (path : Str) (cache : Cache) (o : Option PluginDescription)
      → (path == path_of S fi) ≡ false
      → Dict.lookup path (refreshed S fi stat o cache).0 ≡ Dict.lookup path cache
  lookup-refreshed fi stat path cache none h =
      lookup-insert path (path_of S fi) (new_description S fi stat) cache ∙ rw h refl
  lookup-refreshed fi stat path cache (some p) h =
      elim (Bool-cases (unix stat.mod_time == unix p.mod_time)) [
        | inl y ↦ rw y refl
        | inr n ↦
            rw n (lookup-insert path (path_of S fi) (new_description S fi stat) cache ∙ rw h refl)
      ]

  lookup-fetched :
      (fi : FileInfo) (o : Option FileStat) (path : Str) (cache : Cache)
      → (path == path_of S fi) ≡ false
      → Dict.lookup path (fetched S fi o cache).0 ≡ Dict.lookup path cache
  lookup-fetched fi none path cache h = refl
  lookup-fetched fi (some stat) path cache h =
      lookup-refreshed fi stat path cache (Dict.lookup (path_of S fi) cache) h

  lookup-fetch :
      (fi : FileInfo) (path : Str) (cache : Cache)
      → (path == path_of S fi) ≡ false
      → Dict.lookup path (fetch S fi cache).0 ≡ Dict.lookup path cache
  unfolding fetch
  lookup-fetch fi path cache h = lookup-fetched fi (S.stat (path_of S fi)) path cache h

  fetch-IsFresh :
      (fi : FileInfo) (stat : FileStat) (cache : Cache)
      → S.stat (path_of S fi) ≡ some stat
      → IsFresh (path_of S fi) stat (fetch S fi cache).0
  unfolding fetch
  fetch-IsFresh fi stat cache h =
      subst (λ o. IsFresh (path_of S fi) stat (fetched S fi o cache).0) (sym h)
        (refreshed-IsFresh fi stat cache (Dict.lookup (path_of S fi) cache) refl)

  -- One plugin: the description of its own file is fresh afterwards, and those of others stay.
  fetch-keeps :
      (fi : FileInfo) (path : Str) (stat : FileStat) (cache : Cache)
      → S.stat path ≡ some stat
      → ((path == path_of S fi) ≡ false → IsFresh path stat cache)
      → IsFresh path stat (fetch S fi cache).0
  fetch-keeps fi path stat cache h fresh = elim (Bool-cases (path == path_of S fi)) [
    | inl y ↦
        let same = ==_true path (path_of S fi) y in
        subst (λ p. IsFresh p stat (fetch S fi cache).0) (sym same)
          (fetch-IsFresh fi stat cache (subst (λ p. S.stat p ≡ some stat) same h))
    | inr n ↦
        IsFresh-lookup path stat cache (fetch S fi cache).0 (lookup-fetch fi path cache n) (fresh n)
  ]

  fetch_all-keeps :
      (fis : List FileInfo) (path : Str) (stat : FileStat) (x : Cache × Bool)
      → S.stat path ≡ some stat
      → IsFresh path stat x.0
      → IsFresh path stat (fetch_all S fis x).0
  unfolding fetch_all
  fetch_all-keeps [] path stat x h v = v
  fetch_all-keeps (fi ∷ fis) path stat x h v =
      let y = fetch S fi x.0 in
      fetch_all-keeps fis path stat (y.0, x.1 && y.1) h (fetch-keeps fi path stat x.0 h (λ _. v))

  fetch_all-IsFresh :
      (fis : List FileInfo) (path : Str) (stat : FileStat) (x : Cache × Bool)
      → S.stat path ≡ some stat
      → contains (paths fis) path ≡ true
      → IsFresh path stat (fetch_all S fis x).0
  unfolding fetch_all
  fetch_all-IsFresh [] path stat x h k = ground arith
  fetch_all-IsFresh (fi ∷ fis) path stat x h k =
      let y = fetch S fi x.0 in
      elim (Bool-cases (path == path_of S fi)) [
        | inl same ↦
            fetch_all-keeps fis path stat (y.0, x.1 && y.1) h
              (fetch-keeps fi path stat x.0 h (λ n. ground arith))
        | inr n ↦ fetch_all-IsFresh fis path stat (y.0, x.1 && y.1) h (ground arith)
      ]

  paths-append :
      (fis : List FileInfo) (fi : FileInfo) (path : Str)
      → contains (paths (fis ++ fi ∷ [])) path ≡ (path == path_of S fi || contains (paths fis) path)
  paths-append [] fi path = refl
  paths-append (x ∷ fis) fi path = ground (arith, paths-append fis fi path)

  -- The paths that were noted are those of the plugins.
  abbrev pub SamePaths : Found → Type 0
  SamePaths w = (path : Str) → contains w.fullpath_seen path ≡ contains (paths w.plugins) path

  added-SamePaths :
      (dir name : Str) (stat : FileStat) (w : Found)
      → S.stat (S.join_path dir name) ≡ some stat
      → SamePaths w
      → SamePaths (added S dir name stat w)
  added-SamePaths dir name stat w h v path =
      rw
        (
          paths-append w.plugins (record { name = name; dir = dir; mtime = stat.mod_time }) path,
          v path,
        )
        refl

  pub find_plugins-SamePaths :
      (commands : Dict Str Bool) (dirs : List Directory)
      → SamePaths (find_plugins S commands dirs nothing_found)
  find_plugins-SamePaths commands dirs =
      find_plugins-P S commands SamePaths added-SamePaths dirs nothing_found (λ p. refl)

  -- The descriptions at a path are right for the plugins.
  abbrev pub IsDescribed : List FileInfo → Str → Cache → Type 0
  IsDescribed plugins path result =
      (contains (paths plugins) path ≡ false → Dict.lookup path result ≡ none)
      × (contains (paths plugins) path ≡ true
          → (stat : FileStat) → S.stat path ≡ some stat
          → IsFresh path stat result)

  described-IsDescribed :
      (w : Found) (cache : Cache) (path : Str)
      → SamePaths w
      → IsDescribed w.plugins path (described S w cache).0
  described-IsDescribed w cache path v =
      let all = (fetch_all S w.plugins (cache, true)).0 in
      let kept = lookup-remove_missing_plugins w.fullpath_seen path all in
      (
        λ n. kept ∙ rw (v path, n) refl,
        λ y stat h.
            IsFresh-lookup path stat all (remove_missing_plugins w.fullpath_seen all)
              (kept ∙ rw (v path, y) refl)
              (fetch_all-IsFresh w.plugins path stat (cache, true) h y),
      )

  if-IsDescribed :
      (fis : List FileInfo) (path : Str) (last : Bool) (x : Cache × Bool)
      → IsDescribed fis path x.0
      → IsDescribed fis path (if is_empty fis then ([], last) else x).0
  unfolding Dict.lookup
  if-IsDescribed [] path last x v = (λ n. refl, λ y stat h. ground arith)
  if-IsDescribed (fi ∷ fis) path last x v = v

  descriptions_by-IsDescribed :
      (commands : Dict Str Bool) (cache : Cache) (last : Cache × Bool) (path : Str)
      → IsDescribed
          (find_plugins S commands S.path_dirs nothing_found).plugins
          path
          (descriptions_by S commands [] cache last).0
  unfolding descriptions_by
  descriptions_by-IsDescribed commands cache last path =
      let w = find_plugins S commands S.path_dirs nothing_found in
      let v = find_plugins-SamePaths commands S.path_dirs in
      if-IsDescribed w.plugins path last.1 (described S w cache)
        (described-IsDescribed w cache path v)

-- Without results of an earlier call, and whatever the cache holds: the descriptions are those of the
-- plugins that are found now and of no others, where the file of a plugin can be looked at its
-- description is there, and it is as old, in seconds, as the file.
pub get_plugin_descriptions-IsDescribed :
    (S : System) (commands : Dict Str Bool) (cache : Cache) (last : Cache × Bool) (path : Str)
    → IsDescribed S
        (find_plugins S (white_listed S commands) S.path_dirs nothing_found).plugins
        path
        (get_plugin_descriptions S commands [] cache last).0
unfolding get_plugin_descriptions
get_plugin_descriptions-IsDescribed S commands cache last path =
    descriptions_by-IsDescribed S (white_listed S commands) cache last path
