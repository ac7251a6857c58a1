-- ===== src/Plugins.antt =====
-- cmd/charm/charmcmd/plugin.go: the search for plugins on the PATH, and the cache of their descriptions.
-- The file system, the plugins and the file of the cache are parameters. Log messages are left out.
pub mod Search
pub mod Fresh
pub mod Disk
pub mod Command
use charmstore_client.Base.{
  ℕ, ◌/◌, ◌^◌, Bool, true, false, ◌&&◌, Option, none, some, List, [], ◌∷◌, ◌++◌, Str, codes,
  is_empty, strip_prefix, split_2, contains, ◌==◌, if◌then◌else◌, list_eq, nat_eq, Result, ok, err,
  Error,
}
use charmstore_client.Base.Dict
use charmstore_client.Base.Dict.{Dict}

-- What os.Stat gives of a file: an execution bit, and the time in nanoseconds
pub record FileStat : Type 0 where
  pub is_executable : Bool
  pub mod_time : ℕ

-- A directory of the PATH; `none` where it cannot be read
pub record Directory : Type 0 where
  pub path : Str
  pub names : Option (List Str)

pub record System : Type 0 where
  pub path_dirs : List Directory
  pub join_path : Str → Str → Str
  pub stat : Str → Option FileStat
  -- the output of a plugin that is called with --description
  pub description : Str → Result Error Str
  -- the list that charm-tools-commands prints, where that works
  pub tools_commands : Option (List Str)

-- fileInfo
pub record FileInfo : Type 0 where
  pub name : Str
  pub dir : Str
  pub mtime : ℕ

pub record PluginDescription : Type 0 where
  pub name : Str
  pub description : Str
  pub mod_time : ℕ

-- the map of a pluginCache
abbrev pub Cache : Type 0
Cache = Dict Str PluginDescription

abbrev pub plugin_prefix : Str
plugin_prefix = codes "charm-"

-- mtime.Unix()
abbrev pub unix : ℕ → ℕ
unix t = t / 10 ^ 9

abbrev pub or_false : Option Bool → Bool
or_false none = false
or_false (some b) = b

-- whiteListedCommands[cmd] = true
unfoldable pub add_commands : List Str → Dict Str Bool → Dict Str Bool
add_commands [] commands = commands
add_commands (c ∷ cs) commands = add_commands cs (Dict.insert c true commands)

-- updateWhiteListedCommands
abbrev pub update_white_listed_commands : Option (List Str) → Dict Str Bool → Dict Str Bool
update_white_listed_commands none commands = commands
update_white_listed_commands (some result) commands = add_commands result commands

-- The plugins that were found, their names and their paths.
pub record Found : Type 0 where
  pub plugins : List FileInfo
  pub seen : List Str
  pub fullpath_seen : List Str

abbrev pub nothing_found : Found
nothing_found = record { plugins = []; seen = []; fullpath_seen = [] }

abbrev pub names_of : Option (List Str) → List Str
names_of none = []
names_of (some names) = names

-- The first line.
abbrev pub first_line : Str → Str
first_line output = elim (split_2 (codes "\n") output) [ none ↦ output | some (line, _) ↦ line ]

abbrev pub description_of : Str → Result Error Str → Str
description_of name (ok output) = first_line output
description_of name (err _) = codes "error occurred running '" ++ name ++ codes " --description'"

abbrev pub short_of : Str → Option Str → Str
short_of name none = name
short_of name (some short_name) = short_name

unfoldable pub remove_missing_plugins : List Str → Cache → Cache
remove_missing_plugins fis [] = []
remove_missing_plugins fis ((key, p) ∷ plugins) =
    let rest = remove_missing_plugins fis plugins in
    if contains fis key then (key, p) ∷ rest else rest

module _ (S : System) where
  abbrev pub path_of : FileInfo → Str
  path_of fi = S.join_path fi.dir fi.name

  -- The description that a call of the plugin gives.
  abbrev pub new_description : FileInfo → FileStat → PluginDescription
  new_description fi stat = record {
    name = short_of fi.name (strip_prefix plugin_prefix fi.name);
    description = description_of fi.name (S.description fi.name);
    mod_time = stat.mod_time;
  }

  abbrev pub refreshed : FileInfo → FileStat → Option PluginDescription → Cache → Cache × Bool
  refreshed fi stat none cache = (Dict.insert (path_of fi) (new_description fi stat) cache, false)
  refreshed fi stat (some p) cache =
      if unix stat.mod_time == unix p.mod_time
      then (cache, true)
      else (Dict.insert (path_of fi) (new_description fi stat) cache, false)

  abbrev pub fetched : FileInfo → Option FileStat → Cache → Cache × Bool
  fetched fi none cache = (cache, false)
  fetched fi (some stat) cache = refreshed fi stat (Dict.lookup (path_of fi) cache) cache

  -- The cache, and whether it was used.
  unfoldable pub fetch : FileInfo → Cache → Cache × Bool
  fetch fi cache = fetched fi (S.stat (path_of fi)) cache

  -- The goroutines, one after the other.
  unfoldable pub fetch_all : List FileInfo → Cache × Bool → Cache × Bool
  unfolding fetch
  fetch_all [] (cache, all_cached) = (cache, all_cached)
  fetch_all (fi ∷ fis) (cache, all_cached) =
      let (cache', cached) = fetch fi cache in fetch_all fis (cache', all_cached && cached)

  abbrev pub described : Found → Cache → Cache × Bool
  described w cache =
      let (cache', all_cached) = fetch_all w.plugins (cache, true) in
      (remove_missing_plugins w.fullpath_seen cache', all_cached)

module _ (S : System) (commands : Dict Str Bool) where
  abbrev pub add_plugin : Str → Str → Str → Option FileStat → Found → Found
  add_plugin dir name short_name none w = w
  add_plugin dir name short_name (some stat) w =
      if stat.is_executable && or_false (Dict.lookup short_name commands)
      then record {
        plugins = w.plugins ++ record { name = name; dir = dir; mtime = stat.mod_time } ∷ [];
        seen = name ∷ w.seen;
        fullpath_seen = S.join_path dir name ∷ w.fullpath_seen;
      }
      else w

  abbrev pub add_short : Str → Str → Option Str → Found → Found
  add_short dir name none w = w
  add_short dir name (some short_name) w =
      add_plugin dir name short_name (S.stat (S.join_path dir name)) w

  -- The loop over the names in a directory.
  unfoldable pub find_in : Str → List Str → Found → Found
  find_in dir [] w = w
  find_in dir (name ∷ names) w =
      find_in dir names
        (if contains w.seen name then w else add_short dir name (strip_prefix plugin_prefix name) w)

  unfoldable pub find_plugins : List Directory → Found → Found
  unfolding find_in
  find_plugins [] w = w
  find_plugins (d ∷ dirs) w = find_plugins dirs (find_in d.path (names_of d.names) w)

  -- getPluginDescriptions behind updateWhiteListedCommands
  unfoldable pub descriptions_by : Cache → Cache → Cache × Bool → Cache × Bool
  unfolding find_plugins fetch_all remove_missing_plugins
  descriptions_by results cache (_, last) =
      let w = find_plugins S.path_dirs nothing_found in
      if is_empty results
      then (if is_empty w.plugins then ([], last) else described S w cache)
      else (results, last)

-- The white list of a run.
abbrev pub white_listed : System → Dict Str Bool → Dict Str Bool
white_listed S commands = update_white_listed_commands S.tools_commands commands

-- getPluginDescriptions, with the results of an earlier call and the cache that was opened, to the
-- descriptions and whether all of them were cached
unfoldable pub get_plugin_descriptions :
    System → Dict Str Bool → Cache → Cache → Cache × Bool → Cache × Bool
unfolding descriptions_by
get_plugin_descriptions S commands = descriptions_by S (white_listed S commands)
