-- ===== src/Tests/Extensions.antt =====
-- The theorems on plugins, at concrete inputs.
use charmstore_client.Base.{
  Bool, false, sym, ap, Result, Error, err, not_found, arith, strip_prefix, split_2, ◌≡◌, refl,
  true, some, none, [], ◌∷◌, Str, codes, ok, ◌++◌, nat_eq, list_eq,
}
use charmstore_client.Base.Dict
use charmstore_client.Base.Dict.{Dict}
use charmstore_client.Plugins.{
  System, PluginDescription, Cache, nothing_found, find_plugins, get_plugin_descriptions,
}
use charmstore_client.Plugins.Disk.{Disk, CachePath, cached_descriptions}
use charmstore_client.Plugins.Disk.Again.{IsDisk, cached_descriptions-again}
use charmstore_client.Plugins.Command.{exited, rc_passthrough, run_plugin}
use charmstore_client.Plugins.Fresh.{IsDescribed, get_plugin_descriptions-IsDescribed}

abbrev system : System
system = record {
  path_dirs =
      record { path = codes "/bin/"; names = some (codes "charm-build" ∷ codes "ls" ∷ []) } ∷ [];
  join_path = λ dir name. dir ++ name;
  stat = λ path. some (record { is_executable = true; mod_time = 7000000000 });
  description = λ name. ok (codes "builds\nmore");
  tools_commands = none;
}

abbrev commands : Dict Str Bool
commands = (codes "build", true) ∷ []

-- A description from an earlier version of the plugin, and one of a plugin that is gone.
abbrev cached : Dict Str PluginDescription
cached =
    (codes "/bin/charm-build", record { name = codes "build"; description = []; mod_time = 5 })
    ∷ (codes "/bin/charm-gone", record { name = codes "gone"; description = []; mod_time = 5 })
    ∷ []

get_plugin_descriptions-IsDescribed_example :
    IsDescribed system
      (find_plugins system commands system.path_dirs nothing_found).plugins
      (codes "/bin/charm-build")
      (get_plugin_descriptions system commands [] cached ([], true)).0
get_plugin_descriptions-IsDescribed_example =
    get_plugin_descriptions-IsDescribed system commands cached ([], true) (codes "/bin/charm-build")

-- The plugin is called again, and the one that is gone is forgotten.
get_plugin_descriptions_both : get_plugin_descriptions system commands [] cached ([], true) ≡ (
  (
    codes "/bin/charm-build",
    record { name = codes "build"; description = codes "builds"; mod_time = 7000000000 },
  )
      ∷ [],
  false,
)
unfolding get_plugin_descriptions strip_prefix nat_eq Dict.lookup list_eq Dict.insert split_2
get_plugin_descriptions_both = refl

-- A disk with one file, which holds a cache or cannot be read.
abbrev one_file : Disk
one_file = record {
  State = Result Error Cache;
  Text = Cache;
  make_dirs = λ dir s. (ok tt, s);
  read_file = λ file s. s;
  create = λ file s. (ok tt, err not_found);
  write = λ file text s. (ok tt, ok text);
  encode = λ c. ok c;
  decode = λ text. text;
}

one_file-IsDisk : IsDisk one_file
one_file-IsDisk = record {
  written = λ file text s s1 s2 made h. sym (ap (λ x. x.1) h);
  kept = λ dir file text s h. h;
  decoded = λ c text path h. ground arith;
}

abbrev no_cache : CachePath
no_cache = record { home = codes "/h"; xdg_cache_home = []; join_path = λ dir name. dir ++ name }

cached_descriptions-again_example :
    let one = cached_descriptions one_file system commands no_cache ([], false) (ok cached) in
    let two = cached_descriptions one_file system commands no_cache ([], false) one.disk in
    (two.returned_cache ≡ true)
    × ((path : Str) → Dict.lookup path two.results ≡ Dict.lookup path one.results)
unfolding find_plugins strip_prefix nat_eq Dict.lookup list_eq cached_descriptions
cached_descriptions-again_example =
    cached_descriptions-again one_file-IsDisk system commands no_cache false false (ok cached) refl
      refl

-- The status of a plugin is that of the program, and one that is not there is no command.
plugin_status : run_plugin (λ name args. exited 2) (codes "build") [] ≡ some (rc_passthrough 2)
unfolding run_plugin
plugin_status = refl
