-- ===== src/Plugins/Disk.antt =====
-- The file of the cache in cmd/charm/charmcmd/plugin.go: openCache, save, and getPluginDescriptions with
-- both. The disk and the encoding in JSON are parameters.
pub mod Again
use charmstore_client.Base.{
  Bool, true, false, not, ◌||◌, List, [], ◌∷◌, Str, codes, is_empty, Result, ok, err, Error, Reply,
  if◌then◌else◌,
}
use charmstore_client.Base.Dict.{Dict}
use charmstore_client.Plugins.{
  System, Cache, nothing_found, find_plugins, white_listed, get_plugin_descriptions,
}

pub record Disk : Type 1 where
  pub State : Type 0
  -- what a file holds
  pub Text : Type 0
  pub make_dirs : Str → State → Reply × State
  pub read_file : Str → State → Result Error Text
  -- os.Create, which leaves an empty file, and a write to that file
  pub create : Str → State → Reply × State
  pub write : Str → Text → State → Reply × State
  -- json.Encoder.Encode up to the write, and what json.Unmarshal leaves in an empty cache
  pub encode : Cache → Result Error Text
  pub decode : Text → Cache

-- The values of HOME and XDG_CACHE_HOME, and filepath.Join.
pub record CachePath : Type 0 where
  pub home : Str
  pub xdg_cache_home : Str
  pub join_path : Str → Str → Str

abbrev pub cache_dir : CachePath → Str
cache_dir p =
    if is_empty p.xdg_cache_home then p.join_path p.home (codes ".cache") else p.xdg_cache_home

abbrev pub cache_file : CachePath → Str
cache_file p = p.join_path (cache_dir p) (codes "charm-command-cache")

module _ (D : Disk) where
  unfoldable pub open_cache : Str → D.State → Cache
  open_cache file s = elim (D.read_file file s) [ ok text ↦ D.decode text | err _ ↦ [] ]

  abbrev pub write_encoded : Str → Result Error D.Text → D.State → Reply × D.State
  write_encoded file (ok text) s = D.write file text s
  write_encoded file (err e) s = (err e, s)

  abbrev pub save_created : Str → Cache → Reply × D.State → Reply × D.State
  save_created file c (ok _, s) = write_encoded file (D.encode c) s
  save_created file c (err e, s) = (err e, s)

  unfoldable pub save : Str → Cache → D.State → Reply × D.State
  save file c s = save_created file c (D.create file s)

  -- What a call leaves in the variables of the package and on the disk, and the reply of save,
  -- which getPluginDescriptions drops.
  pub record Described : Type 0 where
    pub results : Cache
    pub returned_cache : Bool
    pub saved : Reply
    pub disk : D.State

  -- Behind MkdirAll, whose error is passed over.
  abbrev pub described_from : System → Dict Str Bool → Str → Cache × Bool → D.State → Described
  described_from S commands file last s =
      let out = get_plugin_descriptions S commands [] (open_cache file s) last in
      let (r, s') = save file out.0 s in
      record { results = out.0; returned_cache = out.1; saved = r; disk = s' }

  -- getPluginDescriptions, with the variables pluginDescriptionsResults and
  -- pluginDescriptionLastCallReturnedCache; its result is what is left in the first of these.
  unfoldable pub cached_descriptions :
      System → Dict Str Bool → CachePath → Cache × Bool → D.State → Described
  unfolding open_cache save
  cached_descriptions S commands p (results, last) s =
      if not (is_empty results)
        || is_empty (find_plugins S (white_listed S commands) S.path_dirs nothing_found).plugins
      then record { results = results; returned_cache = last; saved = ok tt; disk = s }
      else described_from S commands (cache_file p) (results, last) (D.make_dirs (cache_dir p) s).1
