-- ===== src/Plugins/Search.antt =====
-- What holds of the plugins that findPlugins finds: an invariant of its loops.
use charmstore_client.Base.{
  ◌≡◌, refl, Bool, ◌&&◌, Option, none, some, List, [], ◌∷◌, ◌++◌, Str, strip_prefix, contains,
  if◌then◌else◌, list_eq, nat_eq, Bool-cases, inl, inr,
}
use charmstore_client.Base.Dict
use charmstore_client.Base.Dict.{Dict}
use charmstore_client.Plugins.{
  FileStat, Directory, System, Found, add_plugin, add_short, find_in, find_plugins, names_of,
  or_false, plugin_prefix,
}

-- The search with one more plugin.
abbrev pub added : System → Str → Str → FileStat → Found → Found
added S dir name stat w = record {
  plugins = w.plugins ++ record { name = name; dir = dir; mtime = stat.mod_time } ∷ [];
  seen = name ∷ w.seen;
  fullpath_seen = S.join_path dir name ∷ w.fullpath_seen;
}

module _ (S : System) (commands : Dict Str Bool) (P : Found → Type 0)
    (added-P : (dir name : Str) (stat : FileStat) (w : Found)
      → S.stat (S.join_path dir name) ≡ some stat
      → P w
      → P (added S dir name stat w)) where
  add_plugin-P :
      (dir name short_name : Str) (o : Option FileStat) (w : Found)
      → S.stat (S.join_path dir name) ≡ o
      → P w
      → P (add_plugin S commands dir name short_name o w)
  add_plugin-P dir name short_name none w h v = v
  add_plugin-P dir name short_name (some stat) w h v =
      elim (Bool-cases (stat.is_executable && or_false (Dict.lookup short_name commands))) [
        | inl y ↦ rw y (added-P dir name stat w h v)
        | inr n ↦ rw n v
      ]

  add_short-P :
      (dir name : Str) (o : Option Str) (w : Found) → P w → P (add_short S commands dir name o w)
  add_short-P dir name none w v = v
  add_short-P dir name (some short_name) w v =
      add_plugin-P dir name short_name (S.stat (S.join_path dir name)) w refl v

  find_in-P : (dir : Str) (names : List Str) (w : Found) → P w → P (find_in S commands dir names w)
  unfolding find_in
  find_in-P dir [] w v = v
  find_in-P dir (name ∷ names) w v =
      let next = add_short S commands dir name (strip_prefix plugin_prefix name) w in
      find_in-P dir names (if contains w.seen name then w else next)
        (elim (Bool-cases (contains w.seen name)) [
          | inl y ↦ rw y v
          | inr n ↦ rw n (add_short-P dir name (strip_prefix plugin_prefix name) w v)
        ])

  pub find_plugins-P :
      (dirs : List Directory) (w : Found) → P w → P (find_plugins S commands dirs w)
  unfolding find_plugins
  find_plugins-P [] w v = v
  find_plugins-P (d ∷ dirs) w v =
      find_plugins-P dirs (find_in S commands d.path (names_of d.names) w)
        (find_in-P d.path (names_of d.names) w v)
