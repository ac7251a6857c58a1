-- ===== src/Plugins/Command.antt =====
-- pluginCommand of cmd/charm/charmcmd/plugin.go, and the help on plugins. The programs that are run, and
-- the layout of a table, are parameters.
use charmstore_client.Base.{
  ℕ, Bool, Option, none, some, List, [], ◌∷◌, ◌++◌, Str, codes, is_empty, Error, if◌then◌else◌,
}
use charmstore_client.Base.Dict.{Dict}
use charmstore_client.Base.Sort.{str_leb, sort_by}
use charmstore_client.Plugins.{PluginDescription, plugin_prefix}

-- What the method Run of an exec.Cmd returns: nil, an exec.Error, an exec.ExitError of a program
-- that has exited with a status or that was stopped, or another error.
pub data Ran : Type 0 where
  succeeded : Ran
  not_executable : Error → Ran
  exited : ℕ → Ran
  stopped : Error → Ran
  failed : Error → Ran

-- The errors of a plugin, and that of cmd.DefaultUnrecognizedCommand.
pub data PluginError : Type 0 where
  rc_passthrough : ℕ → PluginError
  exec_error : Error → PluginError
  other : Error → PluginError
  unrecognized_command : Str → PluginError

-- pluginCommand; its doc is never set
pub record PluginCommand : Type 0 where
  pub name : Str
  pub args : List Str
  pub purpose : Str

-- The name and the purpose of a cmd.Info.
unfoldable pub info : PluginCommand → Str × Str
info pc = (pc.name, if is_empty pc.purpose then codes "support charm plugins" else pc.purpose)

abbrev pub passed_on : Ran → Option PluginError
passed_on succeeded = none
passed_on (not_executable e) = some (exec_error e)
passed_on (exited status) = some (rc_passthrough status)
passed_on (stopped e) = some (other e)
passed_on (failed e) = some (other e)

abbrev pub drop_through : Str → Option PluginError → Option PluginError
drop_through subcommand (some (exec_error _)) = some (unrecognized_command subcommand)
drop_through subcommand r = r

module _ (program : Str → List Str → Ran) where
  unfoldable pub run : PluginCommand → Option PluginError
  run c = passed_on (program (plugin_prefix ++ c.name) c.args)

  unfoldable pub run_plugin : Str → List Str → Option PluginError
  unfolding run
  run_plugin subcommand args =
      drop_through subcommand (run (record { name = subcommand; args = args; purpose = [] }))

-- The commands that registerPlugins adds.
unfoldable pub register_plugins : Dict Str PluginDescription → List PluginCommand
register_plugins [] = []
register_plugins ((_, plugin) ∷ plugins) =
    record { name = plugin.name; args = []; purpose = plugin.description }
    ∷ register_plugins plugins

abbrev values : Dict Str PluginDescription → List PluginDescription
values [] = []
values ((_, plugin) ∷ d) = plugin ∷ values d

abbrev rows : List PluginDescription → List (Str × Str)
rows [] = []
rows (plugin ∷ plugins) = (plugin.name, plugin.description) ∷ rows plugins

abbrev le_name : PluginDescription → PluginDescription → Bool
le_name p q = str_leb p.name q.name

abbrev pub plugin_topic_text : Str
plugin_topic_text =
    codes
      "charm plugins\n\nPlugins are implemented as stand-alone executable files somewhere in the user's PATH.\nThe executable command must be of the format charm-<plugin name>.\n\n"

abbrev listed : (List (Str × Str) → Str) → List PluginDescription → Str
listed table [] = codes "No plugins found.\n"
listed table (p ∷ ps) = table (rows (p ∷ ps))

-- pluginHelpTopic, from the descriptions
unfoldable pub plugin_help_topic : (List (Str × Str) → Str) → Dict Str PluginDescription → Str
unfolding sort_by
plugin_help_topic table d = plugin_topic_text ++ listed table (sort_by le_name (values d))
