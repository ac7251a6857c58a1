-- ===== src/Flags.antt =====
-- The values of command line flags and arguments: authInfo of cmd/charm-ingest/main.go and of
-- cmd/charm/charmcmd/cmd.go, resourceMap of release.go, and the arguments of attach.go.
pub mod Auth
pub mod Attach
pub mod Release
pub mod Commands
use charmstore_client.Base.{
  ◌&&◌, Bool, false, Option, none, some, List, [], ◌∷◌, ◌++◌, Str, codes, split_2, last_cut, atoi,
  ℤ, Result, ok, err, Error, newf, new, note, mask, is_empty, if◌then◌else◌, ◌==◌, nat_eq, list_eq,
  ◌>>=◌, ◌>>◌,
}
use charmstore_client.Base.Dict
use charmstore_client.Base.Dict.{Dict}
use charmstore_client.Charm.{Url, parse_url}

pub record AuthInfo : Type 0 where
  pub agent_file : Str
  pub username : Str
  pub password : Str
  pub no_browser : Bool

abbrev pub no_auth : AuthInfo
no_auth = record { agent_file = []; username = []; password = []; no_browser = false }

abbrev pub with_login : AuthInfo → Option (Str × Str) → Result Error AuthInfo
with_login a none = err (new "invalid auth credentials: expected \"user:passwd\"")
with_login a (some (user, password)) =
    if is_empty user
    then err (newf "empty username" [])
    else ok (record a { username = user; password = password })

-- Set of authInfo: what the receiver then is. An error leaves the receiver as it was.
unfoldable pub set_auth : Str → AuthInfo → Result Error AuthInfo
set_auth s a = if is_empty s then ok no_auth else with_login a (split_2 (codes ":") s)

-- String of authInfo.
unfoldable pub auth_string : AuthInfo → Str
auth_string a =
    if is_empty a.username && is_empty a.password then [] else a.username ++ b':' ∷ a.password

abbrev with_revision : Str → Dict Str ℤ → Option ℤ → Result Error (Dict Str ℤ)
with_revision name m none = err (new "invalid revision number")
with_revision name m (some revision) = ok (Dict.insert name revision m)

abbrev with_pair : Dict Str ℤ → Option (Str × Str) → Result Error (Dict Str ℤ)
with_pair m none = err (new "expected name-revision format")
with_pair m (some (name, value)) =
    if is_empty name
    then err (new "expected name-revision format")
    else if is_empty value
    then err (new "expected name-revision format")
    else if Dict.has name m
    then err (new "duplicate resource name")
    else with_revision name m (atoi value)

-- Set of resourceMap, a nil map being an empty one.
unfoldable pub set_resource : Str → Dict Str ℤ → Result Error (Dict Str ℤ)
set_resource s m = with_pair m (last_cut b'-' s)

abbrev named_reference : Option (Str × Str) → Result Error (Str × Str)
named_reference none = err (new "expected name=path format for resource")
named_reference (some (name, reference)) =
    if is_empty name
    then err (new "missing resource name")
    else if is_empty reference
    then err (new "missing reference")
    else ok (name, reference)

unfoldable pub parse_resource_file_arg : Str → Result Error (Str × Str)
parse_resource_file_arg raw = named_reference (split_2 (codes "=") raw)

-- The fields that Init of attachCommand sets.
pub record AttachCommand : Type 0 where
  pub id : Url
  pub resource_name : Str
  pub reference : Str

module _ (library_parse : Str → Result Error Url) where
  unfoldable pub init_attach : List Str → Result Error AttachCommand
  unfolding parse_resource_file_arg
  init_attach [] = err (new "no charm id specified")
  init_attach (_ ∷ []) = err (new "no resource specified")
  init_attach (id_arg ∷ resource_arg ∷ []) = do
    id ← note "invalid charm id" [] (parse_url library_parse id_arg)
    if id.series == codes "bundle" then err (new "cannot associate resources with bundles") else do
      named ← mask (parse_resource_file_arg resource_arg)
      ok (record { id = id; resource_name = named.0; reference = named.1 })
  init_attach (_ ∷ _ ∷ _ ∷ _) = err (new "too many arguments")
