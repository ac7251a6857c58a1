-- ===== src/Metadata/Summary.antt =====
-- The summary of `charm show` in cmd/charm/charmcmd/show.go: newShowData and the text that goes to the
-- tab writer. Formatting an int, and an interface by the verbs %s and %t, is an argument.
pub mod Encoded
use charmstore_client.Base.{
  ℤ, Bool, true, false, Option, none, some, List, [], ◌∷◌, ◌++◌, Str, codes, is_empty,
  if◌then◌else◌, list_eq, nat_eq, join_comma,
}
use charmstore_client.Base.Dict
use charmstore_client.Base.Dict.{Dict}
use charmstore_client.Metadata.Json.{Json, as_object, as_array, as_text, as_bool, as_number}

pub record ShowData : Type 0 where
  pub name : Str
  pub summary : Str
  pub owner : Str
  pub supported_series : List Str
  pub tags : List Str
  pub terms : List Str
  pub promulgated : Bool
  pub subordinate : Bool
  pub revision : ℤ
  pub bugs_url : Str
  pub home_page : Str
  pub read : List Str
  pub write : List Str
  pub channels : List Json
  pub bundle : Bool

-- A panic is `none`, here and below.
infixl 5 ◌>>=◌
abbrev pub ◌>>=◌ : {A B : Type 0} → Option A → (A → Option B) → Option B
none >>= f = none
some a >>= f = f a

-- m[k].(T): a key that is missing gives nil, of which no assertion holds.
abbrev pub at : {A : Type 0} → (Json → Option A) → Str → Dict Str Json → Option A
at assertion k m = Dict.lookup k m >>= assertion

unfoldable pub to_string_array : List Json → Option (List Str)
to_string_array [] = some []
to_string_array (x ∷ l) = do s ← as_text x; rest ← to_string_array l; some (s ∷ rest)

abbrev pub texts : Json → Option (List Str)
texts x = as_array x >>= to_string_array

-- if val, ok := metadata["terms"]; ok
abbrev pub terms_of : Option Json → Option (List Str)
terms_of none = some []
terms_of (some x) = texts x

-- if tags, ok := charmMetadata["Tags"].([]interface{}); ok
abbrev pub tags_of : Option (List Json) → Option (List Str)
tags_of none = some []
tags_of (some l) = to_string_array l

-- Summary, Tags and Subordinate of "charm-metadata", where it is there
abbrev pub charm_part : Option Json → Option (Str × List Str × Bool)
charm_part none = some ([], [], false)
charm_part (some x) = do
  charm_metadata ← as_object x
  summary ← at as_text (codes "Summary") charm_metadata
  tags ← tags_of (at as_array (codes "Tags") charm_metadata)
  subordinate ← at as_bool (codes "Subordinate") charm_metadata
  some (summary, tags, subordinate)

abbrev pub series_of : Option Json → Option (List Str)
series_of none = some []
series_of (some x) = as_object x >>= at texts (codes "SupportedSeries")

abbrev pub inner : {A : Type 0} → (Json → Option A) → Str → Str → Dict Str Json → Option A
inner assertion k j m = at as_object k m >>= at assertion j

unfoldable pub new_show_data : Dict Str Json → Option ShowData
unfolding to_string_array
new_show_data metadata = do
  revision ← inner as_number (codes "id-revision") (codes "Revision") metadata
  promulgated ← inner as_bool (codes "promulgated") (codes "Promulgated") metadata
  owner ← inner as_text (codes "owner") (codes "User") metadata
  bugs_url ← at as_text (codes "bugs-url") metadata
  home_page ← at as_text (codes "homepage") metadata
  terms ← terms_of (Dict.lookup (codes "terms") metadata)
  name ← inner as_text (codes "id-name") (codes "Name") metadata
  perms ← at as_object (codes "perm") metadata
  read ← at texts (codes "Read") perms
  write ← at texts (codes "Write") perms
  channels ← inner as_array (codes "published") (codes "Info") metadata
  charm ← charm_part (Dict.lookup (codes "charm-metadata") metadata)
  series ← series_of (Dict.lookup (codes "supported-series") metadata)
  some (record {
    name = name;
    summary = charm.0;
    owner = owner;
    supported_series = series;
    tags = charm.1;
    terms = terms;
    promulgated = promulgated;
    subordinate = charm.2;
    revision = revision;
    bugs_url = bugs_url;
    home_page = home_page;
    read = read;
    write = write;
    channels = channels;
    bundle = Dict.has (codes "bundle-metadata") metadata;
  })

-- %t of a bool
abbrev pub bool_text : Bool → Str
bool_text true = codes "true"
bool_text false = codes "false"

abbrev pub row : Str → Str → Str
row a b = a ++ b'\t' ∷ (b ++ b'\n' ∷ [])

module _ (itoa : ℤ → Str) (interface_s interface_t : Option Json → Str) where
  unfoldable pub print_charm_metadata : ShowData → Str
  print_charm_metadata s =
      if s.bundle
      then []
      else row (codes "Supported Series") (join_comma s.supported_series)
        ++ row (codes "Tags") (join_comma s.tags)
        ++ row (codes "Subordinate") (bool_text s.subordinate)

  abbrev pub print_channel : Dict Str Json → Str
  print_channel channel =
      interface_s (Dict.lookup (codes "Channel") channel)
      ++ b'\t' ∷ interface_t (Dict.lookup (codes "Current") channel)
      ++ b'\t' ∷ b'\n' ∷ []

  unfoldable pub print_rows : List Json → Option Str
  print_rows [] = some []
  print_rows (v ∷ channels) = do
    channel ← as_object v
    rest ← print_rows channels
    some (print_channel channel ++ rest)

  unfoldable pub print_channels : ShowData → Option Str
  unfolding print_rows
  print_channels s =
      let rows = print_rows s.channels >>= λ r. some (codes " \t \nCHANNEL\tCURRENT\n" ++ r) in
      if is_empty s.channels then some (codes " \t \nNot released to any channel.\n") else rows

  unfoldable pub format_tabular : ShowData → Option Str
  unfolding print_charm_metadata print_channels
  format_tabular s = print_channels s >>= λ channels. some (
      (if s.bundle then [] else s.summary ++ codes "\n\n")
      ++ row (codes "Name") s.name
      ++ row (codes "Owner") s.owner
      ++ row (codes "Revision") (itoa s.revision)
      ++ print_charm_metadata s
      ++ row (codes "Promulgated") (bool_text s.promulgated)
      ++ row (codes "Home page") s.home_page
      ++ row (codes "Bugs url") s.bugs_url
      ++ row (codes "Read") (join_comma s.read)
      ++ row (codes "Write") (join_comma s.write)
      ++ (if is_empty s.terms then [] else row (codes "Terms") (join_comma s.terms))
      ++ channels)

  -- FormatSummaryTabular of a summary
  unfoldable pub format_summary_tabular : Dict Str Json → Option Str
  unfolding new_show_data format_tabular
  format_summary_tabular meta = new_show_data meta >>= format_tabular
