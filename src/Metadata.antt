-- ===== src/Metadata.antt =====
-- The metadata fields of show.go and set.go, and the arguments of set.go.
pub mod Shown
pub mod Json
pub mod Show
pub mod Summary
pub mod Arguments
pub mod Set
use charmstore_client.Base.{
  Bool, true, false, not, ◌&&◌, ◌||◌, Option, none, some, List, [], ◌∷◌, ◌++◌, Str, codes, split_2,
  Result, ok, err, Error, newf, new, notef, note, is_empty, contains, if◌then◌else◌, ◌==◌, nat_eq,
  list_eq, ◌>>=◌, ◌>>◌,
}
use charmstore_client.Base.Dict
use charmstore_client.Base.Dict.{Dict}
use charmstore_client.Charm.{Url, parse_url}

abbrev pub common_info : Str
common_info = codes "common-info"

abbrev pub allowed_common_fields : List Str
allowed_common_fields = codes "bugs-url" ∷ codes "homepage" ∷ []

-- sliceContains(allowedCommonFields, e)
unfoldable pub is_common_field : Str → Bool
is_common_field e = contains allowed_common_fields e

-- What handleIncludes keeps while it goes through the fields, in the order of its results.
pub record Includes : Type 0 where
  pub already_required : Bool
  pub common_fields : List Str
  pub new_includes : List Str

-- One turn of the loop.
unfoldable pub handle_include : Includes → Str → Includes
handle_include r val = record {
  already_required = r.already_required || (val == common_info);
  common_fields = if is_common_field val then r.common_fields ++ val ∷ [] else r.common_fields;
  new_includes = if is_common_field val then r.new_includes else r.new_includes ++ val ∷ [];
}

unfoldable pub include_loop : Includes → List Str → Includes
include_loop r [] = r
include_loop r (val ∷ rest) = include_loop (handle_include r val) rest

-- The request for the common fields.
unfoldable pub require_common : Includes → Includes
require_common r =
    if not (is_empty r.common_fields) && not r.already_required
    then record r { new_includes = r.new_includes ++ common_info ∷ [] }
    else r

unfoldable pub handle_includes : List Str → Includes
handle_includes includes = require_common (
    include_loop (record { already_required = false; common_fields = []; new_includes = [] })
      includes)

module _ {V : Type 0} where
  -- One turn of the loop of splitFields.
  abbrev pub split_field : Str → V → Dict Str V × Dict Str V → Dict Str V × Dict Str V
  split_field k v (common, extra) =
      if is_common_field k then (Dict.insert k v common, extra) else (common, Dict.insert k v extra)

  pub split_loop : Dict Str V → Dict Str V × Dict Str V → Dict Str V × Dict Str V
  split_loop [] acc = acc
  split_loop ((k, v) ∷ fields) acc = split_loop fields (split_field k v acc)

  unfoldable pub split_fields : Dict Str V → Dict Str V × Dict Str V
  unfolding split_loop
  split_fields fields = split_loop fields ([], [])

-- A field's value: a string, or a JSON value as raw text.
pub data Value : Type 0 where
  text : Str → Value
  json : Str → Value

-- `valid_json` is json.Unmarshal into a RawMessage: none, or the error.
module _ (valid_json : Str → Option Error) where
  abbrev checked : Str → Str → Dict Str Value → Option Error → Result Error (Dict Str Value)
  checked key val results none = ok (Dict.insert key (json val) results)
  checked key val results (some e) = err (notef e "invalid JSON in key %s" (key ∷ []))

  abbrev expected : Str → Error
  expected kv = newf "expected \"key=value\" or \"key:=value\", got %q" (kv ∷ [])

  abbrev pub add_field : Str → Str → Str → Bool → Dict Str Value → Result Error (Dict Str Value)
  add_field kv key val is_json results =
      if is_empty key
      then err (expected kv)
      else if Dict.has key results
      then err (newf "key %q specified more than once" (key ∷ []))
      else if is_json
      then checked key val results (valid_json val)
      else ok (Dict.insert key (text val) results)

  abbrev pub of_plain : Str → Option (Str × Str) → Dict Str Value → Result Error (Dict Str Value)
  of_plain kv none results = err (expected kv)
  of_plain kv (some (key, val)) results = add_field kv key val false results

  abbrev pub of_parts : Str → Option (Str × Str) → Dict Str Value → Result Error (Dict Str Value)
  of_parts kv none results = of_plain kv (split_2 (codes "=") kv) results
  of_parts kv (some (key, val)) results = add_field kv key val true results

  -- One turn of the loop of parseKeyValues.
  unfoldable pub parse_key_value : Str → Dict Str Value → Result Error (Dict Str Value)
  parse_key_value kv results = of_parts kv (split_2 (codes ":=") kv) results

  unfoldable pub parse_loop : Dict Str Value → List Str → Result Error (Dict Str Value)
  unfolding parse_key_value
  parse_loop results [] = ok results
  parse_loop results (kv ∷ src) = elim (parse_key_value kv results) [
    | ok results' ↦ parse_loop results' src
    | err e ↦ err e
  ]

  unfoldable pub parse_key_values : List Str → Result Error (Dict Str Value)
  unfolding parse_loop
  parse_key_values src = parse_loop [] src
