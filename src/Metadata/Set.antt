-- ===== src/Metadata/Set.antt =====
-- setCommand of cmd/charm/charmcmd/set.go: Init, and Run behind the making of the client.
pub mod Stored
use charmstore_client.Base.{
  List, [], ◌∷◌, Option, none, some, Str, is_empty, Result, ok, err, Error, new, notef, note,
  if◌then◌else◌, ◌>>=◌,
}
use charmstore_client.Base.Dict.{Dict}
use charmstore_client.Charm.{Url, parse_url}
use charmstore_client.Metadata.{Value, parse_key_values, split_fields}

-- The fields that Init sets.
pub record SetCommand : Type 0 where
  pub id : Url
  pub common_fields : Dict Str Value
  pub extra_fields : Dict Str Value

-- Init behind the parsing of the id; the test of an error behind splitFields never holds.
abbrev pub with_fields : SetCommand → Dict Str Value → Result Error SetCommand
with_fields c fields =
    if is_empty fields
    then err (new "no set arguments provided")
    else ok (record c {
      common_fields = (split_fields fields).0;
      extra_fields = (split_fields fields).1;
    })

module _ (library_parse : Str → Result Error Url) (valid_json : Str → Option Error) where
  abbrev pub with_arguments : SetCommand → List Str → Result Error SetCommand
  with_arguments c [] = err (new "no set arguments provided")
  with_arguments c (arg ∷ args) = do
    fields ← note "invalid set arguments" [] (parse_key_values valid_json (arg ∷ args))
    with_fields c fields

  unfoldable pub init_set : List Str → SetCommand → Result Error SetCommand
  init_set [] c = err (new "no charm or bundle id specified")
  init_set (id_arg ∷ args) c = do
    id ← note "invalid charm or bundle id" [] (parse_url library_parse id_arg)
    with_arguments (record c { id = id }) args

-- The two requests of the client library, PutCommonInfo and PutExtraInfo.
pub record FieldStore : Type 1 where
  pub State : Type 0
  pub put_common_info : Url → Dict Str Value → State → Option Error × State
  pub put_extra_info : Url → Dict Str Value → State → Option Error × State

module _ {State : Type 0} where
  abbrev pub cannot_update : Option Error × State → Option Error × State
  cannot_update (none, s) = (none, s)
  cannot_update (some e, s) = (some (notef e "cannot update the set arguments provided" []), s)

  -- One of the two requests of Run, under its test.
  unfoldable pub put_fields :
      (Dict Str Value → State → Option Error × State)
      → Dict Str Value
      → State
      → Option Error × State
  put_fields put fields s = if is_empty fields then (none, s) else cannot_update (put fields s)

module _ (S : FieldStore) where
  abbrev pub put_extra : SetCommand → Option Error × S.State → Option Error × S.State
  put_extra c (some e, s) = (some e, s)
  put_extra c (none, s) = put_fields (S.put_extra_info c.id) c.extra_fields s

  unfoldable pub run : SetCommand → S.State → Option Error × S.State
  unfolding put_fields
  run c s = put_extra c (put_fields (S.put_common_info c.id) c.common_fields s)
