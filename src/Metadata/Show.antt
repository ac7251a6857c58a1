-- ===== src/Metadata/Show.antt =====
-- showCommand of cmd/charm/charmcmd/show.go: Init and Run.
pub mod Fields
use charmstore_client.Base.{
  Bool, true, false, not, ◌&&◌, ◌||◌, Option, none, some, List, [], ◌∷◌, ◌++◌, Str, codes, is_empty,
  Result, ok, err, Error, new, newf, notef, note, mask, if◌then◌else◌, ◌==◌, list_eq, nat_eq, ◌>>=◌,
}
use charmstore_client.Base.Dict
use charmstore_client.Base.Dict.{Dict}
use charmstore_client.Base.Sort.{sort_strings}
use charmstore_client.Charm.{Url, parse_url}
use charmstore_client.Metadata.{Includes, allowed_common_fields, common_info, handle_includes}
use charmstore_client.Metadata.Json.{Json, text, as_object}

-- The fields that Init sets, and the flags --list and --all.
pub record ShowCommand : Type 0 where
  pub id : Url
  pub includes : List Str
  pub list : Bool
  pub all : Bool
  pub summary : Bool

abbrev pub default_summary_fields : List Str
default_summary_fields =
    codes "perm"
    ∷ codes "charm-metadata"
    ∷ codes "bundle-metadata"
    ∷ codes "bugs-url"
    ∷ codes "homepage"
    ∷ codes "published"
    ∷ codes "promulgated"
    ∷ codes "owner"
    ∷ codes "terms"
    ∷ codes "id-name"
    ∷ codes "id-revision"
    ∷ codes "supported-series"
    ∷ []

module _ (library_parse : Str → Result Error Url) where
  -- Init without --list, for the id and the fields
  abbrev with_fields : Str → List Str → ShowCommand → Result Error ShowCommand
  with_fields id_arg includes c = do
    id ← note "invalid charm or bundle id" [] (parse_url library_parse id_arg)
    if is_empty includes && not c.list && not c.all
        then ok (record c { includes = default_summary_fields; summary = true; id = id })
        else ok (record c { includes = includes; id = id })

  abbrev for_list : List Str → ShowCommand → Result Error ShowCommand
  for_list (_ ∷ _) c = err (new "cannot specify charm or bundle with --list")
  for_list [] c =
      if c.all then err (new "cannot specify --list and --all at the same time") else ok c

  abbrev for_id : List Str → ShowCommand → Result Error ShowCommand
  for_id [] c = err (newf "no charm or bundle id specified" [])
  for_id (id_arg ∷ includes) c = with_fields id_arg includes c

  unfoldable pub init_show : List Str → ShowCommand → Result Error ShowCommand
  init_show args c = if c.list then for_list args c else for_id args c

-- The two requests: GET /meta/, and GET of the id with meta/any for some fields.
pub record MetaStore : Type 0 where
  pub meta_endpoints : Result Error (List Str)
  pub meta_any : Url → List Str → Result Error (Dict Str Json)
  -- the path of the second request, with the fields as its query
  pub path : Url → List Str → Str

-- What is written.
pub data Output : Type 0 where
  names : List Str → Output
  fields : Dict Str Json → Output

-- for _, v := range commonInfoFields
unfoldable pub take_common : List Str → Dict Str Json → Dict Str Json → Dict Str Json
take_common [] info meta = meta
take_common (v ∷ rest) info meta =
    take_common rest info
      (Dict.insert v (elim (Dict.lookup v info) [ some x ↦ x | none ↦ text [] ]) meta)

-- Run behind the assertion that "common-info" is a map, whose failure is a panic.
abbrev pub with_info : Includes → Dict Str Json → Option (Dict Str Json) → Option (Dict Str Json)
with_info r meta none = none
with_info r meta (some info) =
    let taken = take_common r.common_fields info meta in
    some (if r.already_required then taken else Dict.erase common_info taken)

abbrev pub as_object_of : Option Json → Option (Dict Str Json)
as_object_of none = none
as_object_of (some x) = as_object x

-- Run behind the second request. A panic is `none`, here and below.
unfoldable pub show_fields : Includes → Dict Str Json → Option (Dict Str Json)
unfolding take_common
show_fields r meta =
    if is_empty r.common_fields
    then some meta
    else with_info r meta (as_object_of (Dict.lookup common_info meta))

module _ (S : MetaStore) where
  abbrev pub written : Option (Dict Str Json) → Option (Result Error Output)
  written none = none
  written (some m) = some (ok (fields m))

  abbrev pub shown : Url → Includes → Result Error (Dict Str Json) → Option (Result Error Output)
  shown id r (err e) =
      some (err (notef e "cannot get metadata from %s" (S.path id r.new_includes ∷ [])))
  shown id r (ok meta) = written (show_fields r meta)

  unfoldable pub show_includes : Url → List Str → Option (Result Error Output)
  unfolding show_fields
  show_includes id includes =
      let r = handle_includes includes in shown id r (S.meta_any id r.new_includes)

  -- Run behind the first request
  abbrev pub with_endpoints : ShowCommand → Result Error (List Str) → Option (Result Error Output)
  with_endpoints c (err e) = some (err (notef e "cannot get metadata endpoints" []))
  with_endpoints c (ok []) = some (err (new "no metadata endpoints found"))
  with_endpoints c (ok (x ∷ includes)) =
      if c.list
      then some (ok (names (sort_strings ((x ∷ includes) ++ allowed_common_fields))))
      else show_includes c.id (x ∷ includes)

  -- Run behind the making of the client
  unfoldable pub run : ShowCommand → Option (Result Error Output)
  unfolding show_includes
  run c =
      if is_empty c.includes || c.list
      then with_endpoints c S.meta_endpoints
      else show_includes c.id c.includes
