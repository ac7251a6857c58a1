-- ===== src/Flags/Commands.antt =====
-- The commands behind the flags: releaseCommand of release.go, and Run of attachCommand in attach.go,
-- behind the making of the client. Lines of the output are texts.
use charmstore_client.Base.{
  ℤ, minus_one, int_eq, Bool, true, false, not, ◌&&◌, ◌||◌, Option, none, some, List, [], ◌∷◌, ◌++◌,
  Str, codes, is_empty, join, Result, ok, err, Error, Reply, new, newf, notef, note, masked,
  if◌then◌else◌, ◌==◌, nat_eq, list_eq, ◌>>=◌, ◌≡◌, refl,
}
use charmstore_client.Base.Dict
use charmstore_client.Base.Dict.{Dict}
use charmstore_client.Charm.{Url, parse_url}
use charmstore_client.Metadata.Json.{Json, as_text}
use charmstore_client.Flags.{AttachCommand}
use charmstore_client.Upload.Files.{Files}
use charmstore_client.Upload.Cache.{Packages}
use charmstore_client.Upload.File.{Uploads, ResourceType, upload_resource}

pub record ReleaseCommand : Type 0 where
  pub id : Url
  pub channel : Str
  pub resources : Dict Str ℤ

unfoldable init_release :
    (Str → Result Error Url) → List Str → ReleaseCommand → Result Error ReleaseCommand
init_release library_parse [] c = err (new "no charm or bundle id specified")
init_release library_parse (_ ∷ _ ∷ _) c = err (new "too many arguments")
init_release library_parse (arg ∷ []) c = do
  id ← note "invalid charm or bundle id" [] (parse_url library_parse arg)
  if is_empty id.user
      then err (newf "charm user needs to be specified" [])
      else if id.revision == minus_one
      then err (newf "charm revision needs to be specified" [])
      else ok (record c { id = id })

-- String of resourceMap; `decimal` writes a revision.
abbrev pairs : (ℤ → Str) → Dict Str ℤ → List Str
pairs decimal [] = []
pairs decimal ((name, value) ∷ m) = (name ++ b'-' ∷ decimal value) ∷ pairs decimal m

unfoldable resources_string : (ℤ → Str) → Dict Str ℤ → Str
resources_string decimal m = join b';' (pairs decimal m)

-- !ok || v == "", of v, ok := commonInfo[name].(string)
abbrev pub is_blank : Option Json → Bool
is_blank none = true
is_blank (some x) = elim (as_text x) [ some v ↦ is_empty v | none ↦ true ]

abbrev pub with_homepage : Bool → Str → Str × Str
with_homepage false unset = (unset, codes "is")
with_homepage true unset =
    if is_empty unset
    then (codes "homepage", codes "is")
    else (unset ++ codes " and homepage", codes "are")

-- The fields that are not set, and the verb; `none` where the common info is not a map.
unfoldable pub unset_fields : Option (Dict Str Json) → Str × Str
unset_fields none = (codes "bugs-url and homepage", codes "are")
unset_fields (some info) =
    with_homepage (is_blank (Dict.lookup (codes "homepage") info))
      (if is_blank (Dict.lookup (codes "bugs-url") info) then codes "bugs-url" else [])

abbrev warning : Str × Str → List Str
warning (unset, verb) =
    if is_empty unset
    then []
    else (codes "warning: " ++ unset ++ b' ' ∷ verb ++ codes " not set.  See set command.") ∷ []

-- The requests of release: Publish, and what the answer to a GET of the metadata has as common
-- info, which is `none` where that fails.
record ReleaseStore : Type 1 where
  State : Type 0
  publish : Url → List Str → Dict Str ℤ → State → Reply × State
  common_info : Url → State → Option (Dict Str Json)

-- `stable` is params.StableChannel.
module _ (S : ReleaseStore) (id_string : Url → Str) (stable : Str) where
  abbrev released : ReleaseCommand → Reply × S.State → Result Error (List Str) × S.State
  released c (err e, s) = (err (notef e "cannot release charm or bundle" []), s)
  released c (ok _, s) = (
    ok (
        (codes "url: " ++ id_string c.id)
        ∷ (codes "channel: " ++ c.channel)
        ∷ (if c.channel == stable then warning (unset_fields (S.common_info c.id s)) else [])),
    s,
  )

  unfoldable run_release : ReleaseCommand → S.State → Result Error (List Str) × S.State
  unfolding unset_fields
  run_release c s = released c (S.publish c.id (c.channel ∷ []) c.resources s)

blank_lem :
    (bugs home : Bool)
    → is_empty (with_homepage home (if bugs then codes "bugs-url" else [])).0 ≡ not (bugs || home)
blank_lem true true = refl
blank_lem true false = refl
blank_lem false true = refl
blank_lem false false = refl

-- There is a warning exactly where one of the two fields is blank.
unset_fields-blank :
    (info : Dict Str Json)
    → is_empty (unset_fields (some info)).0
      ≡ not (
          is_blank (Dict.lookup (codes "bugs-url") info)
          || is_blank (Dict.lookup (codes "homepage") info))
unfolding unset_fields
unset_fields-blank info =
    blank_lem (is_blank (Dict.lookup (codes "bugs-url") info))
      (is_blank (Dict.lookup (codes "homepage") info))

-- Run of attach, with the metadata that charmMetadata gives, by the upload of resource.go.
module _ (F : Files) (P : Packages) (U : Uploads) (abs_path : Str → Str) (decimal : ℤ → Str)
    (charm_metadata : Url → U.State → Result Error (Dict Str ResourceType)) where
  abbrev attached : AttachCommand → Result Error ℤ → Result Error Str
  attached c (err e) = err (masked e)
  attached c (ok rev) =
      ok (codes "uploaded revision " ++ decimal rev ++ codes " of " ++ c.resource_name)

  abbrev with_meta :
      AttachCommand
      → Str
      → Result Error (Dict Str ResourceType)
      → F.State × U.State
      → Result Error Str × (F.State × U.State)
  with_meta c cache_path (err e) w = (err (masked e), w)
  with_meta c cache_path (ok meta) w =
      let (r, w') =
        upload_resource F P U abs_path
          (record {
            meta_resources = meta;
            charm_id = c.id;
            resource_name = c.resource_name;
            reference = c.reference;
            cache_path = cache_path;
          })
          w in
      (attached c r, w')

  unfoldable run_attach :
      Str → Str → AttachCommand → F.State × U.State → Result Error Str × (F.State × U.State)
  run_attach channel cache_path c w =
      if (is_empty channel || channel == codes "stable") && c.id.revision == minus_one
      then (err (new "A revision is required when attaching to a charm in the stable channel."), w)
      else with_meta c cache_path (charm_metadata c.id w.1) w
