-- ===== src/Push.antt =====
-- cmd/charm/charmcmd/push.go: the command that uploads a charm or a bundle from a directory.
pub mod Vcs
pub mod Requests
pub mod Order
use charmstore_client.Base.{
  ℕ, ℤ, pos, minus_one, Bool, true, false, contains, String, Option, none, some, List, [], ◌∷◌,
  ◌++◌, Str, codes, is_empty, has_prefix, ◌==◌, if◌then◌else◌, Result, ok, err, Error, Reply, new,
  newf, notef, masked, note, mask, list_eq, nat_eq, int_eq, ◌>>=◌, join_comma,
}
use charmstore_client.Base.Dict
use charmstore_client.Base.Dict.{Dict}
use charmstore_client.Base.Sort.{sort_strings}
use charmstore_client.Charm.{Url, parse_url}
use charmstore_client.Push.Vcs.{VcsRevision}

-- charm.Charm: the names of the resources of its metadata, and the rest
pub record Charm : Type 0 where
  pub meta_resources : List Str
  pub content : Str

pub data Entity : Type 0 where
  charm : Charm → Entity
  bundle : Str → Entity

-- What Run finds at the path of the source directory.
pub record Directory : Type 0 where
  pub stat : Reply
  pub base_name : Str
  pub read_charm : Result Error Charm
  pub read_bundle : Result Error Str
  pub extra_info : Option (List VcsRevision)

-- What Run asks of the charm store. upload_resource is uploadResource of resource.go.
pub record Store : Type 1 where
  pub State : Type 0
  pub who_am_i : State → Result Error Str
  pub upload_charm : Url → Charm → State → Result Error Url × State
  pub upload_bundle : Url → Str → State → Result Error Url × State
  pub put_extra_info : Url → List VcsRevision → State → Reply × State
  pub upload_resource : Url → Str → Str → State → Result Error ℤ × State

pub record PushCommand : Type 0 where
  pub id : Option Url
  pub src_dir : Str
  pub resources : Dict Str Str

-- The names that the metadata does not have.
unfoldable pub unknown_resources : Dict Str Str → List Str → List Str
unknown_resources [] meta = []
unknown_resources ((name, _) ∷ resources) meta =
    let rest = unknown_resources resources meta in if contains meta name then rest else name ∷ rest

abbrev pub unknown_error : List Str → Reply
unknown_error [] = ok tt
unknown_error (name ∷ []) = err (newf "unrecognized resource %q" (name ∷ []))
unknown_error (a ∷ b ∷ l) =
    err (newf "unrecognized resources: %s" (join_comma (sort_strings (a ∷ b ∷ l)) ∷ []))

unfoldable pub validate_resources : Dict Str Str → List Str → Reply
unfolding unknown_resources
validate_resources resources meta = unknown_error (unknown_resources resources meta)

module _ (library_parse : Str → Result Error Url) where
  unfoldable pub init_id : Str → PushCommand → Result Error PushCommand
  init_id arg c = do
    id ← note "invalid charm or bundle id %q" (arg ∷ []) (parse_url library_parse arg)
    if id.revision == minus_one
        then ok (record c { id = some id })
        else err (newf "charm or bundle id %q is not allowed a revision" (arg ∷ []))

  unfoldable pub init : List Str → PushCommand → Result Error PushCommand
  unfolding init_id
  init [] c = err (new "no charm or bundle directory specified")
  init (dir ∷ []) c = ok (record c { src_dir = dir })
  init (dir ∷ arg ∷ []) c = init_id arg (record c { src_dir = dir })
  init (_ ∷ _ ∷ _ ∷ _) c = err (new "too many arguments")

abbrev pub find_charm : Result Error Charm → Result Error Entity
find_charm (ok ch) = ok (charm ch)
find_charm (err e) = err (masked e)

abbrev pub find_bundle : Result Error Str → Result Error Entity
find_bundle (ok b) = ok (bundle b)
find_bundle (err e) = err (masked e)

abbrev pub find_either : Str → Result Error Charm → Result Error Str → Result Error Entity
find_either src_dir (ok ch) _ = ok (charm ch)
find_either src_dir (err _) (ok b) = ok (bundle b)
find_either src_dir (err _) (err _) =
    err (newf "cannot read %q as valid charm or bundle" (src_dir ∷ []))

-- The entity to upload: by the series of the id, or else by what can be read.
unfoldable pub find_entity : Str → Url → Directory → Result Error Entity
find_entity src_dir id d =
    if id.series == codes "bundle"
    then find_bundle d.read_bundle
    else if is_empty id.series
    then find_either src_dir d.read_charm d.read_bundle
    else find_charm d.read_charm

module _ (S : Store) (library_parse : Str → Result Error Url) (c : PushCommand)
    (d : Directory) where
  -- `resources` is the map of the flags; a name that is not in it is not looked up.
  abbrev pub reference : Str → Str
  reference name = elim (Dict.lookup name c.resources) [ none ↦ [] | some r ↦ r ]

  -- Run for one resource, with the rest of the loop.
  abbrev pub resource_pushed :
      Result Error ℤ × S.State → (S.State → Reply × S.State) → Reply × S.State
  resource_pushed (ok _, s) rest = rest s
  resource_pushed (err e, s) rest = (err (masked (masked e)), s)

  unfoldable pub push_names : Url → List Str → S.State → Reply × S.State
  push_names id [] s = (ok tt, s)
  push_names id (name ∷ names) s =
      resource_pushed (S.upload_resource id name (reference name) s) (push_names id names)

  unfoldable pub push_resources : Url → S.State → Reply × S.State
  unfolding push_names
  push_resources id s = push_names id (sort_strings (Dict.keys c.resources)) s

  abbrev pub noted : String → Reply × S.State → Reply × S.State
  noted message (r, s) = (note message [] r, s)

  abbrev pub push_entity_resources : Entity → Url → S.State → Reply × S.State
  push_entity_resources (charm _) id s = noted "cannot push charm resources" (push_resources id s)
  push_entity_resources (bundle _) id s = (ok tt, s)

  abbrev pub then_resources : Entity → Url → Reply × S.State → Reply × S.State
  then_resources e id (ok _, s) = push_entity_resources e id s
  then_resources e id (err x, s) = (err (notef x "cannot add extra information" []), s)

  abbrev pub update_extra_info : Url → Option (List VcsRevision) → S.State → Reply × S.State
  update_extra_info id none s = (ok tt, s)
  update_extra_info id (some revisions) s = S.put_extra_info id revisions s

  -- Run behind the upload of the entity
  abbrev pub uploaded : Entity → Result Error Url × S.State → Reply × S.State
  uploaded e (err x, s) = (err (masked x), s)
  uploaded e (ok id, s) = then_resources e id (update_extra_info id d.extra_info s)

  abbrev pub checked : Reply → (S.State → Reply × S.State) → S.State → Reply × S.State
  checked (ok _) rest s = rest s
  checked (err x) rest s = (err (masked x), s)

  unfoldable pub upload_entity : Url → Entity → S.State → Reply × S.State
  unfolding push_resources validate_resources
  upload_entity id (charm ch) s =
      checked (validate_resources c.resources ch.meta_resources)
        (λ s. uploaded (charm ch) (S.upload_charm id ch s)) s
  upload_entity id (bundle b) s =
      if is_empty c.resources
      then uploaded (bundle b) (S.upload_bundle (record id { series = codes "bundle" }) b s)
      else (err (new "resources not supported on bundles"), s)

  -- The id, completed from the name of the directory and from the user that is logged in.
  abbrev pub id_or_name : Option Url → Result Error Url
  id_or_name (some id) = ok id
  id_or_name none = elim (parse_url library_parse d.base_name) [
    | ok id ↦ ok id
    | err _ ↦ err (
        newf "cannot use %q as charm or bundle name, please specify a name explicitly"
          (d.base_name ∷ []))
  ]

  abbrev pub with_user : Url → Result Error Str → Result Error Url
  with_user id user =
      if is_empty id.user
      then (note "cannot retrieve current username" [] user >>= λ u. ok (record id { user = u }))
      else ok id

  abbrev pub found : Result Error (Url × Entity) → S.State → Reply × S.State
  found (ok (id, e)) s = upload_entity id e s
  found (err x) s = (err x, s)

  unfoldable pub what_to_push : S.State → Result Error (Url × Entity)
  what_to_push s = note "cannot access charm or bundle" [] d.stat >>= λ _. id_or_name c.id >>= λ id.
      with_user id (S.who_am_i s) >>= λ id. find_entity c.src_dir id d >>= λ e. ok (id, e)

  -- Run behind the making of the client
  unfoldable pub run : S.State → Reply × S.State
  unfolding upload_entity what_to_push
  run s = found (what_to_push s) s
