-- ===== src/Pull/Resource.antt =====
-- pullResourceCommand of cmd/charm/charmcmd/pullresource.go.
pub mod Verified
pub mod Tagged
use charmstore_client.Base.{
  minus_one, ℤ, Option, none, some, List, [], ◌∷◌, Str, codes, last_cut, atoi, is_empty, Result, ok,
  err, Error, Reply, new, newf, notef, masked, note, mask, if◌then◌else◌, ◌==◌, int_eq, list_eq,
  nat_eq, ◌>>=◌,
}
use charmstore_client.Base.Dict
use charmstore_client.Base.Dict.{Dict}
use charmstore_client.Charm.{Url, parse_url}
use charmstore_client.Upload.Docker.{DockerInfo}
use charmstore_client.Pull.Machine.{Machine, ResourceType, container_image, file_type, other_type}
use charmstore_client.Pull.Images.{Docker}

-- The fields that Init sets, and the flags --channel and --to.
pub record PullResourceCommand : Type 0 where
  pub charm_id : Url
  pub resource_name : Str
  pub resource_revision : ℤ
  pub channel : Str
  pub to : Str

-- Init behind strconv.Atoi
abbrev at_revision : Str → Str → PullResourceCommand → Option ℤ → Result Error PullResourceCommand
at_revision name rev_str c none = err (newf "invalid revision for resource %q" (rev_str ∷ []))
at_revision name rev_str c (some rev) =
    ok (record c { resource_name = name; resource_revision = rev })

-- Init for the second argument, cut at its last "="
unfoldable pub init_resource :
    Str → Option (Str × Str) → PullResourceCommand → Result Error PullResourceCommand
init_resource arg none c = ok (record c { resource_name = arg; resource_revision = minus_one })
init_resource arg (some (name, rev_str)) c = at_revision name rev_str c (atoi rev_str)

module _ (library_parse : Str → Result Error Url) where
  unfoldable pub init : List Str → PullResourceCommand → Result Error PullResourceCommand
  unfolding init_resource
  init (id_arg ∷ arg ∷ []) c = do
    id ← note "invalid charm id %q" (id_arg ∷ []) (parse_url library_parse id_arg)
    if id.series == codes "bundle"
        then err (newf "cannot pull-resource on a bundle" [])
        else init_resource arg (last_cut b'=' arg) (record c { charm_id = id })
  init (_ ∷ _ ∷ _ ∷ _) c = err (new "too many arguments")
  init _ c = err (newf "not enough arguments provided (need charm id and resource name)" [])

-- `id_string` is the method String of the id.
module _ (M : Machine) (D : Docker M.State) (id_string : Url → Str) (c : PullResourceCommand) where
  -- The channel is for an id without a revision.
  abbrev pub channel : Str
  channel = if c.charm_id.revision == minus_one then c.channel else []

  -- --to, or else the name of the resource
  abbrev pub target : Str
  target = if is_empty c.to then c.resource_name else c.to

  -- pullFileResource behind io.Copy and the closing of the file
  unfoldable pub check_file : M.Reader → Str → Result Error Str × M.State → Reply × M.State
  check_file r path (err e, s) =
      (err (notef e "failed to write %q" (path ∷ [])), (M.remove_file path s).1)
  check_file r path (ok d, s) =
      if M.hex_sha384 d == M.expect_hash r
      then (ok tt, s)
      else (err (new "hash mismatch downloading file"), (M.remove_file path s).1)

  abbrev pub close_copied : Str → Result Error Str × M.State → Result Error Str × M.State
  close_copied path (y, s) = (y, M.close_file path s)

  -- pullFileResource behind os.Create
  abbrev pub fill_file : M.Reader → Str → Reply × M.State → Reply × M.State
  fill_file r path (err e, s) = (err (masked e), s)
  fill_file r path (ok _, s) = check_file r path (close_copied path (M.copy r path s))

  abbrev pub with_reader : Result Error M.Reader → M.State → Reply × M.State
  with_reader (err e) s = (err (masked e), s)
  with_reader (ok r) s =
      let path = M.abs_path target in
      let (x, s') = fill_file r path (M.create_file path s) in (x, M.close_reader r s')

  unfoldable pub pull_file_resource : Url → M.State → Reply × M.State
  unfolding check_file
  pull_file_resource id s =
      with_reader (M.get_resource channel id c.resource_name c.resource_revision s) s

  abbrev pub noted_remove : Str → Reply × M.State → Reply × M.State
  noted_remove name (x, s) = (note "cannot remove image %q" (name ∷ []) x, s)

  -- pullDockerResource behind ImageTag
  abbrev pub image_tagged : Str → Reply × M.State → Reply × M.State
  image_tagged name (err e, s) = (err (notef e "cannot tag image in local docker" []), s)
  image_tagged name (ok _, s) = noted_remove name (D.image_remove name s)

  -- pullDockerResource behind showDockerTransferProgress
  abbrev pub image_shown : DockerInfo → Reply × M.State → Reply × M.State
  image_shown info (err e, s) = (err (notef e "failed to download" []), s)
  image_shown info (ok _, s) = image_tagged info.image_name (D.image_tag info.image_name target s)

  abbrev pub with_stream_closed : Str → Reply × M.State → Reply × M.State
  with_stream_closed stream (x, s) = (x, D.close_stream stream s)

  -- pullDockerResource behind ImagePull
  abbrev pub image_pulled : DockerInfo → Result Error Str × M.State → Reply × M.State
  image_pulled info (err e, s) = (err (notef e "cannot pull image" []), s)
  image_pulled info (ok stream, s) =
      with_stream_closed stream (image_shown info (D.show_transfer_progress stream s))

  abbrev pub with_info : Result Error DockerInfo → M.State → Reply × M.State
  with_info (err e) s = (err (masked e), s)
  with_info (ok info) s = image_pulled info (D.image_pull info s)

  -- Before anything is asked of the store.
  abbrev pub docker_ready : Reply
  docker_ready =
      note "cannot parse %q as image name" (target ∷ []) (D.parse_normalized_named target) >>= λ _.
      note "cannot make docker client" [] D.new_docker_client

  abbrev pub if_ready : Reply → Url → M.State → Reply × M.State
  if_ready (err e) id s = (err e, s)
  if_ready (ok _) id s =
      with_info (D.resource_download_info channel id c.resource_name c.resource_revision s) s

  unfoldable pub pull_docker_resource : Url → M.State → Reply × M.State
  pull_docker_resource id s = if_ready docker_ready id s

  -- switch resourceMeta.Type
  abbrev pub by_type : Url → Option ResourceType → M.State → Reply × M.State
  by_type id none s =
      (err (newf "resource %q does not exist in %q" (c.resource_name ∷ id_string id ∷ [])), s)
  by_type id (some container_image) s = pull_docker_resource id s
  by_type id (some file_type) s = pull_file_resource id s
  by_type id (some (other_type t)) s = (err (newf "unknown resource type %v" (t ∷ [])), s)

  abbrev pub with_metadata : Result Error (Url × Dict Str ResourceType) → M.State → Reply × M.State
  with_metadata (err e) s = (err (masked e), s)
  with_metadata (ok (id, resources)) s =
      if id.series == codes "bundle"
      then (err (newf "cannot pull-resource on a bundle" []), s)
      else by_type id (Dict.lookup c.resource_name resources) s

  abbrev pub with_client : Reply × M.State → Reply × M.State
  with_client (err e, s) = (err (notef e "cannot create charm store client" []), s)
  with_client (ok _, s) =
      let (x, s') = with_metadata (M.charm_metadata channel c.charm_id s) s in (x, M.save_jar s')

  unfoldable pub run : M.State → Reply × M.State
  unfolding pull_file_resource pull_docker_resource
  run s = with_client (M.new_client channel s)
