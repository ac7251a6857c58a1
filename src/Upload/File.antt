-- ===== src/Upload/File.antt =====
-- uploadResource and uploadFileResource of cmd/charm/charmcmd/resource.go, with the start of the
-- progress display in cmd.go, which stores an upload id. What is only logged or shown is left out.
pub mod Resume
use charmstore_client.Base.{
  ℕ, ℤ, ◌*◌, ◌^◌, Bool, true, false, Option, none, some, List, [], ◌∷◌, Str, is_empty,
  if◌then◌else◌, Result, ok, err, Error, newf, masked, notef, mask, is_upload_not_found,
  is_cache_entry_not_found, list_eq, nat_eq,
}
use charmstore_client.Base.Dict
use charmstore_client.Base.Dict.{Dict}
use charmstore_client.Charm.{Url}
use charmstore_client.Upload.Files.{Files}
use charmstore_client.Upload.Cache
use charmstore_client.Upload.Cache.{UploadIdCache, Entry, Packages}

-- The upload requests of csclient.Client: the URL, the name of the resource, the path of the file
-- and its size. With the answer come the upload ids that Progress.Start is called with.
pub record Uploads : Type 1 where
  pub State : Type 0
  pub resume_upload_resource :
      Str → Url → Str → Str → ℕ → State → (Result Error ℤ × List Str) × State
  pub upload_resource : Url → Str → Str → ℕ → State → (Result Error ℤ × List Str) × State
  -- uploadDockerResource
  pub upload_docker_resource : Url → Str → Str → State → Result Error ℤ × State

pub data ResourceType : Type 0 where
  file container_image other : ResourceType

-- uploadResourceParams, with the resources of the metadata
pub record UploadResourceParams : Type 0 where
  pub meta_resources : Dict Str ResourceType
  pub charm_id : Url
  pub resource_name : Str
  pub reference : Str
  pub cache_path : Str

-- 48 hours
abbrev pub upload_id_cache_expiry_duration : ℕ
upload_id_cache_expiry_duration = 48 * 3600 * 10 ^ 9

unfoldable pub new_upload_id_cache : Str → UploadIdCache
new_upload_id_cache dir = record { dir = dir; expiry_duration = upload_id_cache_expiry_duration }

-- `abs_path` is the method AbsPath of the context.
module _ (F : Files) (P : Packages) (U : Uploads) (abs_path : Str → Str)
    (p : UploadResourceParams) where
  abbrev pub World : Type 0
  World = F.State × U.State

  abbrev pub cache : UploadIdCache
  cache = new_upload_id_cache p.cache_path

  -- The call of Start with an upload id, where there is a cache.
  abbrev pub start : Str → Str → F.State → F.State
  start hash upload_id s =
      if is_empty upload_id
      then s
      else (Cache.update F P cache upload_id p.charm_id p.resource_name hash s).1

  -- The calls of Start during a request. There is a hash where there is a cache.
  unfoldable pub start_all : Option Str → List Str → F.State → F.State
  start_all none ids s = s
  start_all (some hash) [] s = s
  start_all (some hash) (id ∷ ids) s = start_all (some hash) ids (start hash id s)

  abbrev pub looked_up : Str → Result Error Entry × F.State → Result Error (Str × Str) × F.State
  looked_up hash (ok entry, s) = (ok (entry.upload_id, hash), s)
  looked_up hash (err e, s) =
      if is_cache_entry_not_found e then (ok ([], hash), s) else (err (masked e), s)

  -- readSeekerSHA256 and what follows it
  abbrev pub hashed : Result Error Str → F.State → Result Error (Str × Str) × F.State
  hashed (err e) s = (err (masked (masked e)), s)
  hashed (ok content) s =
      let hash = P.sha256 content in
      looked_up hash (Cache.lookup F P cache p.charm_id p.resource_name hash s)

  -- What uploadFileResource does with the cache before the upload: the upload id and the hash.
  unfoldable pub pending_upload : Str → F.State → Result Error (Str × Str) × F.State
  pending_upload path s =
      let s' = (Cache.remove_expired_entries F P cache s).1 in hashed (F.read_file path s') s'

  -- The request again, where the store does not know the upload id.
  abbrev pub restarted :
      Option Str
      → Str
      → ℕ
      → (Result Error ℤ × List Str) × U.State
      → F.State
      → Result Error ℤ × World
  restarted hash path size ((ok rev, ids), srv) s = (ok rev, (start_all hash ids s, srv))
  restarted hash path size ((err e, ids), srv) s =
      let ((r, ids'), srv') = U.upload_resource p.charm_id p.resource_name path size srv in
      if is_upload_not_found e
      then (r, (start_all hash ids' (start_all hash ids s), srv'))
      else (err e, (start_all hash ids s, srv))

  -- Clean up the cache entry because it is no longer usable.
  abbrev pub cleaned : Option Str → F.State → F.State
  cleaned none s = s
  cleaned (some hash) s = (Cache.remove F P cache p.charm_id p.resource_name hash s).1

  abbrev pub finished : Option Str → Result Error ℤ × World → Result Error ℤ × World
  finished hash (ok rev, (s, srv)) = (ok rev, (cleaned hash s, srv))
  finished hash (err e, w) = (err (notef e "can't upload resource" []), w)

  -- From the call of ResumeUploadResource.
  unfoldable pub send : Option Str → Str → Str → ℕ → World → Result Error ℤ × World
  unfolding start_all
  send hash upload_id path size (s, srv) = finished hash (
      restarted hash path size
        (U.resume_upload_resource upload_id p.charm_id p.resource_name path size srv) s)

  abbrev pub with_pending :
      Str → ℕ → Result Error (Str × Str) × F.State → U.State → Result Error ℤ × World
  with_pending path size (ok (upload_id, hash), s) srv =
      send (some hash) upload_id path size (s, srv)
  with_pending path size (err e, s) srv = (err e, (s, srv))

  abbrev pub with_size : Str → Result Error ℕ → World → Result Error ℤ × World
  with_size path (err e) w = (err (masked e), w)
  with_size path (ok size) (s, srv) =
      if is_empty p.cache_path
      then send none [] path size (s, srv)
      else with_pending path size (pending_upload path s) srv

  abbrev pub with_file : Str → Result Error (Unit {0}) → World → Result Error ℤ × World
  with_file path (err e) w = (err (masked e), w)
  with_file path (ok _) w = with_size path (F.file_size path w.0) w

  unfoldable pub upload_file_resource : World → Result Error ℤ × World
  unfolding send pending_upload
  upload_file_resource w =
      with_file (abs_path p.reference) (F.open_file (abs_path p.reference) w.0) w

  abbrev pub by_type : Option ResourceType → World → Result Error ℤ × World
  by_type none w = (err (newf "no such resource %q" (p.resource_name ∷ [])), w)
  by_type (some file) w = upload_file_resource w
  by_type (some container_image) (s, srv) =
      let (r, srv') = U.upload_docker_resource p.charm_id p.resource_name p.reference srv in
      (r, (s, srv'))
  by_type (some other) w = (err (newf "unsupported resource type %q" []), w)

  unfoldable pub upload_resource : World → Result Error ℤ × World
  unfolding upload_file_resource
  upload_resource w = by_type (Dict.lookup p.resource_name p.meta_resources) w
