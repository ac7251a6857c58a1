-- ===== src/Upload/Docker.antt =====
-- uploadDockerResource, uploadExternalDockerResource and imageDigestForReference of
-- cmd/charm/charmcmd/resource.go. The docker libraries, HTTP and the charm store are parameters.
pub mod Digest
use charmstore_client.Base.{
  ℕ, ℤ, Bool, true, false, not, ◌&&◌, ◌>>◌, notef, Option, none, some, List, [], ◌∷◌, ◌++◌, Str,
  codes, is_empty, has_prefix, strip_prefix, ◌==◌, if◌then◌else◌, Result, ok, err, Error, Reply,
  new, newf, masked, mask, note, list_eq, nat_eq, ◌>>=◌,
}
use charmstore_client.Charm.{Url}

-- reference.Named: with a tag it is a Tagged, with a digest a Canonical.
pub record Reference : Type 0 where
  pub domain : Str
  pub path : Str
  pub name : Str
  pub string : Str
  pub tag : Option Str
  pub digest : Option Str

-- http.Response, and its header by the names that are asked for
pub record Response : Type 0 where
  pub status_code : ℕ
  pub status : Str
  pub header : Str → Str

-- params.DockerInfoResponse
pub record DockerInfo : Type 0 where
  pub image_name : Str
  pub username : Str
  pub password : Str

-- A registry and its authorizer, the functions of the package reference, and the clients of docker and of the
-- charm store.
pub record Docker : Type 1 where
  pub State : Type 0
  pub Authorizer : Type 0
  pub parse_normalized_named : Str → Result Error Reference
  pub tag_name_only : Reference → Reference
  pub get : Str → Result Error Response
  pub new_authorizer : Response → Str → Authorizer
  -- http.NewRequest with the method HEAD, the request modifier behind the Accept header, and Do
  pub Request : Type 0
  pub new_request : Str → Result Error Request
  pub modify_request : Authorizer → Request → Result Error Request
  pub do_request : Request → Result Error Response
  pub upload_info : Url → Str → State → Result Error DockerInfo
  pub new_client : Result Error (Unit {0})
  pub image_tag : Str → Str → State → Reply × State
  -- ImagePush, to the stream of its messages, and showDockerTransferProgress with the digest of the
  -- final status, which is empty when none was read
  pub image_push : DockerInfo → State → Result Error Str × State
  pub show_transfer_progress : Str → State → Result Error Str × State
  pub add_docker_resource : Url → Str → Str → Str → State → Result Error ℤ × State

unfoldable pub registry_endpoint_for_reference : Reference → Str
registry_endpoint_for_reference ref =
    let h = if ref.domain == codes "docker.io" then codes "registry-1.docker.io" else ref.domain in
    codes "https://" ++ h ++ codes "/v2/"

abbrev pub tag_or_digest : Option Str → Option Str → Option Str
tag_or_digest (some tag) digest = some tag
tag_or_digest none digest = digest

-- What the version of the registry must begin with, and its name where there is none.
abbrev pub version_or_1 : Str → Str
version_or_1 v = if is_empty v then codes "registry/1.x" else v

module _ (D : Docker) where
  -- A panic is `none`.
  unfoldable pub reference_tag_or_digest : Reference → Option Str
  reference_tag_or_digest ref =
      let named = D.tag_name_only ref in tag_or_digest named.tag named.digest

  unfoldable pub registry_authorizer : Str → Str → Result Error D.Authorizer
  registry_authorizer endpoint path = do
    resp ← note "cannot get registry authorization response" [] (D.get endpoint)
    if not (resp.status_code == 200) && not (resp.status_code == 401)
        then err (newf "unexpected status %q from registry root" (resp.status ∷ []))
        else ok (D.new_authorizer resp path)

  -- dockerRegistryDo with the method HEAD
  unfoldable pub docker_registry_do : Str → D.Authorizer → Result Error Response
  docker_registry_do url authorizer = mask (D.new_request url) >>= λ req.
      note "cannot add request authorization" [] (D.modify_request authorizer req) >>= λ req.
      mask (D.do_request req)

  abbrev pub manifest_url : Reference → Str → Str
  manifest_url ref what =
      registry_endpoint_for_reference ref ++ ref.path ++ codes "/manifests/" ++ what

  -- The second request, for the digest that the first one has found.
  abbrev pub verified : Str → Response → Result Error Str
  verified digest resp =
      if resp.status_code == 200
      then ok digest
      else if resp.status_code == 404
      then err (
          new
            "cannot find image by version 2 digest; perhaps it was uploaded as a version 1 manifest")
      else err (newf "cannot verify image digest: %v" (resp.status ∷ []))

  abbrev pub check_digest : Reference → D.Authorizer → Str → Option Str → Result Error Str
  check_digest ref authorizer digest (some canonical) = ok canonical
  check_digest ref authorizer digest none =
      mask (docker_registry_do (manifest_url ref digest) authorizer) >>= verified digest

  -- From the answer to the first request.
  abbrev pub digest_of : Reference → D.Authorizer → Response → Result Error Str
  digest_of ref authorizer resp =
      let version = resp.header (codes "Docker-Distribution-Api-Version") in
      let digest = resp.header (codes "Docker-Content-Digest") in
      if not (resp.status_code == 200)
      then err (newf "cannot get information on %q: %v" (ref.string ∷ resp.status ∷ []))
      else if not (has_prefix version (codes "registry/2."))
      then err (
          newf "resource is hosted at incompatible Docker registry (version %q, need version 2)"
            (version_or_1 version ∷ []))
      else if is_empty digest
      then err (new "no digest in response")
      else check_digest ref authorizer digest ref.digest

  abbrev pub head_reference : Reference → D.Authorizer → Option Str → Option (Result Error Str)
  head_reference ref authorizer none = none
  head_reference ref authorizer (some what) =
      some
        (mask (docker_registry_do (manifest_url ref what) authorizer) >>= digest_of ref authorizer)

  abbrev pub authorized : Reference → Result Error D.Authorizer → Option (Result Error Str)
  authorized ref (err e) = some (err (masked e))
  authorized ref (ok authorizer) = head_reference ref authorizer (reference_tag_or_digest ref)

  -- A panic is `none`, here and below.
  unfoldable pub image_digest_for_reference : Reference → Option (Result Error Str)
  unfolding registry_authorizer reference_tag_or_digest docker_registry_do
  image_digest_for_reference ref =
      authorized ref (registry_authorizer (registry_endpoint_for_reference ref) ref.path)

  abbrev pub cannot_add : Result Error ℤ × D.State → Result Error ℤ × D.State
  cannot_add (r, s) = (note "cannot add docker resource" [] r, s)

  abbrev pub add_external :
      Url
      → Str
      → Reference
      → Option (Result Error Str)
      → D.State
      → Option (Result Error ℤ × D.State)
  add_external id name ref none s = none
  add_external id name ref (some (err e)) s = some (err (masked e), s)
  add_external id name ref (some (ok digest)) s =
      some (cannot_add (D.add_docker_resource id name ref.name digest s))

  unfoldable pub upload_external_docker_resource :
      Url → Str → Reference → D.State → Option (Result Error ℤ × D.State)
  unfolding image_digest_for_reference
  upload_external_docker_resource id name ref s =
      add_external id name ref (image_digest_for_reference ref) s

  -- From the end of the push.
  abbrev pub add_pushed : Url → Str → Result Error Str × D.State → Result Error ℤ × D.State
  add_pushed id name (err e, s) = (err e, s)
  add_pushed id name (ok digest, s) =
      let (r, s') = cannot_add (D.add_docker_resource id name [] digest s) in
      if is_empty digest then (err (new "no digest found upload response"), s) else (r, s')

  abbrev pub failed_upload : Result Error Str × D.State → Result Error Str × D.State
  failed_upload (r, s) = (note "failed to upload" [] r, s)

  abbrev pub show_pushed : Url → Str → Result Error Str × D.State → Result Error ℤ × D.State
  show_pushed id name (err e, s) = (err (notef e "cannot push image" []), s)
  show_pushed id name (ok stream, s) =
      add_pushed id name (failed_upload (D.show_transfer_progress stream s))

  abbrev pub push_tagged : Url → Str → DockerInfo → Reply × D.State → Result Error ℤ × D.State
  push_tagged id name info (err e, s) = (err (notef e "cannot tag image in local docker" []), s)
  push_tagged id name info (ok _, s) = show_pushed id name (D.image_push info s)

  abbrev pub upload_with_info :
      Url → Str → Reference → Result Error DockerInfo → D.State → Result Error ℤ × D.State
  upload_with_info id name ref (err e) s = (err e, s)
  upload_with_info id name ref (ok info) s =
      push_tagged id name info (D.image_tag ref.string info.image_name s)

  abbrev pub has_client : Result Error DockerInfo → Result Error DockerInfo
  has_client info = info >>= λ i. note "cannot make docker client" [] D.new_client >> ok i

  abbrev pub upload_parsed :
      Url → Str → Bool → Result Error Reference → D.State → Option (Result Error ℤ × D.State)
  upload_parsed id name external (err e) s = some (err e, s)
  upload_parsed id name true (ok ref) s = upload_external_docker_resource id name ref s
  upload_parsed id name false (ok ref) s = some (
      upload_with_info id name ref
        (has_client (note "cannot get upload info" [] (D.upload_info id name s))) s)

  -- A reference to an image elsewhere has the prefix "external::".
  abbrev pub without_prefix : Str → Option Str → Bool × Str
  without_prefix reference none = (false, reference)
  without_prefix reference (some rest) = (true, rest)

  unfoldable pub upload_docker_resource :
      Url → Str → Str → D.State → Option (Result Error ℤ × D.State)
  unfolding upload_external_docker_resource
  upload_docker_resource id name reference s =
      let (external, ref_str) =
        without_prefix reference (strip_prefix (codes "external::") reference) in
      upload_parsed id name external
        (note "invalid image name %q" (reference ∷ []) (D.parse_normalized_named ref_str)) s
