-- ===== src/Tests/Images.antt =====
-- The theorem on docker images, at a concrete input.
use charmstore_client.Base.{
  ℕ, ℤ, pos, minus_one, ◌+◌, ◌≡◌, refl, none, some, [], Str, codes, Result, ok, err, Error, remote,
  ◌==◌, if◌then◌else◌, nat_eq, list_eq, int_eq,
}
use charmstore_client.Charm.{Url}
use charmstore_client.Upload.Docker.{Reference, Docker, upload_external_docker_resource}
use charmstore_client.Upload.Docker.Digest.{IsVerified, upload_external_docker_resource-IsVerified}

abbrev mysql : Url
mysql = record {
  schema = codes "cs";
  user = [];
  name = codes "m";
  series = [];
  revision = minus_one;
}

abbrev headers : Str → Str
headers name = if name == codes "Docker-Content-Digest" then codes "s" else codes "registry/2.0"

-- A registry that gives each image the digest "s".
abbrev registry : Docker
registry = record {
  State = ℕ;
  Authorizer = Unit {0};
  parse_normalized_named = λ s. err (remote (codes "not used"));
  tag_name_only = λ ref. record ref { tag = some (codes "latest") };
  get = λ url. ok (record { status_code = 200; status = []; header = λ _. [] });
  new_authorizer = λ resp path. tt;
  Request = Str;
  new_request = λ url. ok url;
  modify_request = λ a req. ok req;
  do_request = λ req. ok (record { status_code = 200; status = []; header = headers });
  show_transfer_progress = λ stream n. (ok stream, n);
  upload_info = λ curl name n. err (remote (codes "not used"));
  new_client = ok tt;
  image_tag = λ a b n. (ok tt, n);
  image_push = λ info n. (ok (codes "s"), n);
  add_docker_resource = λ curl name image digest n. (ok (pos 2), n + 1);
}

abbrev image : Reference
image = record {
  domain = codes "docker.io";
  path = codes "library/i";
  name = codes "docker.io/library/i";
  string = codes "docker.io/library/i";
  tag = none;
  digest = none;
}

upload_external_docker_resource-IsVerified_example :
    (answer : Result Error ℤ × ℕ) × (upload_external_docker_resource registry mysql
        (codes "r")
        image
        0
      ≡ some answer)
    × ((rev : ℤ)
        → answer.0 ≡ ok rev
        → (digest : Str) × IsVerified registry image digest
          × ((registry.add_docker_resource mysql (codes "r") image.name digest 0).0 ≡ ok rev))
upload_external_docker_resource-IsVerified_example =
    upload_external_docker_resource-IsVerified registry (λ ref. (codes "latest", refl)) mysql
      (codes "r") image 0
