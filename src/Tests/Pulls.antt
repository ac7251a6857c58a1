-- ===== src/Tests/Pulls.antt =====
-- The theorems on charm pull and pull-resource, at concrete inputs.
use charmstore_client.Base.{
  pos, minus_one, ◌≡◌, ◌≢◌, refl, ap, subst, sym, ◌∙◌, Bool, true, false, Option, none, some, [],
  ◌∷◌, Str, codes, Result, ok, err, Error, Reply, remote, not_exist, ◌==◌, arith, nat_eq, list_eq,
  int_eq, if◌then◌else◌,
}
use charmstore_client.Base.Dict
use charmstore_client.Base.Dict.{Dict, lookup-insert, lookup-erase}
use charmstore_client.Charm.{Url}
use charmstore_client.Pull.Machine.{Machine, Item, file, directory, IsDisk, file_type, Sets}
use charmstore_client.Pull.Archive.{PullCommand, is_free, dest, run}
use charmstore_client.Pull.Images.{Docker, IsDocker}
use charmstore_client.Pull.Resource.{
  PullResourceCommand, channel, pull_file_resource, pull_docker_resource,
}
use charmstore_client.Pull.Resource.Verified.{IsFilePulled, pull_file_resource-IsFilePulled}
use charmstore_client.Pull.Resource.Tagged.{Tagged, pull_docker_resource-Tagged}
use charmstore_client.Upload.Docker.{DockerInfo}
use charmstore_client.Pull.Archive.Verified.{connected, IsPulled, run-IsPulled}

abbrev Disk : Type 0
Disk = Dict Str (Item Str)

abbrev vacant : Option (Item Str) → Bool
vacant none = true
vacant (some _) = false

abbrev temporary : Str
temporary = codes "/tmp/charm1"

abbrev archive : Option (Item Str) → Result Error Str
archive (some (file d)) = ok d
archive _ = err not_exist

abbrev xenial : Url
xenial = record {
  schema = codes "cs";
  user = [];
  name = codes "w";
  series = codes "xenial";
  revision = pos 3;
}

abbrev make_temporary : Bool → Disk → Result Error Str × Disk
make_temporary true s = (ok temporary, Dict.insert temporary (file []) s)
make_temporary false s = (err (remote (codes "exists")), s)

abbrev unpack : Str → Str → Bool → Disk → Reply × Disk
unpack a d true s = (ok tt, Dict.insert d (directory a) s)
unpack a d false s = (err (remote (codes "exists")), s)

-- A store with one archive and one resource, whose hash is their text.
abbrev machine : Machine
machine = record {
  State = Disk;
  Entity = Str;
  Reader = Str;
  expect_hash = λ r. r;
  hex_sha384 = λ d. d;
  abs_path = λ p. p;
  stat = λ p s. if vacant (Dict.lookup p s) then err not_exist else ok tt;
  temp_file = λ s. make_temporary (vacant (Dict.lookup temporary s)) s;
  create_file = λ p s. (ok tt, Dict.insert p (file []) s);
  copy = λ r p s. (ok r, Dict.insert p (file r) s);
  close_file = λ p s. s;
  close_reader = λ r s. s;
  remove_file = λ p s. (ok tt, Dict.erase p s);
  read_charm = λ p s. archive (Dict.lookup p s);
  read_bundle = λ p s. err not_exist;
  expand_to = λ a d s. unpack a d (vacant (Dict.lookup d s)) s;
  new_client = λ channel s. (ok tt, s);
  save_jar = λ s. s;
  get_archive = λ channel id s. ok (codes "zip", xenial);
  get_resource = λ channel id name rev s. ok (codes "data");
  charm_metadata = λ channel id s. ok (xenial, (codes "r", file_type) ∷ []);
  print_id = λ id s. s;
}

set_item :
    (p : Str) (v : Item Str) (s s' : Disk)
    → Dict.insert p v s ≡ s'
    → (Dict.lookup p s' ≡ some v)
      × ((q : Str) → (q == p) ≡ false → Dict.lookup q s' ≡ Dict.lookup q s)
set_item p v s s' h =
    (ground (arith, lookup-insert p p v s), λ q n. ground (arith, lookup-insert q p v s))

unpack_lem :
    (a d q : Str) (s : Disk) (b : Bool)
    → (q == d) ≡ false
    → Dict.lookup q (unpack a d b s).1 ≡ Dict.lookup q s
unpack_lem a d q s true n = ground (arith, lookup-insert q d (directory a) s)
unpack_lem a d q s false n = refl

make_temporary_lem :
    (p : Str) (s s' : Disk) (o : Option (Item Str))
    → Dict.lookup temporary s ≡ o
    → make_temporary (vacant o) s ≡ (ok p, s')
    → (Dict.lookup p s ≡ none) × Sets machine (λ p s. Dict.lookup p s) p (some (file [])) s s'
make_temporary_lem p s s' none f h =
    let same : temporary ≡ p = ground arith in
    subst
      (λ p.
        (Dict.lookup p s ≡ none) × Sets machine (λ p s. Dict.lookup p s) p (some (file [])) s s')
      same (f, set_item temporary (file []) s s' (ap (λ y. y.1) h))
make_temporary_lem p s s' (some v) f h = ground arith

unpacked_lem :
    (a d : Str) (s s' : Disk) (o : Option (Item Str))
    → Dict.lookup d s ≡ o
    → unpack a d (vacant o) s ≡ (ok tt, s')
    → (Dict.lookup d s' ≡ some (directory a)) × ((b : Str) → Dict.lookup d s ≢ some (file b))
unpacked_lem a d s s' none f h =
    ((set_item d (directory a) s s' (ap (λ y. y.1) h)).0, λ b w. ground arith)
unpacked_lem a d s s' (some v) f h = ground arith

machine-IsDisk : IsDisk machine
machine-IsDisk = record {
  item = λ p s. Dict.lookup p s;
  within = λ d q. q == d;
  within_self = λ d. ground arith;
  temp_made = λ p s s' h. make_temporary_lem p s s' (Dict.lookup temporary s) refl h;
  temp_failed = λ e s s' h q. ground arith;
  created = λ p s s' h. set_item p (file []) s s' (ap (λ y. y.1) h);
  not_created = λ p e s s' h q. ground arith;
  copied = λ r p d s s' f h. ground (arith, set_item p (file r) s s' (ap (λ y. y.1) h));
  not_copied = λ r p e s s' h q n. ground arith;
  file_closed = λ p s q. refl;
  reader_closed = λ r s q. refl;
  removed =
      λ p s s' h. (ground (arith, lookup-erase p p s), λ q n. ground (arith, lookup-erase q p s));
  not_removed = λ p e s s' h q. ground arith;
  expanded = λ a d s s' h. unpacked_lem a d s s' (Dict.lookup d s) refl h;
  below = λ a d q s n. unpack_lem a d q s (vacant (Dict.lookup d s)) n;
  client_made = λ channel s q. refl;
  jar_saved = λ s q. refl;
  printed = λ id s q. refl;
}

abbrev pull_xenial : PullCommand
pull_xenial = record { id = xenial; dest_dir = codes "w"; channel = [] }

-- The entity stands in the directory, and the temporary file is gone.
run_xenial :
    run machine (λ id. id.name) pull_xenial [] ≡ (ok tt, (codes "w", directory (codes "zip")) ∷ [])
unfolding run Dict.lookup list_eq Dict.erase nat_eq Dict.insert
run_xenial = refl

run-IsPulled_example :
    IsPulled machine machine-IsDisk
      (λ id. id.name)
      pull_xenial
      (connected machine machine-IsDisk (λ id. id.name) pull_xenial [])
      []
      (run machine (λ id. id.name) pull_xenial [])
    × (is_free (machine.stat (dest machine (λ id. id.name) pull_xenial) []) ≡ false
        → (run machine (λ id. id.name) pull_xenial []).1 ≡ [])
run-IsPulled_example = run-IsPulled machine machine-IsDisk (λ id. id.name) pull_xenial []

abbrev text : Option (Item Str) → Option Str
text none = none
text (some (file d)) = some d
text (some (directory d)) = some d

abbrev give_name : Str → Option (Item Str) → Disk → Reply × Disk
give_name b none s = (err not_exist, s)
give_name b (some v) s = (ok tt, Dict.insert b v s)

abbrev info : DockerInfo
info = record { image_name = codes "hub/i"; username = []; password = [] }

-- Images by their names.
abbrev docker : Docker Disk
docker = record {
  parse_normalized_named = λ name. ok tt;
  new_docker_client = ok tt;
  resource_download_info = λ channel id name rev s. ok info;
  image_pull = λ i s. (ok [], Dict.insert i.image_name (file (codes "i")) s);
  show_transfer_progress = λ stream s. (ok tt, s);
  close_stream = λ stream s. s;
  image_tag = λ a b s. give_name b (Dict.lookup a s) s;
  image_remove = λ a s. (ok tt, Dict.erase a s);
}

give_name_lem :
    (a b : Str) (s s' : Disk) (o : Option (Item Str))
    → Dict.lookup a s ≡ o
    → give_name b o s ≡ (ok tt, s')
    → (text (Dict.lookup b s') ≡ text (Dict.lookup a s))
      × ((q : Str) → (q == b) ≡ false → text (Dict.lookup q s') ≡ text (Dict.lookup q s))
give_name_lem a b s s' none f h = ground arith
give_name_lem a b s s' (some v) f h =
    let (there, others) = set_item b v s s' (ap (λ y. y.1) h) in
    (ap text (there ∙ sym f), λ q n. ap text (others q n))

docker-IsDocker : IsDocker docker
docker-IsDocker = record {
  image = λ name s. text (Dict.lookup name s);
  pulled = λ i stream s t t' h k.
      let (there, others) =
        set_item i.image_name (file (codes "i")) s t' (ap (λ y. y.1) h ∙ ap (λ y. y.1) k) in
      ((codes "i", ap text there), λ q n. ap text (others q n));
  tagged = λ a b s s' h. give_name_lem a b s s' (Dict.lookup a s) refl h;
  image_removed = λ a s s' h.
      (ground (arith, lookup-erase a a s), λ q n. ap text (ground (arith, lookup-erase q a s)));
  stream_closed = λ q stream s. refl;
}

abbrev pull_data : PullResourceCommand
pull_data = record {
  charm_id = xenial;
  resource_name = codes "r";
  resource_revision = minus_one;
  channel = [];
  to = codes "f";
}

abbrev name_of : Url → Str
name_of id = id.name

pull_file_resource-IsFilePulled_example :
    IsFilePulled machine docker machine-IsDisk name_of pull_data
      (λ r.
        machine.get_resource
          (channel machine docker name_of pull_data)
          xenial
          (codes "r")
          minus_one
          []
        ≡ ok r)
      []
      (pull_file_resource machine docker name_of pull_data xenial [])
pull_file_resource-IsFilePulled_example =
    pull_file_resource-IsFilePulled machine docker machine-IsDisk name_of pull_data xenial []

abbrev named_image : Disk
named_image = (codes "f", file (codes "i")) ∷ []

pull_image : pull_docker_resource machine docker name_of pull_data xenial [] ≡ (ok tt, named_image)
unfolding pull_docker_resource Dict.lookup list_eq Dict.erase nat_eq Dict.insert
pull_image = refl

pull_docker_resource-Tagged_example :
    (i : DockerInfo) × (docker.resource_download_info
        (channel machine docker name_of pull_data)
        xenial
        (codes "r")
        minus_one
        []
      ≡ ok i)
    × Tagged machine docker docker-IsDocker name_of pull_data i [] named_image
pull_docker_resource-Tagged_example =
    pull_docker_resource-Tagged machine docker docker-IsDocker name_of pull_data xenial []
      named_image pull_image
