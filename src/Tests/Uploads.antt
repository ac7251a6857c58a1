-- ===== src/Tests/Uploads.antt =====
-- The theorems on the upload of resources, at concrete inputs.
use charmstore_client.Base.{
  has_suffix, ℕ, pos, minus_one, ◌+◌, ◌≡◌, ◌≢◌, refl, ◌⊎◌, Bool, true, none, some, List, [], ◌∷◌,
  Str, codes, Result, ok, err, Error, remote, not_exist, upload_not_found, ◌&&◌, ◌==◌,
  if◌then◌else◌, arith, nat_eq, list_eq, int_eq,
}
use charmstore_client.Base.Dict
use charmstore_client.Base.Dict.{Dict, lookup-insert, lookup-erase}
use charmstore_client.Charm.{Url}
use charmstore_client.Upload.Files.{Files, FileInfo, IsFileSystem}
use charmstore_client.Upload.Cache.{
  UploadIdCache, Entry, Packages, filename, lookup, update, remove, new_entry,
  remove_expired_entries,
}
use charmstore_client.Upload.Cache.Laws.{IsMarshal}
use charmstore_client.Upload.Cache.Spec.{Call, store, find, forget, Answer, done, found, Allows}
use charmstore_client.Upload.Cache.Meets.{entries}
use charmstore_client.Upload.Cache.Refines.{answer, Runs, Runs-Allows}
use charmstore_client.Upload.Cache.Expiry.{IsSwept, entry_paths, remove_expired_entries-IsSwept}
use charmstore_client.Upload.File.{
  Uploads, UploadResourceParams, file, cache, new_upload_id_cache, send, start_all,
}
use charmstore_client.Upload.File.Resume.{send_forgotten}

-- Files by their paths, and the time.
abbrev disk : Files
disk = record {
  State = Dict Str Str × ℕ;
  now = λ s. s.1;
  open_file = λ _ _. ok tt;
  file_size = λ _ _. ok 3;
  read_file = λ p s. elim (Dict.lookup p s.0) as (λ _. Result Error Str) [
    | none ↦ err not_exist
    | some d ↦ ok d
  ];
  read_dir = λ _ _. ok (record { name = codes "a.up"; is_regular = true } ∷ []);
  make_dirs = λ _ s. (ok tt, s);
  write_file = λ p d s. (ok tt, (Dict.insert p d s.0, s.1));
  remove_file = λ p s. (
    elim (Dict.lookup p s.0) as (λ _. Result Error (Unit {0})) [
      | none ↦ err not_exist
      | some _ ↦ ok tt
    ],
    (Dict.erase p s.0, s.1),
  );
}

disk-IsFileSystem : IsFileSystem disk
disk-IsFileSystem = record {
  content = λ p s. Dict.lookup p s.0;
  reads = λ p s d h. ground arith;
  not_there = λ p s h. ground arith;
  made = λ p q s s' r h. ground arith;
  written = λ p q d s s' h. ground (arith, lookup-insert q p d s.0);
  not_written = λ p q d s s' e h. ground arith;
  removed = λ p q s s' h. ground (arith, lookup-erase q p s.0);
  not_removed = λ p q s s' e h. ground (arith, lookup-erase q p s.0);
  none_removed = λ p s s' h. ground arith;
}

abbrev mysql : Url
mysql = record {
  schema = codes "cs";
  user = [];
  name = codes "m";
  series = [];
  revision = minus_one;
}

-- An entry for the upload id "u", made at the time 5.
abbrev entry : Entry
entry = record {
  charm_url = mysql;
  resource_name = codes "r";
  resource_hash = codes "h";
  size = 0;
  created_date = 5;
  upload_id = codes "u";
}

abbrev is_entry : Entry → Bool
is_entry e =
    e.charm_url.schema == codes "cs"
    && e.charm_url.user == []
    && e.charm_url.name == codes "m"
    && e.charm_url.series == []
    && e.charm_url.revision == minus_one
    && e.resource_name == codes "r"
    && e.resource_hash == codes "h"
    && e.size == 0
    && e.created_date == 5
    && e.upload_id == codes "u"

-- Packages that write this entry only.
abbrev packages : Packages
packages = record {
  marshal = λ e. if is_entry e then ok (codes "x") else err (remote (codes "other"));
  unmarshal = λ _. ok entry;
  sha256 = λ s. s;
  hex = λ s. s;
  join_path = λ _ s. s;
  id_string = λ u. u.name;
}

packages-IsMarshal : IsMarshal packages
packages-IsMarshal e d h = ground arith

abbrev uploads : UploadIdCache
uploads = record { dir = codes "d"; expiry_duration = 10 }

abbrev before : disk.State
before = ([], 5)

abbrev stored : disk.State
stored = (Dict.insert (codes "m\nr\nh.up") (codes "x") [], 5)

update_before :
    update disk packages uploads (codes "u") mysql (codes "r") (codes "h") before ≡ (ok tt, stored)
unfolding update filename list_eq nat_eq int_eq
update_before = refl

abbrev emptied : disk.State
emptied = (Dict.erase (codes "m\nr\nh.up") stored.0, 5)

remove-stored : remove disk packages uploads mysql (codes "r") (codes "h") stored ≡ (ok tt, emptied)
unfolding remove filename Dict.lookup Dict.insert list_eq nat_eq
remove-stored = refl

-- An entry is stored, found and removed.
abbrev answers : List (Call × Answer)
answers =
    (store (codes "u") mysql (codes "r") (codes "h"), done (ok tt))
    ∷ (find mysql (codes "r") (codes "h"), found (ok entry))
    ∷ (forget mysql (codes "r") (codes "h"), done (ok tt))
    ∷ []

runs : Runs disk disk-IsFileSystem packages uploads packages-IsMarshal before answers emptied
unfolding update filename list_eq nat_eq int_eq lookup remove Dict.lookup Dict.insert answer
runs =
    Runs.ask before emptied _ _
      (Runs.ask stored emptied _ _ (Runs.ask stored emptied _ _ (Runs.stop emptied)))

Runs-Allows_example :
    Allows uploads
      (filename disk packages uploads)
      (new_entry disk packages uploads)
      5
      (entries disk disk-IsFileSystem packages uploads packages-IsMarshal before)
      answers
      5
      (entries disk disk-IsFileSystem packages uploads packages-IsMarshal emptied)
Runs-Allows_example =
    Runs-Allows disk disk-IsFileSystem packages uploads packages-IsMarshal before emptied answers
      runs

-- An entry that has expired.
abbrev old : disk.State
old = ((codes "a.up", codes "x") ∷ [], 20)

remove_expired_entries-old : (remove_expired_entries disk packages uploads old).1 ≡ ([], 20)
unfolding remove_expired_entries has_suffix list_eq nat_eq Dict.lookup Dict.erase
remove_expired_entries-old = refl

abbrev listing : List FileInfo
listing = record { name = codes "a.up"; is_regular = true } ∷ []

remove_expired_entries-IsSwept_example :
    IsSwept disk disk-IsFileSystem packages uploads
      (entry_paths disk disk-IsFileSystem packages uploads listing)
      (codes "a.up")
      old
      (remove_expired_entries disk packages uploads old).0
      (remove_expired_entries disk packages uploads old).1
remove_expired_entries-IsSwept_example =
    remove_expired_entries-IsSwept disk disk-IsFileSystem packages uploads listing (codes "a.up")
      old refl

-- A store that has forgotten every upload id.
abbrev server : Uploads
server = record {
  State = ℕ;
  resume_upload_resource = λ id curl name path size n. ((err upload_not_found, []), n + 1);
  upload_resource = λ curl name path size n. ((ok (pos 1), codes "v" ∷ []), n + 1);
  upload_docker_resource = λ curl name reference n. (ok (pos 1), n + 1);
}

abbrev upload : UploadResourceParams
upload = record {
  meta_resources = (codes "r", file) ∷ [];
  charm_id = mysql;
  resource_name = codes "r";
  reference = codes "f";
  cache_path = codes "d";
}

abbrev with_file : disk.State
with_file = ((codes "f", codes "h") ∷ [], 5)

abbrev with_entry : disk.State
with_entry = ((codes "f", codes "h") ∷ (codes "m\nr\nh.up", codes "x") ∷ [], 5)

nothing_expired :
    (remove_expired_entries disk packages (cache disk packages server (λ f. f) upload) with_entry).1
    ≡ with_entry
unfolding remove_expired_entries has_suffix list_eq nat_eq Dict.lookup new_upload_id_cache
nothing_expired = refl

send_forgotten_example :
    ((send disk packages server
        (λ f. f)
        upload
        (some (codes "h"))
        (codes "u")
        (codes "f")
        3
        (with_entry, 0)).0
      ≡ ok (pos 1))
    × ((send disk packages server
          (λ f. f)
          upload
          (some (codes "h"))
          (codes "u")
          (codes "f")
          3
          (with_entry, 0)).1.1
        ≡ 2)
    × (((e : Entry)
          → (lookup disk packages
              (cache disk packages server (λ f. f) upload)
              mysql
              (codes "r")
              (codes "h")
              (send disk packages server
                (λ f. f)
                upload
                (some (codes "h"))
                (codes "u")
                (codes "f")
                3
                (with_entry, 0)).1.0).0
            ≢ ok e)
        ⊎ ((e : Error) × ((remove disk packages
                (cache disk packages server (λ f. f) upload)
                mysql
                (codes "r")
                (codes "h")
                (start_all disk packages server
                  (λ f. f)
                  upload
                  (some (codes "h"))
                  (codes "v" ∷ [])
                  (start_all disk packages server
                    (λ f. f)
                    upload
                    (some (codes "h"))
                    []
                    with_entry))).0
              ≡ err e)))
send_forgotten_example =
    send_forgotten disk disk-IsFileSystem packages server (λ f. f) upload (codes "h") (codes "u")
      (codes "f") 3 with_entry 0 1 2 [] (codes "v" ∷ []) (pos 1) refl refl
