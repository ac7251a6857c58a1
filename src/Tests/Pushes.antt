-- ===== src/Tests/Pushes.antt =====
-- The theorems on charm push, at concrete inputs.
use charmstore_client.Base.{
  ℕ, pos, minus_one, ◌+◌, ◌≡◌, refl, ◌⊎◌, some, List, [], ◌∷◌, Str, codes, Result, ok, err, remote,
  Error, join, atoi, nat_eq, list_eq,
}
use charmstore_client.Charm.{Url}
use charmstore_client.Push.{Entity, Directory, Store, PushCommand, what_to_push, run}
use charmstore_client.Push.Requests.{logged}
use charmstore_client.Push.Order.{Pushes, Refuses, run-Pushes}
use charmstore_client.Push.Vcs.Bzr.{BzrLogEntry, empty_entry, with_field}
use charmstore_client.Push.Vcs.Bzr.Entry.{with_fields}
use charmstore_client.Push.Vcs.{trim_space, parse_log_output}
use charmstore_client.Push.Vcs.Log.{
  Commit, Printed, IsCommit, revision, format, parse_log_output-format,
}

abbrev wordpress : Url
wordpress = record {
  schema = codes "cs";
  user = [];
  name = codes "w";
  series = codes "xenial";
  revision = minus_one;
}

-- A store that takes everything.
abbrev store : Store
store = record {
  State = ℕ;
  who_am_i = λ n. ok (codes "bob");
  upload_charm = λ id ch n. (ok (record id { revision = pos 4 }), n + 1);
  upload_bundle = λ id b n. (ok (record id { revision = pos 4 }), n + 1);
  put_extra_info = λ id x n. (ok tt, n + 1);
  upload_resource = λ id name ref n. (ok (pos 0), n + 1);
}

abbrev directory : Directory
directory = record {
  stat = ok tt;
  base_name = codes "w";
  read_charm = ok (record { meta_resources = codes "b" ∷ codes "a" ∷ []; content = codes "x" });
  read_bundle = err (remote (codes "no bundle"));
  extra_info = some [];
}

abbrev command : PushCommand
command = record {
  id = some wordpress;
  src_dir = codes ".";
  resources = (codes "b", codes "f") ∷ (codes "a", codes "g") ∷ [];
}

abbrev no_parse : Str → Result Error Url
no_parse s = err (remote s)

run-Pushes_example :
    ((id : Url) × (e : Entity) × (what_to_push store no_parse command directory 0 ≡ ok (id, e))
      × Pushes store no_parse command directory id e 0
          (run (logged store) no_parse command directory (0, [])))
    ⊎ Refuses store no_parse command directory 0
        (run (logged store) no_parse command directory (0, []))
run-Pushes_example = run-Pushes store no_parse command directory 0

abbrev commit : Commit
commit = record {
  commit = codes "c0ffee";
  name = codes "Bob";
  email = codes "b@x";
  date = codes "today";
  message = codes "a message";
  time = pos 7;
}

commit-IsCommit : IsCommit (λ _ _. ok (pos 7)) commit
unfolding trim_space join nat_eq
commit-IsCommit = record {
  separated = (refl, (refl, (refl, (refl, (refl, tt)))));
  one_entry = refl;
  trimmed = refl;
  dated = refl;
}

-- As git prints them: a new line before each separator, and one behind it
abbrev printed : List Printed
printed =
    record { gap = []; entry = commit; tail = codes "\n" }
    ∷ record { gap = codes "\n"; entry = commit; tail = codes "\n" }
    ∷ []

parse_log_output-format_example :
    parse_log_output (λ _ _. ok (pos 7)) (format printed (codes "\n"))
    ≡ ok (revision commit ∷ revision commit ∷ [])
unfolding nat_eq
parse_log_output-format_example =
    parse_log_output-format (λ _ _. ok (pos 7)) printed (codes "\n")
      ((tt, commit-IsCommit, (refl, tt)), (((refl, tt), commit-IsCommit, (refl, tt)), tt))
      (refl, tt)

abbrev no_entry : BzrLogEntry
no_entry = empty_entry (pos 0)

-- The field is read as the number.
with_fields-revno :
    with_fields (λ _ _. ok (pos 7)) no_entry ((codes "revno", codes "12 [merge]") ∷ [])
    ≡ ok (record no_entry { revno = pos 12 })
unfolding with_fields with_field list_eq nat_eq atoi
with_fields-revno = refl
