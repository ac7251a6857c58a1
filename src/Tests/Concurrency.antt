-- ===== src/Tests/Concurrency.antt =====
-- The theorems on the limiter, on the disk space and on the shim, at concrete inputs.
use Prim.Native.Nat.{max}
use charmstore_client.Base.{
  ℕ, pos, minus_one, ◌+◌, ◌-◌, ◌≤◌, ◌<◌, ◌≡◌, ◌≢◌, refl, true, false, none, some, [], ◌∷◌, codes,
  ok, err, remote, leb, if◌then◌else◌, arith, nat_eq, list_eq, int_eq,
}
use charmstore_client.Base.Dict
use charmstore_client.Base.Sort.{IsSortedBy, count}
use charmstore_client.Charm.{Url}
use charmstore_client.Ingest.Entity.{Env}
use charmstore_client.Ingest.Client.{World}
use charmstore_client.Ingest.Limiter.{
  concurrency_or_default, add, new_limiter, start, ready, inside, returned, Pool, new_pool, Step,
  starts, launches, Reach, here, next,
}
use charmstore_client.Ingest.Limiter.Safety.{Reach-running_le}
use charmstore_client.Ingest.Limiter.Progress.{steps_left, Reach-progress}
use charmstore_client.Ingest.Resources.{Disk, Job, share, transfer_resource}
use charmstore_client.Ingest.Shim.{Library, Meta, shim, shim_source, info_of_meta, le_charm}
use charmstore_client.Ingest.Shim.Errors.{transfer_resource_passed_over}
use charmstore_client.Ingest.Shim.Info.{
  last_published, last_revision, CharmTest, of_charm, of_application, applications,
  info_of_meta_lem,
}
use charmstore_client.Ingest.Space
use charmstore_client.Ingest.Space.{Semaphore, IsWeighted, Space, no_files, opens, fails}
use charmstore_client.Ingest.Space.Bounds.{total, largest, Reach-total_le, Reach-lost}

-- One of three tasks runs, with a limit of two.
abbrev one_running : Pool
one_running = record {
  limiter = record { capacity = 2; length = 1; count = 1 };
  caller = ready;
  todo = 2;
  running = 1;
  stopped = 0;
  finished = 0;
}

abbrev one_started : Pool
one_started = record one_running {
  limiter = record { capacity = 2; length = 1; count = 0 };
  caller = inside;
  running = 0;
}

one_running-Reach : Reach (new_pool (concurrency_or_default (pos 2)) 3) one_running
unfolding concurrency_or_default new_limiter start add
one_running-Reach =
    next {q = one_started}
      (next {q = new_pool (concurrency_or_default (pos 2)) 3} here
        (starts one_started.limiter 2 refl refl refl refl))
      (launches refl refl)

Reach-running_le_example :
    (one_running.running ≤ concurrency_or_default (pos 2))
    × (one_running.caller ≡ returned → (one_running.running ≡ 0) × (one_running.finished ≡ 3))
Reach-running_le_example = Reach-running_le (pos 2) one_running-Reach

Reach-progress_example :
    (one_running.caller ≢ returned → (q : Pool) × Step one_running q)
    × ((q : Pool) → Step one_running q → steps_left q < steps_left one_running)
Reach-progress_example = Reach-progress (pos 2) one_running-Reach

-- The units that are held, and the limit.
abbrev counter : Semaphore
counter = record {
  State = ℕ × ℕ;
  new_weighted = λ n. (0, n);
  acquire = λ n s. if leb (s.0 + n) s.1 then some (s.0 + n, s.1) else none;
  release = λ n s. (s.0 - n, s.1);
}

counter-acquired :
    (n : ℕ) (s s' : ℕ × ℕ)
    → counter.acquire n s ≡ some s'
    → (s'.0 ≡ s.0 + n) × (s'.0 ≤ s'.1) × (s'.1 ≡ s.1)
counter-acquired n s s' h = ground arith

counter-IsWeighted : IsWeighted counter
counter-IsWeighted = record {
  held = λ s. s.0;
  size = λ s. s.1;
  none_held = λ n. refl;
  sized = λ n. refl;
  acquired = counter-acquired;
  released = λ n s h. omega arith;
}

abbrev soft_disk : Disk
soft_disk = record {
  max_disk = 5;
  soft_disk_limit = true;
  temp_file = λ _. ok tt;
  write_file = λ _. ok tt;
  remove_file = λ _. ok tt;
}

-- A resource of 9 bytes is in its file.
abbrev one_file : Space counter
one_file = record {
  limiter = (5, 5);
  files = record { resource_size = 9; size = 5 } ∷ [];
  lost = 0;
}

one_file-Reach : Space.Reach counter soft_disk (no_files counter soft_disk) one_file
unfolding share
one_file-Reach = Space.next Space.here (opens 9 5 (5, 5) refl refl refl)

Reach-total_le_example :
    (total one_file.files ≤ max 5 (largest one_file.files))
    × (true ≡ false → total one_file.files ≤ 5)
Reach-total_le_example =
    Reach-total_le counter counter-IsWeighted soft_disk one_file-Reach (omega arith)

abbrev all_lost : Space counter
all_lost = record { limiter = (5, 5); files = []; lost = 5 }

all_lost-Reach : Space.Reach counter soft_disk (no_files counter soft_disk) all_lost
unfolding share
all_lost-Reach = Space.next Space.here (fails 9 5 (5, 5) refl refl refl)

Reach-lost_example :
    (counter.acquire 1 (5, 5) ≡ none)
    × ((q : Space counter) → Space.Step counter soft_disk all_lost q → 5 ≤ q.lost)
Reach-lost_example = Reach-lost counter counter-IsWeighted soft_disk 1 all_lost-Reach (omega arith)

abbrev mysql : Url
mysql = record {
  schema = codes "cs";
  user = codes "bob";
  name = codes "mysql";
  series = [];
  revision = pos 3;
}

abbrev mysql_meta : Meta
mysql_meta = record {
  id = mysql;
  promulgated_id = none;
  published = (codes "stable", true) ∷ (codes "edge", false) ∷ [];
  bundle_metadata = some (
      record { charm = codes "b"; resources = [] }
      ∷ record { charm = codes "a"; resources = [] }
      ∷ []);
  archive_size = 10;
  hash = codes "h";
  extra_info = [];
  common_info = [];
  resources =
      record { name = codes "r"; revision = pos 2 }
      ∷ record { name = codes "s"; revision = minus_one }
      ∷ [];
}

info_of_meta_lem_example :
    (Dict.lookup (codes "r") (info_of_meta mysql_meta).channels
      ≡ last_published (codes "r") none mysql_meta.published)
    × (Dict.lookup (codes "r") (info_of_meta mysql_meta).resources
        ≡ last_revision (codes "r") none mysql_meta.resources)
    × IsSortedBy le_charm (info_of_meta mysql_meta).bundle_charms
    × ((test : CharmTest)
        → count (of_charm test) (info_of_meta mysql_meta).bundle_charms
          ≡ count (of_application test) (applications mysql_meta.bundle_metadata))
info_of_meta_lem_example = info_of_meta_lem mysql_meta (codes "r")

-- A store that answers every question with an error, and takes every change.
abbrev down : Library
down = record {
  State = ℕ;
  meta = λ _ _ _. err (remote (codes "down"));
  all_perms = λ _ _ _. err (remote (codes "down"));
  put_perm = λ _ _ _ n. (ok tt, n + 1);
  get_archive = λ _ _. err (remote (codes "down"));
  upload_archive = λ _ _ n. (ok tt, n + 1);
  put_meta_extra_info = λ _ _ n. (ok tt, n + 1);
  publish = λ _ _ _ n. (ok tt, n + 1);
  meta_resource = λ _ _ _ _. err (remote (codes "down"));
  get_resource = λ _ _ _ _. err (remote (codes "down"));
  upload_resource = λ _ _ _ _ n. (ok tt, n + 1);
}

abbrev env : Env
env = record {
  id_string = λ id. id.name;
  library_parse = λ _. err (remote []);
  no_channel = [];
  stable = codes "stable";
}

abbrev idle : World (shim (codes "unpublished") down)
idle = record { dest = 0; errors = [] }

abbrev job : Job
job = record { entity_id = mysql; name = codes "r"; rev = pos 2 }

transfer_resource_passed_over_example :
    transfer_resource
      (shim (codes "unpublished") down)
      (shim_source (codes "unpublished") down 0)
      env
      soft_disk
      job
      idle
    ≡ idle
transfer_resource_passed_over_example =
    transfer_resource_passed_over (codes "unpublished") down env
      (shim_source (codes "unpublished") down 0) soft_disk job idle (remote (codes "down")) refl
      refl
