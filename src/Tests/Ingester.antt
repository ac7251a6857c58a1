-- ===== src/Tests/Ingester.antt =====
-- The theorems on the ingester, at concrete inputs.
use charmstore_client.Base.{
  ℕ, ℤ, pos, minus_one, ◌+◌, ◌≡◌, refl, true, false, none, some, List, [], ◌∷◌, ◌++◌, Str, codes,
  ok, err, length, contains, map, Distinct, nat_eq, list_eq, pair_eq, int_eq, is_empty, not_found,
  arith,
}
use charmstore_client.Base.Dict
use charmstore_client.Base.Dict.{Dict}
use charmstore_client.Charm.{Url}
use charmstore_client.Ingest.Entity.{
  Env, WhitelistEntity, EntityInfo, BaseEntity, add_published_resources,
}
use charmstore_client.Ingest.Entity.Published.{has-add_published_resources}
use charmstore_client.Ingest.Merge.{merge_all}
use charmstore_client.Ingest.Merge.AnyOrder.{
  current, entity_at, fact, any_fact, merge_all_any_order,
}
use charmstore_client.Ingest.Resolve.{Sent}
use charmstore_client.Ingest.Client.{Client, Source, World, Permission}
use charmstore_client.Ingest.Transfer.{extra_info_changes}
use charmstore_client.Ingest.Transfer.ExtraInfo.{apply_changes, extra_info_changes_sync}
use charmstore_client.Ingest.Resources.{Disk, Job, ResourceId, jobs, transfer_resources}
use charmstore_client.Ingest.Resources.Once.{id_of, transfer_each, transfer_resources_once}
use charmstore_client.Ingest.Permissions.{is_default_perm, transfer_base_entity, grant_entities}
use charmstore_client.Ingest.Permissions.Kept.{
  Sublist, channels_of, open_each, all_channels, transfer_base_entity_kept, grant_entities_once,
}
use charmstore_client.Ingest.Run.{IngestParams}
use charmstore_client.Ingest.Run.Transfers.{Transfers}

abbrev stable : Str
stable = codes "stable"

abbrev url : Str → Url
url series = record {
  schema = codes "cs";
  user = [];
  name = codes "mysql";
  series = series;
  revision = pos 3;
}

abbrev entity : Str → EntityInfo
entity series = record {
  id = url series;
  promulgated_id = none;
  channels = (stable, true) ∷ (codes "edge", false) ∷ [];
  bundle_charms = [];
  archive_size = 10;
  hash = codes "h";
  extra_info = [];
  common_info = [];
  resources = (codes "data", pos 1 ∷ pos 2 ∷ []) ∷ [];
  published_resources = [];
  synced = false;
  archive_copied = false;
}

abbrev base : BaseEntity
base = record {
  base_id = record (url []) { revision = minus_one };
  entities = (codes "a", entity (codes "xenial")) ∷ [];
}

-- What an id is written as, enough to tell these apart.
abbrev env : Env
env = record {
  id_string = λ id. id.name ++ id.series;
  library_parse = λ _. ok (url []);
  no_channel = [];
  stable = stable;
}

-- A destination that has one entity, of one size, and the permissions of one base entity.
abbrev store : ℕ → Dict Str Permission → Client
store size perms = record {
  State = ℕ;
  entity_info = λ _ _ _. ok (record (entity (codes "xenial")) { archive_size = size });
  get_base_entity = λ _ _. ok perms;
  put_archive = λ _ _ n. (ok tt, n + 1);
  put_extra_info = λ _ _ n. (ok tt, n + 1);
  set_perm = λ _ _ _ n. (ok tt, n + 1);
  publish = λ _ _ _ n. (ok tt, n + 1);
  resource_info = λ _ _ _ _. err not_found;
  put_resource = λ _ _ _ _ n. (ok tt, n + 1);
}

abbrev origin : Source
origin = record {
  entity_info = λ _ _. ok (entity (codes "xenial"));
  get_archive = λ _. ok (codes "zip");
  get_resource = λ _ _ _. ok ((codes "zip", ok tt), 3);
}

abbrev disk : Disk
disk = record {
  max_disk = 0;
  soft_disk_limit = false;
  temp_file = λ _. ok tt;
  write_file = λ _. ok tt;
  remove_file = λ _. ok tt;
}

abbrev bases : Dict Str BaseEntity
bases = (codes "mysql", base) ∷ []

abbrev new_world : (D : Client) → D.State → World D
new_world D s = record { dest = s; errors = [] }

abbrev unpublished : Dict Str (Dict Str ℤ)
unpublished = []

has-add_published_resources_example :
    Dict.has stable
      (add_published_resources unpublished ((stable, (codes "data", pos 1) ∷ []) ∷ []))
    ≡ Dict.has stable unpublished
has-add_published_resources_example =
    has-add_published_resources stable unpublished ((stable, (codes "data", pos 1) ∷ []) ∷ [])

merge_all_any_order_example :
    fact (current stable) (
      entity_at env
        (codes "mysql")
        (codes "mysqlxenial")
        (merge_all env [] (entity (codes "xenial") ∷ [])))
    ≡ any_fact env
        (codes "mysql")
        (codes "mysqlxenial")
        (current stable)
        (entity (codes "xenial") ∷ [])
unfolding nat_eq list_eq
merge_all_any_order_example =
    merge_all_any_order env (codes "mysql") (codes "mysqlxenial") (current stable)
      (entity (codes "xenial") ∷ []) (((refl, (refl, tt)), (refl, tt)), tt)

abbrev nothing_sent : Sent
nothing_sent = record { entities = []; errors = [] }

abbrev wanted : WhitelistEntity
wanted = record { entity_id = codes "mysql"; channels = stable ∷ []; resources = [] }

abbrev new_fields : Dict Str Str
new_fields = (codes "a", codes "2") ∷ []

abbrev old_fields : Dict Str Str
old_fields = (codes "a", codes "1") ∷ (codes "old", codes "1") ∷ []

new_fields_solid : (k v : Str) → Dict.lookup k new_fields ≡ some v → is_empty v ≡ false
unfolding Dict.lookup
new_fields_solid k v h = ground arith

extra_info_changes_sync_example :
    Dict.lookup (codes "old") (apply_changes old_fields (extra_info_changes new_fields old_fields))
    ≡ Dict.lookup (codes "old") new_fields
extra_info_changes_sync_example =
    extra_info_changes_sync new_fields old_fields (refl, tt) new_fields_solid (codes "old")

transfer_resources_once_example :
    let D = store 10 [] in
    let r = transfer_resources D origin env disk bases (new_world D 0) in
    let id_of = id_of D origin env disk in
    (picked : List Job) × (r.1 ≡ transfer_each D origin env disk picked (new_world D 0))
    × Distinct (map id_of picked)
    × ((i : ResourceId) → contains (map id_of picked) i ≡ contains (map id_of (jobs bases)) i)
    × (r.0 ≡ length picked)
transfer_resources_once_example =
    transfer_resources_once (store 10 []) origin env disk bases (new_world (store 10 []) 0)

abbrev opened : Dict Str Permission
opened = (stable, record { read = codes "everyone" ∷ []; write = [] }) ∷ []

transfer_base_entity_kept_example :
    transfer_base_entity (store 10 opened) env (codes "admin") base (new_world (store 10 opened) 0)
    ≡ new_world (store 10 opened) 0
unfolding Dict.lookup list_eq nat_eq is_default_perm
transfer_base_entity_kept_example =
    transfer_base_entity_kept (store 10 opened) env (codes "admin") base
      (new_world (store 10 opened) 0) opened stable
      (record { read = codes "everyone" ∷ []; write = [] }) refl refl refl

grant_entities_once_example :
    let D = store 10 [] in
    let owner = codes "admin" in
    let g = grant_entities D env owner base.entities ([], new_world D 0) in
    let all = all_channels D env owner (λ _ _ _ _. refl) base.entities in
    let channels_of = channels_of D env owner (λ _ _ _ _. refl) in
    (opened : List (Url × Str)) × Sublist opened all
    × (g.1 ≡ open_each D env owner (λ _ _ _ _. refl) opened (new_world D 0))
    × Distinct (channels_of opened)
    × ((ch : Str) → contains (channels_of opened) ch ≡ contains (channels_of all) ch)
    × (g.1.errors ≡ [])
grant_entities_once_example =
    grant_entities_once (store 10 []) env (codes "admin") (λ _ _ _ _. refl) base.entities
      (new_world (store 10 []) 0)

abbrev parameters : IngestParams
parameters = record { whitelist = wanted ∷ []; disk = disk; owner = [] }
