-- ===== src/Tests/Runs.antt =====
-- A whole ingestion, at a concrete input.
use charmstore_client.Base.{
  ℕ, pos, ◌≡◌, refl, ap, subst, sym, ◌∙◌, false, true, Bool-cases, inl, inr, ==_true, ==_refl, none,
  some, Option, Bool, List, Reply, [], ◌∷◌, Str, codes, Result, ok, err, Error, not_found, ◌++◌,
  nat_eq, list_eq, int_eq, pair_eq, arith, ◌==◌,
}
use charmstore_client.Base.Dict
use charmstore_client.Base.Dict.{Dict, lookup-insert}
use charmstore_client.Charm.{Url, parse_url}
use charmstore_client.Ingest.Entity.{Env, EntityInfo, BaseEntity}
use charmstore_client.Ingest.Client.{Client, Source}
use charmstore_client.Ingest.Run.{IngestParams, resolve_whitelist, ingest}
use charmstore_client.Ingest.Run.Complete.{
  Keeps, Released, archived, released, IsStore, AllEntities,
}
use charmstore_client.Ingest.Run.Complete.Same.{archives}
use charmstore_client.Ingest.Run.Complete.Done.{IsDone, ingest-Done}

abbrev stable : Str
stable = codes "stable"

abbrev xenial : Url
xenial = record {
  schema = codes "cs";
  user = [];
  name = codes "m";
  series = codes "xenial";
  revision = pos 3;
}

abbrev entity : ℕ → Str → EntityInfo
entity size hash = record {
  id = xenial;
  promulgated_id = none;
  channels = (stable, true) ∷ [];
  bundle_charms = [];
  archive_size = size;
  hash = hash;
  extra_info = [];
  common_info = [];
  resources = (codes "data", pos 1 ∷ []) ∷ [];
  published_resources = [];
  synced = false;
  archive_copied = false;
}

-- What an id is written as, enough to tell the ids here apart.
abbrev written_id : Url → Str
written_id id = id.name ++ id.series

abbrev env : Env
env = record {
  id_string = written_id;
  library_parse = λ _. ok xenial;
  no_channel = [];
  stable = stable;
}

abbrev found : Option EntityInfo → Result Error EntityInfo
found none = err not_found
found (some e) = ok e

abbrev mark_all : List Str → Dict Str Bool → Dict Str Bool
mark_all [] channels = channels
mark_all (ch ∷ chs) channels = Dict.insert ch true (mark_all chs channels)

abbrev publish_in :
    Option EntityInfo → Str → List Str → Dict Str EntityInfo → Reply × Dict Str EntityInfo
publish_in none k chs s = (err not_found, s)
publish_in (some e) k chs s =
    (ok tt, Dict.insert k (record e { channels = mark_all chs e.channels }) s)

-- A store that takes everything.
abbrev store : Client
store = record {
  State = Dict Str EntityInfo;
  entity_info = λ ch id s. found (Dict.lookup (written_id id) s);
  get_base_entity = λ id s. ok [];
  put_archive = λ id u s. (ok tt, Dict.insert (written_id id) (entity u.size u.hash) s);
  put_extra_info = λ id f s. (ok tt, s);
  set_perm = λ id ch p s. (ok tt, s);
  publish = λ id chs r s. publish_in (Dict.lookup (written_id id) s) (written_id id) chs s;
  resource_info = λ id name rev s. err not_found;
  put_resource = λ id name rev content s. (ok tt, s);
}

lookup-there :
    (k : Str) (e : EntityInfo) (s : Dict Str EntityInfo)
    → Dict.lookup k (Dict.insert k e s) ≡ some e
lookup-there k e s = lookup-insert k k e s ∙ rw (==_refl k) refl

-- An entity that stands for another, with the same archive and at least its channels.
abbrev Grown : EntityInfo → EntityInfo → Type 0
Grown d e =
    (e.archive_size ≡ d.archive_size)
    × (e.hash ≡ d.hash)
    × ((ch : Str) → Dict.has ch d.channels ≡ true → Dict.has ch e.channels ≡ true)

ok_injective : {d e : EntityInfo} → found (some d) ≡ ok e → d ≡ e
ok_injective h = ground arith

entity_kept :
    (k : Str) (e : EntityInfo) (s : Dict Str EntityInfo)
    → ((d : EntityInfo) → found (Dict.lookup k s) ≡ ok d → Grown d e)
    → (id : Url) (d : EntityInfo) → found (Dict.lookup (written_id id) s) ≡ ok d
    → (d' : EntityInfo) × (found (Dict.lookup (written_id id) (Dict.insert k e s)) ≡ ok d')
      × Grown d d'
entity_kept k e s grown id d known = elim (Bool-cases (written_id id == k)) [
  | inr other ↦ (d, rw (lookup-insert (written_id id) k e s, other) known, (refl, refl, λ ch h. h))
  | inl same ↦ (
    e,
    rw (lookup-insert (written_id id) k e s, same) refl,
    grown d (subst (λ x. found (Dict.lookup x s) ≡ ok d) (==_true _ _ same) known),
  )
]

insert-Keeps :
    (k : Str) (e : EntityInfo) (s : Dict Str EntityInfo)
    → ((d : EntityInfo) → found (Dict.lookup k s) ≡ ok d → Grown d e)
    → Keeps store env s (Dict.insert k e s)
insert-Keeps k e s grown (archived id size hash) (d, known, a, b) =
    let (d', there, (x, y, _)) = entity_kept k e s grown id d known in (d', there, x ∙ a, y ∙ b)
insert-Keeps k e s grown (released id ch) (d, known, a) =
    let (d', there, (_, _, more)) = entity_kept k e s grown id d known in (d', there, more ch a)

has-mark_all :
    (chs : List Str) (channels : Dict Str Bool) (ch : Str)
    → Dict.has ch channels ≡ true
    → Dict.has ch (mark_all chs channels) ≡ true
has-mark_all [] channels ch h = h
has-mark_all (c ∷ chs) channels ch h =
    ground (arith, lookup-insert ch c true (mark_all chs channels), has-mark_all chs channels ch)

publish_in-Keeps :
    (o : Option EntityInfo) (k : Str) (chs : List Str) (s : Dict Str EntityInfo)
    → Dict.lookup k s ≡ o
    → Keeps store env s (publish_in o k chs s).1
publish_in-Keeps none k chs s h = λ f x. x
publish_in-Keeps (some e) k chs s h =
    insert-Keeps k (record e { channels = mark_all chs e.channels }) s
      (λ d known.
        let same : e ≡ d = ok_injective (ap found (sym h) ∙ known) in
        subst (λ d. Grown d (record e { channels = mark_all chs e.channels })) same
          (refl, refl, has-mark_all chs e.channels))

publish_in-Released :
    (o : Option EntityInfo) (id : Url) (ch : Str) (s s' : Dict Str EntityInfo)
    → publish_in o (written_id id) (ch ∷ []) s ≡ (ok tt, s')
    → Released store env id ch s'
publish_in-Released none id ch s s' h = ground arith
publish_in-Released (some e) id ch s s' h =
    let e' : EntityInfo = record e { channels = Dict.insert ch true e.channels } in
    (
      e',
      ap (λ t. found (Dict.lookup (written_id id) t)) (sym (ap (λ y. y.1) h))
          ∙ ap found (lookup-there (written_id id) e' s),
      ground (arith, lookup-insert ch ch true e.channels, ==_refl ch),
    )

store-IsStore : IsStore store env
store-IsStore = record {
  stored = λ id u s s' h. (
    entity u.size u.hash,
    ap (λ t. found (Dict.lookup (written_id id) t)) (sym (ap (λ y. y.1) h))
        ∙ ap found (lookup-there (written_id id) (entity u.size u.hash) s),
    refl,
    refl,
  );
  published = λ id ch r s s' h. publish_in-Released (Dict.lookup (written_id id) s) id ch s s' h;
  archive_kept = λ id u s missing.
      insert-Keeps (written_id id) (entity u.size u.hash) s (λ d known. ground arith);
  extra_info_kept = λ id f s x h. h;
  perm_kept = λ id ch p s x h. h;
  publish_kept =
      λ id chs r s. publish_in-Keeps (Dict.lookup (written_id id) s) (written_id id) chs s refl;
  resource_kept = λ id name rev content s x h. h;
}

abbrev origin : Source
origin = record {
  entity_info = λ ch id. ok (entity 3 (codes "h"));
  get_archive = λ id. ok (codes "zip");
  get_resource = λ id name rev. ok ((codes "abc", ok tt), 3);
}

abbrev parameters : IngestParams
parameters = record {
  whitelist = record { entity_id = codes "m"; channels = []; resources = [] } ∷ [];
  disk = record {
    max_disk = 0;
    soft_disk_limit = false;
    temp_file = λ _. ok tt;
    write_file = λ _. ok tt;
    remove_file = λ _. ok tt;
  };
  owner = [];
}

nothing_failed : (ingest store origin env parameters []).0.errors ≡ []
unfolding ingest parse_url list_eq nat_eq Dict.insert Dict.lookup int_eq
nothing_failed = refl

ingest-Done_example :
    let (bases, errors) = resolve_whitelist store origin env parameters.whitelist in
    let (stats, s) = ingest store origin env parameters [] in
    (stats.failed_entity_count ≡ 0)
    × ((bases' : Dict Str BaseEntity) × (archives bases' ≡ archives bases)
        × AllEntities store env (IsDone store origin env store-IsStore) bases' s)
ingest-Done_example = ingest-Done store origin env store-IsStore parameters [] nothing_failed
