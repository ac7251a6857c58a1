-- ===== src/Ingest/Shim.antt =====
-- charmstoreShim of internal/ingest/shim.go: a charm store as the ingester sees it, made of the
-- client library's requests. The library is not part of the program: it is the record `Library`.
pub mod Errors
pub mod Info
use charmstore_client.Base.{
  ℕ, ℤ, minus_one, Bool, Option, none, some, List, [], ◌∷◌, Str, Result, ok, err, Error, not_found,
  metadata_not_found, masked, is_not_found, mask, ◌==◌, int_eq, list_eq, nat_eq, if◌then◌else◌,
  false, ◌||◌, true,
}
use charmstore_client.Base.Dict
use charmstore_client.Base.Dict.{Dict}
use charmstore_client.Base.Sort.{sort_by, str_leb}
use charmstore_client.Charm.{Url}
use charmstore_client.Ingest.Entity.{EntityInfo, BundleCharm, base_entity_id}
use charmstore_client.Ingest.Client.{Client, Source, Reader, Permission, Reply, Upload}

-- params.Resource, as far as the shim reads it
pub record Resource : Type 0 where
  pub name : Str
  pub revision : ℤ

-- An application of a bundle. A revision that is not an int is `none`.
pub record Application : Type 0 where
  pub charm : Str
  pub resources : Dict Str (Option ℤ)

-- The answer to the request for the metadata of an entity.
pub record Meta : Type 0 where
  pub id : Url
  pub promulgated_id : Option Url
  pub published : List (Str × Bool)
  pub bundle_metadata : Option (List Application)
  pub archive_size : ℕ
  pub hash : Str
  pub extra_info : Dict Str Str
  pub common_info : Dict Str Str
  pub resources : List Resource

-- What the shim asks of csclient.Client. A channel comes first where the request has one.
pub record Library : Type 1 where
  pub State : Type 0
  pub meta : Str → Url → State → Result Error Meta
  pub all_perms : Str → Url → State → Result Error (Dict Str Permission)
  pub put_perm : Str → Url → Permission → State → Reply × State
  pub get_archive : Url → State → Result Error Str
  pub upload_archive : Url → Upload → State → Reply × State
  pub put_meta_extra_info : Url → Dict Str (Option Str) → State → Reply × State
  pub publish : Url → List Str → Dict Str ℤ → State → Reply × State
  pub meta_resource : Url → Str → ℤ → State → Result Error Resource
  pub get_resource : Url → Str → ℤ → State → Result Error (Reader × ℕ)
  pub upload_resource : Url → Str → ℤ → Str → State → Reply × State

-- e.channels[p.Channel] = p.Current
unfoldable pub published_channels : Dict Str Bool → List (Str × Bool) → Dict Str Bool
published_channels channels [] = channels
published_channels channels ((ch, current) ∷ info) =
    published_channels (Dict.insert ch current channels) info

-- e.resources[r.Name] = []int{r.Revision}
unfoldable pub listed_resources : Dict Str (List ℤ) → List Resource → Dict Str (List ℤ)
listed_resources d [] = d
listed_resources d (r ∷ rs) =
    listed_resources (if r.revision == minus_one then d else Dict.insert r.name (r.revision ∷ []) d)
      rs

-- The resources of an application without those that are local.
unfoldable pub store_resources : Dict Str (Option ℤ) → Dict Str ℤ
store_resources [] = []
store_resources ((name, none) ∷ resources) = store_resources resources
store_resources ((name, some rev) ∷ resources) = (name, rev) ∷ store_resources resources

unfoldable pub bundle_charms : List Application → List BundleCharm
unfolding store_resources
bundle_charms [] = []
bundle_charms (app ∷ apps) =
    record { charm = app.charm; resources = store_resources app.resources } ∷ bundle_charms apps

abbrev pub le_charm : BundleCharm → BundleCharm → Bool
le_charm b c = str_leb b.charm c.charm

unfoldable pub sort_bundle_charms : List BundleCharm → List BundleCharm
unfolding sort_by
sort_bundle_charms = sort_by le_charm

abbrev pub sorted_charms : Option (List Application) → List BundleCharm
sorted_charms none = []
sorted_charms (some apps) = sort_bundle_charms (bundle_charms apps)

unfoldable pub info_of_meta : Meta → EntityInfo
unfolding published_channels listed_resources bundle_charms sort_bundle_charms
info_of_meta m = record {
  id = m.id;
  promulgated_id = m.promulgated_id;
  channels = published_channels [] m.published;
  bundle_charms = sorted_charms m.bundle_metadata;
  archive_size = m.archive_size;
  hash = m.hash;
  extra_info = m.extra_info;
  common_info = m.common_info;
  resources = listed_resources [] m.resources;
  published_resources = [];
  synced = false;
  archive_copied = false;
}

-- entityInfo behind the request
unfoldable pub entity_info_answer : Result Error Meta → Result Error EntityInfo
unfolding info_of_meta
entity_info_answer (ok m) = ok (info_of_meta m)
entity_info_answer (err e) = if is_not_found e then err not_found else err (masked e)

-- getBaseEntity behind the request: after any other error it goes on with no permissions.
unfoldable pub base_entity_answer :
    Result Error (Dict Str Permission) → Result Error (Dict Str Permission)
base_entity_answer (ok perms) = ok perms
base_entity_answer (err e) = if is_not_found e then err not_found else ok []

abbrev pub is_metadata_not_found : Error → Bool
is_metadata_not_found metadata_not_found = true
is_metadata_not_found _ = false

-- resourceInfo behind the request: after any other error it goes on with the zero resource.
unfoldable pub resource_info_answer : Result Error Resource → Result Error (Unit {0})
resource_info_answer (ok r) = ok tt
resource_info_answer (err e) =
    if is_metadata_not_found e || is_not_found e then err not_found else ok tt

abbrev pub masked_reply : {S : Type 0} → Reply × S → Reply × S
masked_reply (r, s) = (mask r, s)

-- `unpublished` is params.UnpublishedChannel.
module _ (unpublished : Str) (L : Library) where
  abbrev pub shim : Client
  shim = record {
    State = L.State;
    entity_info = λ ch id s. entity_info_answer (L.meta ch id s);
    get_base_entity = λ id s. base_entity_answer (L.all_perms unpublished (base_entity_id id) s);
    put_archive = λ id u s. masked_reply (L.upload_archive id u s);
    put_extra_info = λ id x s. masked_reply (L.put_meta_extra_info id x s);
    set_perm = λ id ch p s. masked_reply (L.put_perm ch id p s);
    publish = λ id chs r s. masked_reply (L.publish id chs r s);
    resource_info = λ id name rev s. resource_info_answer (L.meta_resource id name rev s);
    put_resource = λ id name rev x s. masked_reply (L.upload_resource id name rev x s);
  }

  -- The source store, in a state that does not change during the run.
  abbrev pub shim_source : L.State → Source
  shim_source s = record {
    entity_info = λ ch id. entity_info_answer (L.meta ch id s);
    get_archive = λ id. mask (L.get_archive id s);
    get_resource = λ id name rev. mask (L.get_resource id name rev s);
  }
