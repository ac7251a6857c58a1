-- ===== src/Ingest/Entity.antt =====
-- The data of internal/ingest/ingest.go. A nil map and an empty one are both the empty list.
pub mod Published
use charmstore_client.Base.{
  ℕ, ℤ, minus_one, Bool, Option, List, [], ◌∷◌, ◌++◌, Str, codes, ◌==◌, list_eq, nat_eq, is_empty,
  if◌then◌else◌, none, some, Result, Error,
}
use charmstore_client.Base.Dict
use charmstore_client.Base.Dict.{Dict}
use charmstore_client.Charm.{Url}

-- What the libraries provide: the method String of a URL and its parser, params.NoChannel and
-- params.StableChannel.
pub record Env : Type 0 where
  pub id_string : Url → Str
  pub library_parse : Str → Result Error Url
  pub no_channel : Str
  pub stable : Str

pub record WhitelistEntity : Type 0 where
  pub entity_id : Str
  pub channels : List Str
  pub resources : Dict Str (List ℤ)

pub record BundleCharm : Type 0 where
  pub charm : Str
  pub resources : Dict Str ℤ

pub record EntityInfo : Type 0 where
  pub id : Url
  pub promulgated_id : Option Url
  -- true if the revision is the currently published one of the channel
  pub channels : Dict Str Bool
  pub bundle_charms : List BundleCharm
  pub archive_size : ℕ
  pub hash : Str
  pub extra_info : Dict Str Str
  pub common_info : Dict Str Str
  pub resources : Dict Str (List ℤ)
  pub published_resources : Dict Str (Dict Str ℤ)
  pub synced : Bool
  pub archive_copied : Bool

pub record BaseEntity : Type 0 where
  pub base_id : Url
  pub entities : Dict Str EntityInfo

-- e.id.Series == "bundle"
abbrev pub is_bundle : EntityInfo → Bool
is_bundle e = e.id.series == codes "bundle"

-- The "base" version of a URL.
unfoldable pub base_entity_id : Url → Url
base_entity_id url = record url { revision = minus_one; series = [] }

abbrev pub or_empty {ℓ} : {A : Type ℓ} → Option (List A) → List A
or_empty none = []
or_empty (some l) = l

-- for name, revs := range r1 { r0[name] = append(r0[name], revs...) }
unfoldable pub append_resources : Dict Str (List ℤ) → Dict Str (List ℤ) → Dict Str (List ℤ)
append_resources r0 [] = r0
append_resources r0 ((name, revs) ∷ r1) =
    append_resources (Dict.insert name (or_empty (Dict.lookup name r0) ++ revs) r0) r1

-- for resourceName, rev := range resources1 { resources0[resourceName] = rev }
unfoldable pub put_all {ℓ} : {V : Type ℓ} → Dict Str V → Dict Str V → Dict Str V
put_all d [] = d
put_all d ((k, v) ∷ more) = put_all (Dict.insert k v d) more

-- One round of the loop of addPublishedResources. The map of a channel is changed in place if `r0`
-- has one; a new map is filled, but it is not put into `r0`.
abbrev pub add_channel : Dict Str (Dict Str ℤ) → Str → Dict Str ℤ → Dict Str (Dict Str ℤ)
add_channel r0 ch resources1 = if is_empty resources1 then r0 else elim (Dict.lookup ch r0) [
  | none ↦ r0
  | some resources0 ↦ Dict.insert ch (put_all resources0 resources1) r0
]

unfoldable pub add_published_resources :
    Dict Str (Dict Str ℤ) → Dict Str (Dict Str ℤ) → Dict Str (Dict Str ℤ)
unfolding put_all
add_published_resources r0 [] = r0
add_published_resources r0 ((ch, resources1) ∷ r1) =
    add_published_resources (add_channel r0 ch resources1) r1
