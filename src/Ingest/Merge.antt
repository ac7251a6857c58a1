-- ===== src/Ingest/Merge.antt =====
-- The receiving loop of resolveWhitelist: what arrives on the channel, in any order, is merged into
-- a map from base entities to their entities.
pub mod AnyOrder
use charmstore_client.Base.{
  ℤ, pos, negsuc, Bool, true, false, ◌||◌, Option, none, some, List, [], ◌∷◌, Str, list_eq, nat_eq,
  if◌then◌else◌, leb, map,
}
use charmstore_client.Base.Dict
use charmstore_client.Base.Dict.{Dict}
use charmstore_client.Charm.{Url}
use charmstore_client.Ingest.Entity.{
  Env, EntityInfo, BaseEntity, base_entity_id, append_resources, add_published_resources,
}

abbrev pub or_false : Option Bool → Bool
or_false none = false
or_false (some b) = b

-- for ch, current := range e.channels { entity.channels[ch] = current || entity.channels[ch] }
unfoldable pub add_channels : Dict Str Bool → Dict Str Bool → Dict Str Bool
add_channels channels [] = channels
add_channels channels ((ch, current) ∷ more) =
    add_channels (Dict.insert ch (current || or_false (Dict.lookup ch channels)) channels) more

-- What the loop does to an entity that it has seen before.
unfoldable pub merge_entity : EntityInfo → EntityInfo → EntityInfo
unfolding add_channels
merge_entity entity e = record entity {
  channels = add_channels entity.channels e.channels;
  resources = append_resources entity.resources e.resources;
  published_resources = add_published_resources entity.published_resources e.published_resources;
}

abbrev pub known_entity : Option EntityInfo → EntityInfo → EntityInfo
known_entity none e = e
known_entity (some entity) e = merge_entity entity e

-- sort.Ints
abbrev pub le_int : ℤ → ℤ → Bool
le_int (pos a) (pos b) = leb a b
le_int (pos a) (negsuc b) = false
le_int (negsuc a) (pos b) = true
le_int (negsuc a) (negsuc b) = leb b a

pub sorted_insert : ℤ → List ℤ → List ℤ
sorted_insert x [] = x ∷ []
sorted_insert x (y ∷ l) = if le_int x y then x ∷ y ∷ l else y ∷ sorted_insert x l

unfoldable pub sort_ints : List ℤ → List ℤ
unfolding sorted_insert
sort_ints [] = []
sort_ints (x ∷ l) = sorted_insert x (sort_ints l)

module _ (env : Env) where
  abbrev pub base_key : EntityInfo → Str
  base_key e = env.id_string (base_entity_id e.id)

  abbrev pub key : EntityInfo → Str
  key e = env.id_string e.id

  abbrev pub known_base : Option BaseEntity → EntityInfo → BaseEntity
  known_base none e = record { base_id = base_entity_id e.id; entities = [] }
  known_base (some base) e = base

  abbrev pub add_entity : BaseEntity → EntityInfo → BaseEntity
  add_entity base e = record base {
    entities =
        Dict.insert (key e) (known_entity (Dict.lookup (key e) base.entities) e) base.entities;
  }

  -- One round of the loop over the channel.
  unfoldable pub merge : Dict Str BaseEntity → EntityInfo → Dict Str BaseEntity
  unfolding merge_entity
  merge bases e =
      Dict.insert (base_key e) (add_entity (known_base (Dict.lookup (base_key e) bases) e) e) bases

  unfoldable pub merge_all : Dict Str BaseEntity → List EntityInfo → Dict Str BaseEntity
  unfolding merge
  merge_all bases [] = bases
  merge_all bases (e ∷ received) = merge_all (merge bases e) received

abbrev sort_entity : EntityInfo → EntityInfo
sort_entity e = record e {
  resources = map (λ (r : Str × List ℤ). (r.0, sort_ints r.1)) e.resources;
}

-- Sort all resource revisions.
unfoldable pub sort_revisions : Dict Str BaseEntity → Dict Str BaseEntity
unfolding sort_ints
sort_revisions [] = []
sort_revisions ((k, base) ∷ bases) =
    (
      k,
      record base {
        entities = map (λ (e : Str × EntityInfo). (e.0, sort_entity e.1)) base.entities;
      },
    )
    ∷ sort_revisions bases
