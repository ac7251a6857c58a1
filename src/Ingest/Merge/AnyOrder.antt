-- ===== src/Ingest/Merge/AnyOrder.antt =====
-- The receiving loop of resolveWhitelist and the order of what it receives: which entities are there,
-- their current channels and the revisions of their resources. The published resources are left aside:
-- addPublishedResources loses those of a channel that is new.
use charmstore_client.Base.{
  ℤ, ◌≡◌, refl, ◌∙◌, Bool, true, false, ◌&&◌, ◌||◌, Option, none, some, List, [], ◌∷◌, ◌++◌, Str,
  ◌==◌, list_eq, nat_eq, int_eq, if◌then◌else◌, arith, All, contains, contains-append, Bool-cases,
  inl, inr,
}
use charmstore_client.Base.Dict
use charmstore_client.Base.Dict.{Dict, lookup-insert, NodupKeys, contains-keys}
use charmstore_client.Ingest.Entity.{Env, EntityInfo, BaseEntity, or_empty, append_resources}
use charmstore_client.Ingest.Merge.{
  or_false, add_channels, merge_entity, known_entity, base_key, key, known_base, add_entity, merge,
  merge_all,
}

module _ (ch : Str) where
  abbrev pub flag : Dict Str Bool → Bool
  flag channels = or_false (Dict.lookup ch channels)

  flag-add_channels :
      (c0 c1 : Dict Str Bool) → NodupKeys c1 → flag (add_channels c0 c1) ≡ (flag c0 || flag c1)
  unfolding add_channels Dict.lookup
  flag-add_channels c0 [] u = ground arith
  flag-add_channels c0 ((j, b) ∷ c1) (fresh, u) =
      flag-add_channels (Dict.insert j (b || or_false (Dict.lookup j c0)) c0) c1 u
      ∙ rw lookup-insert (ground (arith, contains-keys c1 j))

module _ (name : Str) (rev : ℤ) where
  abbrev pub has_revision : Dict Str (List ℤ) → Bool
  has_revision resources = contains (or_empty (Dict.lookup name resources)) rev

  has_revision-append_resources :
      (r0 r1 : Dict Str (List ℤ))
      → NodupKeys r1
      → has_revision (append_resources r0 r1) ≡ (has_revision r0 || has_revision r1)
  unfolding append_resources Dict.lookup
  has_revision-append_resources r0 [] u = ground arith
  has_revision-append_resources r0 ((j, revs) ∷ r1) (fresh, u) =
      has_revision-append_resources (Dict.insert j (or_empty (Dict.lookup j r0) ++ revs) r0) r1 u
      ∙ rw lookup-insert (
          ground
            (arith, contains-keys r1 j, contains-append (or_empty (Dict.lookup j r0)) revs rev))

-- What is known of an entity: that it is there, the channels in which it is current, and the
-- revisions of its resources.
pub data Fact : Type 0 where
  present : Fact
  current : Str → Fact
  revision : Str → ℤ → Fact

abbrev pub fact_of : Fact → EntityInfo → Bool
fact_of present e = true
fact_of (current ch) e = flag ch e.channels
fact_of (revision name rev) e = has_revision name rev e.resources

abbrev pub fact : Fact → Option EntityInfo → Bool
fact f none = false
fact f (some e) = fact_of f e

-- As the maps of Go, those of a received entity have no key twice.
abbrev pub HasMaps : EntityInfo → Type 0
HasMaps e = NodupKeys e.channels × NodupKeys e.resources

fact-known_entity :
    (f : Fact) (o : Option EntityInfo) (e : EntityInfo)
    → HasMaps e
    → fact f (some (known_entity o e)) ≡ (fact f o || fact_of f e)
unfolding merge_entity
fact-known_entity f none e u = refl
fact-known_entity present (some o) e u = refl
fact-known_entity (current ch) (some o) e u = flag-add_channels ch o.channels e.channels u.0
fact-known_entity (revision name rev) (some o) e u =
    has_revision-append_resources name rev o.resources e.resources u.1

module _ (env : Env) (bk k : Str) where
  abbrev pub in_base : Option BaseEntity → Option EntityInfo
  in_base none = none
  in_base (some base) = Dict.lookup k base.entities

  -- The entity under the key `k` of the base entity under the key `bk`.
  abbrev pub entity_at : Dict Str BaseEntity → Option EntityInfo
  entity_at bases = in_base (Dict.lookup bk bases)

  abbrev pub goes_there : EntityInfo → Bool
  goes_there e = bk == base_key env e && k == key env e

  -- What the received entities say about the one under the two keys, in any order.
  abbrev pub any_fact : Fact → List EntityInfo → Bool
  any_fact f [] = false
  any_fact f (e ∷ received) = (goes_there e && fact_of f e) || any_fact f received

  lookup-known_base :
      (o : Option BaseEntity) (e : EntityInfo)
      → Dict.lookup k (known_base env o e).entities ≡ in_base o
  unfolding Dict.lookup
  lookup-known_base none e = refl
  lookup-known_base (some base) e = refl

  entity_at-merge :
      (bases : Dict Str BaseEntity) (e : EntityInfo)
      → entity_at (merge env bases e)
        ≡ (if goes_there e then some (known_entity (entity_at bases) e) else entity_at bases)
  unfolding merge
  entity_at-merge bases e =
      let old = Dict.lookup (base_key env e) bases in
      let base = known_base env old e in
      ground (
        arith,
        lookup-insert bk (base_key env e) (add_entity env base e) bases,
        lookup-insert k (key env e) (known_entity (Dict.lookup (key env e) base.entities) e)
            base.entities,
        lookup-known_base old e,
      )

  fact-merge :
      (f : Fact) (bases : Dict Str BaseEntity) (e : EntityInfo)
      → HasMaps e
      → fact f (entity_at (merge env bases e))
        ≡ (fact f (entity_at bases) || (goes_there e && fact_of f e))
  fact-merge f bases e u = rw (entity_at-merge bases e) (elim (Bool-cases (goes_there e)) [
    | inl there ↦ rw there (fact-known_entity f (entity_at bases) e u)
    | inr elsewhere ↦ rw elsewhere (ground arith)
  ])

  fact-merge_all :
      (f : Fact) (bases : Dict Str BaseEntity) (received : List EntityInfo)
      → All HasMaps received
      → fact f (entity_at (merge_all env bases received))
        ≡ (fact f (entity_at bases) || any_fact f received)
  unfolding merge_all
  fact-merge_all f bases [] u = ground arith
  fact-merge_all f bases (e ∷ received) (m, u) =
      fact-merge_all f (merge env bases e) received u ∙ rw (fact-merge f bases e m) (ground arith)

-- After the loop an entity is there, is current in a channel, or has a revision of a resource,
-- exactly if one of the received entities with its base URL and its URL says so, wherever it stands
-- among them.
pub merge_all_any_order :
    (env : Env) (bk k : Str) (f : Fact) (received : List EntityInfo)
    → All HasMaps received
    → fact f (entity_at env bk k (merge_all env [] received)) ≡ any_fact env bk k f received
unfolding Dict.lookup
merge_all_any_order env bk k f received u = fact-merge_all env bk k f [] received u
