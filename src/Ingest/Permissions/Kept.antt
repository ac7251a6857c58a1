-- ===== src/Ingest/Permissions/Kept.antt =====
-- When transferBaseEntity of ingest.go leaves the permissions of a base entity alone, and the
-- requests by which it sets them otherwise.
use charmstore_client.Base.{
  ◌≡◌, refl, ◌∙◌, true, false, not, ◌&&◌, some, List, [], ◌∷◌, ◌++◌, Str, list_eq, nat_eq, arith,
  ok, pos, contains, Distinct, map, codes, Bool-cases, inl, inr, ap,
}
use charmstore_client.Base.Dict
use charmstore_client.Base.Dict.{Dict}
use charmstore_client.Charm.{Url}
use charmstore_client.Ingest.Entity.{Env, EntityInfo, BaseEntity}
use charmstore_client.Ingest.Client.{Client, World, Permission, Reply, request}
use charmstore_client.Ingest.Permissions.{
  is_default_perm, all_default, transfer_base_entity, with_perms, grant_channels, grant_entities,
  after_perm,
}

all_default-lookup :
    (id : Url) (perms : Dict Str Permission) (ch : Str) (perm : Permission)
    → Dict.lookup ch perms ≡ some perm
    → is_default_perm id perm ≡ false
    → all_default id perms ≡ false
unfolding all_default Dict.lookup
all_default-lookup id [] ch perm found changed = ground arith
all_default-lookup id ((j, p) ∷ perms) ch perm found changed =
    ground (arith, all_default-lookup id perms ch perm)

-- If the permissions of the base entity in one channel are not those of a first upload, its transfer
-- changes nothing and reports nothing.
pub transfer_base_entity_kept :
    (D : Client) (env : Env) (owner : Str) (base : BaseEntity) (w : World D)
    (perms : Dict Str Permission) (ch : Str) (perm : Permission)
    → D.get_base_entity base.base_id w.dest ≡ ok perms
    → Dict.lookup ch perms ≡ some perm
    → is_default_perm base.base_id perm ≡ false
    → transfer_base_entity D env owner base w ≡ w
unfolding transfer_base_entity
transfer_base_entity_kept D env owner base w perms ch perm known found changed =
    rw (known, with_perms, all_default-lookup base.base_id perms ch perm found changed)

-- A list without some of its items
pub data Sublist {A : Type 0} : List A → List A → Type 0 where
  nothing : Sublist [] []
  skip : {x : A} {l m : List A} → Sublist l m → Sublist l (x ∷ m)
  keep : {x : A} {l m : List A} → Sublist l m → Sublist (x ∷ l) (x ∷ m)

-- The store takes every permission.
abbrev pub AcceptsPerms : Client → Type 0
AcceptsPerms D =
    (id : Url) (ch : Str) (p : Permission) (s : D.State) → (D.set_perm id ch p s).0 ≡ ok tt

module _ (D : Client) (env : Env) (owner : Str) (accepts : AcceptsPerms D) where
  -- Everyone reads, and the owner writes.
  abbrev pub open_perm : Permission
  open_perm = record { read = codes "everyone" ∷ []; write = owner ∷ [] }

  -- The requests that open some channels, in their order
  unfoldable pub open_each : List (Url × Str) → World D → World D
  open_each [] w = w
  open_each ((id, ch) ∷ ps) w = open_each ps (request (D.set_perm id ch open_perm) w).1

  abbrev pub channels_of : List (Url × Str) → List Str
  channels_of = map (λ p. p.1)

  -- The channels of an entity, and of all the entities, each with the id of its entity
  abbrev pub with_id : Url → List Str → List (Url × Str)
  with_id id = map (λ ch. (id, ch))

  abbrev pub all_channels : Dict Str EntityInfo → List (Url × Str)
  all_channels [] = []
  all_channels ((_, e) ∷ entities) = with_id e.id (Dict.keys e.channels) ++ all_channels entities

  -- `g` is what the loops over `all` make of `done` and `w`.
  record Opens (all : List (Url × Str)) (done : List Str) (w : World D) (g : List Str × World D)
      : Type 0 where
    opened : List (Url × Str)
    asked : Sublist opened all
    world : g.1 ≡ open_each opened w
    distinct : Distinct (channels_of opened)
    same :
        (ch : Str)
        → contains (channels_of opened) ch
          ≡ (contains (channels_of all) ch && not (contains done ch))
    quiet : g.1.errors ≡ w.errors

  grant : Url → List Str → List Str × World D → List Str × World D
  grant = grant_channels D env owner

  after_perm_accepted :
      (id : Url) (ch : Str) (done : List Str) (r : Reply) (w : World D)
      → r ≡ ok tt
      → after_perm D env owner id ch done (r, w) ≡ (ch ∷ done, w)
  after_perm_accepted id ch done r w h = rw h

  grant_seen :
      (id : Url) (c : Str) (chs done : List Str) (w : World D)
      → contains done c ≡ true
      → grant id (c ∷ chs) (done, w) ≡ grant id chs (done, w)
  unfolding grant grant_channels
  grant_seen id c chs done w seen = rw (grant_channels, seen)

  grant_fresh :
      (id : Url) (c : Str) (chs done : List Str) (w : World D)
      → contains done c ≡ false
      → grant id (c ∷ chs) (done, w)
        ≡ grant id chs (c ∷ done, (request (D.set_perm id c open_perm) w).1)
  unfolding grant grant_channels
  grant_fresh id c chs done w fresh =
      rw (grant_channels, fresh)
        (ap (grant id chs) (after_perm_accepted id c done _ _ (accepts id c open_perm w.dest)))

  grant_rest : Dict Str EntityInfo → List Str × World D → List Str × World D
  grant_rest = grant_entities D env owner

  grant_next :
      (k : Str) (e : EntityInfo) (entities : Dict Str EntityInfo) (id : Url) (done : List Str)
      (w : World D)
      → grant_rest ((k, e) ∷ entities) (grant id [] (done, w))
        ≡ grant_rest entities (grant e.id (Dict.keys e.channels) (done, w))
  unfolding grant_rest grant grant_entities grant_channels
  grant_next k e entities id done w = refl

  grant-Opens :
      (entities : Dict Str EntityInfo) (id : Url) (chs done : List Str) (w : World D)
      → Opens
          (with_id id chs ++ all_channels entities)
          done
          w
          (grant_rest entities (grant id chs (done, w)))
  unfolding open_each
  grant-Opens [] id [] done w =
      unfold grant_rest grant grant_entities grant_channels in
      record {
        opened = [];
        asked = nothing;
        world = refl;
        distinct = tt;
        same = λ ch. refl;
        quiet = refl;
      }
  grant-Opens ((k, e) ∷ entities) id [] done w =
      rw (grant_next k e entities id done w)
        (grant-Opens entities e.id (Dict.keys e.channels) done w)
  grant-Opens entities id (c ∷ chs) done w = elim (Bool-cases (contains done c)) [
    | inl seen ↦
        let x = grant-Opens entities id chs done w in
        rw (grant_seen id c chs done w seen) (record {
          opened = x.opened;
          asked = skip x.asked;
          world = x.world;
          distinct = x.distinct;
          same = λ ch. x.same ch ∙ ground arith;
          quiet = x.quiet;
        })
    | inr fresh ↦
        let x = grant-Opens entities id chs (c ∷ done) _ in
        rw (grant_fresh id c chs done w fresh) (record {
          opened = (id, c) ∷ x.opened;
          asked = keep x.asked;
          world = x.world;
          distinct = (x.same c ∙ ground arith, x.distinct);
          same = λ ch. ground (arith, x.same ch);
          quiet = x.quiet;
        })
  ]

  -- In a store that takes every permission, all that is done is that some channels of the entities
  -- are opened one after the other: for each, everyone becomes its reader and the owner its writer,
  -- on an entity that has the channel. The opened channels are distinct, they are exactly the
  -- channels of the entities, and no error is reported.
  pub grant_entities_once :
      (entities : Dict Str EntityInfo) (w : World D)
      → let g = grant_entities D env owner entities ([], w) in
        (opened : List (Url × Str)) × Sublist opened (all_channels entities)
        × (g.1 ≡ open_each opened w)
        × Distinct (channels_of opened)
        × ((ch : Str)
            → contains (channels_of opened) ch ≡ contains (channels_of (all_channels entities)) ch)
        × (g.1.errors ≡ w.errors)
  unfolding open_each
  grant_entities_once entities w =
      let x : Opens (all_channels entities) [] w (grant_entities D env owner entities ([], w)) =
        unfold grant_rest grant grant_channels in
        grant-Opens entities
          (record { schema = []; user = []; name = []; revision = pos 0; series = [] }) [] [] w in
      (x.opened, x.asked, x.world, x.distinct, λ ch. x.same ch ∙ ground arith, x.quiet)
