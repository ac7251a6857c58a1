-- ===== src/Ingest/Permissions.antt =====
-- transferBaseEntities and transferBaseEntity of ingest.go.
pub mod Kept
use charmstore_client.Base.{
  Bool, true, false, ◌&&◌, List, [], ◌∷◌, Str, codes, ◌==◌, list_eq, nat_eq, if◌then◌else◌, ok, err,
  Error, Result, newf, notef, is_not_found, contains,
}
use charmstore_client.Base.Dict
use charmstore_client.Base.Dict.{Dict}
use charmstore_client.Charm.{Url}
use charmstore_client.Ingest.Entity.{Env, EntityInfo, BaseEntity}
use charmstore_client.Ingest.Client.{Client, World, Reply, Permission, errorf, request}

abbrev only : Str → List Str → Bool
only user (u ∷ []) = u == user
only user _ = false

-- The permissions that an entity gets on first upload.
unfoldable pub is_default_perm : Url → Permission → Bool
is_default_perm id perm = only id.user perm.read && only id.user perm.write

unfoldable pub all_default : Url → Dict Str Permission → Bool
unfolding is_default_perm
all_default id [] = true
all_default id ((_, perm) ∷ perms) = is_default_perm id perm && all_default id perms

module _ (D : Client) (env : Env) (owner : Str) where
  abbrev pub public_perm : Permission
  public_perm = record { read = codes "everyone" ∷ []; write = owner ∷ [] }

  -- The channels that are done, and the world.
  abbrev pub Granted : Type 0
  Granted = List Str × World D

  abbrev pub after_perm : Url → Str → List Str → Reply × World D → Granted
  after_perm id ch done (ok _, w) = (ch ∷ done, w)
  after_perm id ch done (err e, w) =
      (done, errorf (notef e "cannot set perm on %v (channel %s)" (env.id_string id ∷ ch ∷ [])) w)

  unfoldable pub grant_channels : Url → List Str → Granted → Granted
  grant_channels id [] (done, w) = (done, w)
  grant_channels id (ch ∷ chs) (done, w) = elim (contains done ch) [
    | true ↦ grant_channels id chs (done, w)
    | false ↦
        grant_channels id chs (after_perm id ch done (request (D.set_perm id ch public_perm) w))
  ]

  unfoldable pub grant_entities : Dict Str EntityInfo → Granted → Granted
  unfolding grant_channels
  grant_entities [] g = g
  grant_entities ((_, e) ∷ entities) g =
      grant_entities entities (grant_channels e.id (Dict.keys e.channels) g)

  -- transferBaseEntity behind its question to the destination
  abbrev pub with_perms : BaseEntity → Result Error (Dict Str Permission) → World D → World D
  with_perms base (ok perms) w =
      if all_default base.base_id perms then (grant_entities base.entities ([], w)).1 else w
  with_perms base (err e) w =
      if is_not_found e
      then errorf
          (newf "no base entity found for %v after transferring entities"
            (env.id_string base.base_id ∷ []))
          w
      else errorf (notef e "cannot get base entity for %q" (env.id_string base.base_id ∷ [])) w

  unfoldable pub transfer_base_entity : BaseEntity → World D → World D
  unfolding grant_entities all_default
  transfer_base_entity base w = with_perms base (D.get_base_entity base.base_id w.dest) w

  unfoldable pub transfer_base_entities : Dict Str BaseEntity → World D → World D
  unfolding transfer_base_entity
  transfer_base_entities [] w = w
  transfer_base_entities ((_, base) ∷ bases) w =
      transfer_base_entities bases (transfer_base_entity base w)
