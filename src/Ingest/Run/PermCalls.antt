-- ===== src/Ingest/Run/PermCalls.antt =====
-- What requests the last phase adds to the log.
use charmstore_client.Base.{
  refl, Bool, true, false, List, [], ◌∷◌, Str, list_eq, nat_eq, Error, Result, ok, err,
  is_not_found, if◌then◌else◌, int_eq, pair_eq, contains,
}
use charmstore_client.Base.Dict
use charmstore_client.Base.Dict.{Dict}
use charmstore_client.Charm.{Url}
use charmstore_client.Ingest.Entity.{Env, EntityInfo, BaseEntity}
use charmstore_client.Ingest.Client.{Client, World, Reply, request, Permission}
use charmstore_client.Ingest.Trace.{
  set_perm, traced, Extends, Extends-refl, Extends-errorf, Extends-trans,
}
use charmstore_client.Ingest.Permissions.{
  after_perm, public_perm, grant_channels, grant_entities, transfer_base_entity,
  transfer_base_entities, all_default, with_perms,
}
use charmstore_client.Ingest.Run.Calls.{IsSetPerm}

module _ (D : Client) (env : Env) (owner : Str) where
  abbrev pub Grants : World (traced D) → World (traced D) → Type 0
  Grants = Extends D IsSetPerm

  after_perm-Grants :
      (id : Url) (ch : Str) (done : List Str) (r : Reply) (w w' : World (traced D))
      → Grants w w'
      → Grants w (after_perm (traced D) env owner id ch done (r, w')).1
  after_perm-Grants id ch done (ok _) w w' x = x
  after_perm-Grants id ch done (err e) w w' x = Extends-errorf D _ x

  grant_channels-Grants :
      (id : Url) (chs done : List Str) (w : World (traced D))
      → Grants w (grant_channels (traced D) env owner id chs (done, w)).1
  unfolding grant_channels
  grant_channels-Grants id [] done w = Extends-refl D w
  grant_channels-Grants id (ch ∷ chs) done w =
      let put = request ((traced D).set_perm id ch (public_perm (traced D) env owner)) w in
      let next = after_perm (traced D) env owner id ch done put in
      let granted : Grants w next.1 =
        after_perm-Grants id ch done put.0 w put.1
          (record { added = set_perm id ch ∷ []; grown = refl; meets = (tt, tt) }) in
      elim (contains done ch)
        as (λ b.
          Grants w
            (elim b as (λ _. List Str × World (traced D)) [
              | true ↦ grant_channels (traced D) env owner id chs (done, w)
              | false ↦ grant_channels (traced D) env owner id chs next
            ]).1) [
              | true ↦ grant_channels-Grants id chs done w
              | false ↦ Extends-trans D granted (grant_channels-Grants id chs next.0 next.1)
            ]

  grant_entities-Grants :
      (entities : Dict Str EntityInfo) (done : List Str) (w : World (traced D))
      → Grants w (grant_entities (traced D) env owner entities (done, w)).1
  unfolding grant_entities
  grant_entities-Grants [] done w = Extends-refl D w
  grant_entities-Grants ((k, e) ∷ entities) done w =
      let next = grant_channels (traced D) env owner e.id (Dict.keys e.channels) (done, w) in
      Extends-trans D (grant_channels-Grants e.id (Dict.keys e.channels) done w)
        (grant_entities-Grants entities next.0 next.1)

  if-Grants :
      (b : Bool) (w x y : World (traced D))
      → Grants w x
      → Grants w y
      → Grants w (if b then x else y)
  if-Grants true w x y h k = h
  if-Grants false w x y h k = k

  with_perms-Grants :
      (base : BaseEntity) (r : Result Error (Dict Str Permission)) (w : World (traced D))
      → Grants w (with_perms (traced D) env owner base r w)
  with_perms-Grants base (ok perms) w =
      if-Grants (all_default base.base_id perms) w _ _ (grant_entities-Grants base.entities [] w)
        (Extends-refl D w)
  with_perms-Grants base (err e) w =
      if-Grants (is_not_found e) w _ _ (Extends-errorf D _ (Extends-refl D w))
        (Extends-errorf D _ (Extends-refl D w))

  pub transfer_base_entities-Grants :
      (bases : Dict Str BaseEntity) (w : World (traced D))
      → Grants w (transfer_base_entities (traced D) env owner bases w)
  unfolding transfer_base_entities transfer_base_entity
  transfer_base_entities-Grants [] w = Extends-refl D w
  transfer_base_entities-Grants ((k, base) ∷ bases) w =
      Extends-trans D (with_perms-Grants base _ w) (transfer_base_entities-Grants bases _)
