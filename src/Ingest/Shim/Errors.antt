-- ===== src/Ingest/Shim/Errors.antt =====
-- What the ingester makes of the errors that the shim passes over.
use charmstore_client.Base.{◌≡◌, false, ◌||◌, [], err, Error, is_not_found, Str}
use charmstore_client.Ingest.Entity.{Env, BaseEntity, base_entity_id}
use charmstore_client.Ingest.Client.{Source, World}
use charmstore_client.Ingest.Resources.{Disk, Job, transfer_resource}
use charmstore_client.Ingest.Permissions.{grant_entities, transfer_base_entity, all_default}
use charmstore_client.Ingest.Shim.{
  Library, shim, resource_info_answer, base_entity_answer, is_metadata_not_found,
}

module _ (unpublished : Str) (L : Library) (env : Env) where
  -- If the destination answers the question about a resource with an error other than the two that
  -- say that it is not there, the transfer of that resource does nothing at all: nothing is
  -- uploaded and no error is reported.
  pub transfer_resource_passed_over :
      (src : Source) (d : Disk) (j : Job) (w : World (shim unpublished L)) (e : Error)
      → L.meta_resource j.entity_id j.name j.rev w.dest ≡ err e
      → (is_metadata_not_found e || is_not_found e) ≡ false
      → transfer_resource (shim unpublished L) src env d j w ≡ w
  unfolding transfer_resource resource_info_answer
  transfer_resource_passed_over src d j w e failed other = rw (failed, resource_info_answer, other)

  -- If the destination answers the question about the permissions of a base entity with an error
  -- other than not found, they are replaced as if nobody had changed them.
  transfer_base_entity_passed_over :
      (owner : Str) (base : BaseEntity) (w : World (shim unpublished L)) (e : Error)
      → L.all_perms unpublished (base_entity_id base.base_id) w.dest ≡ err e
      → is_not_found e ≡ false
      → transfer_base_entity (shim unpublished L) env owner base w
        ≡ (grant_entities (shim unpublished L) env owner base.entities ([], w)).1
  unfolding transfer_base_entity base_entity_answer all_default
  transfer_base_entity_passed_over owner base w e failed other =
      rw (failed, base_entity_answer, other)
