-- ===== src/Ingest/Run/Complete/Rest.antt =====
-- The transfer of resources and of permissions, as parts of a run.
use charmstore_client.Base.{
  Bool, true, false, List, [], ◌∷◌, Str, ℕ, Result, ok, err, Error, is_not_found, contains, ◌==◌,
  list_eq, nat_eq, int_eq, pair_eq, if◌then◌else◌,
}
use charmstore_client.Base.Dict
use charmstore_client.Base.Dict.{Dict}
use charmstore_client.Charm.{Url}
use charmstore_client.Ingest.Entity.{Env, EntityInfo, BaseEntity}
use charmstore_client.Ingest.Client.{Client, Source, Reader, World, Reply, Permission, request}
use charmstore_client.Ingest.Resources.{
  Job, ResourceId, Disk, resource_id, get_disk, close_file, report_put, copy_file, after_copy,
  send_content, with_file, with_resource, with_answer, transfer_resource, transfer_jobs,
  transfer_resources, jobs,
}
use charmstore_client.Ingest.Permissions.{
  all_default, public_perm, after_perm, grant_channels, grant_entities, with_perms,
  transfer_base_entity, transfer_base_entities,
}
use charmstore_client.Ingest.Run.Complete.{IsStore, Sound, Sound-refl, Sound-trans, errorf-Sound}

module _ (D : Client) (src : Source) (env : Env) (L : IsStore D env) where
  if-Sound :
      (b : Bool) (w x y : World D)
      → Sound D env w x
      → Sound D env w y
      → Sound D env w (if b then x else y)
  if-Sound true w x y h k = h
  if-Sound false w x y h k = k

  module _ (d : Disk) where
    report_put-Sound :
        (j : Job) (r : Reply) (w : World D) → Sound D env w (report_put D src env d j (r, w))
    report_put-Sound j (ok _) w = Sound-refl D env w
    report_put-Sound j (err e) w = errorf-Sound D env _ w

    after_copy-Sound :
        (j : Job) (content : Str) (size : ℕ) (r : Result Error ℕ) (w : World D)
        → Sound D env w (after_copy D src env d j content size r w)
    after_copy-Sound j content size (err e) w = errorf-Sound D env _ w
    after_copy-Sound j content size (ok n) w =
        let (r, w1) = request (D.put_resource j.entity_id j.name j.rev content) w in
        if-Sound (n == size) w _ _
          (Sound-trans D env
            (record {
              clean = λ h. h;
              keeps = L.resource_kept j.entity_id j.name j.rev content w.dest;
            })
            (report_put-Sound j r w1))
          (errorf-Sound D env _ w)

    send_content-Sound :
        (j : Job) (reader : Reader) (size : ℕ) (w : World D)
        → Sound D env w (send_content D src env d j reader size w)
    unfolding send_content
    send_content-Sound j reader size w =
        after_copy-Sound j reader.0 size (copy_file d j reader size) w

    close_file-Sound :
        (r : Result Error (Unit {0})) (w : World D) → Sound D env w (close_file D src env d r w)
    close_file-Sound (ok _) w = Sound-refl D env w
    close_file-Sound (err e) w = errorf-Sound D env e w

    with_file-Sound :
        (j : Job) (reader : Reader) (size : ℕ) (r : Result Error (Unit {0})) (w : World D)
        → Sound D env w (with_file D src env d j reader size r w)
    with_file-Sound j reader size (ok _) w =
        Sound-trans D env (send_content-Sound j reader size w)
          (close_file-Sound (d.remove_file j) _)
    with_file-Sound j reader size (err e) w = errorf-Sound D env _ w

    with_resource-Sound :
        (j : Job) (r : Result Error (Reader × ℕ)) (w : World D)
        → Sound D env w (with_resource D src env d j r w)
    with_resource-Sound j (ok (reader, size)) w =
        with_file-Sound j reader size (get_disk d j size) w
    with_resource-Sound j (err e) w = errorf-Sound D env _ w

    with_answer-Sound :
        (j : Job) (r : Result Error (Unit {0})) (w : World D)
        → Sound D env w (with_answer D src env d j r w)
    with_answer-Sound j (ok _) w = Sound-refl D env w
    with_answer-Sound j (err e) w =
        if-Sound (is_not_found e) w _ _
          (with_resource-Sound j (src.get_resource j.entity_id j.name j.rev) w)
          (errorf-Sound D env e w)

    transfer_jobs-Sound :
        (js : List Job) (done : List ResourceId) (w : World D)
        → Sound D env w (transfer_jobs D src env d js done w).1
    unfolding transfer_jobs transfer_resource
    transfer_jobs-Sound [] done w = Sound-refl D env w
    transfer_jobs-Sound (j ∷ js) done w =
        let id = resource_id D src env d j in
        let w1 = transfer_resource D src env d j w in
        elim (contains done id)
          as (λ b.
            Sound D env w
              (elim b as (λ _. List ResourceId × World D) [
                | true ↦ transfer_jobs D src env d js done w
                | false ↦ transfer_jobs D src env d js (id ∷ done) w1
              ]).1) [
                | true ↦ transfer_jobs-Sound js done w
                | false ↦
                    Sound-trans D env
                      (with_answer-Sound j (D.resource_info j.entity_id j.name j.rev w.dest) w)
                      (transfer_jobs-Sound js (id ∷ done) w1)
              ]

    pub transfer_resources-Sound :
        (bases : Dict Str BaseEntity) (w : World D)
        → Sound D env w (transfer_resources D src env d bases w).1
    unfolding transfer_resources
    transfer_resources-Sound bases w = transfer_jobs-Sound (jobs bases) [] w

  module _ (owner : Str) where
    after_perm-Sound :
        (id : Url) (ch : Str) (done : List Str) (r : Reply) (w : World D)
        → Sound D env w (after_perm D env owner id ch done (r, w)).1
    after_perm-Sound id ch done (ok _) w = Sound-refl D env w
    after_perm-Sound id ch done (err e) w = errorf-Sound D env _ w

    grant_channels-Sound :
        (id : Url) (chs : List Str) (done : List Str) (w : World D)
        → Sound D env w (grant_channels D env owner id chs (done, w)).1
    unfolding grant_channels
    grant_channels-Sound id [] done w = Sound-refl D env w
    grant_channels-Sound id (ch ∷ chs) done w =
        let perm = public_perm D env owner in
        let (r, w1) = request (D.set_perm id ch perm) w in
        let (done', w2) = after_perm D env owner id ch done (r, w1) in
        elim (contains done ch)
          as (λ b.
            Sound D env w
              (elim b as (λ _. List Str × World D) [
                | true ↦ grant_channels D env owner id chs (done, w)
                | false ↦ grant_channels D env owner id chs (done', w2)
              ]).1) [
                | true ↦ grant_channels-Sound id chs done w
                | false ↦
                    Sound-trans D env
                      (record { clean = λ h. h; keeps = L.perm_kept id ch perm w.dest })
                      (Sound-trans D env (after_perm-Sound id ch done r w1)
                        (grant_channels-Sound id chs done' w2))
              ]

    grant_entities-Sound :
        (entities : Dict Str EntityInfo) (done : List Str) (w : World D)
        → Sound D env w (grant_entities D env owner entities (done, w)).1
    unfolding grant_entities
    grant_entities-Sound [] done w = Sound-refl D env w
    grant_entities-Sound ((_, e) ∷ entities) done w =
        let (done', w1) = grant_channels D env owner e.id (Dict.keys e.channels) (done, w) in
        Sound-trans D env (grant_channels-Sound e.id (Dict.keys e.channels) done w)
          (grant_entities-Sound entities done' w1)

    with_perms-Sound :
        (base : BaseEntity) (r : Result Error (Dict Str Permission)) (w : World D)
        → Sound D env w (with_perms D env owner base r w)
    with_perms-Sound base (ok perms) w =
        if-Sound (all_default base.base_id perms) w _ _ (grant_entities-Sound base.entities [] w)
          (Sound-refl D env w)
    with_perms-Sound base (err e) w =
        if-Sound (is_not_found e) w _ _ (errorf-Sound D env _ w) (errorf-Sound D env _ w)

    pub transfer_base_entities-Sound :
        (bases : Dict Str BaseEntity) (w : World D)
        → Sound D env w (transfer_base_entities D env owner bases w)
    unfolding transfer_base_entities transfer_base_entity
    transfer_base_entities-Sound [] w = Sound-refl D env w
    transfer_base_entities-Sound ((_, base) ∷ bases) w =
        Sound-trans D env (with_perms-Sound base (D.get_base_entity base.base_id w.dest) w)
          (transfer_base_entities-Sound bases (transfer_base_entity D env owner base w))
