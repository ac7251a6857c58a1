-- ===== src/Ingest/Transfer.antt =====
-- transferEntity, publishEntity and transferExistingEntity of ingest.go. The Go functions set fields
-- of the entity that they are handed; here they return it.
pub mod ExtraInfo
use charmstore_client.Base.{
  ℤ, minus_one, Bool, true, false, not, Option, none, some, [], ◌∷◌, ◌++◌, Str, ◌==◌, list_eq,
  nat_eq, if◌then◌else◌, ok, err, Error, newf, notef, is_not_found, Result, map,
}
use charmstore_client.Base.Dict
use charmstore_client.Base.Dict.{Dict}
use charmstore_client.Charm.{Url}
use charmstore_client.Ingest.Entity.{Env, EntityInfo, or_empty}
use charmstore_client.Ingest.Client.{Client, Source, World, Reply, Upload, errorf, request}

-- Add fields that have changed. Go's bytes.Equal takes a missing field for an empty one.
unfoldable pub changed_fields : Dict Str Str → Dict Str Str → Dict Str (Option Str)
changed_fields dest [] = []
changed_fields dest ((k, v) ∷ extra) =
    let rest = changed_fields dest extra in
    if or_empty (Dict.lookup k dest) == v then rest else (k, some v) ∷ rest

-- Add nil entries for fields that exist in destination but not in source.
unfoldable pub removed_fields : Dict Str Str → Dict Str Str → Dict Str (Option Str)
removed_fields extra [] = []
removed_fields extra ((k, _) ∷ dest) =
    let rest = removed_fields extra dest in if Dict.has k extra then rest else (k, none) ∷ rest

unfoldable pub extra_info_changes : Dict Str Str → Dict Str Str → Dict Str (Option Str)
unfolding changed_fields removed_fields
extra_info_changes extra dest = changed_fields dest extra ++ removed_fields extra dest

abbrev promulgated_revision : Option Url → ℤ
promulgated_revision none = minus_one
promulgated_revision (some url) = url.revision

module _ (D : Client) (src : Source) (env : Env) where
  -- What publishEntity does with the answer to a request to publish.
  abbrev pub after_publish :
      EntityInfo → Str → Reply × World D → (World D → Reply × World D) → Reply × World D
  after_publish e ch (ok _, w) rest = rest w
  after_publish e ch (err failure, w) rest =
      (err (notef failure "cannot publish %q to %v" (env.id_string e.id ∷ ch ∷ [])), w)

  abbrev pub publish_request : EntityInfo → Str → World D → Reply × World D
  publish_request e ch =
      request (D.publish e.id (ch ∷ []) (or_empty (Dict.lookup ch e.published_resources)))

  -- The loop over the channels of an entity.
  unfoldable pub publish_channels : EntityInfo → Dict Str Bool → World D → Reply × World D
  publish_channels e [] w = (ok tt, w)
  publish_channels e ((ch, current) ∷ channels) w = elim current [
    | true ↦ after_publish e ch (publish_request e ch w) (publish_channels e channels)
    | false ↦ publish_channels e channels w
  ]

  unfoldable pub publish_entity : EntityInfo → World D → Reply × World D
  unfolding publish_channels
  publish_entity e w = publish_channels e e.channels w

  abbrev pub mark_synced : EntityInfo → Reply × World D → EntityInfo × World D
  mark_synced e (ok _, w) = (record e { synced = true }, w)
  mark_synced e (err failure, w) = (e, errorf failure w)

  -- if err := ing.publishEntity(e); err != nil { ing.errorf("%v", err); return }; e.synced = true
  unfoldable pub publish_and_mark : EntityInfo → World D → EntityInfo × World D
  unfolding publish_entity
  publish_and_mark e w = mark_synced e (publish_entity e w)

  unfoldable pub put_changes : EntityInfo → Dict Str (Option Str) → World D → Reply × World D
  put_changes e [] w = (ok tt, w)
  put_changes e (change ∷ changes) w = request (D.put_extra_info e.id (change ∷ changes)) w

  abbrev extra_info_failed : EntityInfo → Error → World D → World D
  extra_info_failed e failure =
      errorf (notef failure "failed to set extra-info for %q" (env.id_string e.id ∷ []))

  abbrev pub after_changes : EntityInfo → Reply × World D → EntityInfo × World D
  after_changes e (ok _, w) = publish_and_mark e w
  after_changes e (err failure, w) = (e, extra_info_failed e failure w)

  unfoldable pub transfer_existing_entity : EntityInfo → EntityInfo → World D → EntityInfo × World D
  unfolding extra_info_changes put_changes publish_and_mark
  transfer_existing_entity e dest w =
      if not (dest.archive_size == e.archive_size)
      then (e, errorf (newf "%q already exists with different size" (env.id_string e.id ∷ [])) w)
      else if not (dest.hash == e.hash)
      then (e, errorf (newf "%q already exists with different hash" (env.id_string e.id ∷ [])) w)
      else after_changes e (put_changes e (extra_info_changes e.extra_info dest.extra_info) w)

  abbrev pub upload : EntityInfo → Upload
  upload e = record {
    content = src.get_archive e.id;
    hash = e.hash;
    size = e.archive_size;
    promulgated_revision = promulgated_revision e.promulgated_id;
    channels = Dict.keys e.channels;
  }

  -- A failed upload is reported, and the transfer goes on.
  abbrev pub uploaded : EntityInfo → Reply × World D → World D
  uploaded e (ok _, w) = w
  uploaded e (err failure, w) =
      errorf (notef failure "failed to upload archive for %v" (env.id_string e.id ∷ [])) w

  abbrev pub copied : EntityInfo → Reply × World D → EntityInfo × World D
  copied e (ok _, w) = (e, w)
  copied e (err failure, w) = (e, extra_info_failed e failure w)

  abbrev pub all_fields : Dict Str Str → Dict Str (Option Str)
  all_fields = map (λ (f : Str × Str). (f.0, some f.1))

  -- The entity does not exist in the destination, so copy it.
  unfoldable pub copy_entity : EntityInfo → World D → EntityInfo × World D
  copy_entity e w =
      let w' = uploaded e (request (D.put_archive e.id (upload e)) w) in
      copied (record e { archive_copied = true })
        (request (D.put_extra_info e.id (all_fields e.extra_info)) w')

  -- transferEntity behind its question to the destination
  abbrev pub after_lookup : EntityInfo → Result Error EntityInfo → World D → EntityInfo × World D
  after_lookup e (ok dest) w = transfer_existing_entity e dest w
  after_lookup e (err failure) w = if is_not_found failure then copy_entity e w else (
    e,
    errorf
        (notef failure "failed to get information from destination charmstore on %q"
          (env.id_string e.id ∷ []))
        w,
  )

  unfoldable pub transfer_entity : EntityInfo → World D → EntityInfo × World D
  unfolding transfer_existing_entity copy_entity
  transfer_entity e w = after_lookup e (D.entity_info env.no_channel e.id w.dest) w
