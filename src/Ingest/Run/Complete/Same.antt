-- ===== src/Ingest/Run/Complete/Same.antt =====
-- The archive and the channels of an entity, through the phases of a run.
use charmstore_client.Base.{
  ℕ, ◌≡◌, refl, ◌∙◌, ap, Bool, true, false, not, List, [], ◌∷◌, ◌++◌, Str, Result, ok, err, Error,
  is_not_found, ◌==◌, list_eq, nat_eq, if◌then◌else◌,
}
use charmstore_client.Base.Dict.{Dict}
use charmstore_client.Charm.{Url}
use charmstore_client.Ingest.Entity.{Env, EntityInfo, BaseEntity}
use charmstore_client.Ingest.Client.{Client, Source, World, Reply}
use charmstore_client.Ingest.Transfer.{
  publish_entity, mark_synced, publish_and_mark, after_changes, transfer_existing_entity, copied,
  copy_entity, after_lookup, transfer_entity,
}
use charmstore_client.Ingest.Run.{run_if, each_entity, phase}

abbrev pub Archive : Type 0
Archive = Url × (ℕ × (Str × Dict Str Bool))

-- What identifies the archive of an entity, and its channels.
abbrev pub archive_of : EntityInfo → Archive
archive_of e = (e.id, (e.archive_size, (e.hash, e.channels)))

abbrev pub entity_archives : Dict Str EntityInfo → List Archive
entity_archives [] = []
entity_archives ((_, e) ∷ entities) = archive_of e ∷ entity_archives entities

abbrev pub archives : Dict Str BaseEntity → List Archive
archives [] = []
archives ((_, base) ∷ bases) = entity_archives base.entities ++ archives bases

module _ (D : Client) (task : EntityInfo → World D → EntityInfo × World D)
    (same : (e : EntityInfo) (w : World D) → archive_of (task e w).0 ≡ archive_of e)
    (wanted : EntityInfo → Bool) where
  run_if-archive :
      (b : Bool) (e : EntityInfo) (w : World D) → archive_of (run_if task b e w).0 ≡ archive_of e
  run_if-archive true e w = same e w
  run_if-archive false e w = refl

  each_entity-archives :
      (entities : Dict Str EntityInfo) (w : World D)
      → entity_archives (each_entity task wanted entities w).0 ≡ entity_archives entities
  unfolding each_entity
  each_entity-archives [] w = refl
  each_entity-archives ((k, e) ∷ entities) w =
      let (e', w1) = run_if task (wanted e) e w in
      ap (λ a. a ∷ entity_archives (each_entity task wanted entities w1).0)
        (run_if-archive (wanted e) e w)
      ∙ ap (λ l. archive_of e ∷ l) (each_entity-archives entities w1)

  pub phase-archives :
      (bases : Dict Str BaseEntity) (w : World D)
      → archives (phase task wanted bases w).0 ≡ archives bases
  unfolding phase
  phase-archives [] w = refl
  phase-archives ((k, base) ∷ bases) w =
      let (entities, w1) = each_entity task wanted base.entities w in
      ap (λ l. l ++ archives (phase task wanted bases w1).0) (each_entity-archives base.entities w)
      ∙ ap (λ l. entity_archives base.entities ++ l) (phase-archives bases w1)

module _ (D : Client) (src : Source) (env : Env) where
  if-archive :
      (b : Bool) (e : EntityInfo) (x y : EntityInfo × World D)
      → archive_of x.0 ≡ archive_of e
      → archive_of y.0 ≡ archive_of e
      → archive_of (if b then x else y).0 ≡ archive_of e
  if-archive true e x y h k = h
  if-archive false e x y h k = k

  mark_synced-archive :
      (e : EntityInfo) (x : Reply × World D)
      → archive_of (mark_synced D src env e x).0 ≡ archive_of e
  mark_synced-archive e (ok _, w) = refl
  mark_synced-archive e (err f, w) = refl

  pub publish_and_mark-archive :
      (e : EntityInfo) (w : World D) → archive_of (publish_and_mark D src env e w).0 ≡ archive_of e
  unfolding publish_and_mark
  publish_and_mark-archive e w = mark_synced-archive e (publish_entity D src env e w)

  after_changes-archive :
      (e : EntityInfo) (x : Reply × World D)
      → archive_of (after_changes D src env e x).0 ≡ archive_of e
  after_changes-archive e (ok _, w) = publish_and_mark-archive e w
  after_changes-archive e (err f, w) = refl

  copied-archive :
      (e : EntityInfo) (x : Reply × World D) → archive_of (copied D src env e x).0 ≡ archive_of e
  copied-archive e (ok _, w) = refl
  copied-archive e (err f, w) = refl

  after_lookup-archive :
      (e : EntityInfo) (r : Result Error EntityInfo) (w : World D)
      → archive_of (after_lookup D src env e r w).0 ≡ archive_of e
  unfolding transfer_existing_entity copy_entity
  after_lookup-archive e (ok dest) w =
      if-archive (not (dest.archive_size == e.archive_size)) e _ _ refl
        (if-archive (not (dest.hash == e.hash)) e _ _ refl (after_changes-archive e _))
  after_lookup-archive e (err f) w =
      if-archive (is_not_found f) e _ _ (copied-archive (record e { archive_copied = true }) _) refl

  pub transfer_entity-archive :
      (e : EntityInfo) (w : World D) → archive_of (transfer_entity D src env e w).0 ≡ archive_of e
  unfolding transfer_entity
  transfer_entity-archive e w = after_lookup-archive e (D.entity_info env.no_channel e.id w.dest) w
