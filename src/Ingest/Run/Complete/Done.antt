-- ===== src/Ingest/Run/Complete/Done.antt =====
-- What a run that reports no error has done with the entities of the whitelist.
use charmstore_client.Base.{
  ◌+◌, ◌≡◌, refl, ◌∙◌, sym, true, [], ◌∷◌, Str, list_eq, nat_eq, arith, length,
}
use charmstore_client.Base.Dict.{Dict}
use charmstore_client.Ingest.Entity.{Env, EntityInfo, BaseEntity, is_bundle}
use charmstore_client.Ingest.Client.{Client, Source, World}
use charmstore_client.Ingest.Transfer.{transfer_entity, publish_and_mark}
use charmstore_client.Ingest.Resources.{transfer_resources}
use charmstore_client.Ingest.Run.{
  IngestStats, count_entities, count_entity, count_bases, stats, phase, is_charm, IngestParams,
  owner_or_admin, transfer_bundle, run_phases, resolve_whitelist, ingest,
}
use charmstore_client.Ingest.Run.Complete.{
  archived, IsStore, Sound, Sound-trans, AllReleased, AllReleased-stable, AllIn, AllEntities,
  IsStable,
}
use charmstore_client.Ingest.Run.Complete.Phases.{phase-Sound, AllEntities-stable}
use charmstore_client.Ingest.Run.Complete.Requests.{
  IsThere, IsThere-again, publish_and_mark-Sound, transfer_entity-Transfers,
}
use charmstore_client.Ingest.Run.Complete.Rest.{
  transfer_resources-Sound, transfer_base_entities-Sound,
}
use charmstore_client.Ingest.Run.Complete.Same.{
  archive_of, archives, phase-archives, publish_and_mark-archive, transfer_entity-archive,
}

module _ (D : Client) (src : Source) (env : Env) (L : IsStore D env) where
  abbrev There : EntityInfo → D.State → Type 0
  There e s = IsThere D src env L e s

  -- The archive of the entity is in the destination, the entity is published in the channels in
  -- which it is current, and it is marked.
  abbrev pub IsDone : EntityInfo → D.State → Type 0
  IsDone e s = IsThere D src env L e s × AllReleased D env e.id e.channels s × (e.synced ≡ true)

  abbrev Anything : EntityInfo → D.State → Type 0
  Anything e s = Unit

  abbrev CharmThere : EntityInfo → D.State → Type 0
  CharmThere e s = is_charm e ≡ true → There e s

  abbrev CharmDone : EntityInfo → D.State → Type 0
  CharmDone e s = is_charm e ≡ true → IsDone e s

  There-stable : IsStable D env There
  There-stable e s s' k h = k (archived e.id e.archive_size e.hash) h

  charms_there :
      (e : EntityInfo) (w : World D)
      → is_charm e ≡ true
      → Sound D env w (transfer_entity D src env e w).1
        × ((transfer_entity D src env e w).1.errors ≡ []
            → Anything e w.dest
            → CharmThere (transfer_entity D src env e w).0 (transfer_entity D src env e w).1.dest)
  charms_there e w c =
      let (sound, there) = transfer_entity-Transfers D src env L e w in (sound, λ h _ _. there h)

  -- An entity that is there and is then published.
  mark-IsDone :
      (e : EntityInfo) (w : World D)
      → Sound D env w (publish_and_mark D src env e w).1
        × ((publish_and_mark D src env e w).1.errors ≡ []
            → There e w.dest
            → IsDone (publish_and_mark D src env e w).0 (publish_and_mark D src env e w).1.dest)
  mark-IsDone e w =
      let (sound, synced, same) = publish_and_mark-Sound D src env L e w in
      let (e', w') = publish_and_mark D src env e w in
      (
        sound,
        λ h there. (
          IsThere-again D src env L e e' w'.dest same
              (There-stable e w.dest w'.dest sound.keeps there),
          rw (same.0, same.3) (synced h).1,
          (synced h).0,
        ),
      )

  charms_done :
      (e : EntityInfo) (w : World D)
      → is_charm e ≡ true
      → Sound D env w (publish_and_mark D src env e w).1
        × ((publish_and_mark D src env e w).1.errors ≡ []
            → CharmThere e w.dest
            → CharmDone (publish_and_mark D src env e w).0 (publish_and_mark D src env e w).1.dest)
  charms_done e w c = let (sound, done) = mark-IsDone e w in (sound, λ h there _. done h (there c))

  all-Anything : (bases : Dict Str BaseEntity) (s : D.State) → AllEntities D env Anything bases s
  all-Anything [] s = tt
  all-Anything ((_, base) ∷ bases) s = (go base.entities, all-Anything bases s)
    where
      go : (entities : Dict Str EntityInfo) → AllIn D env Anything entities s
      go [] = tt
      go (_ ∷ entities) = (tt, go entities)

  -- The count of the failures leaves the errors alone, and finds none among entities that are done.
  count_entities-Done :
      (entities : Dict Str EntityInfo) (st : IngestStats) (s : D.State)
      → ((count_entities entities st).errors ≡ st.errors)
        × (AllIn D env IsDone entities s
            → (count_entities entities st).failed_entity_count ≡ st.failed_entity_count)
  unfolding count_entities
  count_entities-Done [] st s = (refl, λ _. refl)
  count_entities-Done ((_, e) ∷ entities) st s =
      let (same, none_failed) = count_entities-Done entities (count_entity e st) s in
      (same, λ ((_, _, synced), a). none_failed a ∙ rw (count_entity, synced) refl)

  count_bases-Done :
      (bases : Dict Str BaseEntity) (st : IngestStats) (s : D.State)
      → ((count_bases bases st).errors ≡ st.errors)
        × (AllEntities D env IsDone bases s
            → (count_bases bases st).failed_entity_count ≡ st.failed_entity_count)
  unfolding count_bases
  count_bases-Done [] st s = (refl, λ _. refl)
  count_bases-Done ((_, base) ∷ bases) st s =
      let st' = record st { entity_count = st.entity_count + length base.entities } in
      let (same, none_failed) = count_entities-Done base.entities st' s in
      let (same', none_failed') = count_bases-Done bases (count_entities base.entities st') s in
      (same' ∙ same, λ (a, b). none_failed' b ∙ none_failed a)

  bundles-IsDone :
      (e : EntityInfo) (w : World D)
      → is_bundle e ≡ true
      → Sound D env w (transfer_bundle D src env e w).1
        × ((transfer_bundle D src env e w).1.errors ≡ []
            → CharmDone e w.dest
            → IsDone (transfer_bundle D src env e w).0 (transfer_bundle D src env e w).1.dest)
  unfolding transfer_bundle
  bundles-IsDone e w _ =
      let (moved, there) = transfer_entity-Transfers D src env L e w in
      let (e', w1) = transfer_entity D src env e w in
      let (sound, _, _) = publish_and_mark-Sound D src env L e' w1 in
      (Sound-trans D env moved sound, λ h _. (mark-IsDone e' w1).1 h (there (sound.clean h)))

  transfer_bundle-archive :
      (e : EntityInfo) (w : World D) → archive_of (transfer_bundle D src env e w).0 ≡ archive_of e
  unfolding transfer_bundle
  transfer_bundle-archive e w =
      let (e', w1) = transfer_entity D src env e w in
      publish_and_mark-archive D src env e' w1 ∙ transfer_entity-archive D src env e w

  run_phases-Done :
      (p : IngestParams) (bases : Dict Str BaseEntity) (w : World D)
      → let out = run_phases D src env p bases w in
        (archives out.0 ≡ archives bases)
        × (out.1.1.errors ≡ [] → AllEntities D env IsDone out.0 out.1.1.dest)
  unfolding run_phases
  run_phases-Done p bases w =
      let move = transfer_entity D src env in
      let mark = publish_and_mark D src env in
      let move_bundle = transfer_bundle D src env in
      let there_charm : IsStable D env CharmThere = λ e s s' k h c. There-stable e s s' k (h c) in
      let done : IsStable D env IsDone = λ e s s' k h.
        (There-stable e s s' k h.0, AllReleased-stable D env e.id e.channels s s' k h.1, h.2) in
      let done_charm : IsStable D env CharmDone = λ e s s' k h c. done e s s' k (h c) in
      let (b1, w1) = phase move is_charm bases w in
      let (_, moved) =
        phase-Sound D env Anything CharmThere (λ e s s' k _. tt) there_charm move is_charm
          charms_there (λ e s n _ c. ground arith) bases w in
      let (_, w2) = transfer_resources D src env p.disk b1 w1 in
      let resources = transfer_resources-Sound D src env L p.disk b1 w1 in
      let (b2, w3) = phase mark is_charm b1 w2 in
      let (marking, marked) =
        phase-Sound D env CharmThere CharmDone there_charm done_charm mark is_charm charms_done
          (λ e s n _ c. ground arith) b1 w2 in
      let (b3, w4) = phase move_bundle is_bundle b2 w3 in
      let (bundling, bundled) =
        phase-Sound D env CharmDone IsDone done_charm done move_bundle is_bundle bundles-IsDone
          (λ e s n h. h (ground arith)) b2 w3 in
      let perms = transfer_base_entities-Sound D src env L (owner_or_admin p.owner) b3 w4 in
      (
        phase-archives D move_bundle transfer_bundle-archive is_bundle b2 w3
            ∙ phase-archives D mark (publish_and_mark-archive D src env) is_charm b1 w2
            ∙ phase-archives D move (transfer_entity-archive D src env) is_charm bases w,
        λ h.
            let h4 = perms.clean h in
            let h3 = bundling.clean h4 in
            let h2 = marking.clean h3 in
            let a1 = moved (resources.clean h2) (all-Anything bases w.dest) in
            let a2 = AllEntities-stable D env CharmThere there_charm b1 _ _ resources.keeps a1 in
            AllEntities-stable D env IsDone done b3 _ _ perms.keeps (bundled h4 (marked h3 a2)),
      )

  -- When an ingestion reports no error, and the destination is a store that keeps what it has accepted,
  -- then at the end every entity that the whitelist was resolved to is in the destination with an
  -- archive of the size and hash that the source gave for it, has been published in each channel in
  -- which it is current, and is marked; and none is counted as failed.
  pub ingest-Done :
      (p : IngestParams) (s : D.State)
      → let (bases, errors) = resolve_whitelist D src env p.whitelist in
        let (stats', s') = ingest D src env p s in
        stats'.errors ≡ []
        → (stats'.failed_entity_count ≡ 0)
          × ((bases' : Dict Str BaseEntity) × (archives bases' ≡ archives bases)
              × AllEntities D env IsDone bases' s')
  unfolding ingest stats
  ingest-Done p s h =
      let (bases, errors) = resolve_whitelist D src env p.whitelist in
      let w : World D = record { dest = s; errors = errors } in
      let (bases', (count, w')) = run_phases D src env p bases w in
      let (same, all_done) = run_phases-Done p bases w in
      let (errors_same, none_failed) = count_bases-Done bases' _ w'.dest in
      let a = all_done (sym errors_same ∙ h) in (none_failed a, (bases', same, a))
