-- ===== src/Ingest/Run/Complete/Requests.antt =====
-- What each step of a run keeps, and what it has done when no error was reported.
use charmstore_client.Base.{
  ◌≡◌, refl, Bool, true, false, not, Option, [], ◌∷◌, Str, Result, ok, err, Error, not_found, ◌==◌,
  list_eq, nat_eq, int_eq, pair_eq, if◌then◌else◌, arith, ==_true,
}
use charmstore_client.Base.Dict
use charmstore_client.Base.Dict.{Dict}
use charmstore_client.Ingest.Entity.{Env, EntityInfo, or_empty}
use charmstore_client.Ingest.Client.{Client, Source, World, Reply, errorf}
use charmstore_client.Ingest.Transfer.{
  after_publish, publish_request, publish_channels, publish_entity, mark_synced, publish_and_mark,
  put_changes, after_changes, transfer_existing_entity, upload, uploaded, copied, all_fields,
  copy_entity, after_lookup, transfer_entity, extra_info_changes,
}
use charmstore_client.Ingest.Run.Complete.{
  Holds, Released, archived, released, AllReleased, AllReleased-stable, Keeps, IsStore, Sound,
  Sound-refl, Sound-trans, not_clean, errorf-Sound,
}

module _ (D : Client) (src : Source) (env : Env) (L : IsStore D env) where
  abbrev pub IsSynced : EntityInfo → Type 0
  IsSynced e = e.synced ≡ true

  -- The archive of the entity is in the destination.
  abbrev pub IsThere : EntityInfo → D.State → Type 0
  IsThere e s = Holds D env e.id e.archive_size e.hash s

  after_publish-Sound :
      (e : EntityInfo) (ch : Str) (r : Reply) (w : World D) (rest : World D → Reply × World D)
      → Sound D env w (rest w).1
      → Sound D env w (after_publish D src env e ch (r, w) rest).1
  after_publish-Sound e ch (ok _) w rest v = v
  after_publish-Sound e ch (err failure) w rest v = Sound-refl D env w

  publish_channels-Sound :
      (e : EntityInfo) (channels : Dict Str Bool) (w : World D)
      → Sound D env w (publish_channels D src env e channels w).1
  unfolding publish_channels
  publish_channels-Sound e [] w = Sound-refl D env w
  publish_channels-Sound e ((ch, false) ∷ channels) w = publish_channels-Sound e channels w
  publish_channels-Sound e ((ch, true) ∷ channels) w =
      let (r, w1) = publish_request D src env e ch w in
      Sound-trans D env
        (record {
          clean = λ h. h;
          keeps =
              L.publish_kept e.id (ch ∷ []) (or_empty (Dict.lookup ch e.published_resources))
                w.dest;
        })
        (after_publish-Sound e ch r w1 (publish_channels D src env e channels)
          (publish_channels-Sound e channels w1))

  -- When the releases have gone through, the entity is in all the channels.
  after_publish-Released :
      (e : EntityInfo) (ch : Str) (channels : Dict Str Bool) (w : World D) (r : Reply) (s : D.State)
      → D.publish e.id (ch ∷ []) (or_empty (Dict.lookup ch e.published_resources)) w.dest ≡ (r, s)
      → ((publish_channels D src env e channels (record w { dest = s })).0 ≡ ok tt
          → AllReleased D env e.id channels
              (publish_channels D src env e channels (record w { dest = s })).1.dest)
      → let x =
          after_publish D src env e ch
            (r, record w { dest = s })
            (publish_channels D src env e channels) in
        x.0 ≡ ok tt → Released D env e.id ch x.1.dest × AllReleased D env e.id channels x.1.dest
  after_publish-Released e ch channels w (ok _) s h rest done = (
    (publish_channels-Sound e channels (record w { dest = s })).keeps (released e.id ch)
        (L.published e.id ch _ w.dest s h),
    rest done,
  )
  after_publish-Released e ch channels w (err failure) s h rest done = absurd (ground arith)

  publish_channels-Released :
      (e : EntityInfo) (channels : Dict Str Bool) (w : World D)
      → (publish_channels D src env e channels w).0 ≡ ok tt
      → AllReleased D env e.id channels (publish_channels D src env e channels w).1.dest
  unfolding publish_channels
  publish_channels-Released e [] w h = tt
  publish_channels-Released e ((ch, false) ∷ channels) w h =
      publish_channels-Released e channels w h
  publish_channels-Released e ((ch, true) ∷ channels) w h =
      let (r, s) =
        D.publish e.id (ch ∷ []) (or_empty (Dict.lookup ch e.published_resources)) w.dest in
      after_publish-Released e ch channels w r s refl
        (publish_channels-Released e channels (record w { dest = s })) h

  -- The entity has the same archive and the same channels as before.
  abbrev pub SameArchive : EntityInfo → EntityInfo → Type 0
  SameArchive e e' =
      (e'.id ≡ e.id)
      × (e'.archive_size ≡ e.archive_size)
      × (e'.hash ≡ e.hash)
      × (e'.channels ≡ e.channels)

  mark_synced-Sound :
      (e : EntityInfo) (x : Reply) (w : World D)
      → Sound D env w (mark_synced D src env e (x, w)).1
        × ((mark_synced D src env e (x, w)).1.errors ≡ []
            → IsSynced (mark_synced D src env e (x, w)).0 × (x ≡ ok tt))
        × SameArchive e (mark_synced D src env e (x, w)).0
  mark_synced-Sound e (ok _) w = (Sound-refl D env w, λ _. (refl, refl), (refl, refl, refl, refl))
  mark_synced-Sound e (err failure) w =
      (errorf-Sound D env failure w, not_clean D env failure w, (refl, refl, refl, refl))

  pub publish_and_mark-Sound :
      (e : EntityInfo) (w : World D)
      → Sound D env w (publish_and_mark D src env e w).1
        × ((publish_and_mark D src env e w).1.errors ≡ []
            → IsSynced (publish_and_mark D src env e w).0
              × AllReleased D env e.id e.channels (publish_and_mark D src env e w).1.dest)
        × SameArchive e (publish_and_mark D src env e w).0
  unfolding publish_and_mark publish_entity
  publish_and_mark-Sound e w =
      let (r, w1) = publish_channels D src env e e.channels w in
      let (sound, marked, same) = mark_synced-Sound e r w1 in
      (
        Sound-trans D env (publish_channels-Sound e e.channels w) sound,
        λ h.
            let (synced, done) = marked h in
            (
              synced,
              AllReleased-stable D env e.id e.channels _ _ sound.keeps
                  (publish_channels-Released e e.channels w done),
            ),
        same,
      )

  pub IsThere-again :
      (e e' : EntityInfo) (s : D.State) → SameArchive e e' → IsThere e s → IsThere e' s
  IsThere-again e e' s (i, j, k, _) h = rw (i, j, k) h

  -- A step of a transfer, which began in the world `w`, has ended well.
  abbrev pub Transfers : World D → EntityInfo × World D → Type 0
  Transfers w x = Sound D env w x.1 × (x.1.errors ≡ [] → IsThere x.0 x.1.dest)

  if-Transfers :
      (b : Bool) (w : World D) (x y : EntityInfo × World D)
      → (b ≡ true → Transfers w x)
      → (b ≡ false → Transfers w y)
      → Transfers w (if b then x else y)
  if-Transfers true w x y h k = h refl
  if-Transfers false w x y h k = k refl

  failed_lem : (e : EntityInfo) (failure : Error) (w : World D) → Transfers w (e, errorf failure w)
  failed_lem e failure w = (errorf-Sound D env failure w, not_clean D env failure w)

  Transfers-from :
      (w w1 : World D) (x : EntityInfo × World D)
      → Sound D env w w1
      → Transfers w1 x
      → Transfers w x
  Transfers-from w w1 x v (sound, there) = (Sound-trans D env v sound, there)

  after_changes-Transfers :
      (e : EntityInfo) (r : Reply) (w : World D)
      → IsThere e w.dest
      → Transfers w (after_changes D src env e (r, w))
  after_changes-Transfers e (ok _) w there =
      let (sound, _, same) = publish_and_mark-Sound e w in
      let (e', w') = publish_and_mark D src env e w in
      (
        sound,
        λ h.
            IsThere-again e e' w'.dest same
              (sound.keeps (archived e.id e.archive_size e.hash) there),
      )
  after_changes-Transfers e (err failure) w there = failed_lem e _ w

  put_changes-Sound :
      (e : EntityInfo) (changes : Dict Str (Option Str)) (w : World D)
      → Sound D env w (put_changes D src env e changes w).1
  unfolding put_changes
  put_changes-Sound e [] w = Sound-refl D env w
  put_changes-Sound e (c ∷ changes) w = record {
    clean = λ h. h;
    keeps = L.extra_info_kept e.id (c ∷ changes) w.dest;
  }

  transfer_existing_entity-Transfers :
      (e dest : EntityInfo) (w : World D)
      → D.entity_info env.no_channel e.id w.dest ≡ ok dest
      → Transfers w (transfer_existing_entity D src env e dest w)
  unfolding transfer_existing_entity
  transfer_existing_entity-Transfers e dest w known =
      if-Transfers (not (dest.archive_size == e.archive_size)) w _ _ (λ _. failed_lem e _ w)
        (λ size.
          if-Transfers (not (dest.hash == e.hash)) w _ _ (λ _. failed_lem e _ w)
            (λ hash.
              let changes = extra_info_changes e.extra_info dest.extra_info in
              let (r, w1) = put_changes D src env e changes w in
              let put = put_changes-Sound e changes w in
              let there : IsThere e w.dest = (
                dest,
                known,
                ==_true dest.archive_size e.archive_size (ground arith),
                ==_true dest.hash e.hash (ground arith),
              ) in
              Transfers-from w w1 (after_changes D src env e (r, w1)) put (
                after_changes-Transfers e r w1
                  (put.keeps (archived e.id e.archive_size e.hash) there))))

  copied-Transfers :
      (e : EntityInfo) (r : Reply) (w : World D)
      → (w.errors ≡ [] → IsThere e w.dest)
      → Transfers w (copied D src env e (r, w))
  copied-Transfers e (ok _) w there = (Sound-refl D env w, there)
  copied-Transfers e (err failure) w there = failed_lem e _ w

  uploaded-Transfers :
      (e : EntityInfo) (w : World D) (s : D.State) (r : Reply)
      → D.put_archive e.id (upload D src env e) w.dest ≡ (r, s)
      → Keeps D env w.dest s
      → Transfers w (e, uploaded D src env e (r, record w { dest = s }))
  uploaded-Transfers e w s (ok _) h k =
      (record { clean = λ c. c; keeps = k }, λ c. L.stored e.id _ w.dest s h)
  uploaded-Transfers e w s (err failure) h k =
      Transfers-from w (record w { dest = s })
        (e, uploaded D src env e (err failure, record w { dest = s }))
        (record { clean = λ c. c; keeps = k }) (failed_lem e _ (record w { dest = s }))

  copy_entity-Transfers :
      (e : EntityInfo) (w : World D)
      → D.entity_info env.no_channel e.id w.dest ≡ err not_found
      → Transfers w (copy_entity D src env e w)
  unfolding copy_entity
  copy_entity-Transfers e w missing =
      let u = upload D src env e in
      let (r, s) = D.put_archive e.id u w.dest in
      let w1 = uploaded D src env e (r, record w { dest = s }) in
      let (up, there) = uploaded-Transfers e w s r refl (L.archive_kept e.id u w.dest missing) in
      let f = all_fields D src env e.extra_info in
      let (r', s') = D.put_extra_info e.id f w1.dest in
      let info : Sound D env w1 (record w1 { dest = s' }) = record {
        clean = λ c. c;
        keeps = L.extra_info_kept e.id f w1.dest;
      } in
      let done =
        copied D src env (record e { archive_copied = true }) (r', record w1 { dest = s' }) in
      Transfers-from w w1 done up (
        Transfers-from w1 (record w1 { dest = s' }) done info
          (copied-Transfers (record e { archive_copied = true }) r' (record w1 { dest = s' })
            (λ c. info.keeps (archived e.id e.archive_size e.hash) (there c))))

  after_lookup-Transfers :
      (e : EntityInfo) (w : World D) (x : Result Error EntityInfo)
      → D.entity_info env.no_channel e.id w.dest ≡ x
      → Transfers w (after_lookup D src env e x w)
  after_lookup-Transfers e w (ok dest) h = transfer_existing_entity-Transfers e dest w h
  after_lookup-Transfers e w (err not_found) h = copy_entity-Transfers e w h
  after_lookup-Transfers e w (err failure) h = failed_lem e _ w

  pub transfer_entity-Transfers :
      (e : EntityInfo) (w : World D) → Transfers w (transfer_entity D src env e w)
  unfolding transfer_entity
  transfer_entity-Transfers e w =
      after_lookup-Transfers e w (D.entity_info env.no_channel e.id w.dest) refl
