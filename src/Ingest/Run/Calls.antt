-- ===== src/Ingest/Run/Calls.antt =====
-- What requests the transfer and the release of one entity add to the log.
use charmstore_client.Base.{
  ◌≡◌, refl, Bool, true, false, not, List, [], ◌∷◌, Str, codes, ◌==◌, list_eq, nat_eq, Error,
  Result, ok, err, ◌⊎◌, inl, inr, is_not_found, Option, if◌then◌else◌,
}
use charmstore_client.Base.Dict.{Dict}
use charmstore_client.Charm.{Url}
use charmstore_client.Ingest.Entity.{Env, EntityInfo}
use charmstore_client.Ingest.Client.{Client, Source, World, Reply, request}
use charmstore_client.Ingest.Trace.{
  Call, put_archive, put_extra_info, publish, set_perm, put_resource, traced, Extends, Extends-refl,
  Extends-errorf, Extends-trans,
}
use charmstore_client.Ingest.Transfer.{
  after_publish, publish_request, publish_channels, publish_entity, publish_and_mark, mark_synced,
  put_changes, after_changes, extra_info_changes, upload, uploaded, copied, all_fields,
  after_lookup, transfer_existing_entity, copy_entity, transfer_entity,
}

-- An upload, an update or a release of an entity, which is a bundle or not.
abbrev pub AboutEntity : Bool → Call → Type 0
AboutEntity b (put_archive id) = (id.series == codes "bundle") ≡ b
AboutEntity b (put_extra_info id) = (id.series == codes "bundle") ≡ b
AboutEntity b (publish id _) = (id.series == codes "bundle") ≡ b
AboutEntity b (set_perm _ _) = ⊥
AboutEntity b (put_resource _ _ _) = ⊥

-- The release of an entity, which is a bundle or not.
abbrev pub IsPublish : Bool → Call → Type 0
IsPublish b (publish id _) = (id.series == codes "bundle") ≡ b
IsPublish b (put_archive _) = ⊥
IsPublish b (put_extra_info _) = ⊥
IsPublish b (set_perm _ _) = ⊥
IsPublish b (put_resource _ _ _) = ⊥

-- A request of the upload of the charm with an id: its archive, or its extra-info
abbrev pub IsUpload : Url → Call → Type 0
IsUpload i (put_archive id) = id ≡ i
IsUpload i (put_extra_info id) = id ≡ i
IsUpload i (publish _ _) = ⊥
IsUpload i (set_perm _ _) = ⊥
IsUpload i (put_resource _ _ _) = ⊥

-- A request of the update of the charm with an id: its extra-info, or its release
abbrev pub IsUpdate : Url → Call → Type 0
IsUpdate i (put_extra_info id) = id ≡ i
IsUpdate i (publish id _) = id ≡ i
IsUpdate i (put_archive _) = ⊥
IsUpdate i (set_perm _ _) = ⊥
IsUpdate i (put_resource _ _ _) = ⊥

abbrev pub IsPutResource : Call → Type 0
IsPutResource (put_resource _ _ _) = Unit
IsPutResource (publish _ _) = ⊥
IsPutResource (put_archive _) = ⊥
IsPutResource (put_extra_info _) = ⊥
IsPutResource (set_perm _ _) = ⊥

abbrev pub IsSetPerm : Call → Type 0
IsSetPerm (set_perm _ _) = Unit
IsSetPerm (publish _ _) = ⊥
IsSetPerm (put_archive _) = ⊥
IsSetPerm (put_extra_info _) = ⊥
IsSetPerm (put_resource _ _ _) = ⊥

module _ (D : Client) (src : Source) (env : Env) where
  Extends-if :
      {P : Call → Type 0} (b : Bool) (w : World (traced D)) (x y : EntityInfo × World (traced D))
      → Extends D P w x.1
      → Extends D P w y.1
      → Extends D P w (if b then x else y).1
  Extends-if true w x y h k = h
  Extends-if false w x y h k = k

  module _ (P : Call → Type 0) (e : EntityInfo)
      (may : (chs : List Str) → P (publish e.id chs)) where
    after_publish-Extends :
        (ch : Str) (r : Reply) (w0 w : World (traced D))
        (rest : World (traced D) → Reply × World (traced D))
        → Extends D P w0 w
        → ((v : World (traced D)) → Extends D P v (rest v).1)
        → Extends D P w0 (after_publish (traced D) src env e ch (r, w) rest).1
    after_publish-Extends ch (ok _) w0 w rest x y = Extends-trans D x (y w)
    after_publish-Extends ch (err f) w0 w rest x y = x

    published :
        (ch : Str) (w : World (traced D))
        → Extends D P w (publish_request (traced D) src env e ch w).1
    published ch w = record {
      added = publish e.id (ch ∷ []) ∷ [];
      grown = refl;
      meets = (may (ch ∷ []), tt);
    }

    publish_channels-Extends :
        (channels : Dict Str Bool) (w : World (traced D))
        → Extends D P w (publish_channels (traced D) src env e channels w).1
    unfolding publish_channels
    publish_channels-Extends [] w = Extends-refl D w
    publish_channels-Extends ((ch, true) ∷ channels) w =
        let out = publish_request (traced D) src env e ch w in
        after_publish-Extends ch out.0 w out.1 (publish_channels (traced D) src env e channels)
          (published ch w) (publish_channels-Extends channels)
    publish_channels-Extends ((ch, false) ∷ channels) w = publish_channels-Extends channels w

    mark_synced-Extends :
        (r : Reply) (w w' : World (traced D))
        → Extends D P w w'
        → Extends D P w (mark_synced (traced D) src env e (r, w')).1
    mark_synced-Extends (ok _) w w' x = x
    mark_synced-Extends (err f) w w' x = Extends-errorf D f x

    pub publish_and_mark-Extends :
        (w : World (traced D)) → Extends D P w (publish_and_mark (traced D) src env e w).1
    unfolding publish_and_mark publish_entity
    publish_and_mark-Extends w =
        let out = publish_entity (traced D) src env e w in
        mark_synced-Extends out.0 w out.1 (publish_channels-Extends e.channels w)

    module _ (may_put : P (put_extra_info e.id)) where
      put_changes-Extends :
          (changes : Dict Str (Option Str)) (w : World (traced D))
          → Extends D P w (put_changes (traced D) src env e changes w).1
      unfolding put_changes
      put_changes-Extends [] w = Extends-refl D w
      put_changes-Extends (c ∷ changes) w = record {
        added = put_extra_info e.id ∷ [];
        grown = refl;
        meets = (may_put, tt);
      }

      after_changes-Extends :
          (r : Reply) (w w' : World (traced D))
          → Extends D P w w'
          → Extends D P w (after_changes (traced D) src env e (r, w')).1
      after_changes-Extends (ok _) w w' x = Extends-trans D x (publish_and_mark-Extends w')
      after_changes-Extends (err f) w w' x = Extends-errorf D _ x

      transfer_existing_entity-Extends :
          (dest : EntityInfo) (w : World (traced D))
          → Extends D P w (transfer_existing_entity (traced D) src env e dest w).1
      unfolding transfer_existing_entity
      transfer_existing_entity-Extends dest w =
          let changes = extra_info_changes e.extra_info dest.extra_info in
          let out = put_changes (traced D) src env e changes w in
          Extends-if (not (dest.archive_size == e.archive_size)) w _ _
            (Extends-errorf D _ (Extends-refl D w))
            (Extends-if (not (dest.hash == e.hash)) w _ _ (Extends-errorf D _ (Extends-refl D w))
              (after_changes-Extends out.0 w out.1 (put_changes-Extends changes w)))

  module _ (P : Call → Type 0) (e : EntityInfo) (may_put : P (put_extra_info e.id))
      (may_archive : P (put_archive e.id)) where
    uploaded-Extends :
        (r : Reply) (w w' : World (traced D))
        → Extends D P w w'
        → Extends D P w (uploaded (traced D) src env e (r, w'))
    uploaded-Extends (ok _) w w' x = x
    uploaded-Extends (err f) w w' x = Extends-errorf D _ x

    copied-Extends :
        (e' : EntityInfo) (r : Reply) (w w' : World (traced D))
        → Extends D P w w'
        → Extends D P w (copied (traced D) src env e' (r, w')).1
    copied-Extends e' (ok _) w w' x = x
    copied-Extends e' (err f) w w' x = Extends-errorf D _ x

    pub copy_entity-Extends :
        (w : World (traced D)) → Extends D P w (copy_entity (traced D) src env e w).1
    unfolding copy_entity
    copy_entity-Extends w =
        let put = request ((traced D).put_archive e.id (upload (traced D) src env e)) w in
        let w1 = uploaded (traced D) src env e put in
        let x1 : Extends D P w w1 =
          uploaded-Extends put.0 w put.1
            (record { added = put_archive e.id ∷ []; grown = refl; meets = (may_archive, tt) }) in
        let fields = all_fields (traced D) src env e.extra_info in
        let put2 = request ((traced D).put_extra_info e.id fields) w1 in
        copied-Extends (record e { archive_copied = true }) put2.0 w put2.1
          (Extends-trans D x1
            (record { added = put_extra_info e.id ∷ []; grown = refl; meets = (may_put, tt) }))

  module _ (P : Call → Type 0) (e : EntityInfo) (may : (chs : List Str) → P (publish e.id chs))
      (may_put : P (put_extra_info e.id)) (may_archive : P (put_archive e.id)) where
    after_lookup-Extends :
        (r : Result Error EntityInfo) (w : World (traced D))
        → Extends D P w (after_lookup (traced D) src env e r w).1
    after_lookup-Extends (ok dest) w = transfer_existing_entity-Extends P e may may_put dest w
    after_lookup-Extends (err f) w =
        Extends-if (is_not_found f) w _ _ (copy_entity-Extends P e may_put may_archive w)
          (Extends-errorf D _ (Extends-refl D w))

    pub transfer_entity-Extends :
        (w : World (traced D)) → Extends D P w (transfer_entity (traced D) src env e w).1
    unfolding transfer_entity
    transfer_entity-Extends w = after_lookup-Extends _ w

  -- The transfer of a charm either uploads or, where it is in the destination, updates and releases.
  after_lookup-OneTransfer :
      (e : EntityInfo) (r : Result Error EntityInfo) (w : World (traced D))
      → let w' = (after_lookup (traced D) src env e r w).1 in
        Extends D (IsUpload e.id) w w' ⊎ Extends D (IsUpdate e.id) w w'
  after_lookup-OneTransfer e (ok dest) w =
      inr (transfer_existing_entity-Extends (IsUpdate e.id) e (λ _. refl) refl dest w)
  after_lookup-OneTransfer e (err f) w = inl (
      Extends-if (is_not_found f) w _ _ (copy_entity-Extends (IsUpload e.id) e refl refl w)
        (Extends-errorf D _ (Extends-refl D w)))

  pub transfer_entity-OneTransfer :
      (e : EntityInfo) (w : World (traced D))
      → let w' = (transfer_entity (traced D) src env e w).1 in
        Extends D (IsUpload e.id) w w' ⊎ Extends D (IsUpdate e.id) w w'
  unfolding transfer_entity
  transfer_entity-OneTransfer e w = after_lookup-OneTransfer e _ w

  -- A transfer leaves the id of the entity as it is.
  mark_synced-id :
      (e : EntityInfo) (r : Reply × World (traced D))
      → (mark_synced (traced D) src env e r).0.id ≡ e.id
  mark_synced-id e (ok _, w) = refl
  mark_synced-id e (err f, w) = refl

  after_changes-id :
      (e : EntityInfo) (r : Reply × World (traced D))
      → (after_changes (traced D) src env e r).0.id ≡ e.id
  unfolding publish_and_mark
  after_changes-id e (ok _, w) = mark_synced-id e _
  after_changes-id e (err f, w) = refl

  if-id :
      (b : Bool) (e : EntityInfo) (x y : EntityInfo × World (traced D))
      → x.0.id ≡ e.id
      → y.0.id ≡ e.id
      → (if b then x else y).0.id ≡ e.id
  if-id true e x y h k = h
  if-id false e x y h k = k

  copied-id :
      (e : EntityInfo) (r : Reply × World (traced D)) → (copied (traced D) src env e r).0.id ≡ e.id
  copied-id e (ok _, w) = refl
  copied-id e (err f, w) = refl

  pub after_lookup-id :
      (e : EntityInfo) (r : Result Error EntityInfo) (w : World (traced D))
      → (after_lookup (traced D) src env e r w).0.id ≡ e.id
  unfolding transfer_existing_entity copy_entity
  after_lookup-id e (ok dest) w =
      if-id (not (dest.archive_size == e.archive_size)) e _ _ refl
        (if-id (not (dest.hash == e.hash)) e _ _ refl (after_changes-id e _))
  after_lookup-id e (err f) w = if-id (is_not_found f) e _ _ (copied-id _ _) refl
