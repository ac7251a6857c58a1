-- ===== src/Ingest/Run.antt =====
-- ingest and stats of ingest.go: the phases of a run. The goroutines of a phase work on different
-- entities; here a phase runs them one after the other, in the order of the maps, which is any.
pub mod Calls
pub mod Transfers
pub mod ResourceCalls
pub mod PermCalls
pub mod Order
pub mod Complete
use charmstore_client.Base.{
  ℕ, ◌+◌, Bool, true, false, not, List, [], ◌∷◌, Str, codes, list_eq, nat_eq, if◌then◌else◌, Result,
  Error, length, is_empty,
}
use charmstore_client.Base.Dict.{Dict}
use charmstore_client.Charm.{Url}
use charmstore_client.Ingest.Entity.{Env, WhitelistEntity, EntityInfo, BaseEntity, is_bundle}
use charmstore_client.Ingest.Merge.{merge_all, sort_revisions}
use charmstore_client.Ingest.Resolve.{Sent, send_resolved_urls}
use charmstore_client.Ingest.Client.{Client, Source, World}
use charmstore_client.Ingest.Transfer.{transfer_entity, publish_and_mark}
use charmstore_client.Ingest.Resources.{Disk, transfer_resources}
use charmstore_client.Ingest.Permissions.{transfer_base_entities}

pub record IngestStats : Type 0 where
  pub base_entity_count : ℕ
  pub entity_count : ℕ
  pub failed_entity_count : ℕ
  pub resource_count : ℕ
  pub archives_copied_count : ℕ
  pub errors : List Error

abbrev count_if : Bool → ℕ → ℕ
count_if b n = if b then n + 1 else n

abbrev pub count_entity : EntityInfo → IngestStats → IngestStats
count_entity e st = record st {
  failed_entity_count = count_if (not e.synced) st.failed_entity_count;
  archives_copied_count = count_if e.archive_copied st.archives_copied_count;
}

pub count_entities : Dict Str EntityInfo → IngestStats → IngestStats
count_entities [] st = st
count_entities ((_, e) ∷ entities) st = count_entities entities (count_entity e st)

pub count_bases : Dict Str BaseEntity → IngestStats → IngestStats
unfolding count_entities
count_bases [] st = st
count_bases ((_, base) ∷ bases) st = count_bases bases (
    count_entities base.entities
      (record st { entity_count = st.entity_count + length base.entities }))

unfoldable pub stats : Dict Str BaseEntity → List Error → IngestStats
unfolding count_bases
stats bases errors = count_bases bases (record {
  base_entity_count = length bases;
  entity_count = 0;
  failed_entity_count = 0;
  resource_count = 0;
  archives_copied_count = 0;
  errors = errors;
})

module _ {D : Client} (task : EntityInfo → World D → EntityInfo × World D) where
  abbrev run_if : Bool → EntityInfo → World D → EntityInfo × World D
  run_if true e w = task e w
  run_if false e w = (e, w)

  -- A phase: the task for each entity that the phase is about; the others are skipped.
  pub each_entity :
      (EntityInfo → Bool) → Dict Str EntityInfo → World D → Dict Str EntityInfo × World D
  each_entity wanted [] w = ([], w)
  each_entity wanted ((k, e) ∷ entities) w =
      let (e', w1) = run_if (wanted e) e w in
      let (rest, w2) = each_entity wanted entities w1 in ((k, e') ∷ rest, w2)

  unfoldable pub phase :
      (EntityInfo → Bool) → Dict Str BaseEntity → World D → Dict Str BaseEntity × World D
  unfolding each_entity
  phase wanted [] w = ([], w)
  phase wanted ((k, base) ∷ bases) w =
      let (entities, w1) = each_entity wanted base.entities w in
      let (rest, w2) = phase wanted bases w1 in
      ((k, record base { entities = entities }) ∷ rest, w2)

abbrev pub is_charm : EntityInfo → Bool
is_charm e = not (is_bundle e)

-- What ingest is given, beside the two stores.
pub record IngestParams : Type 0 where
  pub whitelist : List WhitelistEntity
  pub disk : Disk
  pub owner : Str

abbrev pub owner_or_admin : Str → Str
owner_or_admin owner = if is_empty owner then codes "admin" else owner

module _ (D : Client) (src : Source) (env : Env) where
  -- The task for a bundle: it is published whether or not its transfer went well.
  unfoldable pub transfer_bundle : EntityInfo → World D → EntityInfo × World D
  unfolding transfer_entity publish_and_mark
  transfer_bundle e w =
      let (e', w') = transfer_entity D src env e w in publish_and_mark D src env e' w'

  -- ingest behind resolveWhitelist
  unfoldable pub run_phases :
      IngestParams → Dict Str BaseEntity → World D → Dict Str BaseEntity × (ℕ × World D)
  unfolding phase transfer_bundle transfer_resources transfer_base_entities
  run_phases p bases w =
      let (b1, w1) = phase (transfer_entity D src env) is_charm bases w in
      let (count, w2) = transfer_resources D src env p.disk b1 w1 in
      let (b2, w3) = phase (publish_and_mark D src env) is_charm b1 w2 in
      let (b3, w4) = phase transfer_bundle is_bundle b2 w3 in
      (b3, (count, transfer_base_entities D env (owner_or_admin p.owner) b3 w4))

  -- The senders of resolveWhitelist, one after the other.
  unfoldable pub send_all : List WhitelistEntity → Sent → Sent
  unfolding send_resolved_urls
  send_all [] out = out
  send_all (e ∷ whitelist) out = send_all whitelist (send_resolved_urls src.entity_info env e out)

  unfoldable pub resolve_whitelist : List WhitelistEntity → Dict Str BaseEntity × List Error
  unfolding send_all merge_all sort_revisions
  resolve_whitelist whitelist =
      let out = send_all whitelist (record { entities = []; errors = [] }) in
      (sort_revisions (merge_all env [] out.entities), out.errors)

  unfoldable pub ingest : IngestParams → D.State → IngestStats × D.State
  unfolding run_phases resolve_whitelist stats
  ingest p s =
      let (bases, errors) = resolve_whitelist p.whitelist in
      let (bases', (count, w)) = run_phases p bases (record { dest = s; errors = errors }) in
      (record (stats bases' w.errors) { resource_count = count }, w.dest)
