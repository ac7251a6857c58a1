-- ===== src/Ingest/Resolve.antt =====
-- sendResolvedURLs of ingest.go: from a line of the whitelist to the entities that it stands for.
-- What a goroutine sends on the channel is the list `entities`, in the order of sending.
pub mod Depth
pub mod Channels
use charmstore_client.Base.{
  ℤ, minus_one, Bool, true, false, List, [], ◌∷◌, ◌++◌, Str, ◌==◌, list_eq, nat_eq, int_eq,
  is_empty, contains, if◌then◌else◌, Result, ok, err, Error, newf, masked, is_not_found, mask,
}
use charmstore_client.Base.Dict.{Dict}
use charmstore_client.Charm.{Url, parse_url}
use charmstore_client.Ingest.Entity.{
  Env, WhitelistEntity, BundleCharm, EntityInfo, is_bundle, append_resources,
}

pub record Sent : Type 0 where
  pub entities : List EntityInfo
  pub errors : List Error

abbrev pub send : EntityInfo → Sent → Sent
send e out = record out { entities = out.entities ++ e ∷ [] }

-- ing.errorf
abbrev pub report : Error → Sent → Sent
report e out = record out { errors = out.errors ++ e ∷ [] }

abbrev pub report_result : Result Error (Unit {0}) × Sent → (Error → Error) → Sent
report_result (ok _, out) f = out
report_result (err e, out) f = report (f e) out

-- The published channels that are asked for, as current ones if the id names no revision.
unfoldable pub narrow_channels : List Str → ℤ → Dict Str Bool → Dict Str Bool
narrow_channels needed revision [] = []
narrow_channels needed revision ((pch, current) ∷ channels) =
    let rest = narrow_channels needed revision channels in
    if contains needed pch
    then (pch, if revision == minus_one then current else false) ∷ rest
    else rest

-- The first revision of each resource.
unfoldable pub current_resources : Dict Str (List ℤ) → Dict Str ℤ
current_resources [] = []
current_resources ((name, []) ∷ resources) = current_resources resources
current_resources ((name, rev ∷ _) ∷ resources) = (name, rev) ∷ current_resources resources

-- What is sent for an answer of the source store.
unfoldable pub resolved : WhitelistEntity → Url → Str → EntityInfo → EntityInfo
unfolding narrow_channels current_resources append_resources
resolved e curl ch result = record result {
  channels = narrow_channels e.channels curl.revision result.channels;
  published_resources =
      if is_empty result.resources
      then result.published_resources
      else (ch, current_resources result.resources) ∷ [];
  resources = append_resources result.resources e.resources;
}

-- `entity_info` asks the source store.
module _ (entity_info : Str → Url → Result Error EntityInfo) (env : Env) where
  -- `follow` is the call of sendResolvedURLsForBundle.
  module _ (follow : Url → List BundleCharm → Sent → Sent) (must_be_charm : Bool) where
    -- What happens behind `c <- result`.
    abbrev pub sent_bundle : Url → EntityInfo → Sent → Result Error (Unit {0}) × Sent
    sent_bundle curl result out =
        if is_bundle result
        then (if must_be_charm
            then (
              err (
                  newf "charm URL in bundle refers to bundle (%q) not charm"
                    (env.id_string curl ∷ [])),
              out,
            )
            else (ok tt, follow curl result.bundle_charms out))
        else (ok tt, out)

    -- One round of the loop over the requested channels, with the answer of the source store.
    abbrev pub answered :
        WhitelistEntity
        → Url
        → Str
        → Result Error EntityInfo
        → Sent
        → Result Error (Unit {0}) × Sent
    answered e curl ch (ok result) out =
        sent_bundle curl result (send (resolved e curl ch result) out)
    answered e curl ch (err failure) out =
        if is_not_found failure
        then (
          ok tt,
          report (newf "entity %q is not available in %v channel" (e.entity_id ∷ ch ∷ [])) out,
        )
        else (err (masked failure), out)

    unfoldable pub send_channel :
        WhitelistEntity → Url → Str → Sent → Result Error (Unit {0}) × Sent
    unfolding resolved
    send_channel e curl ch out = answered e curl ch (entity_info ch curl) out

    abbrev pub continue :
        Result Error (Unit {0}) × Sent
        → (Sent → Result Error (Unit {0}) × Sent)
        → Result Error (Unit {0}) × Sent
    continue (ok _, out) rest = rest out
    continue (err e, out) rest = (err e, out)

    unfoldable pub send_channels :
        WhitelistEntity → Url → List Str → Sent → Result Error (Unit {0}) × Sent
    unfolding send_channel
    send_channels e curl [] out = (ok tt, out)
    send_channels e curl (ch ∷ chs) out =
        continue (send_channel e curl ch out) (send_channels e curl chs)

    -- sendResolvedURLs1 behind the parsing of the id
    abbrev pub parsed : WhitelistEntity → Result Error Url → Sent → Result Error (Unit {0}) × Sent
    parsed e (err failure) out = (err failure, out)
    parsed e (ok curl) out =
        if is_empty e.channels
        then (err (newf "no channels for entity %q" (e.entity_id ∷ [])), out)
        else send_channels e curl e.channels out

    unfoldable pub send_resolved_urls1 : WhitelistEntity → Sent → Result Error (Unit {0}) × Sent
    unfolding send_channels
    send_resolved_urls1 e out = parsed e (mask (parse_url env.library_parse e.entity_id)) out

  abbrev single : Dict Str ℤ → Dict Str (List ℤ)
  single [] = []
  single ((name, rev) ∷ resources) = (name, rev ∷ []) ∷ single resources

  -- The charms of a bundle are never bundles, so their own bundles are not followed.
  abbrev pub not_followed : Url → List BundleCharm → Sent → Sent
  not_followed curl charms out = out

  unfoldable pub send_resolved_urls_for_bundle : Url → List BundleCharm → Sent → Sent
  unfolding send_resolved_urls1
  send_resolved_urls_for_bundle curl [] out = out
  send_resolved_urls_for_bundle curl (bc ∷ bcs) out =
      let e : WhitelistEntity = record {
        entity_id = bc.charm;
        channels = env.stable ∷ [];
        resources = single bc.resources;
      } in
      send_resolved_urls_for_bundle curl bcs (
        report_result (send_resolved_urls1 not_followed true e out)
          (λ _. newf "invalid charm %q in bundle %q" (bc.charm ∷ env.id_string curl ∷ [])))

  -- Default to the stable channel when none is specified.
  abbrev pub with_default_channel : WhitelistEntity → WhitelistEntity
  with_default_channel e = record e {
    channels = if is_empty e.channels then env.stable ∷ [] else e.channels;
  }

  unfoldable pub send_resolved_urls : WhitelistEntity → Sent → Sent
  unfolding send_resolved_urls_for_bundle
  send_resolved_urls e out =
      report_result
        (send_resolved_urls1 send_resolved_urls_for_bundle false (with_default_channel e) out)
        (λ failure. failure)
