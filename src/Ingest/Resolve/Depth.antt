-- ===== src/Ingest/Resolve/Depth.antt =====
-- How deep sendResolvedURLs of ingest.go follows a bundle.
use charmstore_client.Base.{
  ◌≡◌, refl, ◌∙◌, ap, true, List, [], ◌∷◌, Str, Result, ok, err, Error, is_empty, Bool-cases, inl,
  inr,
}
use charmstore_client.Charm.{Url}
use charmstore_client.Ingest.Entity.{Env, WhitelistEntity, BundleCharm, EntityInfo, is_bundle}
use charmstore_client.Ingest.Resolve.{
  Sent, sent_bundle, answered, continue, send_channels, parsed, send_resolved_urls1,
}

module _ (entity_info : Str → Url → Result Error EntityInfo) (env : Env)
    (f g : Url → List BundleCharm → Sent → Sent) where
  sent_bundle-eq :
      (curl : Url) (result : EntityInfo) (out : Sent)
      → sent_bundle entity_info env f true curl result out
        ≡ sent_bundle entity_info env g true curl result out
  sent_bundle-eq curl result out = elim (Bool-cases (is_bundle result)) [
    | inl b ↦ rw b
    | inr b ↦ rw b
  ]

  answered-eq :
      (e : WhitelistEntity) (curl : Url) (ch : Str) (r : Result Error EntityInfo) (out : Sent)
      → answered entity_info env f true e curl ch r out
        ≡ answered entity_info env g true e curl ch r out
  answered-eq e curl ch (ok result) out = sent_bundle-eq curl result _
  answered-eq e curl ch (err failure) out = refl

  continue-eq :
      (r : Result Error (Unit {0}) × Sent) (x y : Sent → Result Error (Unit {0}) × Sent)
      → ((out : Sent) → x out ≡ y out)
      → continue entity_info env f true r x ≡ continue entity_info env g true r y
  continue-eq (ok _, out) x y h = h out
  continue-eq (err e, out) x y h = refl

  send_channels-eq :
      (e : WhitelistEntity) (curl : Url) (chs : List Str) (out : Sent)
      → send_channels entity_info env f true e curl chs out
        ≡ send_channels entity_info env g true e curl chs out
  unfolding send_channels
  send_channels-eq e curl [] out = refl
  send_channels-eq e curl (ch ∷ chs) out =
      ap (λ r. continue entity_info env f true r (send_channels entity_info env f true e curl chs))
        (answered-eq e curl ch (entity_info ch curl) out)
      ∙ continue-eq _ _ _ (send_channels-eq e curl chs)

  parsed-eq :
      (e : WhitelistEntity) (r : Result Error Url) (out : Sent)
      → parsed entity_info env f true e r out ≡ parsed entity_info env g true e r out
  parsed-eq e (ok curl) out = elim (Bool-cases (is_empty e.channels)) [
    | inl none_given ↦ rw none_given
    | inr given ↦ rw given (send_channels-eq e curl e.channels out)
  ]
  parsed-eq e (err failure) out = refl

  -- For a charm that a bundle names it makes no difference how a bundle is followed: the calls go
  -- two levels deep and no deeper, whatever the source store answers.
  pub send_resolved_urls1_depth :
      (e : WhitelistEntity) (out : Sent)
      → send_resolved_urls1 entity_info env f true e out
        ≡ send_resolved_urls1 entity_info env g true e out
  unfolding send_resolved_urls1
  send_resolved_urls1_depth e out = parsed-eq e _ out
