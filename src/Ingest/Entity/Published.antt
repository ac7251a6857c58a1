-- ===== src/Ingest/Entity/Published.antt =====
-- The channels in what addPublishedResources of ingest.go makes.
use charmstore_client.Base.{
  ℤ, ◌≡◌, refl, ◌∙◌, [], ◌∷◌, Str, list_eq, nat_eq, arith, Option-cases, inl, inr,
}
use charmstore_client.Base.Dict
use charmstore_client.Base.Dict.{Dict, lookup-insert}
use charmstore_client.Ingest.Entity.{add_channel, add_published_resources, put_all}

module _ (ch : Str) where
  has-add_channel :
      (r0 : Dict Str (Dict Str ℤ)) (j : Str) (resources : Dict Str ℤ)
      → Dict.has ch (add_channel r0 j resources) ≡ Dict.has ch r0
  has-add_channel r0 j [] = refl
  has-add_channel r0 j (r ∷ rs) = elim (Option-cases (Dict.lookup j r0)) [
    | inl absent ↦ rw absent
    | inr (old, found) ↦ ground (arith, found, lookup-insert ch j (put_all old (r ∷ rs)) r0)
  ]

  -- The result has exactly the channels of the first argument: no channel of the second argument
  -- is added, whether the first argument has other channels or none.
  pub has-add_published_resources :
      (r0 r1 : Dict Str (Dict Str ℤ)) → Dict.has ch (add_published_resources r0 r1) ≡ Dict.has ch r0
  unfolding add_published_resources
  has-add_published_resources r0 [] = refl
  has-add_published_resources r0 ((j, resources) ∷ r1) =
      has-add_published_resources (add_channel r0 j resources) r1 ∙ has-add_channel r0 j resources
