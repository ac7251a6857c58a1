-- ===== src/Ingest/Shim/Info.antt =====
-- What entityInfo of the shim says about an entity.
use charmstore_client.Base.{
  ℤ, minus_one, ◌≡◌, refl, ◌∙◌, arith, Bool, Option, none, some, List, [], ◌∷◌, Str, ◌==◌, list_eq,
  nat_eq, int_eq, if◌then◌else◌, Bool-cases, inl, inr,
}
use charmstore_client.Base.Dict
use charmstore_client.Base.Dict.{Dict, lookup-insert}
use charmstore_client.Base.Sort.{
  IsSortedBy, count, count-sort_by, sort_by-IsSortedBy, str_leb-total,
}
use charmstore_client.Ingest.Shim.{
  BundleCharm, Resource, Application, Meta, info_of_meta, published_channels, listed_resources,
  le_charm, sorted_charms, store_resources, sort_bundle_charms, bundle_charms,
}

module _ (k : Str) where
  -- The state of a channel in the last entry for it.
  abbrev pub last_published : Option Bool → List (Str × Bool) → Option Bool
  last_published o [] = o
  last_published o ((ch, current) ∷ info) =
      last_published (if k == ch then some current else o) info

  -- The revision in the last entry for a resource that has one, as a list of one.
  abbrev pub last_revision : Option (List ℤ) → List Resource → Option (List ℤ)
  last_revision o [] = o
  last_revision o (r ∷ rs) =
      last_revision
        (if r.revision == minus_one then o else if k == r.name then some (r.revision ∷ []) else o)
        rs

  lookup-published_channels :
      (d : Dict Str Bool) (info : List (Str × Bool))
      → Dict.lookup k (published_channels d info) ≡ last_published (Dict.lookup k d) info
  unfolding published_channels
  lookup-published_channels d [] = refl
  lookup-published_channels d ((ch, current) ∷ info) =
      lookup-published_channels (Dict.insert ch current d) info ∙ rw lookup-insert

  lookup-listed_resources :
      (d : Dict Str (List ℤ)) (rs : List Resource)
      → Dict.lookup k (listed_resources d rs) ≡ last_revision (Dict.lookup k d) rs
  unfolding listed_resources
  lookup-listed_resources d [] = refl
  lookup-listed_resources d (r ∷ rs) = elim (Bool-cases (r.revision == minus_one)) [
    | inl skipped ↦ rw skipped (lookup-listed_resources d rs)
    | inr kept ↦
        rw kept
          (lookup-listed_resources (Dict.insert r.name (r.revision ∷ []) d) rs ∙ rw lookup-insert)
  ]

sorted_charms-IsSortedBy : (o : Option (List Application)) → IsSortedBy le_charm (sorted_charms o)
unfolding sort_bundle_charms
sorted_charms-IsSortedBy none = tt
sorted_charms-IsSortedBy (some apps) =
    sort_by-IsSortedBy le_charm (λ b c. str_leb-total b.charm c.charm) (bundle_charms apps)

-- The revision of a resource that a bundle pins: that of its entry in the store, if it has one.
abbrev pub pinned : Str → Dict Str (Option ℤ) → Option ℤ
pinned k [] = none
pinned k ((j, none) ∷ resources) = pinned k resources
pinned k ((j, some rev) ∷ resources) = if k == j then some rev else pinned k resources

lookup-store_resources :
    (resources : Dict Str (Option ℤ)) (k : Str)
    → Dict.lookup k (store_resources resources) ≡ pinned k resources
unfolding store_resources Dict.lookup
lookup-store_resources [] k = refl
lookup-store_resources ((j, none) ∷ resources) k = lookup-store_resources resources k
lookup-store_resources ((j, some rev) ∷ resources) k =
    ground (arith, lookup-store_resources resources k)

-- A test of a charm of a bundle by its name and the revisions that the bundle pins.
abbrev pub CharmTest : Type 0
CharmTest = Str → (Str → Option ℤ) → Bool

abbrev pub of_charm : CharmTest → BundleCharm → Bool
of_charm test b = test b.charm (λ k. Dict.lookup k b.resources)

abbrev pub of_application : CharmTest → Application → Bool
of_application test app = test app.charm (λ k. pinned k app.resources)

abbrev pub applications : Option (List Application) → List Application
applications none = []
applications (some apps) = apps

count-bundle_charms :
    (test : CharmTest) (apps : List Application)
    → count (of_charm test) (bundle_charms apps) ≡ count (of_application test) apps
unfolding bundle_charms count
count-bundle_charms test [] = refl
count-bundle_charms test (app ∷ apps) =
    let same : test app.charm (λ k. Dict.lookup k (store_resources app.resources))
        ≡ test app.charm (λ k. pinned k app.resources) =
      λ i. test app.charm (λ k. lookup-store_resources app.resources k i) in
    rw (same, count-bundle_charms test apps) refl

count-sorted_charms :
    (test : CharmTest) (o : Option (List Application))
    → count (of_charm test) (sorted_charms o) ≡ count (of_application test) (applications o)
unfolding sort_bundle_charms
count-sorted_charms test none = unfold count in refl
count-sorted_charms test (some apps) =
    count-sort_by le_charm (of_charm test) (bundle_charms apps) ∙ count-bundle_charms test apps

-- The shim's view of an entity: for each channel the published state that the store names last; for
-- each resource the revision that it names last, entries without a revision left out; and for each
-- application of a bundle its charm with the revisions that it pins, in the order of the names of
-- the charms: as many charms as applications pass any test of the name and the revisions.
pub info_of_meta_lem :
    (m : Meta) (k : Str)
    → (Dict.lookup k (info_of_meta m).channels ≡ last_published k none m.published)
      × (Dict.lookup k (info_of_meta m).resources ≡ last_revision k none m.resources)
      × IsSortedBy le_charm (info_of_meta m).bundle_charms
      × ((test : CharmTest)
          → count (of_charm test) (info_of_meta m).bundle_charms
            ≡ count (of_application test) (applications m.bundle_metadata))
unfolding info_of_meta Dict.lookup
info_of_meta_lem m k = (
  lookup-published_channels k [] m.published,
  lookup-listed_resources k [] m.resources,
  sorted_charms-IsSortedBy m.bundle_metadata,
  λ test. count-sorted_charms test m.bundle_metadata,
)
