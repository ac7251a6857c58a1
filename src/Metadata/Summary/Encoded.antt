-- ===== src/Metadata/Summary/Encoded.antt =====
-- What the summary of `charm show` reads of the metadata of a charm.
use charmstore_client.Base.{
  ◌≡◌, refl, ap, sym, false, some, List, [], ◌∷◌, Str, codes, list_eq, nat_eq,
}
use charmstore_client.Base.Dict
use charmstore_client.Base.Dict.{Dict}
use charmstore_client.Metadata.Json.{
  Json, boolean, number, text, array, object, Items, no_items, item, no_members, member, items,
  members,
}
use charmstore_client.Metadata.Summary.{ShowData, to_string_array, new_show_data}

abbrev pub text_items : List Str → Items
text_items [] = no_items
text_items (s ∷ l) = item (text s) (text_items l)

abbrev pub json_items : List Json → Items
json_items [] = no_items
json_items (x ∷ l) = item x (json_items l)

to_string_array-text_items : (l : List Str) → to_string_array (items (text_items l)) ≡ some l
unfolding to_string_array items
to_string_array-text_items [] = refl
to_string_array-text_items (s ∷ l) = rw (to_string_array-text_items l) refl

items-json_items : (l : List Json) → items (json_items l) ≡ l
unfolding items
items-json_items [] = refl
items-json_items (x ∷ l) = rw (items-json_items l) refl

abbrev pub single : Str → Json → Json
single name x = object (member name x no_members)

-- The metadata of a charm, as the store answers with it.
abbrev pub encode : ShowData → Dict Str Json
encode s =
    (
      codes "perm",
      object (
          member (codes "Read") (array (text_items s.read))
            (member (codes "Write") (array (text_items s.write)) no_members)),
    )
    ∷ (
      codes "charm-metadata",
      object (
          member (codes "Summary") (text s.summary) (
            member (codes "Tags") (array (text_items s.tags))
              (member (codes "Subordinate") (boolean s.subordinate) no_members))),
    )
    ∷ (codes "bugs-url", text s.bugs_url)
    ∷ (codes "homepage", text s.home_page)
    ∷ (codes "published", single (codes "Info") (array (json_items s.channels)))
    ∷ (codes "promulgated", single (codes "Promulgated") (boolean s.promulgated))
    ∷ (codes "owner", single (codes "User") (text s.owner))
    ∷ (codes "terms", array (text_items s.terms))
    ∷ (codes "id-name", single (codes "Name") (text s.name))
    ∷ (codes "id-revision", single (codes "Revision") (number s.revision))
    ∷ (
      codes "supported-series",
      single (codes "SupportedSeries") (array (text_items s.supported_series)),
    )
    ∷ []

-- Every field of the summary of a charm is read from its place in the metadata.
pub new_show_data-encode : (s : ShowData) → s.bundle ≡ false → new_show_data (encode s) ≡ some s
unfolding new_show_data Dict.lookup list_eq nat_eq members
new_show_data-encode s charm =
    rw
      (
        to_string_array-text_items s.read,
        to_string_array-text_items s.write,
        to_string_array-text_items s.tags,
        to_string_array-text_items s.terms,
        to_string_array-text_items s.supported_series,
        items-json_items s.channels,
      )
      (ap (λ b. some (record s { bundle = b })) (sym charm))
