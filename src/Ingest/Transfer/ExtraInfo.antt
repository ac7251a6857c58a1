-- ===== src/Ingest/Transfer/ExtraInfo.antt =====
-- The changes to the extra-info of an entity that exists in the destination.
use charmstore_client.Base.{
  ◌≡◌, refl, ◌∙◌, false, not, ◌&&◌, Option, none, some, [], ◌∷◌, ◌++◌, Str, ◌==◌, list_eq, nat_eq,
  if◌then◌else◌, arith, is_empty, Option-cases, inl, inr,
}
use charmstore_client.Base.Dict
use charmstore_client.Base.Dict.{Dict, lookup-insert, lookup-erase, NodupKeys, contains-keys}
use charmstore_client.Ingest.Entity.{or_empty}
use charmstore_client.Ingest.Transfer.{changed_fields, removed_fields, extra_info_changes}

-- What the store makes of a request: it sets the fields with a value, and drops those without.
pub apply_changes : Dict Str Str → Dict Str (Option Str) → Dict Str Str
apply_changes d [] = d
apply_changes d ((k, none) ∷ changes) = apply_changes (Dict.erase k d) changes
apply_changes d ((k, some v) ∷ changes) = apply_changes (Dict.insert k v d) changes

module _ (k : Str) where
  -- The field `k` after the changes, from what it was before.
  abbrev effect : Dict Str (Option Str) → Option Str → Option Str
  effect [] o = o
  effect ((j, v) ∷ changes) o = effect changes (if k == j then v else o)

  lookup-apply_changes :
      (d : Dict Str Str) (changes : Dict Str (Option Str))
      → Dict.lookup k (apply_changes d changes) ≡ effect changes (Dict.lookup k d)
  unfolding apply_changes
  lookup-apply_changes d [] = refl
  lookup-apply_changes d ((j, none) ∷ changes) =
      lookup-apply_changes (Dict.erase j d) changes ∙ rw lookup-erase
  lookup-apply_changes d ((j, some v) ∷ changes) =
      lookup-apply_changes (Dict.insert j v d) changes ∙ rw lookup-insert

  effect-append :
      (a b : Dict Str (Option Str)) (o : Option Str) → effect (a ++ b) o ≡ effect b (effect a o)
  effect-append [] b o = refl
  effect-append (c ∷ a) b o = effect-append a b _

  module _ (dest : Dict Str Str) where
    abbrev changed : Option Str → Option Str → Option Str
    changed none o = o
    changed (some v) o = if or_empty (Dict.lookup k dest) == v then o else some v

    effect-changed_fields :
        (extra : Dict Str Str) (o : Option Str)
        → NodupKeys extra
        → effect (changed_fields dest extra) o ≡ changed (Dict.lookup k extra) o
    unfolding changed_fields Dict.lookup
    effect-changed_fields [] o u = refl
    effect-changed_fields ((j, v) ∷ extra) o (fresh, u) = ground (
      arith,
      effect-changed_fields extra o u,
      effect-changed_fields extra (some v) u,
      contains-keys extra j,
    )

    effect-removed_fields :
        (extra rest : Dict Str Str) (o : Option Str)
        → effect (removed_fields extra rest) o
          ≡ (if Dict.has k rest && not (Dict.has k extra) then none else o)
    unfolding removed_fields Dict.lookup
    effect-removed_fields extra [] o = refl
    effect-removed_fields extra ((j, v) ∷ rest) o =
        ground (arith, effect-removed_fields extra rest o, effect-removed_fields extra rest none)

    -- The changes of a field whose value in the source, if there is one, is not empty.
    settled :
        (extra : Dict Str Str)
        → ((v : Str) → Dict.lookup k extra ≡ some v → is_empty v ≡ false)
        → (if Dict.has k dest && not (Dict.has k extra)
            then none
            else changed (Dict.lookup k extra) (Dict.lookup k dest))
          ≡ Dict.lookup k extra
    settled extra solid = elim (Option-cases (Dict.lookup k extra)) [
      | inl absent ↦ ground arith
      | inr (v, present) ↦ ground (arith, solid v present)
    ]

-- After the changes that the transfer asks for, every field of the destination has the value that it
-- has in the source, and a field that the source lacks is gone. The values of the source are not
-- empty, as JSON values never are.
pub extra_info_changes_sync :
    (extra dest : Dict Str Str)
    → NodupKeys extra
    → ((k v : Str) → Dict.lookup k extra ≡ some v → is_empty v ≡ false)
    → (k : Str)
    → Dict.lookup k (apply_changes dest (extra_info_changes extra dest)) ≡ Dict.lookup k extra
unfolding extra_info_changes
extra_info_changes_sync extra dest u solid k =
    lookup-apply_changes k dest _
    ∙ effect-append k (changed_fields dest extra) (removed_fields extra dest) _
    ∙ rw
        (
          effect-changed_fields k dest extra (Dict.lookup k dest) u,
          effect-removed_fields k dest extra dest,
        )
        (settled k dest extra (solid k))
