-- ===== src/Metadata/Show/Fields.antt =====
-- What `charm show` shows of the metadata.
use charmstore_client.Base.{
  ◌≡◌, refl, ◌∙◌, sym, ap, subst, ==_true, Bool, true, false, not, ◌&&◌, ◌||◌, Option, none, some,
  List, [], ◌∷◌, Str, is_empty, contains, ok, ◌==◌, list_eq, nat_eq, if◌then◌else◌, arith,
}
use charmstore_client.Base.Dict
use charmstore_client.Base.Dict.{Dict, lookup-insert, lookup-erase}
use charmstore_client.Charm.{Url}
use charmstore_client.Metadata.{Includes, is_common_field, common_info, handle_includes}
use charmstore_client.Metadata.Json.{Json, text}
use charmstore_client.Metadata.Shown.{contains-handle_includes, common_info-own}
use charmstore_client.Metadata.Show.{
  MetaStore, fields, take_common, as_object_of, with_info, show_fields, show_includes,
}

-- The store answers with the fields that it is asked for and no others.
abbrev pub IsAnswer : List Str → Dict Str Json → Type 0
IsAnswer request meta = (x : Str) → Dict.has x meta ≡ contains request x

-- What "common-info" says of a field.
abbrev pub common_value : Dict Str Json → Str → Json
common_value info x = elim (Dict.lookup x info) [ some v ↦ v | none ↦ text [] ]

lookup-take_common :
    (l : List Str) (info meta : Dict Str Json) (x : Str)
    → Dict.lookup x (take_common l info meta)
      ≡ (if contains l x then some (common_value info x) else Dict.lookup x meta)
unfolding take_common
lookup-take_common [] info meta x = refl
lookup-take_common (v ∷ l) info meta x = ground (
  arith,
  lookup-take_common l info (Dict.insert v (common_value info v) meta) x,
  lookup-insert x v (common_value info v) meta,
)

lookup-absent : (x : Str) (d : Dict Str Json) → Dict.has x d ≡ false → Dict.lookup x d ≡ none
lookup-absent x d h = ground arith

-- The fields behind the request, from its answer.
abbrev pub field_of : Includes → Dict Str Json → Dict Str Json → Str → Option Json
field_of r meta info x =
    if (not (is_empty r.common_fields) && not r.already_required) && x == common_info
    then none
    else if contains r.common_fields x
    then some (common_value info x)
    else Dict.lookup x meta

lookup-erased :
    (b : Bool) (m : Dict Str Json) (x : Str)
    → Dict.lookup x (if b then m else Dict.erase common_info m)
      ≡ (if not b && x == common_info then none else Dict.lookup x m)
lookup-erased true m x = refl
lookup-erased false m x = lookup-erase x common_info m

empty-contains : (l : List Str) (x : Str) → is_empty l ≡ true → contains l x ≡ false
empty-contains [] x h = refl
empty-contains (_ ∷ _) x h = ground arith

not_empty : (l : List Str) (x : Str) → contains l x ≡ true → not (is_empty l) ≡ true
not_empty [] x h = ground arith
not_empty (_ ∷ _) x h = refl

by_common :
    (b : Bool) (r : Includes) (meta info : Dict Str Json)
    → is_empty r.common_fields ≡ b
    → (b ≡ false → as_object_of (Dict.lookup common_info meta) ≡ some info)
    → (out : Dict Str Json) × ((if b
          then some meta
          else with_info r meta (as_object_of (Dict.lookup common_info meta)))
        ≡ some out)
      × ((x : Str) → Dict.lookup x out ≡ field_of r meta info x)
by_common true r meta info e h = (meta, refl, λ x. rw (e, empty-contains r.common_fields x e) refl)
by_common false r meta info e h =
    let taken = take_common r.common_fields info meta in
    (
      if r.already_required then taken else Dict.erase common_info taken,
      ap (with_info r meta) (h refl),
      λ x.
          lookup-erased r.already_required taken x
          ∙ rw (e, lookup-take_common r.common_fields info meta x) refl,
    )

-- The fields that are shown are those that were asked for.
asked_lem :
    (asked common common_field is_info some_common required here : Bool) (o v : Option Json)
    → common ≡ (asked && common_field)
    → (is_info ≡ true → required ≡ asked)
    → (is_info ≡ true → common_field ≡ false)
    → (common ≡ true → some_common ≡ true)
    → here ≡ ((asked && not common_field) || (is_info && some_common))
    → (here ≡ false → o ≡ none)
    → (if (some_common && not required) && is_info then none else if common then v else o)
      ≡ (if asked then (if common_field then v else o) else none)
asked_lem asked common common_field is_info some_common required here o v a b c d e f = ground arith

module _ (S : MetaStore) (id : Url) (includes : List Str) where
  -- What is shown of a field that was asked for.
  abbrev pub shown_field : Dict Str Json → Dict Str Json → Str → Option Json
  shown_field meta info x =
      if contains includes x
      then (if is_common_field x then some (common_value info x) else Dict.lookup x meta)
      else none

  -- When the store answers a request of `charm show` with the fields that are requested, of which
  -- "common-info" is an object when it is requested, the command does not panic, and shows exactly
  -- the fields that were asked for: "bugs-url" and "homepage" as they stand in "common-info", empty where
  -- they do not, and every other field as it was answered.
  pub show_includes-fields :
      (meta info : Dict Str Json)
      → S.meta_any id (handle_includes includes).new_includes ≡ ok meta
      → IsAnswer (handle_includes includes).new_includes meta
      → (is_empty (handle_includes includes).common_fields ≡ false
          → as_object_of (Dict.lookup common_info meta) ≡ some info)
      → (out : Dict Str Json) × (show_includes S id includes ≡ some (ok (fields out)))
        × ((x : Str) → Dict.lookup x out ≡ shown_field meta info x)
  unfolding show_includes show_fields
  show_includes-fields meta info h k g =
      let r = handle_includes includes in
      let (out, same, at) = by_common (is_empty r.common_fields) r meta info refl g in
      (
        out,
        rw (h, same) refl,
        λ x.
            let (common, required, requested) = contains-handle_includes includes x in
            at x
            ∙ asked_lem (contains includes x) (contains r.common_fields x) (is_common_field x)
                (x == common_info) (not (is_empty r.common_fields)) r.already_required
                (contains r.new_includes x) (Dict.lookup x meta) (some (common_value info x)) common
                (λ e.
                  subst (λ y. r.already_required ≡ contains includes y)
                    (sym (==_true x common_info e)) required)
                (λ e.
                  subst (λ y. is_common_field y ≡ false) (sym (==_true x common_info e))
                    common_info-own)
                (not_empty r.common_fields x) requested (λ n. lookup-absent x meta (k x ∙ n)),
      )
