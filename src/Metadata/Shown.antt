-- ===== src/Metadata/Shown.antt =====
-- What `charm show` asks the store for, and how the fields of `charm set` are divided.
use charmstore_client.Base.{
  ◌≡◌, refl, ◌∙◌, ap, Bool, false, not, ◌&&◌, ◌||◌, List, [], ◌∷◌, Str, is_empty, contains,
  contains-append, ◌==◌, nat_eq, list_eq, arith,
}
use charmstore_client.Metadata.{
  is_common_field, Includes, common_info, handle_include, include_loop, require_common,
  handle_includes,
}

module _ (x : Str) where
  contains-loop_new :
      (r : Includes) (l : List Str)
      → contains (include_loop r l).new_includes x
        ≡ (contains r.new_includes x || (contains l x && not (is_common_field x)))
  unfolding include_loop handle_include
  contains-loop_new r [] = ground arith
  contains-loop_new r (v ∷ l) =
      contains-loop_new (handle_include r v) l
      ∙ ground (arith, contains-append r.new_includes (v ∷ []) x)

  contains-loop_common :
      (r : Includes) (l : List Str)
      → contains (include_loop r l).common_fields x
        ≡ (contains r.common_fields x || (contains l x && is_common_field x))
  unfolding include_loop handle_include
  contains-loop_common r [] = ground arith
  contains-loop_common r (v ∷ l) =
      contains-loop_common (handle_include r v) l
      ∙ ground (arith, contains-append r.common_fields (v ∷ []) x)

or_assoc : (a b c : Bool) → ((a || b) || c) ≡ (a || (b || c))
or_assoc a b c = ground arith

eq_sym : (a b : Str) → (a == b) ≡ (b == a)
eq_sym a b = ground arith

loop_required :
    (r : Includes) (l : List Str)
    → (include_loop r l).already_required ≡ (r.already_required || contains l common_info)
unfolding include_loop handle_include
loop_required r [] = ground arith
loop_required r (v ∷ l) =
    loop_required (handle_include r v) l
    ∙ rw (eq_sym v common_info)
        (or_assoc r.already_required (common_info == v) (contains l common_info))

pub common_info-own : is_common_field common_info ≡ false
unfolding is_common_field list_eq nat_eq
common_info-own = refl

require_common-lem :
    (r : Includes) (x : Str)
    → ((require_common r).common_fields ≡ r.common_fields)
      × ((require_common r).already_required ≡ r.already_required)
      × (contains (require_common r).new_includes x ≡ (
          contains r.new_includes x
          || (x == common_info && (not (is_empty r.common_fields) && not r.already_required))))
unfolding require_common
require_common-lem r x = ground (arith, contains-append r.new_includes (common_info ∷ []) x)

-- Where "common-info" is asked for itself, it is requested as itself.
absorb :
    (includes : List Str) (p : Str → Bool) (x y : Str) (some_common : Bool)
    → p y ≡ false
    → ((contains includes x && not (p x)) || (x == y && (some_common && not (contains includes y))))
      ≡ ((contains includes x && not (p x)) || (x == y && some_common))
absorb includes p x y some_common h = ground arith

-- A field that is asked for is requested, as itself or, for the two common fields, by
-- "common-info", which is requested when it is asked for itself or some common field is; no
-- other field is requested; and the caller is told which common fields to take out.
pub contains-handle_includes :
    (includes : List Str) (x : Str)
    → (contains (handle_includes includes).common_fields x
        ≡ (contains includes x && is_common_field x))
      × ((handle_includes includes).already_required ≡ contains includes common_info)
      × (contains (handle_includes includes).new_includes x ≡ (
          (contains includes x && not (is_common_field x))
          || (x == common_info && not (is_empty (handle_includes includes).common_fields))))
unfolding handle_includes require_common
contains-handle_includes includes x =
    let empty : Includes = record {
      already_required = false;
      common_fields = [];
      new_includes = [];
    } in
    let (common, required, requested) = require_common-lem (include_loop empty includes) x in
    (
      ap (λ l. contains l x) common ∙ contains-loop_common x empty includes,
      required ∙ loop_required empty includes,
      rw (common) (
          requested
          ∙ rw (contains-loop_new x empty includes, loop_required empty includes)
              (absorb includes is_common_field x common_info _ common_info-own)),
    )
