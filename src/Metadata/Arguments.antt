-- ===== src/Metadata/Arguments.antt =====
-- How the fields of `charm set` are parsed and divided.
use charmstore_client.Base.{
  ap, Bool, codes, split_2, none, some, List, [], ◌∷◌, true, false, Option, suc, ◌+◌, subst, length,
  map, ◌++◌, append_assoc, append-nil, Result, ok, err, Error, sym, Option-cases, ◌≡◌, refl, ◌∙◌,
  not, ◌&&◌, none, [], ◌∷◌, Str, if◌then◌else◌, nat_eq, list_eq, arith, Bool-cases, inl, inr,
}
use charmstore_client.Base.Dict
use charmstore_client.Base.Dict.{
  insert-NodupKeys, keys, insert-NodupKeys, keys, Dict, NodupKeys, contains-keys, lookup-insert,
  insert-NodupKeys,
}
use charmstore_client.Metadata.{
  text, json, Value, parse_key_value, parse_loop, parse_key_values, add_field, of_parts,
  is_common_field, split_loop, split_fields,
}

module _ {V : Type 0} (j : Str) where
  split_loop-cons :
      (k : Str) (v : V) (d common extra : Dict Str V)
      → split_loop ((k, v) ∷ d) (common, extra) ≡ (
          if is_common_field k
          then split_loop d (Dict.insert k v common, extra)
          else split_loop d (common, Dict.insert k v extra))
  unfolding split_loop
  split_loop-cons k v d common extra = ground arith

  lookup-split_loop :
      (d common extra : Dict Str V)
      → NodupKeys d
      → (Dict.lookup j (split_loop d (common, extra)).0
          ≡ (if Dict.has j d && is_common_field j then Dict.lookup j d else Dict.lookup j common))
        × (Dict.lookup j (split_loop d (common, extra)).1 ≡ (
            if Dict.has j d && not (is_common_field j)
            then Dict.lookup j d
            else Dict.lookup j extra))
  unfolding Dict.lookup
  lookup-split_loop [] common extra h = unfold split_loop in (refl, refl)
  lookup-split_loop ((k, v) ∷ d) common extra (fresh, h) = elim (Bool-cases (is_common_field k)) [
    | inl c ↦
        let (p, q) = lookup-split_loop d (Dict.insert k v common) extra h in
        rw (split_loop-cons k v d common extra, c)
          (
            p ∙ ground (arith, lookup-insert j k v common, contains-keys d k, fresh, c),
            q ∙ ground (arith, contains-keys d k, fresh, c),
          )
    | inr c ↦
        let (p, q) = lookup-split_loop d common (Dict.insert k v extra) h in
        rw (split_loop-cons k v d common extra, c)
          (
            p ∙ ground (arith, contains-keys d k, fresh, c),
            q ∙ ground (arith, lookup-insert j k v extra, contains-keys d k, fresh, c),
          )
  ]

  -- Each field goes to the common fields or to the extra ones, by its name alone, with its value.
  pub lookup-split_fields :
      (d : Dict Str V)
      → NodupKeys d
      → (Dict.lookup j (split_fields d).0 ≡ (if is_common_field j then Dict.lookup j d else none))
        × (Dict.lookup j (split_fields d).1 ≡ (if is_common_field j then none else Dict.lookup j d))
  unfolding split_fields Dict.lookup
  lookup-split_fields d h =
      let (p, q) = lookup-split_loop d [] [] h in (p ∙ ground arith, q ∙ ground arith)

-- What an argument of `charm set` says by its form: a JSON value behind the first ":=" in it, or else
-- a string behind the first "=".
abbrev pub plain_field : Option (Str × Str) → Option (Str × Value)
plain_field none = none
plain_field (some (key, val)) = some (key, text val)

abbrev pub json_field : Option (Str × Str) → Option (Str × Value) → Option (Str × Value)
json_field none plain = plain
json_field (some (key, val)) plain = some (key, json val)

abbrev pub field_of : Str → Option (Str × Value)
field_of kv = json_field (split_2 (codes ":=") kv) (plain_field (split_2 (codes "=") kv))

-- A turn that goes through adds the field of its argument, with a key that was not there.
record Added (field : Option (Str × Value)) (before after : Dict Str Value) : Type 0 where
  key : Str
  val : Value
  is_field : field ≡ some (key, val)
  was_absent : Dict.has key before ≡ false
  is_inserted : after ≡ Dict.insert key val before

map-append : (d f : Dict Str Value) → map some (d ++ f) ≡ map some d ++ map some f
map-append [] f = refl
map-append (x ∷ d) f = ap (λ l. some x ∷ l) (map-append d f)

insert_absent :
    (k : Str) (v : Value) (d : Dict Str Value)
    → Dict.has k d ≡ false
    → Dict.insert k v d ≡ d ++ (k, v) ∷ []
unfolding Dict.lookup Dict.insert
insert_absent k v [] h = refl
insert_absent k v ((j, w) ∷ d) h = ground (arith, insert_absent k v d)

length-insert_absent :
    (k : Str) (v : Value) (d : Dict Str Value)
    → Dict.has k d ≡ false
    → length (Dict.insert k v d) ≡ suc (length d)
unfolding Dict.lookup Dict.insert
length-insert_absent k v [] h = refl
length-insert_absent k v ((j, w) ∷ d) h = ground (arith, length-insert_absent k v d)

module _ (valid_json : Str → Option Error) where
  add_field-Added :
      (kv key val : Str) (is_json : Bool) (before after : Dict Str Value)
      → add_field valid_json kv key val is_json before ≡ ok after
      → Added (some (key, if is_json then json val else text val)) before after
  add_field-Added kv key val false before after h = record {
    key = key;
    val = text val;
    is_field = refl;
    was_absent = ground arith;
    is_inserted = ground arith;
  }
  add_field-Added kv key val true before after h = elim (Option-cases (valid_json val)) [
    | inl valid ↦ record {
      key = key;
      val = json val;
      is_field = refl;
      was_absent = ground (arith, valid);
      is_inserted = ground (arith, valid);
    }
    | inr (e, invalid) ↦ absurd (ground (arith, invalid))
  ]

  of_parts-Added :
      (kv : Str) (plain parts : Option (Str × Str)) (before after : Dict Str Value)
      → split_2 (codes "=") kv ≡ plain
      → of_parts valid_json kv parts before ≡ ok after
      → Added (json_field parts (plain_field plain)) before after
  of_parts-Added kv none none before after cut h = absurd (ground (arith, cut))
  of_parts-Added kv (some (key, val)) none before after cut h =
      add_field-Added kv key val false before after (ground (arith, cut))
  of_parts-Added kv plain (some (key, val)) before after cut h =
      add_field-Added kv key val true before after h

  parse_loop-cons :
      (before : Dict Str Value) (kv : Str) (src : List Str) (turn : Result Error (Dict Str Value))
      → parse_key_value valid_json kv before ≡ turn
      → parse_loop valid_json before (kv ∷ src)
        ≡ elim turn [ ok next ↦ parse_loop valid_json next src | err e ↦ err e ]
  unfolding parse_loop
  parse_loop-cons before kv src turn h = rw (parse_loop, h) refl

  -- What the rest of the loop keeps, the loop keeps.
  abbrev Kept : Dict Str Value → Dict Str Value → List Str → Type 0
  Kept before after src =
      NodupKeys after
      × (length after ≡ length before + length src)
      × (map some after ≡ map some before ++ map field_of src)

  parse_turn-NodupKeys :
      (before after : Dict Str Value) (kv : Str) (src : List Str)
      (turn : Result Error (Dict Str Value))
      → parse_key_value valid_json kv before ≡ turn
      → ((next : Dict Str Value)
          → NodupKeys next
          → parse_loop valid_json next src ≡ ok after
          → Kept next after src)
      → NodupKeys before
      → elim turn [ ok next ↦ parse_loop valid_json next src | err e ↦ err e ] ≡ ok after
      → Kept before after (kv ∷ src)
  unfolding parse_key_value
  parse_turn-NodupKeys before after kv src (err e) seen rest u h = absurd (ground arith)
  parse_turn-NodupKeys before after kv src (ok next) seen rest u h =
      let a = of_parts-Added kv _ _ before next refl seen in
      let unique = subst NodupKeys (sym a.is_inserted) (insert-NodupKeys a.key a.val before u) in
      let grown = ap length a.is_inserted ∙ length-insert_absent a.key a.val before a.was_absent in
      let (nodup, size, same) = rest next unique h in
      let shown : map some next ≡ map some before ++ field_of kv ∷ [] =
        ap (map some) (a.is_inserted ∙ insert_absent a.key a.val before a.was_absent)
        ∙ map-append before ((a.key, a.val) ∷ [])
        ∙ ap (λ o. map some before ++ o ∷ []) (sym a.is_field) in
      (
        nodup,
        omega arith,
        same
            ∙ ap (λ l. l ++ map field_of src) shown
            ∙ append_assoc (map some before) (field_of kv ∷ []) (map field_of src),
      )

  parse_loop-NodupKeys :
      (src : List Str) (before after : Dict Str Value)
      → NodupKeys before
      → parse_loop valid_json before src ≡ ok after
      → Kept before after src
  parse_loop-NodupKeys [] before after u h =
      unfold parse_loop in
      subst (λ d. Kept before d []) {x = before} {y = after} (ground arith)
        (u, omega arith, sym (append-nil (map some before)))
  parse_loop-NodupKeys (kv ∷ src) before after u h =
      parse_turn-NodupKeys before after kv src _ refl (λ next. parse_loop-NodupKeys src next after)
        u (sym (parse_loop-cons before kv src _ refl) ∙ h)

  -- When the arguments are accepted each has set a field of its own: no key is there twice, there are
  -- as many fields as arguments, and they are those that the arguments say, in their order.
  pub parse_key_values-NodupKeys :
      (src : List Str) (fields : Dict Str Value)
      → parse_key_values valid_json src ≡ ok fields
      → NodupKeys fields × (length fields ≡ length src) × (map some fields ≡ map field_of src)
  unfolding parse_key_values
  parse_key_values-NodupKeys src fields h =
      let (nodup, size, same) = parse_loop-NodupKeys src [] fields tt h in
      (nodup, size ∙ omega arith, same)
