-- ===== src/Metadata/Set/Stored.antt =====
-- What `charm set` leaves in the charm store.
use charmstore_client.Base.{
  ◌≡◌, Bool, false, Option, none, some, Str, Result, Error, if◌then◌else◌, nat_eq, list_eq,
}
use charmstore_client.Base.Dict
use charmstore_client.Base.Dict.{Dict, NodupKeys}
use charmstore_client.Charm.{Url}
use charmstore_client.Metadata.{Value, text, is_common_field}
use charmstore_client.Metadata.Set.{FieldStore}

-- A field behind the change: none where the change says that it is removed, or the one of the change,
-- or the one before.
module _ (removes : Value → Bool) where
  abbrev pub changed : Option Value → Option Value → Option Value
  changed none old = old
  changed (some v) old = if removes v then none else some v

-- A request that sets or removes the fields it is given in one view of the store, leaves the other
-- fields there as they are, and leaves another view alone.
abbrev pub Sets :
    {State : Type 0}
    → (Value → Bool)
    → (Str → State → Option Value)
    → (Str → State → Option Value)
    → (Dict Str Value → State → Option Error × State)
    → Type 0
Sets {State} removes view other put =
    (d : Dict Str Value) (s : State)
    → (s' : _) × (put d s ≡ (none, s'))
      × ((j : Str) → view j s' ≡ changed removes (Dict.lookup j d) (view j s))
      × ((j : Str) → other j s' ≡ other j s)

-- The charm store as it answers a user who may write to the entity. A value may stand for the removal
-- of its field, as a JSON null does in the extra info; a string does not.
pub record IsFieldStore (S : FieldStore) (id : Url) : Type 0 where
  pub common : Str → S.State → Option Value
  pub extra : Str → S.State → Option Value
  pub removes_common : Value → Bool
  pub removes_extra : Value → Bool
  pub common_text : (t : Str) → removes_common (text t) ≡ false
  pub extra_text : (t : Str) → removes_extra (text t) ≡ false
  pub sets_common : Sets removes_common common extra (S.put_common_info id)
  pub sets_extra : Sets removes_extra extra common (S.put_extra_info id)

module _ (library_parse : Str → Result Error Url) (valid_json : Str → Option Error) where
  -- A field in the store behind the command: the one that is given for it, or the one before, in
  -- the place that belongs to its name.
  abbrev pub Stored :
      {S : FieldStore} {id : Url} → IsFieldStore S id → Dict Str Value → S.State → S.State → Type 0
  Stored {S} {id} w fields s s' =
      (j : Str)
      → (w.common j s' ≡ (
          if is_common_field j
          then changed w.removes_common (Dict.lookup j fields) (w.common j s)
          else w.common j s))
        × (w.extra j s' ≡ (
            if is_common_field j
            then w.extra j s
            else changed w.removes_extra (Dict.lookup j fields) (w.extra j s)))
