-- ===== src/Flags/Release.antt =====
-- The flag --resource of `charm release`.
use charmstore_client.Base.{
  ℕ, ℤ, ◌≡◌, refl, false, none, some, [], ◌∷◌, ◌++◌, Str, last_cut, contains, atoi, ok, is_empty,
  nat_eq, list_eq, arith, ◌==◌, if◌then◌else◌,
}
use charmstore_client.Base.Dict
use charmstore_client.Base.Dict.{Dict, lookup-insert}
use charmstore_client.Flags.{set_resource}

last_cut-none : (c : ℕ) (v : Str) → contains v c ≡ false → last_cut c v ≡ none
unfolding last_cut
last_cut-none c [] h = refl
last_cut-none c (d ∷ v) h = ground (arith, last_cut-none c v)

last_cut-append : (c : ℕ) (n v : Str) → contains v c ≡ false → last_cut c (n ++ c ∷ v) ≡ some (n, v)
unfolding last_cut
last_cut-append c [] v h = ground (arith, last_cut-none c v h)
last_cut-append c (d ∷ n) v h = rw (last_cut-append c n v h) refl

atoi-given : (v : Str) (n : ℤ) → atoi v ≡ some n → is_empty v ≡ false
unfolding atoi
atoi-given [] n h = ground arith
atoi-given (c ∷ v) n h = refl

-- A flag `name-revision` for a name that is not there yet sets that resource alone, and a name
-- may itself hold dashes.
pub set_resource-lookup :
    (name value : Str) (revision : ℤ) (m : Dict Str ℤ)
    → is_empty name ≡ false
    → contains value b'-' ≡ false
    → atoi value ≡ some revision
    → Dict.has name m ≡ false
    → (m' : Dict Str ℤ) × (set_resource (name ++ b'-' ∷ value) m ≡ ok m')
      × ((j : Str) → Dict.lookup j m' ≡ (if j == name then some revision else Dict.lookup j m))
unfolding set_resource
set_resource-lookup name value revision m h k number fresh =
    let given = atoi-given value revision number in
    (
      Dict.insert name revision m,
      (rw (last_cut-append b'-' name value k, h, given, fresh, number) refl),
      λ j. lookup-insert j name revision m,
    )
