-- ===== src/Acl/Lists.antt =====
-- The list helpers of grant.go. The loops keep Go's indices; a slice is its items.
pub mod Remove
pub mod Moved
pub mod Inner
pub mod Unique
use charmstore_client.Base.{
  ℕ, zero, suc, ◌+◌, ◌-◌, Bool, true, false, Option, none, some, List, [], ◌∷◌, ◌++◌, Eq, ◌==◌, ltb,
  if◌then◌else◌, length, Result, ok, err, Error, newf, Str, split, list_eq, nat_eq,
}

module _ {ℓ} {A : Type ℓ} where
  abbrev pub get_elem? : List A → ℕ → Option A
  get_elem? [] i = none
  get_elem? (x ∷ xs) zero = some x
  get_elem? (x ∷ xs) (suc i) = get_elem? xs i

  -- append(s[:i], s[i+1:]...)
  abbrev pub delete_at : ℕ → List A → List A
  delete_at i [] = []
  delete_at zero (x ∷ xs) = xs
  delete_at (suc i) (x ∷ xs) = x ∷ delete_at i xs

  -- s[i] = v
  abbrev pub set : List A → ℕ → A → List A
  set [] i v = []
  set (x ∷ xs) zero v = v ∷ xs
  set (x ∷ xs) (suc i) v = x ∷ set xs i v

  -- s[0:n]
  abbrev pub take : ℕ → List A → List A
  take zero xs = []
  take (suc n) [] = []
  take (suc n) (x ∷ xs) = x ∷ take n xs

  -- data[j] = data[length]; data = data[0:length]
  abbrev pub move_last : ℕ → List A → List A
  move_last j xs = elim (get_elem? xs (length xs - 1)) [
    | none ↦ xs
    | some l ↦ take (length xs - 1) (set xs j l)
  ]

module _ {ℓ} {A : Type ℓ} ⦃e : Eq A⦄ where
  -- len(s)-1 >= i && s[i] == x
  abbrev pub elem_is : List A → ℕ → A → Bool
  elem_is s i x = elim (get_elem? s i) [ none ↦ false | some y ↦ y == x ]

  -- for j := range r
  pub remove_at : ℕ → List A → List A → List A
  remove_at i [] s = s
  remove_at i (x ∷ r) s = remove_at i r (if elem_is s i x then delete_at i s else s)

  -- for i := len(s) - 1; i >= 0; i--, with `i` one more than the index
  pub remove_down : ℕ → List A → List A → List A
  remove_down zero r s = s
  remove_down (suc i) r s = remove_down i r (remove_at i r s)

  -- remove elements of r from s.
  unfoldable pub remove : List A → List A → List A
  unfolding remove_at remove_down
  remove s r = remove_down (length s) r s

  -- data[i] == data[j]
  abbrev pub same_at : List A → ℕ → ℕ → Bool
  same_at xs i j = elim (get_elem? xs j) [ none ↦ false | some y ↦ elem_is xs i y ]

  -- for j := i + 1; j <= length; j++, on fuel. After `j--; j++` the index stays where it was.
  pub unique_inner : ℕ → ℕ → ℕ → List A → List A
  unique_inner zero i j xs = xs
  unique_inner (suc fuel) i j xs =
      let again = unique_inner fuel i j (move_last j xs) in
      let next = unique_inner fuel i (suc j) xs in
      if ltb j (length xs) then (if same_at xs i j then again else next) else xs

  -- for i := 0; i < length; i++, on fuel
  pub unique_outer : ℕ → ℕ → List A → List A
  unique_outer zero i xs = xs
  unique_outer (suc fuel) i xs =
      let next = unique_outer fuel (suc i) (unique_inner (length xs) i (suc i) xs) in
      if ltb (suc i) (length xs) then next else xs

  -- unique returns a slice with no duplicates.
  unfoldable pub unique : List A → List A
  unfolding unique_inner unique_outer
  unique xs = unique_outer (length xs) 0 xs

-- The parts between commas, without the empty ones.
unfoldable pub parse_list : Str → List Str
parse_list arg = remove (split b',' arg) ([] ∷ [])

-- `valid_user` is names.IsValidUser.
unfoldable pub validate_names : (Str → Bool) → List Str → Result Error (Unit {0})
validate_names valid_user [] = ok tt
validate_names valid_user (item ∷ list) =
    let rest = validate_names valid_user list in
    if valid_user item then rest else err (newf "invalid name '%q'" (item ∷ []))
