-- ===== src/Base/Sort.antt =====
-- sort.Strings and sort.Slice: insertion into a sorted list, by a comparison.
use charmstore_client.Base.{
  ℕ, ◌+◌, ◌≡◌, refl, ◌∙◌, ap, Bool, true, false, ◌||◌, List, [], ◌∷◌, ltb, if◌then◌else◌, arith,
  Str, Eq, ◌==◌, contains, Bool-cases, inl, inr,
}

-- s <= t, byte by byte
pub str_leb : Str → Str → Bool
str_leb [] t = true
str_leb (c ∷ s) [] = false
str_leb (c ∷ s) (d ∷ t) =
    let rest = str_leb s t in if ltb c d then true else if ltb d c then false else rest

-- How many items of a list pass a test.
unfoldable pub count {ℓ} : {A : Type ℓ} → (A → Bool) → List A → ℕ
count test [] = 0
count test (x ∷ l) = let n = count test l in if test x then n + 1 else n

module _ {ℓ} {A : Type ℓ} (le : A → A → Bool) where
  pub insert_by : A → List A → List A
  insert_by x [] = x ∷ []
  insert_by x (y ∷ l) = let rest = insert_by x l in if le x y then x ∷ y ∷ l else y ∷ rest

  unfoldable pub sort_by : List A → List A
  unfolding insert_by
  sort_by [] = []
  sort_by (x ∷ l) = insert_by x (sort_by l)

  abbrev pub IsBefore : A → List A → Type 0
  IsBefore x [] = Unit
  IsBefore x (y ∷ l) = le x y ≡ true

  -- Each item is at most the one behind it.
  abbrev pub IsSortedBy : List A → Type 0
  IsSortedBy [] = Unit
  IsSortedBy (x ∷ l) = IsBefore x l × IsSortedBy l

  module _ (total : (x y : A) → le x y ≡ false → le y x ≡ true) where
    insert_by-IsBefore :
        (x y : A) (l : List A) → le y x ≡ true → IsBefore y l → IsBefore y (insert_by x l)
    unfolding insert_by
    insert_by-IsBefore x y [] h b = h
    insert_by-IsBefore x y (z ∷ l) h b = ground arith

    insert_by-IsSortedBy : (x : A) (l : List A) → IsSortedBy l → IsSortedBy (insert_by x l)
    unfolding insert_by
    insert_by-IsSortedBy x [] s = (tt, tt)
    insert_by-IsSortedBy x (y ∷ l) s = elim (Bool-cases (le x y)) [
      | inl before ↦ rw before (before, s)
      | inr behind ↦
          rw behind (insert_by-IsBefore x y l (total x y behind) s.0, insert_by-IsSortedBy x l s.1)
    ]

    pub sort_by-IsSortedBy : (l : List A) → IsSortedBy (sort_by l)
    unfolding sort_by
    sort_by-IsSortedBy [] = tt
    sort_by-IsSortedBy (x ∷ l) = insert_by-IsSortedBy x (sort_by l) (sort_by-IsSortedBy l)

  pub count-insert_by :
      (test : A → Bool) (x : A) (l : List A) → count test (insert_by x l) ≡ count test (x ∷ l)
  unfolding insert_by count
  count-insert_by test x [] = refl
  count-insert_by test x (y ∷ l) = ground (arith, count-insert_by test x l)

  pub count-sort_by : (test : A → Bool) (l : List A) → count test (sort_by l) ≡ count test l
  unfolding sort_by count
  count-sort_by test [] = refl
  count-sort_by test (x ∷ l) =
      count-insert_by test x (sort_by l)
      ∙ ap (λ n. if test x then n + 1 else n) (count-sort_by test l)

  module _ ⦃e : Eq A⦄ where
    contains-insert_by :
        (x : A) (l : List A) (a : A) → contains (insert_by x l) a ≡ (a == x || contains l a)
    unfolding insert_by
    contains-insert_by x [] a = refl
    contains-insert_by x (y ∷ l) a = ground (arith, contains-insert_by x l a)

    pub contains-sort_by : (l : List A) (a : A) → contains (sort_by l) a ≡ contains l a
    unfolding sort_by
    contains-sort_by [] a = refl
    contains-sort_by (x ∷ l) a =
        ground (arith, contains-insert_by x (sort_by l) a, contains-sort_by l a)

pub str_leb-total : (s t : Str) → str_leb s t ≡ false → str_leb t s ≡ true
unfolding str_leb
str_leb-total [] t h = cc
str_leb-total (c ∷ s) [] h = refl
str_leb-total (c ∷ s) (d ∷ t) h = ground (arith, str_leb-total s t)

-- sort.Strings
unfoldable pub sort_strings : List Str → List Str
unfolding str_leb sort_by
sort_strings = sort_by str_leb
