-- ===== src/Acl/Lists/Remove.antt =====
-- `remove` of grant.go, against a filter.
use charmstore_client.Base.{
  suc, ◌+◌, ◌≡◌, refl, ap, Bool, false, not, List, [], ◌∷◌, ◌++◌, arith, Eq, ◌==◌, if◌then◌else◌,
  length, length-append, contains, select, All, Bool-cases, inl, inr, append_assoc,
}
use charmstore_client.Acl.Lists.{delete_at, elem_is, remove_at, remove_down, remove}

module _ {ℓ} {A : Type ℓ} ⦃e : Eq A⦄ where
  pub elem_is-append :
      (a : List A) (x y : A) (b : List A) → elem_is (a ++ x ∷ b) (length a) y ≡ (x == y)
  elem_is-append [] x y b = refl
  elem_is-append (z ∷ a) x y b = elem_is-append a x y b

  elem_is-append_end : (a : List A) (y : A) → elem_is (a ++ []) (length a) y ≡ false
  elem_is-append_end [] y = refl
  elem_is-append_end (z ∷ a) y = elem_is-append_end a y

  delete_at-append : (a : List A) (x : A) (b : List A) → delete_at (length a) (a ++ x ∷ b) ≡ a ++ b
  delete_at-append [] x b = refl
  delete_at-append (z ∷ a) x b = ap (λ l. z ∷ l) (delete_at-append a x b)

  -- No item of `b` is in `r`.
  abbrev Clean : List A → List A → Type 0
  Clean r = All (λ x. contains r x ≡ false)

  Clean-tail : (y : A) (r b : List A) → Clean (y ∷ r) b → Clean r b
  Clean-tail y r [] h = tt
  Clean-tail y r (x ∷ b) h = (ground arith, Clean-tail y r b h.1)

  -- Where the item at the index is not to go, nothing happens.
  remove_at-Clean : (r a b : List A) → Clean r b → remove_at (length a) r (a ++ b) ≡ a ++ b
  unfolding remove_at
  remove_at-Clean [] a b h = refl
  remove_at-Clean (y ∷ r) a [] h = rw (elem_is-append_end a y) (remove_at-Clean r a [] tt)
  remove_at-Clean (y ∷ r) a (x ∷ b) h =
      let no_match : (x == y) ≡ false = ground arith in
      rw (elem_is-append a x y b, no_match) (remove_at-Clean r a (x ∷ b) (Clean-tail y r (x ∷ b) h))

  remove_at_step :
      (r a : List A) (x : A) (b : List A)
      → Clean r b
      → remove_at (length a) r (a ++ x ∷ b) ≡ (if contains r x then a ++ b else a ++ x ∷ b)
  unfolding remove_at
  remove_at_step [] a x b h = refl
  remove_at_step (y ∷ r) a x b h = rw (elem_is-append a x y b) (elim (Bool-cases (x == y)) [
    | inl same ↦ rw (same, delete_at-append a x b) (remove_at-Clean r a b (Clean-tail y r b h))
    | inr other ↦ rw other (remove_at_step r a x b (Clean-tail y r b h))
  ])

  module _ (r : List A) where
    abbrev stays : A → Bool
    stays x = not (contains r x)

    select-Clean : (s : List A) → Clean r (select stays s)
    select-Clean [] = tt
    select-Clean (x ∷ s) = elim (Bool-cases (contains r x)) [
      | inl goes ↦ rw goes (select-Clean s)
      | inr stays_in ↦ rw stays_in (stays_in, select-Clean s)
    ]

    remove_down-append :
        (a s : List A)
        → remove_down (length a + length s) r (a ++ s)
          ≡ remove_down (length a) r (a ++ select stays s)
    unfolding remove_down
    remove_down-append a [] = let e : length a + 0 ≡ length a = omega arith in rw e
    remove_down-append a (x ∷ s) =
        let count : length a + suc (length s) ≡ length (a ++ x ∷ []) + length s =
          omega (arith, length-append a (x ∷ [])) in
        let one : length (a ++ x ∷ []) ≡ suc (length a) = omega (arith, length-append a (x ∷ [])) in
        rw (count, ← append_assoc a (x ∷ []) s)
          (rw (remove_down-append (a ++ x ∷ []) s) (
            rw
              (
                one,
                append_assoc a (x ∷ []) (select stays s),
                remove_down,
                remove_at_step r a x _ (select-Clean s),
              )
              (elim (Bool-cases (contains r x)) [
                | inl goes ↦ rw goes
                | inr stays_in ↦ rw stays_in
              ])))

    -- `remove` returns every item of `s` that is not in `r`, in the order of `s`, and nothing else.
    pub remove-eq-select : (s : List A) → remove s r ≡ select stays s
    unfolding remove
    remove-eq-select s =
        let none_before : 0 + length s ≡ length s = omega arith in
        rw none_before at (remove_down-append [] s)
