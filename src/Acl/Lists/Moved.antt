-- ===== src/Acl/Lists/Moved.antt =====
-- What moving the last item to a hole makes of the items, for `unique` of grant.go.
use charmstore_client.Base.{
  ℕ, ◌-◌, ◌≡◌, refl, sym, ap, ◌∙◌, List, [], ◌∷◌, ◌++◌, arith, length, length-append, inl, inr,
  append_assoc, some, ◌⊎◌,
}
use charmstore_client.Acl.Lists.{get_elem?, set, take, move_last}

module _ {ℓ} {A : Type ℓ} where
  pub get_elem?-append :
      (a : List A) (x : A) (b : List A) → get_elem? (a ++ x ∷ b) (length a) ≡ some x
  get_elem?-append [] x b = refl
  get_elem?-append (z ∷ a) x b = get_elem?-append a x b

  set-append :
      (a : List A) (x : A) (b : List A) (v : A) → set (a ++ x ∷ b) (length a) v ≡ a ++ v ∷ b
  set-append [] x b v = refl
  set-append (z ∷ a) x b v = ap (λ l. z ∷ l) (set-append a x b v)

  take-append : (a b : List A) → take (length a) (a ++ b) ≡ a
  take-append [] b = refl
  take-append (z ∷ a) b = ap (λ l. z ∷ l) (take-append a b)

  pub snoc-cases : (l : List A) → (l ≡ []) ⊎ ((mid : List A) × (z : A) × (l ≡ mid ++ z ∷ []))
  snoc-cases [] = inl refl
  snoc-cases (x ∷ l) = elim (snoc-cases l) [
    | inl e ↦ inr ([], x, ap (λ t. x ∷ t) e)
    | inr (mid, z, e) ↦ inr (x ∷ mid, z, ap (λ t. x ∷ t) e)
  ]

  move_last_at :
      (xs : List A) (j n : ℕ) (z : A)
      → length xs - 1 ≡ n
      → get_elem? xs n ≡ some z
      → move_last j xs ≡ take n (set xs j z)
  move_last_at xs j n z e g = rw (e, move_last, g, e)

  pub move_last-snoc :
      (a : List A) (y : A) (mid : List A) (z : A)
      → move_last (length a) (a ++ y ∷ (mid ++ z ∷ [])) ≡ a ++ z ∷ mid
  move_last-snoc a y mid z =
      let regroup = λ (w : A). sym (append_assoc a (w ∷ mid) (z ∷ [])) in
      let size : length (a ++ y ∷ (mid ++ z ∷ [])) - 1 ≡ length (a ++ y ∷ mid) = omega (
        arith,
        length-append a (y ∷ (mid ++ z ∷ [])),
        length-append mid (z ∷ []),
        length-append a (y ∷ mid),
      ) in
      let same_size : length (a ++ y ∷ mid) ≡ length (a ++ z ∷ mid) =
        omega (arith, length-append a (y ∷ mid), length-append a (z ∷ mid)) in
      move_last_at _ _ _ z size (rw (regroup y) (get_elem?-append (a ++ y ∷ mid) z []))
      ∙ rw (set-append a y (mid ++ z ∷ []) z, same_size, regroup z)
          (take-append (a ++ z ∷ mid) (z ∷ []))

  pub move_last-end : (a : List A) (y : A) → move_last (length a) (a ++ y ∷ []) ≡ a
  move_last-end a y =
      let size : length (a ++ y ∷ []) - 1 ≡ length a = omega (arith, length-append a (y ∷ [])) in
      move_last_at _ _ _ y size (get_elem?-append a y [])
      ∙ rw (set-append a y [] y) (take-append a (y ∷ []))
