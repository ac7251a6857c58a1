-- ===== src/Acl/Lists/Inner.antt =====
-- The inner loop of `unique` of grant.go.
use charmstore_client.Base.{
  ℕ, zero, suc, ◌≤◌, ◌≡◌, refl, sym, ap, ◌∙◌, true, false, List, [], ◌∷◌, ◌++◌, arith, Eq, ◌==◌,
  length, length-append, contains, contains-append, Bool-cases, inl, inr, append_assoc, ltb, lt→ltb,
  append-nil,
}
use charmstore_client.Acl.Lists.{same_at, unique_inner}
use charmstore_client.Acl.Lists.Remove.{elem_is-append}
use charmstore_client.Acl.Lists.Moved.{get_elem?-append, snoc-cases, move_last-snoc, move_last-end}

module _ {ℓ} {A : Type ℓ} ⦃e : Eq A⦄ (pre : List A) (x : A) where
  abbrev done : List A → List A
  done seen = pre ++ x ∷ seen

  same_at_next :
      (seen : List A) (y : A) (rest : List A)
      → same_at (done seen ++ y ∷ rest) (length pre) (length (done seen)) ≡ (x == y)
  same_at_next seen y rest =
      rw (same_at, get_elem?-append (done seen) y rest, append_assoc pre (x ∷ seen) (y ∷ rest))
        (elem_is-append pre x y (seen ++ y ∷ rest))

  in_range : (p : List A) (y : A) (rest : List A) → ltb (length p) (length (p ++ y ∷ rest)) ≡ true
  in_range p y rest = lt→ltb _ _ (omega (arith, length-append p (y ∷ rest)))

  -- What one round of the outer loop makes of the items behind `x`.
  abbrev pub Cleaned : List A → List A → Type ℓ
  Cleaned rest result =
      (out : List A) × (result ≡ pre ++ x ∷ out)
      × (contains out x ≡ false)
      × ((a : A) → contains (x ∷ out) a ≡ contains (x ∷ rest) a)
      × (length out ≤ length rest)

  Cleaned-weaken :
      (rest wider result : List A)
      → ((a : A) → contains (x ∷ rest) a ≡ contains (x ∷ wider) a)
      → length rest ≤ length wider
      → Cleaned rest result
      → Cleaned wider result
  Cleaned-weaken rest wider result same shorter (out, shape, fresh, kept, size) =
      (out, shape, fresh, λ a. kept a ∙ same a, omega arith)

  out_of_range : (p : List A) → ltb (length p) (length (p ++ [])) ≡ false
  out_of_range p = rw append-nil (ground arith)

  finished : (seen : List A) → contains seen x ≡ false → Cleaned (seen ++ []) (done seen ++ [])
  finished seen fresh =
      rw (append-nil seen, append-nil (done seen)) (seen, refl, fresh, λ a. refl, omega arith)

  module _ (seen : List A) (y : A) where
    dropped_last :
        (x == y) ≡ true → (a : A) → contains (x ∷ seen) a ≡ contains (x ∷ (seen ++ y ∷ [])) a
    dropped_last same a = ground (arith, contains-append seen (y ∷ []) a)

    dropped_mid :
        (mid : List A) (z : A)
        → (x == y) ≡ true
        → (a : A)
        → contains (x ∷ (seen ++ z ∷ mid)) a ≡ contains (x ∷ (seen ++ y ∷ (mid ++ z ∷ []))) a
    dropped_mid mid z same a = ground (
      arith,
      contains-append seen (z ∷ mid) a,
      contains-append seen (y ∷ (mid ++ z ∷ [])) a,
      contains-append mid (z ∷ []) a,
    )

    fresh_next : contains seen x ≡ false → (x == y) ≡ false → contains (seen ++ y ∷ []) x ≡ false
    fresh_next fresh other = ground (arith, contains-append seen (y ∷ []) x)

  next_round :
      (fuel : ℕ) (seen : List A) (y : A) (rest : List A)
      → let seen' = seen ++ y ∷ [] in
        Cleaned
          (seen' ++ rest)
          (unique_inner fuel (length pre) (length (done seen')) (done seen' ++ rest))
        → Cleaned
            (seen ++ y ∷ rest)
            (unique_inner fuel (length pre) (suc (length (done seen))) (done seen ++ y ∷ rest))
  next_round fuel seen y rest c =
      let items : seen ++ y ∷ rest ≡ (seen ++ y ∷ []) ++ rest =
        sym (append_assoc seen (y ∷ []) rest) in
      let index : suc (length (done seen)) ≡ length (done (seen ++ y ∷ [])) = omega (
        arith,
        length-append pre (x ∷ seen),
        length-append pre (x ∷ (seen ++ y ∷ [])),
        length-append seen (y ∷ []),
      ) in
      let whole : done seen ++ y ∷ rest ≡ done (seen ++ y ∷ []) ++ rest =
        append_assoc pre (x ∷ seen) (y ∷ rest)
        ∙ ap (λ l. pre ++ x ∷ l) items
        ∙ sym (append_assoc pre (x ∷ (seen ++ y ∷ [])) rest) in
      rw (index, whole, items) c

  pub unique_inner-Cleaned :
      (fuel : ℕ) (seen rest : List A)
      → length rest ≤ fuel
      → contains seen x ≡ false
      → Cleaned
          (seen ++ rest)
          (unique_inner fuel (length pre) (length (done seen)) (done seen ++ rest))
  unfolding unique_inner
  unique_inner-Cleaned zero seen [] h fresh = finished seen fresh
  unique_inner-Cleaned zero seen (y ∷ rest) h fresh = absurd (omega arith)
  unique_inner-Cleaned (suc fuel) seen [] h fresh =
      rw (out_of_range (done seen)) (finished seen fresh)
  unique_inner-Cleaned (suc fuel) seen (y ∷ rest) h fresh =
      rw (in_range (done seen) y rest, same_at_next seen y rest)
        (elim (Bool-cases (x == y)) [
          | inl same ↦ rw same (elim (snoc-cases rest) [
            | inl last ↦
                rw (last, move_last-end (done seen) y)
                  (Cleaned-weaken seen (seen ++ y ∷ []) _ (dropped_last seen y same)
                    (omega (arith, length-append seen (y ∷ [])))
                    (rw (append-nil seen, append-nil (done seen)) at
                      (unique_inner-Cleaned fuel seen [] (omega arith) fresh)))
            | inr (mid, z, split) ↦
                rw (split, move_last-snoc (done seen) y mid z)
                  (Cleaned-weaken (seen ++ z ∷ mid) (seen ++ y ∷ (mid ++ z ∷ [])) _
                    (dropped_mid seen y mid z same)
                    (omega (
                      arith,
                      length-append seen (z ∷ mid),
                      length-append mid (z ∷ []),
                      length-append seen (y ∷ (mid ++ z ∷ [])),
                    ))
                    (unique_inner-Cleaned fuel seen (z ∷ mid)
                      (omega (arith, ap (λ l. length l) split, length-append mid (z ∷ []))) fresh))
          ])
          | inr other ↦ rw other (
              next_round fuel seen y rest (
                unique_inner-Cleaned fuel (seen ++ y ∷ []) rest (omega arith)
                  (fresh_next seen y fresh other)))
        ])
