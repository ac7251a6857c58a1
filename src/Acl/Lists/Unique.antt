-- ===== src/Acl/Lists/Unique.antt =====
-- `unique` of grant.go, against its items.
use charmstore_client.Base.{
  ℕ, zero, suc, ◌≤◌, ◌≡◌, refl, ◌∙◌, true, false, List, [], ◌∷◌, ◌++◌, arith, Eq, length,
  length-append, contains, contains-append, append_assoc, Distinct, ltb, lt→ltb, subst,
}
use charmstore_client.Acl.Lists.{unique_inner, unique_outer, unique}
use charmstore_client.Acl.Lists.Inner.{Cleaned, unique_inner-Cleaned}

module _ {ℓ} {A : Type ℓ} ⦃e : Eq A⦄ where
  -- Every item of `pre` is there once, and none of them is in `rest`.
  abbrev Settled : List A → List A → Type 0
  Settled [] rest = Unit
  Settled (p ∷ pre) rest = (contains (pre ++ rest) p ≡ false) × Settled pre rest

  Settled-Distinct : (pre rest : List A) → Settled pre rest → Distinct rest → Distinct (pre ++ rest)
  Settled-Distinct [] rest s d = d
  Settled-Distinct (p ∷ pre) rest s d = (s.0, Settled-Distinct pre rest s.1 d)

  Settled-snoc :
      (pre : List A) (x : A) (rest out : List A)
      → Settled pre (x ∷ rest)
      → ((a : A) → contains (x ∷ out) a ≡ contains (x ∷ rest) a)
      → contains out x ≡ false
      → Settled (pre ++ x ∷ []) out
  Settled-snoc [] x rest out s same fresh = (fresh, tt)
  Settled-snoc (p ∷ pre) x rest out s same fresh = (
    rw append_assoc
        (ground (arith, same p, contains-append pre (x ∷ rest) p, contains-append pre (x ∷ out) p)),
    Settled-snoc pre x rest out s.1 same fresh,
  )

  -- `result` has the items of `xs`, each once.
  abbrev pub OnceEach : List A → List A → Type ℓ
  OnceEach xs result = Distinct result × ((a : A) → contains result a ≡ contains xs a)

  OnceEach-Settled :
      (pre rest : List A) → Settled pre rest → Distinct rest → OnceEach (pre ++ rest) (pre ++ rest)
  OnceEach-Settled pre rest s d = (Settled-Distinct pre rest s d, λ a. refl)

  first_round :
      (pre : List A) (x : A) (rest : List A)
      → Cleaned pre x rest (
          unique_inner (length (pre ++ x ∷ rest)) (length pre) (suc (length pre)) (pre ++ x ∷ rest))
  first_round pre x rest =
      let index : suc (length pre) ≡ length (pre ++ x ∷ []) =
        omega (arith, length-append pre (x ∷ [])) in
      subst
        (λ l.
          Cleaned pre x rest
            (unique_inner (length (pre ++ x ∷ rest)) (length pre) (suc (length pre)) l))
        (append_assoc pre (x ∷ []) rest)
        (rw index (
          unique_inner-Cleaned pre x (length (pre ++ x ∷ rest)) [] rest
            (omega (arith, length-append pre (x ∷ rest))) refl))

  unique_outer-OnceEach :
      (fuel : ℕ) (pre rest : List A)
      → length rest ≤ fuel
      → Settled pre rest
      → OnceEach (pre ++ rest) (unique_outer fuel (length pre) (pre ++ rest))
  unfolding unique_outer
  unique_outer-OnceEach zero pre [] h s = OnceEach-Settled pre [] s tt
  unique_outer-OnceEach zero pre (x ∷ rest) h s = absurd (omega arith)
  unique_outer-OnceEach (suc fuel) pre [] h s =
      let stop : ltb (suc (length pre)) (length (pre ++ [])) ≡ false =
        ground (arith, length-append pre []) in
      rw stop (OnceEach-Settled pre [] s tt)
  unique_outer-OnceEach (suc fuel) pre (x ∷ []) h s =
      let stop : ltb (suc (length pre)) (length (pre ++ x ∷ [])) ≡ false =
        ground (arith, length-append pre (x ∷ [])) in
      rw stop (OnceEach-Settled pre (x ∷ []) s (refl, tt))
  unique_outer-OnceEach (suc fuel) pre (x ∷ y ∷ rest) h s =
      let go : ltb (suc (length pre)) (length (pre ++ x ∷ y ∷ rest)) ≡ true =
        lt→ltb _ _ (omega (arith, length-append pre (x ∷ y ∷ rest))) in
      let (out, shape, fresh, kept, size) = first_round pre x (y ∷ rest) in
      let index : suc (length pre) ≡ length (pre ++ x ∷ []) =
        omega (arith, length-append pre (x ∷ [])) in
      let (once, same) =
        unique_outer-OnceEach fuel (pre ++ x ∷ []) out (omega arith)
          (Settled-snoc pre x (y ∷ rest) out s kept fresh) in
      rw (go, shape, index, ← append_assoc pre (x ∷ []) out)
        (
          once,
          λ a.
              same a
              ∙ ground (
                arith,
                kept a,
                contains-append (pre ++ x ∷ []) out a,
                contains-append pre (x ∷ []) a,
                contains-append pre (x ∷ y ∷ rest) a,
              ),
        )

  -- `unique` returns every item of its argument once, and nothing else.
  pub unique-OnceEach : (xs : List A) → OnceEach xs (unique xs)
  unfolding unique
  unique-OnceEach xs = unique_outer-OnceEach (length xs) [] xs (omega arith) tt
