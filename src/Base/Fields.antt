-- ===== src/Base/Fields.antt =====
-- strings.Fields, on what is joined by spaces.
use charmstore_client.Base.{
  ◌≡◌, refl, false, [], ◌∷◌, ◌++◌, Str, is_empty, fields, is_space, All, arith, nat_eq, join, ap,
  ◌∙◌, List,
}

-- Not empty, and without white space.
abbrev pub IsWord : Str → Type 0
IsWord w = (is_empty w ≡ false) × All (λ c. is_space c ≡ false) w

pub fields-word : (w rest : Str) → IsWord w → fields (w ++ b' ' ∷ rest) ≡ w ∷ fields rest
unfolding fields
fields-word [] rest (h, a) = ground arith
fields-word (c ∷ []) rest (h, (a, _)) = ground arith
fields-word (c ∷ d ∷ w) rest (h, (a, b)) = ground (arith, fields-word (d ∷ w) rest (refl, b))

pub fields_last : (w : Str) → IsWord w → fields w ≡ w ∷ []
unfolding fields
fields_last [] (h, a) = ground arith
fields_last (c ∷ []) (h, (a, _)) = ground arith
fields_last (c ∷ d ∷ w) (h, (a, b)) = ground (arith, fields_last (d ∷ w) (refl, b))

pub fields-join :
    (w : Str) (ws : List Str) → IsWord w → All IsWord ws → fields (join b' ' (w ∷ ws)) ≡ w ∷ ws
unfolding join
fields-join w [] h a = fields_last w h
fields-join w (v ∷ ws) h (k, a) =
    fields-word w (join b' ' (v ∷ ws)) h ∙ ap (λ l. w ∷ l) (fields-join v ws k a)
