-- ===== src/Terms.antt =====
-- termsCommand of cmd/charm/charmcmd/terms.go: Run behind the making of the client, and the table.
use charmstore_client.Base.{
  Bool, ◌≡◌, refl, ◌∙◌, sym, ap, ==_true, true, false, append_assoc, append-nil, List, [], ◌∷◌,
  ◌++◌, none, some, Str, codes, is_empty, Result, ok, err, Error, notef, note, mask, if◌then◌else◌,
  ◌==◌, nat_eq, list_eq, ◌>>=◌, ◌>>◌, arith,
}
use charmstore_client.Base.Dict
use charmstore_client.Base.Dict.{Dict, keys, lookup-insert}
use charmstore_client.Base.Sort.{sort_strings}
use charmstore_client.Charm.{Url}
use charmstore_client.Acl.Lists.{validate_names}

-- The three requests: WhoAmI, GET of a listing, and the metadata of a charm with its terms.
pub record TermsStore : Type 0 where
  pub who_am_i : Result Error Str
  pub list : Str → Result Error (List Url)
  pub meta_terms : Url → Result Error (List Str)

-- output[term], which is nil for a term that is not there
abbrev charms_of : Str → Dict Str (List Str) → List Str
charms_of term output = elim (Dict.lookup term output) [ some charms ↦ charms | none ↦ [] ]

-- for _, term := range resp.Terms
unfoldable add_terms : Str → List Str → Dict Str (List Str) → Dict Str (List Str)
add_terms id [] output = output
add_terms id (term ∷ terms) output =
    add_terms id terms (Dict.insert term (charms_of term output ++ id ∷ []) output)

abbrev path_of : Str → Str
path_of user = codes "/list?owner=" ++ user ++ codes "&sort=name,-series"

-- The user that is given, or else the one that is logged in.
abbrev user_of : Result Error Str → Str → Result Error Str
user_of current user = if is_empty user then note "cannot retrieve identity" [] current else ok user

-- `id_string` is the method String of an id, `valid_user` names.IsValidUser.
module _ (S : TermsStore) (id_string : Url → Str) (valid_user : Str → Bool) where
  -- for _, charm := range resp.Results
  unfoldable collect : List Url → Dict Str (List Str) → Result Error (Dict Str (List Str))
  unfolding add_terms
  collect [] output = ok output
  collect (id ∷ ids) output = elim (S.meta_terms id) [
    | err e ↦ err (notef e "cannot list terms for charm %s" (id_string id ∷ []))
    | ok terms ↦ collect ids (add_terms (id_string id) terms output)
  ]

  unfoldable pub run : Str → Result Error (Dict Str (List Str))
  unfolding collect
  run user = do
    user' ← user_of S.who_am_i user
    mask (validate_names valid_user (user' ∷ []))
    ids ← note "cannot list charms for user %s" (path_of user' ∷ []) (S.list (path_of user'))
    collect ids []

-- for i, charm := range charms: the rows of a term, which its first one names
abbrev more_rows : List Str → List (Str × Str)
more_rows [] = []
more_rows (charm ∷ charms) = ([], charm) ∷ more_rows charms

abbrev term_rows : Str → List Str → List (Str × Str)
term_rows term [] = []
term_rows term (charm ∷ charms) = (term, charm) ∷ more_rows charms

abbrev all_rows : List Str → Dict Str (List Str) → List (Str × Str)
all_rows [] terms = []
all_rows (term ∷ sorted) terms = term_rows term (charms_of term terms) ++ all_rows sorted terms

-- `table` is the layout of the rows of a table as text.
unfoldable format_terms_tabular : (List (Str × Str) → Str) → Dict Str (List Str) → Str
format_terms_tabular table terms =
    if is_empty terms
    then codes "No terms found."
    else table ((codes "TERM", codes "CHARM") ∷ all_rows (sort_strings (keys terms)) terms)

-- The charms in their order, each as often as it lists the term.
abbrev listing : Str → Str → List Str → List Str
listing term id [] = []
listing term id (t ∷ terms) =
    let rest = listing term id terms in if term == t then id ∷ rest else rest

charms_of-insert :
    (term t : Str) (charms : List Str) (output : Dict Str (List Str))
    → charms_of term (Dict.insert t charms output)
      ≡ (if term == t then charms else charms_of term output)
charms_of-insert term t charms output = ground (arith, lookup-insert term t charms output)

next_lem :
    (b : Bool) (id : Str) (here there rest : List Str)
    → (b ≡ true → there ≡ here)
    → (if b then there ++ id ∷ [] else here) ++ rest ≡ here ++ (if b then id ∷ rest else rest)
next_lem true id here there rest h = rw (h refl) (append_assoc here (id ∷ []) rest)
next_lem false id here there rest h = refl

charms_of-add_terms :
    (term id : Str) (terms : List Str) (output : Dict Str (List Str))
    → charms_of term (add_terms id terms output) ≡ charms_of term output ++ listing term id terms
unfolding add_terms
charms_of-add_terms term id [] output = sym (append-nil (charms_of term output))
charms_of-add_terms term id (t ∷ terms) output =
    let new = charms_of t output ++ id ∷ [] in
    charms_of-add_terms term id terms (Dict.insert t new output)
    ∙ ap (λ l. l ++ listing term id terms) (charms_of-insert term t new output)
    ∙ next_lem (term == t) id (charms_of term output) (charms_of t output) (listing term id terms)
        (λ h. ap (λ x. charms_of x output) (sym (==_true term t h)))

module _ (S : TermsStore) (id_string : Url → Str) (valid_user : Str → Bool)
    (terms_of : Url → List Str) where
  abbrev listings : Str → List Url → List Str
  listings term [] = []
  listings term (id ∷ ids) = listing term (id_string id) (terms_of id) ++ listings term ids

  -- When the store answers each request for the terms of a charm, the map has for each term the
  -- charms that list it, in the order of the listing.
  collect-listings :
      (ids : List Url) (output : Dict Str (List Str))
      → ((id : Url) → S.meta_terms id ≡ ok (terms_of id))
      → (out : Dict Str (List Str)) × (collect S id_string valid_user ids output ≡ ok out)
        × ((term : Str) → charms_of term out ≡ charms_of term output ++ listings term ids)
  unfolding collect
  collect-listings [] output h = (output, refl, λ term. sym (append-nil (charms_of term output)))
  collect-listings (id ∷ ids) output h =
      let (out, done, at) =
        collect-listings ids (add_terms (id_string id) (terms_of id) output) h in
      (
        out,
        rw (collect, h id) done,
        λ term.
            at term
            ∙ ap (λ l. l ++ listings term ids)
                (charms_of-add_terms term (id_string id) (terms_of id) output)
            ∙ append_assoc (charms_of term output) (listing term (id_string id) (terms_of id))
                (listings term ids),
      )

  -- When a valid user is given, the charms of that user are listed, and the store answers each request
  -- for the terms of a charm, the command has no error, and what it shows for a term is the
  -- charms that list it, in the order of the listing and each as often as it lists the term.
  run-listings :
      (user : Str) (ids : List Url)
      → is_empty user ≡ false
      → valid_user user ≡ true
      → S.list (path_of user) ≡ ok ids
      → ((id : Url) → S.meta_terms id ≡ ok (terms_of id))
      → (out : Dict Str (List Str)) × (run S id_string valid_user user ≡ ok out)
        × ((term : Str) → charms_of term out ≡ listings term ids)
  unfolding run validate_names
  run-listings user ids given valid listed h =
      let (out, done, at) = collect-listings ids [] h in
      (out, rw (given, valid, listed) done, unfold Dict.lookup in at)
