-- ===== src/Logout/Work.antt =====
-- The work that the loop of logout.go has left, which no cookie makes larger.
use charmstore_client.Base.{
  ℕ, ◌+◌, ◌≤◌, ◌<◌, ◌≡◌, refl, ◌∙◌, inl, inr, true, false, not, Option, none, some, List, [], ◌∷◌,
  ◌++◌, Str, is_empty, select, length, length-append, contains, if◌then◌else◌, list_eq, nat_eq,
  arith, Bool-cases, ==_true,
}
use charmstore_client.Logout.{Cookie, HttpUrl, Jar, Search, add_url, add_caveats}

module _ (J : Jar) where
  -- The URLs of the caveats of a cookie.
  abbrev pub strings_of : Option HttpUrl → List Str
  strings_of none = []
  strings_of (some u) = u.string ∷ []

  abbrev pub caveat_urls : List Str → List Str
  caveat_urls [] = []
  caveat_urls (location ∷ locations) = strings_of (J.parse_url location) ++ caveat_urls locations

  abbrev pub macaroon_urls : Option (List Str) → List Str
  macaroon_urls none = []
  macaroon_urls (some locations) = caveat_urls locations

  abbrev pub cookie_urls : List Cookie → List Str
  cookie_urls [] = []
  cookie_urls (c ∷ cookies) = macaroon_urls (J.decode_macaroon_slice c.value) ++ cookie_urls cookies

  -- Those that have not been seen.
  abbrev pub unseen : List Str → List Str → ℕ
  unseen all seen = length (select (λ x. not (contains seen x)) all)

  unseen_le : (all seen : List Str) (x : Str) → unseen all (x ∷ seen) ≤ unseen all seen
  unseen_le [] seen x = omega arith
  unseen_le (y ∷ all) seen x = ground (arith, unseen_le all seen x)

  unseen_lt :
      (all seen : List Str) (x : Str)
      → contains all x ≡ true
      → contains seen x ≡ false
      → unseen all (x ∷ seen) < unseen all seen
  unseen_lt [] seen x h k = ground arith
  unseen_lt (y ∷ all) seen x h k =
      ground (arith, unseen_lt all seen x, unseen_le all seen x, ==_true x y)

  -- What is left to do.
  abbrev pub work : List Str → Search J → ℕ
  work all w = length w.urls + unseen all w.seen

  abbrev pub Within : List Str → List Str → Type 0
  Within [] all = Unit
  Within (x ∷ l) all = (contains all x ≡ true) × Within l all

  pub Within-append-left : (a b all : List Str) → Within (a ++ b) all → Within a all
  Within-append-left [] b all h = tt
  Within-append-left (x ∷ a) b all h = (h.0, Within-append-left a b all h.1)

  pub Within-append-right : (a b all : List Str) → Within (a ++ b) all → Within b all
  Within-append-right [] b all h = h
  Within-append-right (x ∷ a) b all h = Within-append-right a b all h.1

  add_url-work :
      (all : List Str) (o : Option HttpUrl) (w : Search J)
      → Within (strings_of o) all
      → (work all (add_url J o w) ≤ work all w) × ((add_url J o w).jar ≡ w.jar)
  add_url-work all none w h = (omega arith, refl)
  add_url-work all (some u) w h =
      ground (arith, unseen_lt all w.seen u.string h.0, length-append w.urls (u ∷ []))

  pub add_caveats-work :
      (all : List Str) (locations : List Str) (w : Search J)
      → Within (caveat_urls locations) all
      → (work all (add_caveats J locations w) ≤ work all w)
        × ((add_caveats J locations w).jar ≡ w.jar)
  unfolding add_caveats
  add_caveats-work all [] w h = (omega arith, refl)
  add_caveats-work all (l ∷ locations) w h =
      let w1 : Search J = if is_empty l then w else add_url J (J.parse_url l) w in
      let first =
        add_url-work all (J.parse_url l) w
          (Within-append-left (strings_of (J.parse_url l)) (caveat_urls locations) all h) in
      let one : (work all w1 ≤ work all w) × (w1.jar ≡ w.jar) = elim (Bool-cases (is_empty l)) [
        | inl y ↦ rw y (omega arith, refl)
        | inr n ↦ rw n first
      ] in
      let rest =
        add_caveats-work all locations w1
          (Within-append-right (strings_of (J.parse_url l)) (caveat_urls locations) all h) in
      (omega (arith, one.0, rest.0), rest.1 ∙ one.1)
