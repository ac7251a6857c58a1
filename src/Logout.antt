-- ===== src/Logout.antt =====
-- cmd/charm/charmcmd/logout.go: the command that removes the login cookies of the charm store, and
-- those of the services that its macaroons refer to.
pub mod Cookies
pub mod Work
pub mod Removed
use charmstore_client.Base.{
  ◌≡◌, ◌⊎◌, notef, ℕ, zero, suc, ◌+◌, Bool, true, false, ◌&&◌, Option, none, some, List, [], ◌∷◌,
  ◌++◌, Str, codes, is_empty, has_prefix, trim_suffix, length, contains, ◌==◌, if◌then◌else◌,
  list_eq, nat_eq, Result, ok, err, Error, Reply, new, newf, is_not_exist, note,
}

-- http.Cookie
pub record Cookie : Type 0 where
  pub name : Str
  pub domain : Str
  pub path : Str
  pub value : Str

-- url.URL of net/url, with the result of its method String
pub record HttpUrl : Type 0 where
  pub host : Str
  pub path : Str
  pub string : Str

-- The cookie jar, and the functions of other packages: url.Parse, the host of net.SplitHostPort, and
-- decodeMacaroonSlice, which gives the locations of the caveats of all the macaroons.
pub record Jar : Type 1 where
  pub State : Type 0
  pub all_cookies : State → List Cookie
  pub remove_cookie : Cookie → State → State
  pub parse_url : Str → Option HttpUrl
  pub split_host_port : Str → Option Str
  pub decode_macaroon_slice : Str → Option (List Str)

abbrev pub HasCookie : Cookie → List Cookie → Type 0
HasCookie c [] = ⊥
HasCookie c (d ∷ cookies) = (c ≡ d) ⊎ HasCookie c cookies

-- What the documentation of the jar says of RemoveCookie.
pub record IsJar (J : Jar) : Type 0 where
  pub others_kept :
      (c d : Cookie) (s : J.State)
      → HasCookie d (J.all_cookies (J.remove_cookie c s))
      → HasCookie d (J.all_cookies s)
  pub removed : (c : Cookie) (s : J.State) → ¬ HasCookie c (J.all_cookies (J.remove_cookie c s))

-- s[i]; a panic is `none`
abbrev pub get_elem? : Str → ℕ → Option ℕ
get_elem? [] i = none
get_elem? (c ∷ s) zero = some c
get_elem? (c ∷ s) (suc i) = get_elem? s i

abbrev pub is_slash : Option ℕ → Option Bool
is_slash none = none
is_slash (some c) = some (c == b'/')

abbrev pub or_whole : Str → Option Str → Str
or_whole host none = host
or_whole host (some h) = h

module _ (J : Jar) where
  -- The host without its port.
  abbrev pub host_of : HttpUrl → Str
  host_of u = or_whole u.host (J.split_host_port u.host)

  -- A panic is `none`.
  unfoldable pub cookie_for_url : Cookie → HttpUrl → Option Bool
  cookie_for_url c u =
      let path = trim_suffix b'/' c.path in
      let next = is_slash (get_elem? u.path (length path)) in
      if c.domain == host_of u
      then (if path == u.path
          then some true
          else if has_prefix u.path path
          then (elim next [ none ↦ none | some true ↦ some true | some false ↦ some false ])
          else some false)
      else some false

  -- The URLs that have been seen, those that are still to be looked at, and the jar.
  pub record Search : Type 0 where
    pub seen : List Str
    pub urls : List HttpUrl
    pub jar : J.State

  abbrev pub add_url : Option HttpUrl → Search → Search
  add_url none w = w
  add_url (some u) w =
      if contains w.seen u.string
      then w
      else record w { seen = u.string ∷ w.seen; urls = w.urls ++ u ∷ [] }

  -- The loops over the macaroons and their caveats. A first-party caveat has no location.
  unfoldable pub add_caveats : List Str → Search → Search
  add_caveats [] w = w
  add_caveats (location ∷ locations) w =
      add_caveats locations (if is_empty location then w else add_url (J.parse_url location) w)

  abbrev pub with_macaroons : Cookie → Option (List Str) → Search → Search
  with_macaroons c none w = w
  with_macaroons c (some locations) w =
      let w' = add_caveats locations w in record w' { jar = J.remove_cookie c w'.jar }

  abbrev pub if_for_url : Option Bool → Search → Search → Search
  if_for_url (some true) x y = x
  if_for_url (some false) x y = y
  if_for_url none x y = y

  abbrev pub look_at : Cookie → HttpUrl → Search → Search
  look_at c u w =
      if has_prefix c.name (codes "macaroon-")
      then if_for_url (cookie_for_url c u) (with_macaroons c (J.decode_macaroon_slice c.value) w) w
      else w

  -- The loop over the cookies, for one URL.
  unfoldable pub look_at_all : List Cookie → HttpUrl → Search → Search
  unfolding cookie_for_url add_caveats
  look_at_all [] u w = w
  look_at_all (c ∷ cookies) u w = look_at_all cookies u (look_at c u w)

  abbrev pub start_search : List Str → List HttpUrl → J.State → Search
  start_search seen urls jar = record { seen = seen; urls = urls; jar = jar }

  -- for i := 0; i < len(urls); i++, on fuel, which is `none` when it runs out
  unfoldable pub search : ℕ → List Str → List HttpUrl → J.State → Option J.State
  unfolding look_at_all
  search zero seen urls jar = none
  search (suc fuel) seen [] jar = some jar
  search (suc fuel) seen (u ∷ urls) jar =
      let w = look_at_all (J.all_cookies jar) u (start_search seen urls jar) in
      search fuel w.seen w.urls w.jar

  -- The loop from the URL of the store. A URL that cannot be parsed needs no logging out.
  abbrev pub search_from : ℕ → Option HttpUrl → J.State → Option J.State
  search_from fuel none jar = some jar
  search_from fuel (some u) jar = search fuel (u.string ∷ []) (u ∷ []) jar

  abbrev pub with_server : ℕ → Result Error Str → J.State → Result Error (Unit {0}) × Option J.State
  with_server fuel (err e) jar = (err (notef e "cannot create charm store client" []), some jar)
  with_server fuel (ok server_url) jar = (ok tt, search_from fuel (J.parse_url server_url) jar)

  -- Run. `token` is the answer to the removal of the Ubuntu SSO token, `server` the URL of the client.
  unfoldable pub run :
      ℕ → Reply → Result Error Str → J.State → Result Error (Unit {0}) × Option J.State
  unfolding search
  run fuel (ok _) server jar = with_server fuel server jar
  run fuel (err e) server jar =
      if is_not_exist e
      then with_server fuel server jar
      else (err (new "cannot remove Ubuntu SSO token"), some jar)
