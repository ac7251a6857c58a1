-- ===== src/Tests/Logouts.antt =====
-- The theorems on charm logout, at concrete inputs.
use charmstore_client.Base.{
  subst, sym, strip_prefix, ◌≡◌, refl, inl, inr, Bool, true, false, not, ◌&&◌, ◌||◌, none, some,
  List, [], ◌∷◌, ◌++◌, codes, select, ◌==◌, nat_eq, list_eq, arith, trim_suffix, has_prefix,
  if◌then◌else◌,
}
use charmstore_client.Logout.{
  Cookie, HttpUrl, Jar, HasCookie, IsJar, host_of, cookie_for_url, search_from,
}
use charmstore_client.Logout.Cookies.{cookie_for_url_lem}
use charmstore_client.Logout.Removed.{IsLogin, Shrinks, search_from-removed}

abbrev is_same : Cookie → Cookie → Bool
is_same c d = c.name == d.name && c.domain == d.domain && c.path == d.path

abbrev store_url : HttpUrl
store_url = record { host = codes "store"; path = codes "/v5"; string = codes "store/v5" }

-- A jar whose macaroons all refer to the store itself.
abbrev jar : Jar
jar = record {
  State = List Cookie;
  all_cookies = λ s. s;
  remove_cookie = λ c s. select (λ d. not (is_same c d)) s;
  parse_url = λ s. some store_url;
  split_host_port = λ s. none;
  decode_macaroon_slice = λ s. some (codes "store" ∷ []);
}

HasCookie-if :
    (p : Cookie → Bool) (d x : Cookie) (l rest : List Cookie)
    → (HasCookie d rest → HasCookie d l × (p d ≡ true))
    → (b : Bool) → p x ≡ b
    → HasCookie d (if b then x ∷ rest else rest)
    → HasCookie d (x ∷ l) × (p d ≡ true)
HasCookie-if p d x l rest f true e (inl same) = (inl same, subst (λ c. p c ≡ true) (sym same) e)
HasCookie-if p d x l rest f true e (inr k) = let (here, kept) = f k in (inr here, kept)
HasCookie-if p d x l rest f false e k = let (here, kept) = f k in (inr here, kept)

HasCookie-select :
    (p : Cookie → Bool) (d : Cookie) (l : List Cookie)
    → HasCookie d (select p l)
    → HasCookie d l × (p d ≡ true)
HasCookie-select p d [] h = elim h [ ]
HasCookie-select p d (x ∷ l) h =
    HasCookie-if p d x l (select p l) (HasCookie-select p d l) (p x) refl h

jar-IsJar : IsJar jar
jar-IsJar = record {
  others_kept = λ c d s h. (HasCookie-select (λ x. not (is_same c x)) d s h).0;
  removed = λ c s h. let same = (HasCookie-select (λ x. not (is_same c x)) c s h).1 in ground arith;
}

abbrev login : Cookie
login = record {
  name = codes "macaroon-1";
  domain = codes "store";
  path = codes "/";
  value = codes "m";
}

cookie_for_url_lem_example :
    cookie_for_url jar login store_url
    ≡ some (
        login.domain == host_of jar store_url
        && (trim_suffix b'/' login.path == store_url.path
            || has_prefix store_url.path (trim_suffix b'/' login.path ++ b'/' ∷ [])))
cookie_for_url_lem_example = cookie_for_url_lem jar login store_url

login-IsLogin : IsLogin jar store_url login
unfolding cookie_for_url strip_prefix nat_eq list_eq trim_suffix
login-IsLogin = record { locations = codes "store" ∷ []; named = refl; sent = refl; decoded = refl }

search_from-removed_example :
    (t : List Cookie) × (search_from jar 3 (some store_url) (login ∷ []) ≡ some t)
    × ((c : Cookie) → IsLogin jar store_url c → ¬ HasCookie c t)
    × Shrinks jar jar-IsJar (login ∷ []) t
search_from-removed_example =
    search_from-removed jar jar-IsJar 3 store_url (login ∷ []) (omega arith)
