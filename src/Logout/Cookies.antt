-- ===== src/Logout/Cookies.antt =====
-- cookieForURL of logout.go, against what it means for a cookie to be sent.
use charmstore_client.Base.{
  ℕ, ◌≡◌, refl, true, false, ◌&&◌, ◌||◌, some, [], ◌∷◌, ◌++◌, Str, strip_prefix, has_prefix,
  trim_suffix, length, ◌==◌, list_eq, nat_eq, arith,
}
use charmstore_client.Logout.{Cookie, HttpUrl, Jar, get_elem?, is_slash, host_of, cookie_for_url}

has_prefix-cons : (c : ℕ) (p s : Str) → has_prefix (c ∷ s) (c ∷ p) ≡ has_prefix s p
unfolding strip_prefix
has_prefix-cons c p s = ground arith

-- Behind a proper prefix of a path there is a byte.
slash_lem :
    (p s : Str)
    → (p == s) ≡ false
    → has_prefix s p ≡ true
    → is_slash (get_elem? s (length p)) ≡ some (has_prefix s (p ++ b'/' ∷ []))
unfolding strip_prefix
slash_lem [] [] n h = ground arith
slash_lem [] (d ∷ s) n h = ground arith
slash_lem (c ∷ p) [] n h = ground arith
slash_lem (c ∷ p) (d ∷ s) n h = ground (arith, slash_lem p s)

no_prefix : (p s : Str) → has_prefix s p ≡ false → has_prefix s (p ++ b'/' ∷ []) ≡ false
unfolding strip_prefix
no_prefix [] s h = ground arith
no_prefix (c ∷ p) [] h = refl
no_prefix (c ∷ p) (d ∷ s) h = ground (arith, no_prefix p s)

-- cookieForURL does not panic: a cookie is for a URL where its domain is the host of the URL and where the
-- path of the URL is that of the cookie, less a slash at its end, or goes on behind it with a slash.
pub cookie_for_url_lem :
    (J : Jar) (c : Cookie) (u : HttpUrl)
    → cookie_for_url J c u
      ≡ some (
          c.domain == host_of J u
          && (trim_suffix b'/' c.path == u.path
              || has_prefix u.path (trim_suffix b'/' c.path ++ b'/' ∷ [])))
unfolding cookie_for_url
cookie_for_url_lem J c u =
    let path = trim_suffix b'/' c.path in
    ground (arith, slash_lem path u.path, no_prefix path u.path)
