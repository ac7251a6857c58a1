-- ===== src/Logout/Removed.antt =====
-- The loop of logout.go: its end, and the login cookies behind it.
use charmstore_client.Base.{
  ℕ, suc, zero, ◌+◌, ◌≤◌, ◌<◌, ◌≡◌, refl, sym, subst, inl, inr, Bool, true, false, Option, none,
  some, List, [], ◌∷◌, ◌++◌, Str, codes, has_prefix, length, if◌then◌else◌, list_eq, nat_eq, arith,
}
use charmstore_client.Logout.{
  Cookie, HttpUrl, Jar, HasCookie, IsJar, cookie_for_url, Search, add_caveats, with_macaroons,
  if_for_url, look_at, look_at_all, start_search, search, search_from,
}
use charmstore_client.Logout.Work.{
  cookie_urls, macaroon_urls, unseen, work, Within, Within-append-left, Within-append-right,
  add_caveats-work,
}

module _ (J : Jar) where
  -- A cookie that is a login for a URL: its name says so, it is sent to the URL, and it can be decoded.
  pub record IsLogin (u : HttpUrl) (c : Cookie) : Type 0 where
    pub locations : List Str
    pub named : has_prefix c.name (codes "macaroon-") ≡ true
    pub sent : cookie_for_url J c u ≡ some true
    pub decoded : J.decode_macaroon_slice c.value ≡ some locations

  module _ (L : IsJar J) where
    abbrev pub Shrinks : J.State → J.State → Type 0
    Shrinks s t = (d : Cookie) → HasCookie d (J.all_cookies t) → HasCookie d (J.all_cookies s)

    -- What one cookie, or all of them, do to a search.
    record IsStep (all : List Str) (w x : Search J) : Type 0 where
      worked : work J all x ≤ work J all w
      shrunk : Shrinks w.jar x.jar

    IsStep-trans :
        (all : List Str) (w x y : Search J) → IsStep all w x → IsStep all x y → IsStep all w y
    IsStep-trans all w x y a b = record {
      worked = omega (arith, a.worked, b.worked);
      shrunk = λ d h. a.shrunk d (b.shrunk d h);
    }

    IsStep-refl : (all : List Str) (w : Search J) → IsStep all w w
    IsStep-refl all w = record { worked = omega arith; shrunk = λ d h. h }

    with_macaroons-IsStep :
        (all : List Str) (c : Cookie) (o : Option (List Str)) (w : Search J)
        → Within J (macaroon_urls J o) all
        → IsStep all w (with_macaroons J c o w)
    with_macaroons-IsStep all c none w h = IsStep-refl all w
    with_macaroons-IsStep all c (some locations) w h =
        let (worked, same) = add_caveats-work J all locations w h in
        record {
          worked = worked;
          shrunk = λ d k.
              subst (λ s. HasCookie d (J.all_cookies s)) same
                (L.others_kept c d (add_caveats J locations w).jar k);
        }

    if_for_url-IsStep :
        (all : List Str) (w : Search J) (o : Option Bool) (x : Search J)
        → IsStep all w x
        → IsStep all w (if_for_url J o x w)
    if_for_url-IsStep all w none x a = IsStep-refl all w
    if_for_url-IsStep all w (some true) x a = a
    if_for_url-IsStep all w (some false) x a = IsStep-refl all w

    if-IsStep :
        (all : List Str) (w : Search J) (b : Bool) (x y : Search J)
        → IsStep all w x
        → IsStep all w y
        → IsStep all w (if b then x else y)
    if-IsStep all w true x y a b = a
    if-IsStep all w false x y a b = b

    look_at-IsStep :
        (all : List Str) (c : Cookie) (u : HttpUrl) (w : Search J)
        → Within J (macaroon_urls J (J.decode_macaroon_slice c.value)) all
        → IsStep all w (look_at J c u w)
    look_at-IsStep all c u w h =
        let step = with_macaroons-IsStep all c (J.decode_macaroon_slice c.value) w h in
        if-IsStep all w (has_prefix c.name (codes "macaroon-"))
          (if_for_url J (cookie_for_url J c u)
            (with_macaroons J c (J.decode_macaroon_slice c.value) w) w)
          w
          (if_for_url-IsStep all w (cookie_for_url J c u)
            (with_macaroons J c (J.decode_macaroon_slice c.value) w) step)
          (IsStep-refl all w)

    look_at_all-IsStep :
        (all : List Str) (cookies : List Cookie) (u : HttpUrl) (w : Search J)
        → Within J (cookie_urls J cookies) all
        → IsStep all w (look_at_all J cookies u w)
    unfolding look_at_all
    look_at_all-IsStep all [] u w h = IsStep-refl all w
    look_at_all-IsStep all (c ∷ cookies) u w h =
        let urls = macaroon_urls J (J.decode_macaroon_slice c.value) in
        IsStep-trans all w (look_at J c u w) (look_at_all J cookies u (look_at J c u w))
          (look_at-IsStep all c u w (Within-append-left J urls (cookie_urls J cookies) all h))
          (look_at_all-IsStep all cookies u (look_at J c u w)
            (Within-append-right J urls (cookie_urls J cookies) all h))

    -- A login is gone once it has been looked at.
    look_at-removed :
        (c : Cookie) (u : HttpUrl) (w : Search J)
        → IsLogin u c
        → ¬ HasCookie c (J.all_cookies (look_at J c u w).jar)
    look_at-removed c u w v =
        rw (v.named, v.sent, v.decoded) (L.removed c (add_caveats J v.locations w).jar)

    look_at_all-removed :
        (all : List Str) (c : Cookie) (cookies : List Cookie) (u : HttpUrl) (w : Search J)
        → Within J (cookie_urls J cookies) all
        → IsLogin u c
        → HasCookie c cookies
        → ¬ HasCookie c (J.all_cookies (look_at_all J cookies u w).jar)
    unfolding look_at_all
    look_at_all-removed all c [] u w h v k left = elim k [ ]
    look_at_all-removed all c (d ∷ cookies) u w h v (inl same) left =
        let w1 = look_at J d u w in
        let urls = macaroon_urls J (J.decode_macaroon_slice d.value) in
        let step =
          look_at_all-IsStep all cookies u w1
            (Within-append-right J urls (cookie_urls J cookies) all h) in
        look_at-removed d u w (subst (IsLogin u) same v)
          (subst (λ x. HasCookie x (J.all_cookies w1.jar)) same (step.shrunk c left))
    look_at_all-removed all c (d ∷ cookies) u w h v (inr k) left =
        let urls = macaroon_urls J (J.decode_macaroon_slice d.value) in
        look_at_all-removed all c cookies u (look_at J d u w)
          (Within-append-right J urls (cookie_urls J cookies) all h) v k left

    -- All the URLs of the cookies of a smaller jar are URLs of the larger one.
    cookie_urls-Within :
        (c : Cookie) (cookies : List Cookie) (all : List Str)
        → HasCookie c cookies
        → Within J (cookie_urls J cookies) all
        → Within J (macaroon_urls J (J.decode_macaroon_slice c.value)) all
    cookie_urls-Within c [] all k h = elim k [ ]
    cookie_urls-Within c (d ∷ cookies) all (inl same) h =
        subst (λ x. Within J (macaroon_urls J (J.decode_macaroon_slice x.value)) all) (sym same)
          (Within-append-left J (macaroon_urls J (J.decode_macaroon_slice d.value))
            (cookie_urls J cookies) all h)
    cookie_urls-Within c (d ∷ cookies) all (inr k) h = cookie_urls-Within c cookies all k (
        Within-append-right J (macaroon_urls J (J.decode_macaroon_slice d.value))
          (cookie_urls J cookies) all h)

    Within-append : (a b all : List Str) → Within J a all → Within J b all → Within J (a ++ b) all
    Within-append [] b all h k = k
    Within-append (x ∷ a) b all h k = (h.0, Within-append a b all h.1 k)

    subset-Within :
        (some_cookies cookies : List Cookie) (all : List Str)
        → ((d : Cookie) → HasCookie d some_cookies → HasCookie d cookies)
        → Within J (cookie_urls J cookies) all
        → Within J (cookie_urls J some_cookies) all
    subset-Within [] cookies all f h = tt
    subset-Within (c ∷ some_cookies) cookies all f h =
        Within-append (macaroon_urls J (J.decode_macaroon_slice c.value))
          (cookie_urls J some_cookies) all (cookie_urls-Within c cookies all (f c (inl refl)) h)
          (subset-Within some_cookies cookies all (λ d k. f d (inr k)) h)

    -- With more fuel than there is work, the search ends, in a smaller jar.
    search_ends :
        (fuel : ℕ) (all : List Str) (seen : List Str) (urls : List HttpUrl) (s : J.State)
        → Within J (cookie_urls J (J.all_cookies s)) all
        → work J all (start_search J seen urls s) < fuel
        → (t : J.State) × (search J fuel seen urls s ≡ some t) × Shrinks s t
    unfolding search
    search_ends zero all seen urls s h k = ground arith
    search_ends (suc fuel) all seen [] s h k = (s, refl, λ d x. x)
    search_ends (suc fuel) all seen (u ∷ urls) s h k =
        let w = start_search J seen urls s in
        let step = look_at_all-IsStep all (J.all_cookies s) u w h in
        let x = look_at_all J (J.all_cookies s) u w in
        let (t, ends, shrunk) =
          search_ends fuel all x.seen x.urls x.jar
            (subset-Within (J.all_cookies x.jar) (J.all_cookies s) all step.shrunk h)
            (omega (arith, step.worked, k)) in
        (t, ends, λ d y. step.shrunk d (shrunk d y))

    Within-cons : (x : Str) (l all : List Str) → Within J l all → Within J l (x ∷ all)
    Within-cons x [] all h = tt
    Within-cons x (y ∷ l) all h = (ground arith, Within-cons x l all h.1)

    Within-self : (l : List Str) → Within J l l
    Within-self [] = tt
    Within-self (x ∷ l) = (ground arith, Within-cons x l l (Within-self l))

    unseen_le_length : (all seen : List Str) → unseen J all seen ≤ length all
    unseen_le_length [] seen = omega arith
    unseen_le_length (x ∷ all) seen = ground (arith, unseen_le_length all seen)

    -- The loop from the URL of the store ends: its rounds are at most one more than the URLs of all the
    -- caveats in the jar. Behind it no cookie is left that is a login for that URL, and no cookie has
    -- been added.
    pub search_from-removed :
        (fuel : ℕ) (u : HttpUrl) (s : J.State)
        → length (cookie_urls J (J.all_cookies s)) + 1 < fuel
        → (t : J.State) × (search_from J fuel (some u) s ≡ some t)
          × ((c : Cookie) → IsLogin u c → ¬ HasCookie c (J.all_cookies t))
          × Shrinks s t
    unfolding search
    search_from-removed zero u s k = ground arith
    search_from-removed (suc fuel) u s k =
        let all = cookie_urls J (J.all_cookies s) in
        let h = Within-self all in
        let w = start_search J (u.string ∷ []) [] s in
        let x = look_at_all J (J.all_cookies s) u w in
        let step = look_at_all-IsStep all (J.all_cookies s) u w h in
        let (t, ends, shrunk) =
          search_ends fuel all x.seen x.urls x.jar
            (subset-Within (J.all_cookies x.jar) (J.all_cookies s) all step.shrunk h)
            (omega (arith, step.worked, k, unseen_le_length all (u.string ∷ []))) in
        (
          t,
          ends,
          λ c v left.
              look_at_all-removed all c (J.all_cookies s) u w h v (step.shrunk c (shrunk c left))
                (shrunk c left),
          λ d y. step.shrunk d (shrunk d y),
        )
