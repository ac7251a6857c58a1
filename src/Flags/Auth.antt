-- ===== src/Flags/Auth.antt =====
-- The flag -auth, read and written.
use charmstore_client.Base.{
  ℕ, ◌&&◌, subst, ◌≡◌, refl, false, Option, none, some, Option-cases, [], ◌∷◌, ◌++◌, Str, split_2,
  contains, ok, is_empty, nat_eq, arith, inl, inr, if◌then◌else◌,
}
use charmstore_client.Flags.{with_login, AuthInfo, set_auth, auth_string, no_auth}

-- The text between the parts is the separator.
pub split_2-append : (c : ℕ) (s u p : Str) → split_2 (c ∷ []) s ≡ some (u, p) → u ++ c ∷ p ≡ s
unfolding split_2
split_2-append c [] u p h = ground arith
split_2-append c (d ∷ s) u p h = elim (Option-cases (split_2 (c ∷ []) s)) [
  | inl absent ↦ ground (arith, absent)
  | inr ((v, q), found) ↦ ground (arith, found, split_2-append c s v q found)
]

-- The first separator is where the string is cut.
pub split_2-first :
    (c : ℕ) (u p : Str) → contains u c ≡ false → split_2 (c ∷ []) (u ++ c ∷ p) ≡ some (u, p)
unfolding split_2
split_2-first c [] p h = ground arith
split_2-first c (d ∷ u) p h = ground (arith, split_2-first c u p)

auth_string-login :
    (s : Str) (a b : AuthInfo) (o : Option (Str × Str))
    → split_2 (b':' ∷ []) s ≡ o
    → with_login a o ≡ ok b
    → auth_string b ≡ s
unfolding auth_string
auth_string-login s a b none cut h = ground arith
auth_string-login s a b (some ([], q)) cut h = ground arith
auth_string-login s a b (some (c ∷ v, q)) cut h =
    let found = split_2-append b':' s (c ∷ v) q cut in
    subst (λ x. auth_string x ≡ s) {x = record a { username = c ∷ v; password = q }} {y = b}
      (ground arith) found

-- What the flag accepts is written as it was read.
pub auth_string-set_auth : (s : Str) (a b : AuthInfo) → set_auth s a ≡ ok b → auth_string b ≡ s
unfolding set_auth auth_string
auth_string-set_auth [] a b h =
    subst (λ x. auth_string x ≡ []) {x = no_auth} {y = b} (ground arith) refl
auth_string-set_auth (c ∷ s) a b h = auth_string-login (c ∷ s) a b _ refl h

set_auth-written :
    (u p : Str) (b : AuthInfo)
    → is_empty u ≡ false
    → contains u b':' ≡ false
    → set_auth (if is_empty u && is_empty p then [] else u ++ b':' ∷ p) b
      ≡ ok (record b { username = u; password = p })
unfolding set_auth
set_auth-written [] p b h k = ground arith
set_auth-written (c ∷ u) p b h k = rw (split_2-first b':' (c ∷ u) p k) refl

-- A login that has a username, and no colon in it, is read back from what is written.
set_auth-auth_string :
    (a b : AuthInfo)
    → is_empty a.username ≡ false
    → contains a.username b':' ≡ false
    → set_auth (auth_string a) b ≡ ok (record b { username = a.username; password = a.password })
unfolding set_auth auth_string
set_auth-auth_string a b h k = set_auth-written a.username a.password b h k
