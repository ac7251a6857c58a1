-- ===== src/Acl/Server.antt =====
-- What the two commands ask of the charm store, whose code is elsewhere.
use charmstore_client.Base.{
  ◌≡◌, List, Str, Result, ok, err, Error, newf, masked, is_not_found, ◌∷◌, [], if◌then◌else◌,
}
use charmstore_client.Charm.{Url}

-- The two access lists of an entity.
pub record Perms : Type 0 where
  pub read : List Str
  pub write : List Str

pub record Server : Type 1 where
  pub State : Type 0
  -- client.Meta(id, &result), with the Perm field of the result
  pub meta_perm : Url → State → Result Error Perms
  -- client.Put of /meta/perm, /meta/perm/read and /meta/perm/write
  pub put_perm : Url → Perms → State → Result Error (Unit {0}) × State
  pub put_read : Url → List Str → State → Result Error (Unit {0}) × State
  pub put_write : Url → List Str → State → Result Error (Unit {0}) × State

-- The server as it answers a user who may write to the entity: it stores what it is sent.
pub record IsWritable (S : Server) (id : Url) : Type 0 where
  pub perm_stored :
      (p : Perms) (s : S.State)
      → (s' : S.State) × (S.put_perm id p s ≡ (ok tt, s')) × (S.meta_perm id s' ≡ ok p)
  pub read_stored :
      (read : List Str) (p : Perms) (s : S.State)
      → S.meta_perm id s ≡ ok p
      → (s' : S.State) × (S.put_read id read s ≡ (ok tt, s'))
        × (S.meta_perm id s' ≡ ok (record p { read = read }))
  pub write_stored :
      (write : List Str) (p : Perms) (s : S.State)
      → S.meta_perm id s ≡ ok p
      → (s' : S.State) × (S.put_write id write s ≡ (ok tt, s'))
        × (S.meta_perm id s' ≡ ok (record p { write = write }))

-- `id_string` is the method String of the id.
module _ (S : Server) (id_string : Url → Str) where
  unfoldable pub get_existing_perms : Url → S.State → Result Error Perms
  get_existing_perms id s = elim (S.meta_perm id s) [
    | ok p ↦ ok p
    | err e ↦
        if is_not_found e
        then err (newf "no matching charm or bundle for %s" (id_string id ∷ []))
        else err (masked e)
  ]
