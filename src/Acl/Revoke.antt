-- ===== src/Acl/Revoke.antt =====
-- revokeCommand of revoke.go: Init and changePerms.
pub mod Effect
use charmstore_client.Base.{
  Bool, true, false, not, ◌&&◌, ◌||◌, List, [], ◌∷◌, ◌++◌, Str, codes, Result, ok, err, Error, new,
  note, mask, ◌>>=◌, ◌>>◌, is_empty, if◌then◌else◌, ◌==◌, list_eq, nat_eq,
}
use charmstore_client.Charm.{Url, parse_url}
use charmstore_client.Acl.Lists.{remove, parse_list, validate_names}
use charmstore_client.Acl.Server.{Server, Perms, get_existing_perms}

-- The fields that Init sets, and the flag --acl.
pub record RevokeCommand : Type 0 where
  pub id : Url
  pub acl : Str
  pub remove_reads : List Str
  pub remove_writes : List Str

unfoldable pub store_users : List Str → RevokeCommand → RevokeCommand
store_users users c =
    if c.acl == codes "read"
    then record c { remove_reads = users }
    else if c.acl == codes "write"
    then record c { remove_writes = users }
    else record c { remove_reads = users; remove_writes = users }

module _ (library_parse : Str → Result Error Url) (valid_user : Str → Bool) where
  unfoldable pub init_args : Str → Str → RevokeCommand → Result Error RevokeCommand
  unfolding store_users
  init_args id_arg users_arg c =
      if not (is_empty c.acl) && not (c.acl == codes "read") && not (c.acl == codes "write")
      then err (new "--acl takes either read or write")
      else do
        id ← note "invalid charm or bundle id" [] (parse_url library_parse id_arg)
        let users = parse_list users_arg
        if is_empty users then err (new "no users specified") else do
          mask (validate_names valid_user users)
          ok (store_users users (record c { id = id }))

  unfoldable pub init : List Str → RevokeCommand → Result Error RevokeCommand
  unfolding init_args
  init [] c = err (new "no charm or bundle id specified")
  init (id_arg ∷ []) c = err (new "no users specified")
  init (id_arg ∷ users_arg ∷ []) c = init_args id_arg users_arg c
  init (id_arg ∷ users_arg ∷ _ ∷ _) c = err (new "too many arguments")

-- The lists that are left. The write list is copied before `remove` works on it in place.
abbrev pub remaining : RevokeCommand → Perms → Perms
remaining c p = record {
  read = remove p.read c.remove_reads;
  write = remove p.write c.remove_writes;
}

-- len(perms.Read) == 0 || (len(write) > 0 && len(perms.Write) == 0)
abbrev pub leaves_nobody : Perms → Perms → Bool
leaves_nobody p q = is_empty q.read || (not (is_empty p.write) && is_empty q.write)

module _ (S : Server) (id_string : Url → Str) where
  -- changePerms behind the lists `p` of the store, with `q` those that are left
  unfoldable pub put_remaining :
      RevokeCommand → Perms → Perms → S.State → Result Error (Unit {0}) × S.State
  put_remaining c p q s =
      let (r, s') = S.put_perm c.id q s in
      if leaves_nobody p q
      then (err (new "need at least one user with read|write access"), s)
      else (note "cannot set permissions" [] r, s')

  unfoldable pub change_perms : RevokeCommand → S.State → Result Error (Unit {0}) × S.State
  unfolding put_remaining
  change_perms c s =
      elim (note "cannot get existing permissions" [] (get_existing_perms S id_string c.id s)) [
        | err e ↦ (err e, s)
        | ok p ↦ put_remaining c p (remaining c p) s
      ]
