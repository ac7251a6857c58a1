-- ===== src/Acl/Grant.antt =====
-- grantCommand of grant.go: Init and changePerms.
pub mod Effect
use charmstore_client.Base.{
  Bool, not, ◌&&◌, List, [], ◌∷◌, ◌++◌, Str, codes, Result, ok, err, Error, new, note, mask, ◌>>=◌,
  ◌>>◌, is_empty, if◌then◌else◌, ◌==◌, list_eq, nat_eq,
}
use charmstore_client.Charm.{Url, parse_url}
use charmstore_client.Acl.Lists.{unique, parse_list, validate_names}
use charmstore_client.Acl.Server.{Server, Perms, get_existing_perms}

-- The fields that Init sets, and the flags --acl and --set.
pub record GrantCommand : Type 0 where
  pub id : Url
  pub acl : Str
  pub set : Bool
  pub add_reads : List Str
  pub add_writes : List Str
  pub set_reads : List Str
  pub set_writes : List Str

-- switch c.acl
unfoldable pub store_users : List Str → GrantCommand → GrantCommand
store_users users c =
    if c.acl == codes "read"
    then (if c.set then record c { set_reads = users } else record c { add_reads = users })
    else if c.acl == codes "write"
    then (if c.set then record c { set_writes = users } else record c { add_writes = users })
    else c

module _ (library_parse : Str → Result Error Url) (valid_user : Str → Bool) where
  unfoldable pub init_args : Str → Str → GrantCommand → Result Error GrantCommand
  unfolding store_users
  init_args id_arg users_arg c =
      if not (c.acl == codes "read") && not (c.acl == codes "write")
      then err (new "--acl takes either read or write")
      else do
        id ← note "invalid charm or bundle id" [] (parse_url library_parse id_arg)
        let users = parse_list users_arg
        if is_empty users then err (new "no users specified") else do
          mask (validate_names valid_user users)
          ok (store_users users (record c { id = id }))

  unfoldable pub init : List Str → GrantCommand → Result Error GrantCommand
  unfolding init_args
  init [] c = err (new "no charm or bundle id specified")
  init (id_arg ∷ []) c = err (new "no users specified")
  init (id_arg ∷ users_arg ∷ []) c = init_args id_arg users_arg c
  init (id_arg ∷ users_arg ∷ _ ∷ _) c = err (new "too many arguments")

-- The lists that are sent, where those of the store are needed.
unfoldable pub merged : GrantCommand → Perms → Perms
merged c p = record {
  read = if is_empty c.set_reads then unique (p.read ++ c.add_reads) else c.set_reads;
  write = if is_empty c.set_writes then unique (p.write ++ c.add_writes) else c.set_writes;
}

module _ (S : Server) (id_string : Url → Str) where
  abbrev pub cannot_set : Result Error (Unit {0}) × S.State → Result Error (Unit {0}) × S.State
  cannot_set (r, s) = (note "cannot set permissions" [] r, s)

  unfoldable pub change_perms : GrantCommand → S.State → Result Error (Unit {0}) × S.State
  unfolding merged
  change_perms c s =
      let read_set = not (is_empty c.set_reads) in
      let write_set = not (is_empty c.set_writes) in
      if read_set && write_set
      then cannot_set (S.put_perm c.id (record { read = c.set_reads; write = c.set_writes }) s)
      else if read_set && is_empty c.add_writes
      then cannot_set (S.put_read c.id c.set_reads s)
      else if write_set && is_empty c.add_reads
      then cannot_set (S.put_write c.id c.set_writes s)
      else elim (note "cannot get existing permissions" []
          (get_existing_perms S id_string c.id s)) [
            | err e ↦ (err e, s)
            | ok p ↦ cannot_set (S.put_perm c.id (merged c p) s)
          ]
