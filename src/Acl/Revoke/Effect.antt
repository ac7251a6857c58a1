-- ===== src/Acl/Revoke/Effect.antt =====
-- What `revoke` leaves in a charm store that accepts its requests.
use charmstore_client.Base.{
  ◌≡◌, true, false, not, List, Str, Result, ok, err, Error, new, arith, list_eq, nat_eq, contains,
  select, note, Bool-cases, inl, inr, ◌⊎◌,
}
use charmstore_client.Charm.{Url}
use charmstore_client.Acl.Lists.Remove.{remove-eq-select}
use charmstore_client.Acl.Server.{Server, Perms, IsWritable, get_existing_perms}
use charmstore_client.Acl.Revoke.{
  RevokeCommand, change_perms, put_remaining, remaining, leaves_nobody,
}

-- The users of a list without those that the command names, in the same order.
abbrev pub without : List Str → List Str → List Str
without users = select (λ u. not (contains users u))

abbrev pub left_over : RevokeCommand → Perms → Perms
left_over c p = record {
  read = without c.remove_reads p.read;
  write = without c.remove_writes p.write;
}

remaining-eq-left_over : (c : RevokeCommand) (p : Perms) → remaining c p ≡ left_over c p
remaining-eq-left_over c p = λ i. record {
  read = remove-eq-select c.remove_reads p.read i;
  write = remove-eq-select c.remove_writes p.write i;
}

module _ (S : Server) (id_string : Url → Str) where
  -- The command fails and changes nothing, where a list would lose its last user; otherwise it
  -- succeeds, and the store holds what is left over.
  abbrev pub Revoked : RevokeCommand → Perms → S.State → Result Error (Unit {0}) × S.State → Type 0
  Revoked c p s out =
      ((leaves_nobody p (left_over c p) ≡ true)
        × (out ≡ (err (new "need at least one user with read|write access"), s)))
      ⊎ ((leaves_nobody p (left_over c p) ≡ false)
          × ((s' : S.State) × (out ≡ (ok tt, s')) × (S.meta_perm c.id s' ≡ ok (left_over c p))))

  put_remaining-Revoked :
      (c : RevokeCommand) (p : Perms) (s : S.State)
      → IsWritable S c.id
      → Revoked c p s (put_remaining S id_string c p (left_over c p) s)
  unfolding put_remaining
  put_remaining-Revoked c p s w = elim (Bool-cases (leaves_nobody p (left_over c p))) [
    | inl nobody ↦ inl (nobody, ground arith)
    | inr somebody ↦
        let (s', sent, stored) = w.perm_stored (left_over c p) s in
        inr (somebody, (s', ground arith, stored))
  ]

  change_perms-eq-put_remaining :
      (c : RevokeCommand) (p : Perms) (s : S.State)
      → S.meta_perm c.id s ≡ ok p
      → change_perms S id_string c s ≡ put_remaining S id_string c p (remaining c p) s
  unfolding change_perms get_existing_perms
  change_perms-eq-put_remaining c p s known = rw (change_perms, known, note)

  -- Where the store answers with the lists `p` of the entity and accepts what it is sent: if the
  -- read list without the users to remove is empty, or the write list was not empty and would
  -- become so, `revoke` fails and the store is as before; otherwise it succeeds, and the store
  -- then holds both lists without the users to remove, in their old order.
  pub change_perms-Revoked :
      (c : RevokeCommand) (p : Perms) (s : S.State)
      → IsWritable S c.id
      → S.meta_perm c.id s ≡ ok p
      → Revoked c p s (change_perms S id_string c s)
  change_perms-Revoked c p s w known =
      rw (change_perms-eq-put_remaining c p s known, remaining-eq-left_over c p)
        (put_remaining-Revoked c p s w)
