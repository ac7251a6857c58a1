-- ===== src/Acl/Grant/Effect.antt =====
-- What `grant` leaves in a charm store that accepts its requests.
use charmstore_client.Base.{
  ◌≡◌, refl, ◌∙◌, Bool, ◌||◌, List, [], ◌∷◌, ◌++◌, Str, Result, ok, err, arith, is_empty,
  if◌then◌else◌, list_eq, nat_eq, contains, contains-append, Error, note,
}
use charmstore_client.Charm.{Url}
use charmstore_client.Acl.Lists.{unique}
use charmstore_client.Acl.Lists.Unique.{unique-OnceEach}
use charmstore_client.Acl.Server.{Server, Perms, IsWritable, get_existing_perms}
use charmstore_client.Acl.Grant.{GrantCommand, merged, change_perms, cannot_set}

-- A list that is given replaces the old one; otherwise the users are added to it.
abbrev pub wanted : List Str → List Str → List Str → Str → Bool
wanted set_users add_users old a =
    if is_empty set_users then contains old a || contains add_users a else contains set_users a

pub record IsWanted (c : GrantCommand) (p q : Perms) : Type 0 where
  pub readers : (a : Str) → contains q.read a ≡ wanted c.set_reads c.add_reads p.read a
  pub writers : (a : Str) → contains q.write a ≡ wanted c.set_writes c.add_writes p.write a

contains-unique-append :
    (old added : List Str) (a : Str)
    → contains (unique (old ++ added)) a ≡ (contains old a || contains added a)
contains-unique-append old added a =
    (unique-OnceEach (old ++ added)).1 a ∙ contains-append old added a

merged_list :
    (set_users add_users old : List Str) (a : Str)
    → contains (if is_empty set_users then unique (old ++ add_users) else set_users) a
      ≡ wanted set_users add_users old a
merged_list [] add_users old a = contains-unique-append old add_users a
merged_list (u ∷ us) add_users old a = refl

merged-IsWanted : (c : GrantCommand) (p : Perms) → IsWanted c p (merged c p)
unfolding merged
merged-IsWanted c p = record {
  readers = merged_list c.set_reads c.add_reads p.read;
  writers = merged_list c.set_writes c.add_writes p.write;
}

unchanged : (old : List Str) (a : Str) → contains old a ≡ wanted [] [] old a
unchanged old a = ground arith

module _ (S : Server) (id_string : Url → Str) where
  -- The command succeeds, and the store then holds lists that answer the command.
  abbrev pub Granted : GrantCommand → Perms → Result Error (Unit {0}) × S.State → Type 0
  Granted c p out =
      (s' : S.State) × (out ≡ (ok tt, s'))
      × (q : Perms) × (S.meta_perm c.id s' ≡ ok q)
      × IsWanted c p q

  module _ (c : GrantCommand) (p : Perms) (s : S.State) (w : IsWritable S c.id) where
    put_all :
        (q : Perms) → IsWanted c p q → Granted c p (cannot_set S id_string (S.put_perm c.id q s))
    put_all q good = let (s', sent, stored) = w.perm_stored q s in (s', rw sent, q, stored, good)

    module _ (known : S.meta_perm c.id s ≡ ok p) where
      put_merged :
          Granted c p
            (elim (note "cannot get existing permissions" []
              (get_existing_perms S id_string c.id s)) [
                | err e ↦ (err e, s)
                | ok p' ↦ cannot_set S id_string (S.put_perm c.id (merged c p') s)
              ])
      unfolding get_existing_perms
      put_merged = rw (known, note) (put_all (merged c p) (merged-IsWanted c p))

      put_readers :
          ((a : Str) → contains c.set_reads a ≡ wanted c.set_reads c.add_reads p.read a)
          → ((a : Str) → contains p.write a ≡ wanted c.set_writes c.add_writes p.write a)
          → Granted c p (cannot_set S id_string (S.put_read c.id c.set_reads s))
      put_readers r u =
          let (s', sent, stored) = w.read_stored c.set_reads p s known in
          (
            s',
            rw sent,
            record p { read = c.set_reads },
            stored,
            record { readers = r; writers = u },
          )

      put_writers :
          ((a : Str) → contains p.read a ≡ wanted c.set_reads c.add_reads p.read a)
          → ((a : Str) → contains c.set_writes a ≡ wanted c.set_writes c.add_writes p.write a)
          → Granted c p (cannot_set S id_string (S.put_write c.id c.set_writes s))
      put_writers r u =
          let (s', sent, stored) = w.write_stored c.set_writes p s known in
          (
            s',
            rw sent,
            record p { write = c.set_writes },
            stored,
            record { readers = r; writers = u },
          )

  by_lists :
      (c : GrantCommand) (p : Perms) (s : S.State)
      → IsWritable S c.id
      → S.meta_perm c.id s ≡ ok p
      → (ar aw sr sw : List Str)
      → let c' = record c { add_reads = ar; add_writes = aw; set_reads = sr; set_writes = sw } in
        Granted c' p (change_perms S id_string c' s)
  unfolding change_perms
  by_lists c p s w known ar aw (x ∷ sr) (y ∷ sw) =
      put_all _ p s w _ (record { readers = λ a. refl; writers = λ a. refl })
  by_lists c p s w known ar [] (x ∷ sr) [] =
      put_readers _ p s w known (λ a. refl) (unchanged p.write)
  by_lists c p s w known ar (z ∷ aw) (x ∷ sr) [] = put_merged _ p s w known
  by_lists c p s w known [] aw [] (y ∷ sw) =
      put_writers _ p s w known (unchanged p.read) (λ a. refl)
  by_lists c p s w known (z ∷ ar) aw [] (y ∷ sw) = put_merged _ p s w known
  by_lists c p s w known ar aw [] [] = put_merged _ p s w known

  -- Where the store answers with the lists `p` of the entity and accepts what it is sent, `grant`
  -- succeeds, and afterwards a user is in the read list, and in the write list, exactly if the
  -- command's list for `--set` names the user, or, where that list is empty, if the user was in
  -- the list before or is among the users to add.
  pub change_perms-IsWanted :
      (c : GrantCommand) (p : Perms) (s : S.State)
      → IsWritable S c.id
      → S.meta_perm c.id s ≡ ok p
      → Granted c p (change_perms S id_string c s)
  change_perms-IsWanted c p s w known =
      by_lists c p s w known c.add_reads c.add_writes c.set_reads c.set_writes
