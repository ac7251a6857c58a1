-- ===== src/Tests/Commands.antt =====
-- The theorems on the commands of charmcmd, at concrete inputs.
use charmstore_client.Base.{
  pos, some, ◌≡◌, refl, true, false, not, List, [], ◌∷◌, Str, codes, ok, contains, select, nat_eq,
  list_eq, arith,
}
use charmstore_client.Base.Dict
use charmstore_client.Charm.{Url}
use charmstore_client.Metadata.Json.{text}
use charmstore_client.Flags.Commands.{unset_fields}
use charmstore_client.Terms
use charmstore_client.Terms.{TermsStore}
use charmstore_client.Acl.Lists.{remove, unique, validate_names}
use charmstore_client.Acl.Lists.Remove.{remove-eq-select}
use charmstore_client.Acl.Lists.Unique.{OnceEach, unique-OnceEach}
use charmstore_client.Acl.Server.{Server, Perms, IsWritable}
use charmstore_client.Acl.Grant.{GrantCommand}
use charmstore_client.Acl.Grant
use charmstore_client.Acl.Grant.Effect.{Granted, change_perms-IsWanted}
use charmstore_client.Acl.Revoke.{RevokeCommand}
use charmstore_client.Acl.Revoke
use charmstore_client.Acl.Revoke.Effect.{Revoked, change_perms-Revoked}

abbrev users : List Str
users = codes "alice" ∷ codes "bob" ∷ codes "alice" ∷ []

unique-OnceEach_example : OnceEach users (unique users)
unique-OnceEach_example = unique-OnceEach users

remove-eq-select_example :
    remove users (codes "bob" ∷ []) ≡ select (λ a. not (contains (codes "bob" ∷ []) a)) users
remove-eq-select_example = remove-eq-select (codes "bob" ∷ []) users

abbrev mysql : Url
mysql = record {
  schema = codes "cs";
  user = codes "bob";
  name = codes "mysql";
  series = [];
  revision = pos 3;
}

-- A server with one entity.
abbrev server : Server
server = record {
  State = Perms;
  meta_perm = λ _ p. ok p;
  put_perm = λ _ p _. (ok tt, p);
  put_read = λ _ read p. (ok tt, record p { read = read });
  put_write = λ _ write p. (ok tt, record p { write = write });
}

server-IsWritable : IsWritable server mysql
server-IsWritable = record {
  perm_stored = λ p s. (p, refl, refl);
  read_stored = λ read p s h. (record s { read = read }, refl, ground arith);
  write_stored = λ write p s h. (record s { write = write }, refl, ground arith);
}

abbrev shared : Perms
shared = record { read = codes "bob" ∷ codes "carol" ∷ []; write = codes "bob" ∷ [] }

abbrev add_alice : GrantCommand
add_alice = record {
  id = mysql;
  acl = codes "read";
  set = false;
  add_reads = codes "alice" ∷ [];
  add_writes = codes "alice" ∷ [];
  set_reads = [];
  set_writes = [];
}

change_perms-IsWanted_example :
    Granted server (λ _. []) add_alice shared (Grant.change_perms server (λ _. []) add_alice shared)
change_perms-IsWanted_example =
    change_perms-IsWanted server (λ _. []) add_alice shared shared server-IsWritable refl

abbrev remove_carol : RevokeCommand
remove_carol = record {
  id = mysql;
  acl = codes "read";
  remove_reads = codes "carol" ∷ [];
  remove_writes = [];
}

change_perms-Revoked_example :
    Revoked server
      (λ _. [])
      remove_carol
      shared
      shared
      (Revoke.change_perms server (λ _. []) remove_carol shared)
change_perms-Revoked_example =
    change_perms-Revoked server (λ _. []) remove_carol shared shared server-IsWritable refl

-- A user with one charm, which has two terms.
abbrev terms_store : TermsStore
terms_store = record {
  who_am_i = ok (codes "bob");
  list = λ _. ok (mysql ∷ []);
  meta_terms = λ _. ok (codes "t/2" ∷ codes "a/1" ∷ []);
}

terms_used :
    Terms.run terms_store (λ _. codes "mysql") (λ _. true) []
    ≡ ok ((codes "t/2", codes "mysql" ∷ []) ∷ (codes "a/1", codes "mysql" ∷ []) ∷ [])
unfolding Terms.run validate_names Dict.lookup Dict.insert list_eq nat_eq
terms_used = refl

only_homepage :
    unset_fields (some ((codes "homepage", text (codes "x.org")) ∷ []))
    ≡ (codes "bugs-url", codes "is")
unfolding unset_fields Dict.lookup list_eq nat_eq
only_homepage = refl
