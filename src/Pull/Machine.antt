-- ===== src/Pull/Machine.antt =====
-- What cmd/charm/charmcmd/pull.go and pullresource.go use of the file system, of the library of charms
-- and of the client of the store. It is not part of the program: a record of operations, with their
-- documented behaviour as laws.
use charmstore_client.Base.{
  ℤ, ◌≡◌, ◌≢◌, Bool, false, true, Option, some, none, [], Str, Result, ok, err, Error, Reply, ◌==◌,
  list_eq, nat_eq,
}
use charmstore_client.Base.Dict.{Dict}
use charmstore_client.Charm.{Url}

-- resource.Type
pub data ResourceType : Type 0 where
  container_image : ResourceType
  file_type : ResourceType
  other_type : Str → ResourceType

pub record Machine : Type 1 where
  pub State : Type 0
  -- a charm or a bundle that was read from an archive
  pub Entity : Type 0
  -- the body of an answer, with its hash as the store gives it
  pub Reader : Type 0
  pub expect_hash : Reader → Str
  -- fmt.Sprintf("%x", h.Sum(nil)) for the SHA-384 of what was written to h
  pub hex_sha384 : Str → Str
  pub abs_path : Str → Str
  pub stat : Str → State → Reply
  pub temp_file : State → Result Error Str × State
  pub create_file : Str → State → Reply × State
  -- io.Copy to an open file; what was copied
  pub copy : Reader → Str → State → Result Error Str × State
  pub close_file : Str → State → State
  pub close_reader : Reader → State → State
  pub remove_file : Str → State → Reply × State
  pub read_charm : Str → State → Result Error Entity
  pub read_bundle : Str → State → Result Error Entity
  pub expand_to : Entity → Str → State → Reply × State
  -- newCharmStoreClient with a channel; jar.Save
  pub new_client : Str → State → Reply × State
  pub save_jar : State → State
  pub get_archive : Str → Url → State → Result Error (Reader × Url)
  pub get_resource : Str → Url → Str → ℤ → State → Result Error Reader
  -- charmMetadata: the resolved id, and the types of the resources of the charm
  pub charm_metadata : Str → Url → State → Result Error (Url × Dict Str ResourceType)
  -- fmt.Fprintln(ctxt.Stdout, id)
  pub print_id : Url → State → State

-- What stands at a path.
pub data Item (E : Type 0) : Type 0 where
  file : Str → Item E
  directory : E → Item E

module _ (M : Machine) where
  -- What one operation leaves: at the path `p` the item `o`, elsewhere what was there.
  abbrev pub Sets :
      (Str → M.State → Option (Item M.Entity))
      → Str
      → Option (Item M.Entity)
      → M.State
      → M.State
      → Type 0
  Sets item p o s s' = (item p s' ≡ o) × ((q : Str) → (q == p) ≡ false → item q s' ≡ item q s)

  abbrev pub Keeps : (Str → M.State → Option (Item M.Entity)) → M.State → M.State → Type 0
  Keeps item s s' = (q : Str) → item q s' ≡ item q s

  -- `item p s` is what stands at `p`; `within d p` says that `p` is `d` or a path below it.
  pub record IsDisk : Type 0 where
    pub item : Str → M.State → Option (Item M.Entity)
    pub within : Str → Str → Bool
    pub within_self : (d : Str) → within d d ≡ true
    pub temp_made :
        (p : Str) (s s' : M.State)
        → M.temp_file s ≡ (ok p, s')
        → (item p s ≡ none) × Sets item p (some (file [])) s s'
    pub temp_failed : (e : Error) (s s' : M.State) → M.temp_file s ≡ (err e, s') → Keeps item s s'
    pub created :
        (p : Str) (s s' : M.State)
        → M.create_file p s ≡ (ok tt, s')
        → Sets item p (some (file [])) s s'
    pub not_created :
        (p : Str) (e : Error) (s s' : M.State) → M.create_file p s ≡ (err e, s') → Keeps item s s'
    pub copied :
        (r : M.Reader) (p d : Str) (s s' : M.State)
        → item p s ≡ some (file [])
        → M.copy r p s ≡ (ok d, s')
        → Sets item p (some (file d)) s s'
    pub not_copied :
        (r : M.Reader) (p : Str) (e : Error) (s s' : M.State)
        → M.copy r p s ≡ (err e, s')
        → (q : Str) → (q == p) ≡ false
        → item q s' ≡ item q s
    pub file_closed : (p : Str) (s : M.State) → Keeps item s (M.close_file p s)
    pub reader_closed : (r : M.Reader) (s : M.State) → Keeps item s (M.close_reader r s)
    pub removed :
        (p : Str) (s s' : M.State) → M.remove_file p s ≡ (ok tt, s') → Sets item p none s s'
    pub not_removed :
        (p : Str) (e : Error) (s s' : M.State) → M.remove_file p s ≡ (err e, s') → Keeps item s s'
    -- No directory is made where a file is.
    pub expanded :
        (a : M.Entity) (d : Str) (s s' : M.State)
        → M.expand_to a d s ≡ (ok tt, s')
        → (item d s' ≡ some (directory a)) × ((b : Str) → item d s ≢ some (file b))
    pub below :
        (a : M.Entity) (d q : Str) (s : M.State)
        → within d q ≡ false
        → item q (M.expand_to a d s).1 ≡ item q s
    pub client_made : (channel : Str) (s : M.State) → Keeps item s (M.new_client channel s).1
    pub jar_saved : (s : M.State) → Keeps item s (M.save_jar s)
    pub printed : (id : Url) (s : M.State) → Keeps item s (M.print_id id s)
