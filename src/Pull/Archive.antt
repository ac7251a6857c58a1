-- ===== src/Pull/Archive.antt =====
-- pullCommand of cmd/charm/charmcmd/pull.go.
pub mod Checked
pub mod Verified
use charmstore_client.Base.{
  minus_one, Bool, false, Option, none, some, List, [], ◌∷◌, Str, codes, Result, ok, err, Error,
  Reply, new, newf, notef, note, is_not_exist, if◌then◌else◌, ◌==◌, int_eq, list_eq, nat_eq, ◌>>=◌,
}
use charmstore_client.Charm.{Url, parse_url}
use charmstore_client.Pull.Machine.{Machine}

-- The fields that Init sets, and the flag --channel.
pub record PullCommand : Type 0 where
  pub id : Url
  pub dest_dir : Str
  pub channel : Str

module _ (library_parse : Str → Result Error Url) where
  abbrev parse_id : Str → Result Error Url
  parse_id arg = note "invalid charm or bundle id %q" (arg ∷ []) (parse_url library_parse arg)

  unfoldable pub init : List Str → PullCommand → Result Error PullCommand
  init [] c = err (new "no charm or bundle id specified")
  init (arg ∷ []) c = do id ← parse_id arg; ok (record c { id = id; dest_dir = id.name })
  init (arg ∷ dir ∷ []) c = do id ← parse_id arg; ok (record c { id = id; dest_dir = dir })
  init (_ ∷ _ ∷ _ ∷ _) c = err (new "too many arguments")

-- The channel is for an id without a revision.
abbrev pub channel_for : Url → Str → Str
channel_for id channel = if id.revision == minus_one then channel else []

-- os.IsNotExist of the error of os.Stat
abbrev pub is_free : Reply → Bool
is_free (ok _) = false
is_free (err e) = is_not_exist e

-- `id_string` is the method String of the id.
module _ (M : Machine) (id_string : Url → Str) (c : PullCommand) where
  abbrev pub dest : Str
  dest = M.abs_path c.dest_dir

  -- Run behind ExpandTo
  abbrev pub announced : Url → Reply × M.State → Reply × M.State
  announced id (ok _, s) = (ok tt, M.print_id id s)
  announced id (err e, s) = (err (notef e "cannot expand %s archive" (id_string c.id ∷ [])), s)

  abbrev pub expand : Url → Result Error M.Entity → M.State → Reply × M.State
  expand id (err e) s = (err (notef e "cannot read %s archive" (id_string c.id ∷ [])), s)
  expand id (ok entity) s = announced id (M.expand_to entity dest s)

  abbrev pub read_archive : Url → Str → M.State → Result Error M.Entity
  read_archive id path s =
      if id.series == codes "bundle" then M.read_bundle path s else M.read_charm path s

  -- Run behind io.Copy
  unfoldable pub check_archive : M.Reader → Url → Str → Result Error Str × M.State → Reply × M.State
  check_archive r id path (err e, s) = (err (notef e "cannot read archive" []), s)
  check_archive r id path (ok d, s) =
      if M.hex_sha384 d == M.expect_hash r
      then expand id (read_archive id path s) s
      else (err (newf "hash mismatch; network corruption?" []), s)

  -- The deferred removal of the temporary file, and its closing.
  abbrev pub discard : Str → Reply × M.State → Reply × M.State
  discard path (r, s) = (r, M.close_file path (M.remove_file path s).1)

  -- Run behind ioutil.TempFile
  unfoldable pub download : M.Reader → Url → Result Error Str × M.State → Reply × M.State
  unfolding check_archive
  download r id (err e, s) = (err (notef e "cannot make temporary file" []), s)
  download r id (ok path, s) = discard path (check_archive r id path (M.copy r path s))

  abbrev pub with_reader_closed : M.Reader → Reply × M.State → Reply × M.State
  with_reader_closed r (x, s) = (x, M.close_reader r s)

  abbrev pub with_archive : Result Error (M.Reader × Url) → M.State → Reply × M.State
  with_archive (err e) s = (err e, s)
  with_archive (ok (r, id)) s = with_reader_closed r (download r id (M.temp_file s))

  abbrev pub with_jar_saved : Reply × M.State → Reply × M.State
  with_jar_saved (x, s) = (x, M.save_jar s)

  abbrev pub with_client : Reply × M.State → Reply × M.State
  with_client (err e, s) = (err (notef e "cannot create charm store client" []), s)
  with_client (ok _, s) =
      with_jar_saved (with_archive (M.get_archive (channel_for c.id c.channel) c.id s) s)

  unfoldable pub run : M.State → Reply × M.State
  unfolding download
  run s =
      if is_free (M.stat dest s)
      then with_client (M.new_client (channel_for c.id c.channel) s)
      else (err (newf "directory %q already exists" (dest ∷ [])), s)
