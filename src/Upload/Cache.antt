-- ===== src/Upload/Cache.antt =====
-- UploadIdCache of cmd/charm/charmcmd/uploadidcache.go. Times are nanoseconds. Log messages are left
-- out.
pub mod Spec
pub mod Meets
pub mod Refines
pub mod Entries
pub mod Laws
pub mod Expiry
use charmstore_client.Base.{
  ℕ, ◌+◌, minus_one, Bool, not, ◌&&◌, ◌||◌, true, false, List, [], ◌∷◌, ◌++◌, Str, codes, ltb,
  if◌then◌else◌, Result, ok, err, Error, Reply, masked, notef, mask, has_suffix, is_not_exist,
  cache_entry_not_found, is_cache_entry_not_found,
}
use charmstore_client.Charm.{Url}
use charmstore_client.Upload.Files.{FileInfo, Files}

pub record UploadIdCache : Type 0 where
  pub dir : Str
  pub expiry_duration : ℕ

-- UploadIdCacheEntry
pub record Entry : Type 0 where
  pub charm_url : Url
  pub resource_name : Str
  pub resource_hash : Str
  pub size : ℕ
  pub created_date : ℕ
  pub upload_id : Str

-- The functions of other packages on values: JSON, SHA-256, the verb %x, filepath.Join, and the
-- method String of a URL.
pub record Packages : Type 0 where
  pub marshal : Entry → Result Error Str
  pub unmarshal : Str → Result Error Entry
  pub sha256 : Str → Str
  pub hex : Str → Str
  pub join_path : Str → Str → Str
  pub id_string : Url → Str

-- entry.CreatedDate.Before(time.Now().Add(-c.expiryDuration))
abbrev pub is_expired : UploadIdCache → ℕ → Entry → Bool
is_expired c now entry = ltb (entry.created_date + c.expiry_duration) now

-- The regular files whose name ends in ".up".
abbrev pub is_entry_file : FileInfo → Bool
is_entry_file info = info.is_regular && has_suffix info.name (codes ".up")

module _ (F : Files) (P : Packages) (c : UploadIdCache) where
  -- What is hashed for the name of a file.
  abbrev pub key_text : Url → Str → Str → Str
  key_text curl resource_name resource_hash =
      P.id_string (record curl { revision = minus_one })
      ++ b'\n' ∷ resource_name
      ++ b'\n' ∷ resource_hash

  unfoldable pub filename : Url → Str → Str → Str
  filename curl resource_name resource_hash =
      P.join_path c.dir
        (P.hex (P.sha256 (key_text curl resource_name resource_hash)) ++ codes ".up")

  -- readEntry behind the removal of a file that is corrupt or out of date
  abbrev pub after_remove : Reply × F.State → Result Error Entry × F.State
  after_remove (ok _, s) = (err cache_entry_not_found, s)
  after_remove (err e, s) =
      if is_not_exist e
      then (err cache_entry_not_found, s)
      else (err (notef e "cannot remove upload ID cache entry" []), s)

  -- readEntry behind json.Unmarshal
  abbrev pub decoded : Str → Result Error Entry → F.State → Result Error Entry × F.State
  decoded path (err _) s = after_remove (F.remove_file path s)
  decoded path (ok entry) s =
      if is_expired c (F.now s) entry then after_remove (F.remove_file path s) else (ok entry, s)

  -- readEntry behind ioutil.ReadFile
  abbrev pub read : Str → Result Error Str → F.State → Result Error Entry × F.State
  read path (ok bytes) s = decoded path (P.unmarshal bytes) s
  read path (err e) s =
      if is_not_exist e then (err cache_entry_not_found, s) else (err (masked e), s)

  unfoldable pub read_entry : Str → F.State → Result Error Entry × F.State
  read_entry path s = read path (F.read_file path s) s

  unfoldable pub lookup : Url → Str → Str → F.State → Result Error Entry × F.State
  unfolding read_entry filename
  lookup curl resource_name content_hash = read_entry (filename curl resource_name content_hash)

  abbrev pub new_entry : Str → Url → Str → Str → ℕ → Entry
  new_entry upload_id curl resource_name resource_hash now = record {
    charm_url = curl;
    resource_name = resource_name;
    resource_hash = P.hex resource_hash;
    size = 0;
    created_date = now;
    upload_id = upload_id;
  }

  abbrev pub masked_reply : Reply × F.State → Reply × F.State
  masked_reply (r, s) = (mask r, s)

  -- Update behind json.Marshal
  abbrev pub marshalled : Str → Result Error Str → F.State → Reply × F.State
  marshalled path (err e) s = (err (masked e), s)
  marshalled path (ok bytes) s = masked_reply (F.write_file path bytes s)

  -- Update behind os.MkdirAll
  abbrev pub with_dir : Str → Url → Str → Str → Reply × F.State → Reply × F.State
  with_dir upload_id curl resource_name resource_hash (err e, s) =
      (err (notef e "cannot create uploadId cache entry" []), s)
  with_dir upload_id curl resource_name resource_hash (ok _, s) =
      marshalled (filename curl resource_name resource_hash)
        (P.marshal (new_entry upload_id curl resource_name resource_hash (F.now s))) s

  unfoldable pub update : Str → Url → Str → Str → F.State → Reply × F.State
  unfolding filename
  update upload_id curl resource_name resource_hash s =
      with_dir upload_id curl resource_name resource_hash (F.make_dirs c.dir s)

  -- An entry that is not there is as good as removed.
  abbrev pub removed_reply : Reply × F.State → Reply × F.State
  removed_reply (ok _, s) = (ok tt, s)
  removed_reply (err e, s) = if is_not_exist e then (ok tt, s) else (err (masked e), s)

  unfoldable pub remove : Url → Str → Str → F.State → Reply × F.State
  unfolding filename
  remove curl resource_name resource_hash s =
      removed_reply (F.remove_file (filename curl resource_name resource_hash) s)

  abbrev pub entry_path : FileInfo → Str
  entry_path info = P.join_path c.dir info.name

  -- One round of the loop of RemoveExpiredEntries, with the rest of the loop.
  abbrev pub swept : Result Error Entry × F.State → (F.State → Reply × F.State) → Reply × F.State
  swept (ok _, s) rest = rest s
  swept (err e, s) rest = if is_cache_entry_not_found e then rest s else (err (masked e), s)

  unfoldable pub sweep : List FileInfo → F.State → Reply × F.State
  unfolding read_entry
  sweep [] s = (ok tt, s)
  sweep (info ∷ infos) s = elim (is_entry_file info) [
    | true ↦ swept (read_entry (entry_path info) s) (sweep infos)
    | false ↦ sweep infos s
  ]

  -- RemoveExpiredEntries behind ioutil.ReadDir
  abbrev pub listed : Result Error (List FileInfo) → F.State → Reply × F.State
  listed (ok infos) s = sweep infos s
  listed (err e) s = if is_not_exist e then (ok tt, s) else (err (masked e), s)

  unfoldable pub remove_expired_entries : F.State → Reply × F.State
  unfolding sweep
  remove_expired_entries s = listed (F.read_dir c.dir s) s
