-- ===== src/Base/Errors.antt =====
-- The package errgo: an error is its message, with its cause as far as the program asks for it.
use Prim.Native.String.{String}
use mathlib.Core.Bool.{Bool, true, false}
use mathlib.Core.List.{List, []}
use charmstore_client.Base.Text.{Str}
use charmstore_client.Base.Tests.{Result, ok, err}

pub data Error : Type 0 where
  -- errgo.Newf(format, arguments)
  newf : String → List Str → Error
  -- errgo.Notef(err, format, arguments)
  notef : Error → String → List Str → Error
  -- errgo.Mask(err)
  masked : Error → Error
  -- params.ErrNotFound, and errNotFound of the ingester, which takes its place there
  not_found : Error
  -- params.ErrMetadataNotFound
  metadata_not_found : Error
  -- an error of the file system of which os.IsNotExist holds
  not_exist : Error
  -- errCacheEntryNotFound of uploadidcache.go
  cache_entry_not_found : Error
  -- csclient.ErrUploadNotFound
  upload_not_found : Error
  -- any other error of the code that the program calls
  remote : Str → Error

-- A function that returns an error only.
abbrev pub Reply : Type 0
Reply = Result Error (Unit {0})

-- errgo.New(message)
abbrev pub new : String → Error
new message = newf message []

-- errgo.Cause(err) == ErrNotFound. `Mask` and `Notef` hide the cause of what they wrap.
abbrev pub is_not_found : Error → Bool
is_not_found not_found = true
is_not_found _ = false

-- os.IsNotExist(err)
abbrev pub is_not_exist : Error → Bool
is_not_exist not_exist = true
is_not_exist _ = false

-- errgo.Cause(err) == errCacheEntryNotFound
abbrev pub is_cache_entry_not_found : Error → Bool
is_cache_entry_not_found cache_entry_not_found = true
is_cache_entry_not_found _ = false

-- errgo.Cause(err) == csclient.ErrUploadNotFound
abbrev pub is_upload_not_found : Error → Bool
is_upload_not_found upload_not_found = true
is_upload_not_found _ = false

module _ {ℓ} {A : Type ℓ} where
  -- if err != nil { return errgo.Notef(err, format, arguments) }
  abbrev pub note : String → List Str → Result Error A → Result Error A
  note format arguments (ok a) = ok a
  note format arguments (err e) = err (notef e format arguments)

  -- if err != nil { return errgo.Mask(err) }
  abbrev pub mask : Result Error A → Result Error A
  mask (ok a) = ok a
  mask (err e) = err (masked e)
