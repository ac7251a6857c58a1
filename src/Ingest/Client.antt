-- ===== src/Ingest/Client.antt =====
-- csClient of ingest.go, and the state of an ingester that talks to two of them.
pub use charmstore_client.Base.{Reply}
use charmstore_client.Base.{ℕ, ℤ, List, ◌∷◌, [], ◌++◌, Str, Option, Result, Error}
use charmstore_client.Base.Dict.{Dict}
use charmstore_client.Charm.{Url}
use charmstore_client.Ingest.Entity.{EntityInfo}

pub record Permission : Type 0 where
  pub read : List Str
  pub write : List Str

-- What putArchive is given. The content is what the reader yields, or the error of opening it.
pub record Upload : Type 0 where
  pub content : Result Error Str
  pub hash : Str
  pub size : ℕ
  pub promulgated_revision : ℤ
  pub channels : List Str

-- A charm store as the ingester sees it, over an unknown state. A question does not change it.
pub record Client : Type 1 where
  pub State : Type 0
  pub entity_info : Str → Url → State → Result Error EntityInfo
  pub get_base_entity : Url → State → Result Error (Dict Str Permission)
  pub put_archive : Url → Upload → State → Reply × State
  -- A value of `none` stands for a nil entry, which removes the field.
  pub put_extra_info : Url → Dict Str (Option Str) → State → Reply × State
  pub set_perm : Url → Str → Permission → State → Reply × State
  pub publish : Url → List Str → Dict Str ℤ → State → Reply × State
  pub resource_info : Url → Str → ℤ → State → Result Error (Unit {0})
  pub put_resource : Url → Str → ℤ → Str → State → Reply × State

-- A reader: what it yields, and its answer behind that, the end or an error.
abbrev pub Reader : Type 0
Reader = Str × Result Error (Unit {0})

-- What the ingester reads from the source store: archives, and resources with their stated sizes.
pub record Source : Type 0 where
  pub entity_info : Str → Url → Result Error EntityInfo
  pub get_archive : Url → Result Error Str
  pub get_resource : Url → Str → ℤ → Result Error (Reader × ℕ)

-- The destination store and the errors so far.
pub record World (D : Client) : Type 0 where
  pub dest : D.State
  pub errors : List Error

module _ {D : Client} where
  -- ing.errorf
  abbrev pub errorf : Error → World D → World D
  errorf e w = record w { errors = w.errors ++ e ∷ [] }

  -- A request to the destination store.
  abbrev pub request : (D.State → Reply × D.State) → World D → Reply × World D
  request f w = let (r, s) = f w.dest in (r, record w { dest = s })
