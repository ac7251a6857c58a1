-- ===== src/Metadata/Json.antt =====
-- The values that encoding/json decodes into an interface, and the assertions of their types.
use charmstore_client.Base.{ℤ, Bool, Option, none, some, List, [], ◌∷◌, Str}
use charmstore_client.Base.Dict.{Dict}

mutual
  pub data Json : Type 0 where
    null : Json
    boolean : Bool → Json
    -- a number that has no fraction
    number : ℤ → Json
    text : Str → Json
    array : Items → Json
    object : Members → Json

  pub data Items : Type 0 where
    no_items : Items
    item : Json → Items → Items

  pub data Members : Type 0 where
    no_members : Members
    member : Str → Json → Members → Members

unfoldable pub items : Items → List Json
items no_items = []
items (item x rest) = x ∷ items rest

unfoldable pub members : Members → Dict Str Json
members no_members = []
members (member name x rest) = (name, x) ∷ members rest

-- v, ok := x.(map[string]interface{}), and the others
abbrev pub as_object : Json → Option (Dict Str Json)
as_object (object m) = some (members m)
as_object _ = none

abbrev pub as_array : Json → Option (List Json)
as_array (array l) = some (items l)
as_array _ = none

abbrev pub as_text : Json → Option Str
as_text (text s) = some s
as_text _ = none

abbrev pub as_bool : Json → Option Bool
as_bool (boolean b) = some b
as_bool _ = none

abbrev pub as_number : Json → Option ℤ
as_number (number n) = some n
as_number _ = none
