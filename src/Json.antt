-- ===== src/Json.antt =====
-- The values that `json.loads` gives, as far as the program looks into them.
use relay_inner_display_scri.Base.{
  String, Bool, ℤ, Option, none, some, List, [], ◌∷◌, if◌then◌else◌, ◌==◌, one_of,
}

mutual
  -- `floating` tells whether the number is not zero.
  pub data Json : Type 0 where
    null : Json
    boolean : Bool → Json
    integer : ℤ → Json
    floating : Bool → Json
    string : String → Json
    array : Items → Json
    object : Fields → Json

  pub data Items : Type 0 where
    no_items : Items
    item : Json → Items → Items

  -- the members of an object in their order, each key once
  pub data Fields : Type 0 where
    no_fields : Fields
    field : String → Json → Fields → Fields

-- `payload.get(key)`, `none` where the key is missing
abbrev pub lookup : Fields → String → Option Json
lookup no_fields key = none
lookup (field k v rest) key = let later = lookup rest key in if k == key then some v else later

-- `set(payload) - allowed`, in the order of the members
abbrev pub other_fields : Fields → List String → List String
other_fields no_fields allowed = []
other_fields (field k v rest) allowed =
    let later = other_fields rest allowed in if one_of k allowed then later else k ∷ later
