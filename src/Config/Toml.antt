-- ===== src/Config/Toml.antt =====
-- The tables that `tomllib` gives to the parser of relayinner_display/config.py, as far as it looks
-- into their values.
use relay_inner_display_scri.Base.{
  String, Bool, true, false, ℤ, Option, none, some, List, [], ◌∷◌, if◌then◌else◌, ◌==◌, one_of,
}

mutual
  -- `other_value` is a float, an array, a date or a time.
  pub data Value : Type 0 where
    text_value : String → Value
    integer : ℤ → Value
    boolean : Bool → Value
    table : Table → Value
    other_value : Value

  -- the entries in their order, each key once
  pub data Table : Type 0 where
    no_entries : Table
    entry : String → Value → Table → Table

-- `table.get(key)`
abbrev pub get : Table → String → Option Value
get no_entries key = none
get (entry k v rest) key = let later = get rest key in if k == key then some v else later

-- `key in table`
abbrev pub has_key : Table → String → Bool
has_key no_entries key = false
has_key (entry k v rest) key = let later = has_key rest key in if k == key then true else later

-- `bool(table)`
abbrev pub has_entries : Table → Bool
has_entries no_entries = false
has_entries (entry _ _ _) = true

-- `set(table) - allowed`, in the order of the table
abbrev pub other_keys : Table → List String → List String
other_keys no_entries allowed = []
other_keys (entry k v rest) allowed =
    let later = other_keys rest allowed in if one_of k allowed then later else k ∷ later
