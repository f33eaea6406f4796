-- ===== src/Moonlight/Settings.antt =====
-- The settings files of Moonlight: the host records and the root settings.
use Prim.Native.Char.{code}
use relay_inner_display_scri.Base.{
  ℕ, String, Bool, true, false, not, ◌&&◌, ◌||◌, Option, none, some, List, [], ◌∷◌, eqb, ltb, leb,
  if◌then◌else◌, is_empty, strip, ◌==◌, any_of,
}
use relay_inner_display_scri.Decimal.{value_of_digits}
use relay_inner_display_scri.Moonlight.{Library, is_bracketed, inner}
use relay_inner_display_scri.Input.{split_assignment}

-- `record.get(field, "")` and the assignment of a field
abbrev pub Record : Type 0
Record = List (String × String)

abbrev pub field_of : Record → String → String
field_of [] key = ""
field_of ((k, v) ∷ rest) key = let later = field_of rest key in if k == key then v else later

abbrev pub set_field : String → String → Record → Record
set_field key value [] = (key, value) ∷ []
set_field key value ((k, v) ∷ rest) =
    let later = set_field key value rest in if k == key then (k, value) ∷ rest else (k, v) ∷ later

-- the records of a section, each index once, in ascending order
abbrev pub Records : Type 0
Records = List (ℕ × Record)

-- `records.setdefault(index, {})[field] = value`, kept in the order of the indexes
unfoldable pub set_record : ℕ → String → String → Records → Records
set_record index key value [] = (index, (key, value) ∷ []) ∷ []
set_record index key value ((i, r) ∷ rest) =
    let later = set_record index key value rest in
    if eqb index i
    then (i, set_field key value r) ∷ rest
    else if ltb index i
    then (index, (key, value) ∷ []) ∷ (i, r) ∷ rest
    else (i, r) ∷ later

-- the records of `[hostsbackup]` and of `[hosts]`
pub record Sections : Type 0 where
  pub hostsbackup : Records
  pub hosts : Records

abbrev starts_comment : String → Bool
starts_comment String.[] = false
starts_comment (String.◌∷◌ c s) = eqb (code c) b'#' || eqb (code c) b';'

-- a line of which nothing is read
abbrev pub is_skipped : String → Bool
is_skipped line = is_empty line || starts_comment line

module _ (lib : Library) where
  -- `\d+` and what follows; the run may be empty
  unfoldable pub index_run : String → List ℕ × String
  index_run String.[] = ([], "")
  index_run (String.◌∷◌ c s) =
      let (digits, rest) = index_run s in
      elim (lib.decimal_value c) [ none ↦ ([], String.◌∷◌ c s) | some d ↦ (d ∷ digits, rest) ]

  abbrev is_field_code : ℕ → Bool
  is_field_code n =
      (leb b'A' n && leb n b'Z')
      || ((leb b'a' n && leb n b'z') || ((leb b'0' n && leb n b'9') || eqb n b'_'))

  abbrev all_field : String → Bool
  all_field String.[] = true
  all_field (String.◌∷◌ c s) = let rest = all_field s in is_field_code (code c) && rest

  -- `[/\\]` and the field
  abbrev field_after : List ℕ → String → Option (List ℕ × String)
  field_after digits String.[] = none
  field_after [] s = none
  field_after (d ∷ ds) (String.◌∷◌ c s) =
      if (eqb (code c) b'/' || eqb (code c) b'\\') && (not (is_empty s) && all_field s)
      then some (d ∷ ds, s)
      else none

  -- `MOONLIGHT_SETTINGS_KEY_RE.fullmatch`
  unfoldable pub match_key : String → Option (List ℕ × String)
  unfolding index_run
  match_key key = let (digits, rest) = index_run key in field_after digits rest

  abbrev pub store_record : String → ℕ → String → String → Sections → Sections
  store_record section index key value s =
      if section == "hostsbackup"
      then record s { hostsbackup = set_record index key value s.hostsbackup }
      else if section == "hosts"
      then record s { hosts = set_record index key value s.hosts }
      else s

  abbrev store_matched : String → String → Option (List ℕ × String) → Sections → Sections
  store_matched section value none s = s
  store_matched section value (some (digits, key)) s =
      store_record section (value_of_digits 0 digits) (lib.casefold key) (strip value) s

  abbrev store_assignment : String → Option (String × String) → Sections → Sections
  store_assignment section none s = s
  store_assignment section (some (key, value)) s =
      store_matched section value (match_key (strip key)) s

  -- the loop over the lines of one file; the section is folded, and empty before the first one
  unfoldable pub read_records : String → List String → Sections → Sections
  unfolding match_key set_record
  read_records section [] s = s
  read_records section (raw ∷ lines) s =
      let line = strip raw in
      let skipped = read_records section lines s in
      let entered = read_records (lib.casefold (strip (inner line))) lines s in
      let stored =
        read_records section lines (store_assignment section (split_assignment line) s) in
      if is_skipped line then skipped else if is_bracketed line then entered else stored

  -- the loop over the files, each a list of lines
  unfoldable pub read_files : List (List String) → Sections → Sections
  unfolding read_records
  read_files [] s = s
  read_files (lines ∷ files) s = read_files files (read_records "" lines s)

  abbrev values : Records → List Record
  values [] = []
  values ((_, r) ∷ rest) = r ∷ values rest

  abbrev first_filled : Records → Records → List Record
  first_filled [] hosts = values hosts
  first_filled (r ∷ rs) hosts = values (r ∷ rs)

  -- the readable files in the order of their paths
  unfoldable pub host_records : List (List String) → List Record
  unfolding read_files
  host_records files =
      let s = read_files files (record { hostsbackup = []; hosts = [] }) in
      first_filled s.hostsbackup s.hosts

  abbrev is_pinned : Record → Bool
  is_pinned r = not (is_empty (strip (field_of r "srvcert")))

  unfoldable pub contains_pinned_host_record : List (List String) → Bool
  unfolding host_records
  contains_pinned_host_record files = any_of is_pinned (host_records files)

  abbrev root_assignment : Option (String × String) → Record → Record
  root_assignment none settings = settings
  root_assignment (some (key, value)) settings =
      set_field (lib.casefold (strip key)) (strip value) settings

  -- the loop over the lines of one file; the flag tells whether the section counts
  unfoldable pub read_root : Bool → List String → Record → Record
  read_root counts [] settings = settings
  read_root counts (raw ∷ lines) settings =
      let line = strip raw in
      let skipped = read_root counts lines settings in
      let entered = read_root (lib.casefold (strip (inner line)) == "general") lines settings in
      let stored = read_root counts lines (root_assignment (split_assignment line) settings) in
      if is_skipped line
      then skipped
      else if is_bracketed line
      then entered
      else if counts
      then stored
      else skipped

  unfoldable pub root_settings : List (List String) → Record → Record
  unfolding read_root
  root_settings [] settings = settings
  root_settings (lines ∷ files) settings = root_settings files (read_root true lines settings)
