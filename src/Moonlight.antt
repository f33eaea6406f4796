-- ===== src/Moonlight.antt =====
-- The workspace of Moonlight, from relayinner_display/daemon.py: what
-- the daemon reads from the settings files of Moonlight.
pub mod Settings
pub mod Escapes
pub mod Hosts
pub mod Probe
use Prim.Native.Char.{Char, code}
use relay_inner_display_scri.Base.{
  ℕ, ◌+◌, ◌*◌, ℤ, String, Bool, true, false, Option, none, some, List, [], ◌∷◌, eqb, if◌then◌else◌,
  is_empty, strip, ◌==◌,
}

-- What the workspace takes from Python's library.
pub record Library : Type 0 where
  pub casefold : String → String
  -- the value of a decimal digit, and of a hexadecimal one
  pub decimal_value : Char → Option ℕ
  -- `chr`
  pub chr : ℕ → Char

abbrev starts_with_code : ℕ → String → Bool
starts_with_code n String.[] = false
starts_with_code n (String.◌∷◌ c s) = eqb (code c) n

abbrev pub ends_with_code : ℕ → String → Bool
ends_with_code n String.[] = false
ends_with_code n (String.◌∷◌ c s) =
    let rest = ends_with_code n s in if is_empty s then eqb (code c) n else rest

-- `s[:-1]`
unfoldable pub without_last : String → String
without_last String.[] = ""
without_last (String.◌∷◌ c s) =
    let rest = without_last s in if is_empty s then "" else String.◌∷◌ c rest

abbrev pub without_first : String → String
without_first String.[] = ""
without_first (String.◌∷◌ c s) = s

-- `s[1:-1]`
unfoldable pub inner : String → String
unfolding without_last
inner s = without_last (without_first s)

-- `s.startswith("[") and s.endswith("]")`
abbrev pub is_bracketed : String → Bool
is_bracketed s = if starts_with_code b'[' s then ends_with_code b']' s else false

unfoldable pub normalize_host_value : Library → String → String
unfolding inner
normalize_host_value lib value =
    let normalized = strip value in
    lib.casefold (if is_bracketed normalized then inner normalized else normalized)
