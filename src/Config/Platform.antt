-- ===== src/Config/Platform.antt =====
-- What the parser of the configuration takes from Python's library beside the names of `Python`.
use Prim.Native.Char.{Char}
use relay_inner_display_scri.Base.{ℕ, String, Bool, Option}
use relay_inner_display_scri.Config.{Python}

pub record Platform : Type 0 where
  pub python : Python
  -- `str(Path(text))`, `Path(text).is_absolute()` and `Path(text).name`
  pub path : String → String
  pub is_absolute : String → Bool
  pub file_name : String → String
  -- `directory / name`
  pub joined : String → String → String
  -- whether `child.relative_to(root)` returns, the root first
  pub is_below : String → String → Bool
  -- the value of a decimal digit (`\d`, which is any of Unicode's), `none` for other characters
  pub decimal_value : Char → Option ℕ
