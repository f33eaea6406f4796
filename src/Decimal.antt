-- ===== src/Decimal.antt =====
-- `int(text)` of Python, for the texts that the program converts.
pub mod Prints
use Prim.Native.Char.{Char, code}
use relay_inner_display_scri.Base.{
  ℕ, ◌+◌, ◌*◌, ℤ, pos, negate_ℕ, String, Bool, true, false, ◌&&◌, Option, none, some, List, [], ◌∷◌,
  ltb, eqb, if◌then◌else◌, strip, length,
}

-- the longest text that `int` converts, in digits
abbrev pub max_int_digits : ℕ
max_int_digits = 4300

unfoldable pub value_of_digits : ℕ → List ℕ → ℕ
value_of_digits acc [] = acc
value_of_digits acc (d ∷ ds) = value_of_digits (acc * 10 + d) ds

abbrev pub prepend : ℕ → Option (List ℕ) → Option (List ℕ)
prepend d none = none
prepend d (some ds) = some (d ∷ ds)

abbrev negated : ℤ → ℤ
negated (pos n) = negate_ℕ n
negated (ℤ.negsuc n) = pos (n + 1)

-- The value of a decimal digit of any script is a parameter.
module _ (decimal_value : Char → Option ℕ) where
  -- digits with single underscores between them; the flag tells whether a digit stands before
  unfoldable pub digits_of : Bool → String → Option (List ℕ)
  digits_of after_digit String.[] = if after_digit then some [] else none
  digits_of after_digit (String.◌∷◌ c s) =
      let later = digits_of true s in
      let after_underscore = digits_of false s in
      elim (decimal_value c) [
        | none ↦ if after_digit && eqb (code c) b'_' then after_underscore else none
        | some d ↦ prepend d later
      ]

  abbrev pub value_in : Option (List ℕ) → Option ℕ
  value_in none = none
  value_in (some ds) = if ltb max_int_digits (length ds) then none else some (value_of_digits 0 ds)

  abbrev pub natural_in : String → Option ℕ
  natural_in s = value_in (digits_of false s)

  abbrev pub positive : Option ℕ → Option ℤ
  positive none = none
  positive (some n) = some (pos n)

  abbrev pub negative : Option ℕ → Option ℤ
  negative none = none
  negative (some n) = some (negate_ℕ n)

  -- the sign and the digits
  abbrev pub signed : String → Option ℤ
  signed String.[] = none
  signed (String.◌∷◌ c s) =
      if eqb (code c) b'-'
      then negative (natural_in s)
      else if eqb (code c) b'+'
      then positive (natural_in s)
      else positive (natural_in (String.◌∷◌ c s))

  -- `int(text)`, `none` for a ValueError
  unfoldable pub parse_int : String → Option ℤ
  unfolding digits_of value_of_digits
  parse_int text = signed (strip text)
