-- ===== src/Supervisor/Outputs.antt =====
-- The outputs that the session reads from the list of `wlr-randr`.
use Prim.Native.Char.{Char, code}
use relay_inner_display_scri.Base.{
  ◌≡◌, refl, Bool, true, not, ◌&&◌, ◌||◌, List, [], ◌∷◌, String, is_empty, one_of, arith, any_of,
  eqb,
}
use relay_inner_display_scri.Decimal.Prints.{all_chars}
use relay_inner_display_scri.Supervisor.State.{Host}
use relay_inner_display_scri.Supervisor.Power.{
  first_word, is_output_name, wlr_randr_names, parse_wlr_randr_outputs,
}

-- the characters of "-._"
abbrev pub is_mark : Char → Bool
is_mark c = any_of (eqb (code c)) (45 ∷ 46 ∷ 95 ∷ [])

module _ (w : Host) where
  -- no character but letters, digits and marks
  abbrev pub is_plain_name : String → Bool
  is_plain_name name = all_chars (λ (c : Char). w.isalnum c || is_mark c) name

  -- every name is plain and not empty, and stands in the list once and not in `seen`
  pub are_outputs : List String → List String → Bool
  are_outputs seen [] = true
  are_outputs seen (name ∷ names) =
      let rest = are_outputs (name ∷ seen) names in
      not (is_empty name) && (is_plain_name name && (not (one_of name seen) && rest))

  output_name_is_plain : (name : String) → is_output_name w name ≡ is_plain_name name
  unfolding is_output_name all_chars
  output_name_is_plain String.[] = refl
  output_name_is_plain (String.◌∷◌ c name) = ground (arith, output_name_is_plain name)

  names_are_outputs :
      (seen lines : List String) → are_outputs seen (wlr_randr_names w seen lines) ≡ true
  unfolding are_outputs wlr_randr_names
  names_are_outputs seen [] = refl
  names_are_outputs seen (line ∷ lines) = ground (
    arith,
    names_are_outputs seen lines,
    names_are_outputs (first_word line ∷ seen) lines,
    output_name_is_plain (first_word line),
  )

-- Whatever the display helper prints, the outputs read from it are names of alphanumeric
-- characters, `-`, `.` and `_` only, none is empty, and none stands twice.
pub are_outputs-parse :
    (w : Host) (output : String) → are_outputs w [] (parse_wlr_randr_outputs w output) ≡ true
unfolding parse_wlr_randr_outputs
are_outputs-parse w output = names_are_outputs w [] (w.splitlines output)
