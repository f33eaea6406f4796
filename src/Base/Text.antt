-- ===== src/Base/Text.antt =====
-- Membership of a text in a literal set, and decimal print of a number.
use Prim.Native.Nat.{ℕ, zero, suc, ◌+◌, ◌/◌, ◌%◌}
use Prim.Native.String.{String, ◌++◌, compare}
use Prim.Native.Nat.{Ordering}
use mathlib.Core.Bool.{Bool, true, false, ◌&&◌}
use Prim.Native.Char.{Char, code}
use mathlib.Core.List.{List, [], ◌∷◌}
use text.Mathlib.Text.{◌==◌}
use relay_inner_display_scri.Base.Tests.{ltb, eqb, any_of, if◌then◌else◌}

-- `s in {…}` for a set of texts
abbrev pub one_of : String → List String → Bool
one_of s [] = false
one_of s (t ∷ ts) = let rest = one_of s ts in if s == t then true else rest

-- texts concatenated, as an f-string does
abbrev pub concat : List String → String
concat [] = ""
concat (s ∷ ss) = s ++ concat ss

unfoldable pub digit_text : ℕ → List String → String
digit_text n [] = ""
digit_text zero (s ∷ ss) = s
digit_text (suc n) (s ∷ ss) = digit_text n ss

abbrev pub decimal_digits : List String
decimal_digits = "0" ∷ "1" ∷ "2" ∷ "3" ∷ "4" ∷ "5" ∷ "6" ∷ "7" ∷ "8" ∷ "9" ∷ []

-- the fuel is one more than the number, which has no more digits than that
unfoldable pub show_fuel : ℕ → ℕ → String
show_fuel zero n = ""
show_fuel (suc f) n =
    let last = digit_text (n % 10) decimal_digits in
    let front = show_fuel f (n / 10) in if ltb n 10 then last else front ++ last

-- `str(n)`
unfoldable pub show_ℕ : ℕ → String
unfolding show_fuel digit_text
show_ℕ n = show_fuel (n + 1) n

-- `str.isspace` of one character: Unicode's white space and the separators that Python adds.
is_space_code : ℕ → Bool
is_space_code n =
    any_of (λ (c : ℕ). eqb n c)
      (9 ∷ 10 ∷ 11 ∷ 12 ∷ 13 ∷ 28 ∷ 29 ∷ 30 ∷ 31 ∷ 32 ∷ 133 ∷ 160 ∷ 5760 ∷ 8192 ∷ 8193 ∷ 8194 ∷ 8195
        ∷ 8196 ∷ 8197 ∷ 8198 ∷ 8199 ∷ 8200 ∷ 8201 ∷ 8202 ∷ 8232 ∷ 8233 ∷ 8239 ∷ 8287 ∷ 12288 ∷ [])

unfoldable pub is_space : Char → Bool
unfolding is_space_code
is_space c = is_space_code (code c)

abbrev pub is_empty : String → Bool
is_empty String.[] = true
is_empty (String.◌∷◌ _ _) = false

unfoldable pub lstrip : String → String
lstrip String.[] = ""
lstrip (String.◌∷◌ c s) = let rest = lstrip s in if is_space c then rest else String.◌∷◌ c s

unfoldable pub rstrip : String → String
rstrip String.[] = ""
rstrip (String.◌∷◌ c s) =
    let rest = rstrip s in if is_empty rest && is_space c then "" else String.◌∷◌ c rest

-- `s.strip()`
unfoldable pub strip : String → String
unfolding is_space lstrip rstrip
strip s = rstrip (lstrip s)

-- `", ".join(keys)`
abbrev pub comma_joined : List String → String
comma_joined [] = ""
comma_joined (k ∷ []) = k
comma_joined (k ∷ (j ∷ ks)) = concat (k ∷ ", " ∷ comma_joined (j ∷ ks) ∷ [])

abbrev goes_first : String → String → Bool
goes_first k j = elim (compare k j) [ Ordering.gt ↦ false | _ ↦ true ]

abbrev insert_sorted : String → List String → List String
insert_sorted k [] = k ∷ []
insert_sorted k (j ∷ js) =
    let later = insert_sorted k js in if goes_first k j then k ∷ j ∷ js else j ∷ later

-- `sorted(keys)`
abbrev pub sorted : List String → List String
sorted [] = []
sorted (k ∷ ks) = insert_sorted k (sorted ks)
