-- ===== src/Moonlight/Escapes/Doubled.antt =====
-- Texts whose backslashes are doubled.
use Prim.Native.Char.{Char}
use relay_inner_display_scri.Base.{
  ◌≡◌, refl, ◌∙◌, ap, String, Bool, true, false, if◌then◌else◌, none, arith,
}
use relay_inner_display_scri.Moonlight.{Library}
use relay_inner_display_scri.Moonlight.Escapes.{
  decode_chars, is_backslash, simple_escape, pair_after,
}

unfoldable pub double_backslashes : String → String
double_backslashes String.[] = ""
double_backslashes (String.◌∷◌ c s) =
    let rest = double_backslashes s in
    if is_backslash c then String.◌∷◌ c (String.◌∷◌ c rest) else String.◌∷◌ c rest

module _ (lib : Library) where
  decode-plain :
      (c : Char) (s : String)
      → is_backslash c ≡ false
      → decode_chars lib (String.◌∷◌ c s) ≡ String.◌∷◌ c (decode_chars lib s)
  unfolding decode_chars
  decode-plain c String.[] plain = refl
  decode-plain c (String.◌∷◌ e String.[]) plain = rw (decode_chars, plain) refl
  decode-plain c (String.◌∷◌ e (String.◌∷◌ h String.[])) plain = rw (decode_chars, plain) refl
  decode-plain c (String.◌∷◌ e (String.◌∷◌ h (String.◌∷◌ l s))) plain =
      rw (decode_chars, plain) refl

  escape_of_backslash : (c : Char) → is_backslash c ≡ true → simple_escape c ≡ c
  escape_of_backslash c b = ground arith

  no_pair : (c : Char) (s : String) → is_backslash c ≡ true → pair_after c s ≡ none
  no_pair c String.[] b = refl
  no_pair c (String.◌∷◌ h String.[]) b = refl
  no_pair c (String.◌∷◌ h (String.◌∷◌ l s)) b = ground arith

  decode-double :
      (c : Char) (s : String)
      → is_backslash c ≡ true
      → decode_chars lib (String.◌∷◌ c (String.◌∷◌ c s)) ≡ String.◌∷◌ c (decode_chars lib s)
  unfolding decode_chars
  decode-double c String.[] b = rw (decode_chars, b, escape_of_backslash c b) refl
  decode-double c (String.◌∷◌ h String.[]) b = rw (decode_chars, b, escape_of_backslash c b) refl
  decode-double c (String.◌∷◌ h (String.◌∷◌ l s)) b =
      rw (decode_chars, b, no_pair c (String.◌∷◌ h (String.◌∷◌ l s)) b, escape_of_backslash c b)
        refl

  decode-if :
      (b : Bool) (c : Char) (s : String)
      → is_backslash c ≡ b
      → decode_chars lib (if b then String.◌∷◌ c (String.◌∷◌ c s) else String.◌∷◌ c s)
        ≡ String.◌∷◌ c (decode_chars lib s)
  decode-if true c s b = decode-double c s b
  decode-if false c s b = decode-plain c s b

-- A text whose backslashes are doubled is decoded to the text itself, whatever letters follow
-- its backslashes.
pub decode_chars-double : (lib : Library) (s : String) → decode_chars lib (double_backslashes s) ≡ s
unfolding double_backslashes decode_chars
decode_chars-double lib String.[] = refl
decode_chars-double lib (String.◌∷◌ c s) =
    decode-if lib (is_backslash c) c (double_backslashes s) refl
    ∙ ap (String.◌∷◌ c) (decode_chars-double lib s)
