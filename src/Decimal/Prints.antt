-- ===== src/Decimal/Prints.antt =====
-- `int` reads back what `str` prints.
use Prim.Native.Char.{Char, code}
use Prim.Native.String.{◌++◌ as ◌<>◌}
use mathlib.Core.Path.{ap}
use mathlib.Core.List.{append_assoc as list-append_assoc, append-nil as list-append_nil}
use text.Mathlib.TextLemmas.{nil-append, cons-append, append-nil, append_assoc}
use relay_inner_display_scri.Base.{
  ℕ, zero, suc, ◌+◌, ◌-◌, ◌*◌, ◌/◌, ◌%◌, ◌≤◌, ◌<◌, ◌≡◌, refl, sym, ◌∙◌, String, Bool, true, false,
  not, ◌&&◌, Option, none, some, List, [], ◌∷◌, ◌++◌, ltb, leb, if◌then◌else◌, length, show_ℕ,
  show_fuel, digit_text, decimal_digits, arith, is_empty, pos, is_space, strip, lstrip, rstrip,
  length-append, Bool-cases, inl, inr,
}
use relay_inner_display_scri.Decimal.{
  digits_of, value_of_digits, prepend, parse_int, signed, natural_in, positive, value_in,
}

-- the decimal digits of a number, the first one first
digits : ℕ → ℕ → List ℕ
digits zero n = []
digits (suc f) n =
    let front = digits f (n / 10) in if ltb n 10 then n ∷ [] else front ++ n % 10 ∷ []

unfoldable pub all_chars : (Char → Bool) → String → Bool
all_chars p String.[] = true
all_chars p (String.◌∷◌ c s) = let rest = all_chars p s in p c && rest

all_chars-append :
    (p : Char → Bool) (s t : String) → all_chars p (s <> t) ≡ all_chars p s && all_chars p t
unfolding all_chars
all_chars-append p String.[] t = rw nil-append
all_chars-append p (String.◌∷◌ c s) t = rw cons-append (ground (arith, all_chars-append p s t))

value-append :
    (acc : ℕ) (ds : List ℕ) (d : ℕ)
    → value_of_digits acc (ds ++ d ∷ []) ≡ value_of_digits acc ds * 10 + d
unfolding value_of_digits
value-append acc [] d = refl
value-append acc (e ∷ ds) d = value-append (acc * 10 + e) ds d

value-digits : (f n : ℕ) → n < f → value_of_digits 0 (digits f n) ≡ n
unfolding digits value_of_digits
value-digits zero n h = let impossible : ⊥ = omega (arith, h) in elim impossible [ ]
value-digits (suc f) n h =
    ground (arith, value-append 0 (digits f (n / 10)) (n % 10), value-digits f (n / 10))

abbrev pub is_digit : Char → Bool
is_digit c = leb 48 (code c) && leb (code c) 57

-- the character of a digit
digit_char :
    (d : ℕ)
    → d < 10
    → (c : Char) × (digit_text d decimal_digits ≡ String.◌∷◌ c "") × (code c ≡ 48 + d)
unfolding digit_text
digit_char zero h = ("0", refl, refl)
digit_char (suc zero) h = ("1", refl, refl)
digit_char (suc (suc zero)) h = ("2", refl, refl)
digit_char (suc (suc (suc zero))) h = ("3", refl, refl)
digit_char (suc (suc (suc (suc zero)))) h = ("4", refl, refl)
digit_char (suc (suc (suc (suc (suc zero))))) h = ("5", refl, refl)
digit_char (suc (suc (suc (suc (suc (suc zero)))))) h = ("6", refl, refl)
digit_char (suc (suc (suc (suc (suc (suc (suc zero))))))) h = ("7", refl, refl)
digit_char (suc (suc (suc (suc (suc (suc (suc (suc zero)))))))) h = ("8", refl, refl)
digit_char (suc (suc (suc (suc (suc (suc (suc (suc (suc zero))))))))) h = ("9", refl, refl)
digit_char (suc (suc (suc (suc (suc (suc (suc (suc (suc (suc d)))))))))) h =
    let impossible : ⊥ = omega (arith, h) in elim impossible [ ]

-- what the documentation of `int` says of the ASCII digits
abbrev pub AsciiDigits : (Char → Option ℕ) → Type 0
AsciiDigits dv = (c : Char) → is_digit c ≡ true → dv c ≡ some (code c - 48)

abbrev prepend_all : List ℕ → Option (List ℕ) → Option (List ℕ)
prepend_all ds none = none
prepend_all ds (some es) = some (ds ++ es)

prepend_all-append :
    (ds : List ℕ) (d : ℕ) (o : Option (List ℕ))
    → prepend_all ds (prepend d o) ≡ prepend_all (ds ++ d ∷ []) o
prepend_all-append ds d none = refl
prepend_all-append ds d (some es) = rw list-append_assoc

one_digit : (d : ℕ) (o : Option (List ℕ)) → prepend d o ≡ prepend_all (d ∷ []) o
one_digit d none = refl
one_digit d (some ds) = refl

all_digits-show_fuel : (f n : ℕ) → all_chars is_digit (show_fuel f n) ≡ true
unfolding show_fuel all_chars
all_digits-show_fuel zero n = refl
all_digits-show_fuel (suc f) n =
    let (c, e, v) = digit_char (n % 10) (omega arith) in
    ground (
      arith,
      all_chars-append is_digit (show_fuel f (n / 10)) (digit_text (n % 10) decimal_digits),
      all_digits-show_fuel f (n / 10),
      last_digit c e v,
    )
  where
    last_digit :
        (c : Char)
        → digit_text (n % 10) decimal_digits ≡ String.◌∷◌ c ""
        → code c ≡ 48 + n % 10
        → all_chars is_digit (digit_text (n % 10) decimal_digits) ≡ true
    last_digit c e v = rw e (ground arith)

module _ (dv : Char → Option ℕ) (ascii : AsciiDigits dv) where
  digits_of-cons :
      (b : Bool) (c : Char) (d : ℕ) (s : String)
      → dv c ≡ some d
      → digits_of dv b (String.◌∷◌ c s) ≡ prepend d (digits_of dv true s)
  unfolding digits_of
  digits_of-cons b c d s e = rw (digits_of, e)

  digits_of-digit :
      (b : Bool) (d : ℕ) (t : String)
      → d < 10
      → digits_of dv b (digit_text d decimal_digits <> t) ≡ prepend d (digits_of dv true t)
  digits_of-digit b d t h =
      let (c, e, v) = digit_char d h in
      let valued : dv c ≡ some d = ascii c (ground arith) ∙ ap some (omega (arith, v)) in
      rw (e, cons-append, nil-append) (digits_of-cons b c d t valued)

  digits_of-show_fuel :
      (f n : ℕ) (b : Bool) (t : String)
      → n < f
      → digits_of dv b (show_fuel f n <> t) ≡ prepend_all (digits f n) (digits_of dv true t)
  unfolding show_fuel digits
  digits_of-show_fuel zero n b t h = let impossible : ⊥ = omega (arith, h) in elim impossible [ ]
  digits_of-show_fuel (suc f) n b t h = elim (Bool-cases (ltb n 10)) [
    | inl small ↦
        let same : n % 10 ≡ n = ground (arith, small) in
        rw (small, same)
          (digits_of-digit b n t (ground (arith, small)) ∙ one_digit n (digits_of dv true t))
    | inr big ↦
        let last = digit_text (n % 10) decimal_digits in
        rw (big, append_assoc)
          (digits_of-show_fuel f (n / 10) b (last <> t) (ground (arith, big, h))
            ∙ ap (prepend_all (digits f (n / 10))) (digits_of-digit true (n % 10) t (omega arith))
            ∙ prepend_all-append (digits f (n / 10)) (n % 10) (digits_of dv true t))
  ]

length-digits : (f n : ℕ) → length (digits f n) ≤ 2 + n / 100
unfolding digits
length-digits zero n = omega arith
length-digits (suc f) n = ground (
  arith,
  length-digits f (n / 10),
  length-digits_small f n,
  length-append (digits f (n / 10)) (n % 10 ∷ []),
)
  where
    length-digits_small : (f n : ℕ) → n < 100 → length (digits f (n / 10)) ≤ 1
    length-digits_small zero n h = omega arith
    length-digits_small (suc f) n h = ground arith

pub all_chars-imp :
    (p q : Char → Bool) (s : String)
    → ((c : Char) → p c ≡ true → q c ≡ true)
    → all_chars p s ≡ true
    → all_chars q s ≡ true
unfolding all_chars
all_chars-imp p q String.[] k h = refl
all_chars-imp p q (String.◌∷◌ c s) k h =
    ground (arith, k c, all_chars-imp p q s k (ground (arith, h)))

abbrev pub is_solid : Char → Bool
is_solid c = not (is_space c)

digit-solid : (c : Char) → is_digit c ≡ true → is_solid c ≡ true
unfolding is_space
digit-solid c h = ground arith

rstrip-solid : (s : String) → all_chars is_solid s ≡ true → rstrip s ≡ s
unfolding rstrip all_chars
rstrip-solid String.[] h = refl
rstrip-solid (String.◌∷◌ c s) h = ground (arith, rstrip-solid s (ground (arith, h)))

lstrip-solid : (s : String) → all_chars is_solid s ≡ true → lstrip s ≡ s
unfolding lstrip all_chars
lstrip-solid String.[] h = refl
lstrip-solid (String.◌∷◌ c s) h = ground arith

pub strip-solid : (s : String) → all_chars is_solid s ≡ true → strip s ≡ s
unfolding strip
strip-solid s h = rw (lstrip-solid s h, rstrip-solid s h)

not_empty-append : (s : String) (c : Char) → is_empty (s <> String.◌∷◌ c "") ≡ false
not_empty-append String.[] c = rw nil-append
not_empty-append (String.◌∷◌ b s) c = rw cons-append

not_empty-show_fuel : (f n : ℕ) → is_empty (show_fuel (suc f) n) ≡ false
unfolding show_fuel
not_empty-show_fuel f n =
    let (c, e, v) = digit_char (n % 10) (omega arith) in
    rw e
      (either_text (ltb n 10) (String.◌∷◌ c "") _ refl (not_empty-append (show_fuel f (n / 10)) c))
  where
    either_text :
        (b : Bool) (x y : String)
        → is_empty x ≡ false
        → is_empty y ≡ false
        → is_empty (if b then x else y) ≡ false
    either_text true x y p q = p
    either_text false x y p q = q

pub not_empty-show : (n : ℕ) → is_empty (show_ℕ n) ≡ false
unfolding show_ℕ
not_empty-show n = rw (suc_form n) (not_empty-show_fuel n n)
  where
    suc_form : (m : ℕ) → m + 1 ≡ suc m
    suc_form m = omega arith

pub all_digits-show : (n : ℕ) → all_chars is_digit (show_ℕ n) ≡ true
unfolding show_ℕ
all_digits-show n = all_digits-show_fuel (n + 1) n

signed-digits :
    (dv : Char → Option ℕ) (s : String)
    → all_chars is_digit s ≡ true
    → signed dv s ≡ positive dv (natural_in dv s)
unfolding all_chars digits_of
signed-digits dv String.[] h = refl
signed-digits dv (String.◌∷◌ c s) h = ground arith

digits_of-show :
    (dv : Char → Option ℕ)
    → AsciiDigits dv
    → (f n : ℕ) → n < f
    → digits_of dv false (show_fuel f n) ≡ some (digits f n)
unfolding digits_of digits
digits_of-show dv ascii f n h =
    ap (digits_of dv false) (sym (append-nil (show_fuel f n)))
    ∙ digits_of-show_fuel dv ascii f n false "" h
    ∙ rw list-append_nil

in_limit :
    (dv : Char → Option ℕ) (n : ℕ) → n < 65536 → value_in dv (some (digits (n + 1) n)) ≡ some n
in_limit dv n small = ground (arith, length-digits (n + 1) n, value-digits (n + 1) n)

-- The number that `str` prints is read back.
pub parse_int-show :
    (dv : Char → Option ℕ) (n : ℕ)
    → AsciiDigits dv
    → n < 65536
    → parse_int dv (show_ℕ n) ≡ some (pos n)
unfolding parse_int show_ℕ
parse_int-show dv n ascii small =
    let shown = show_fuel (n + 1) n in
    let all = all_digits-show_fuel (n + 1) n in
    let stripped = strip-solid shown (all_chars-imp is_digit is_solid shown digit-solid all) in
    let read : natural_in dv shown ≡ some n =
      rw (digits_of-show dv ascii (n + 1) n (omega arith)) (in_limit dv n small) in
    rw stripped (rw (signed-digits dv shown all, read))
