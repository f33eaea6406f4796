-- ===== src/Ipc/Lines.antt =====
-- The lines of a stream of bytes, by a recursion of their own.
use relay_inner_display_scri.Base.{
  ℕ, ◌<◌, ◌≡◌, refl, false, Option, none, some, List, [], ◌∷◌, ◌++◌, eqb, length, if◌then◌else◌,
  arith, Bool-cases, inl, inr,
}
use relay_inner_display_scri.Ipc.{newline, split_line}

abbrev extend : ℕ → List (List ℕ) × List ℕ → List (List ℕ) × List ℕ
extend b ([], t) = ([], b ∷ t)
extend b (l ∷ ls, t) = ((b ∷ l) ∷ ls, t)

-- the lines of a stream, without their ends, and what stands after the last end
unfoldable pub lines : List ℕ → List (List ℕ) × List ℕ
lines [] = ([], [])
lines (b ∷ bs) =
    let rest = lines bs in if eqb b newline then ([] ∷ rest.0, rest.1) else extend b rest

unfoldable pub Cut : List ℕ → Option (List ℕ × List ℕ) → Type 0
Cut buffer none = lines buffer ≡ ([], buffer)
Cut buffer (some (line, after)) =
    (lines buffer ≡ (line ∷ (lines after).0, (lines after).1)) × (length after < length buffer)

extend-Cut :
    (b : ℕ) (bs : List ℕ) (o : Option (List ℕ × List ℕ))
    → eqb b newline ≡ false
    → Cut bs o
    → Cut (b ∷ bs) (elim o [ none ↦ none | some (line, after) ↦ some (b ∷ line, after) ])
unfolding Cut lines
extend-Cut b bs none e h = rw (e, h) refl
extend-Cut b bs (some (line, after)) e h = (rw (e, h.0) refl, omega (arith, h.1))

pub Cut-split_line : (buffer : List ℕ) → Cut buffer (split_line buffer)
unfolding split_line
Cut-split_line [] = unfold Cut lines in refl
Cut-split_line (b ∷ bs) = elim (Bool-cases (eqb b newline)) [
  | inl e ↦ rw e (unfold Cut lines in (rw e refl, omega arith))
  | inr e ↦ rw e (extend-Cut b bs (split_line bs) e (Cut-split_line bs))
]

append_extend :
    (x : ℕ) (p : List (List ℕ) × List ℕ) (b : List ℕ)
    → eqb x newline ≡ false
    → extend x (p.0 ++ (lines (p.1 ++ b)).0, (lines (p.1 ++ b)).1)
      ≡ ((extend x p).0 ++ (lines ((extend x p).1 ++ b)).0, (lines ((extend x p).1 ++ b)).1)
unfolding lines
append_extend x ([], t) b e = rw e refl
append_extend x (l ∷ ls, t) b e = refl

-- the lines of the rest are those of what the first part left, and the rest
pub lines-append :
    (a b : List ℕ)
    → lines (a ++ b) ≡ ((lines a).0 ++ (lines ((lines a).1 ++ b)).0, (lines ((lines a).1 ++ b)).1)
unfolding lines
lines-append [] b = refl
lines-append (x ∷ a) b = elim (Bool-cases (eqb x newline)) [
  | inl e ↦ rw (e, lines-append a b) refl
  | inr e ↦ rw (e, lines-append a b) (append_extend x (lines a) b e)
]

left_extend :
    (x : ℕ) (p : List (List ℕ) × List ℕ)
    → eqb x newline ≡ false
    → lines p.1 ≡ ([], p.1)
    → lines (extend x p).1 ≡ ([], (extend x p).1)
unfolding lines
left_extend x ([], t) e h = rw (e, h) refl
left_extend x (l ∷ ls, t) e h = h

-- what stands after the last end of a line has no end of a line
pub lines_left : (a : List ℕ) → lines (lines a).1 ≡ ([], (lines a).1)
unfolding lines
lines_left [] = refl
lines_left (x ∷ a) = elim (Bool-cases (eqb x newline)) [
  | inl e ↦ rw e (lines_left a)
  | inr e ↦ rw e (left_extend x (lines a) e (lines_left a))
]
