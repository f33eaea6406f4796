-- ===== src/Ipc/Stream.antt =====
-- What is read from a stream of bytes that comes in chunks.
use relay_inner_display_scri.Base.{
  ℕ, zero, suc, ◌≤◌, ◌<◌, ◌≡◌, refl, ◌∙◌, sym, ap, Bool, true, false, Option, none, some, List, [],
  ◌∷◌, ◌++◌, length, if◌then◌else◌, arith, Bool-cases, inl, inr,
}
use mathlib.Core.Path.{subst}
use mathlib.Core.List.{append-nil, append_assoc}
use relay_inner_display_scri.Exec.{Outcome, ok, raised}
use relay_inner_display_scri.Ipc.{
  is_blank_line, split_line, decode_lines, decoded, receive, received, Recv, chunk, Connection,
  read_messages,
}
use relay_inner_display_scri.Ipc.Lines.{lines, Cut, Cut-split_line, lines-append, lines_left}

-- what `recv` gives for a stream that comes in the given chunks, none of them empty
unfoldable pub chunks : List (ℕ × List ℕ) → List Recv
chunks [] = []
chunks ((b, bytes) ∷ cs) = chunk (b ∷ bytes) ∷ chunks cs

unfoldable pub bytes_of : List (ℕ × List ℕ) → List ℕ
bytes_of [] = []
bytes_of ((b, bytes) ∷ cs) = (b ∷ bytes) ++ bytes_of cs

module _ {M : Type 0} (decode : List ℕ → Outcome M) where
  abbrev both : Outcome M → Outcome (List M) → Outcome (List M)
  both (raised e) rest = raised e
  both (ok m) (raised e) = raised e
  both (ok m) (ok ms) = ok (m ∷ ms)

  -- the lines that are not blank, decoded in order, up to the first that raises
  unfoldable pub decode_each : List (List ℕ) → Outcome (List M)
  decode_each [] = ok []
  decode_each (l ∷ ls) =
      let rest = decode_each ls in if is_blank_line l then rest else both (decode l) rest

  record IsRead (r : Outcome (List M) × List ℕ) (buffer : List ℕ) : Type 0 where
    outcome : r.0 ≡ decode_each (lines buffer).0
    left : (ms : List M) → r.0 ≡ ok ms → r.1 ≡ (lines buffer).1

  both-decoded :
      (m : Outcome M) (after : List ℕ) (rest : Outcome (List M) × List ℕ)
      → (decoded decode m after rest).0 ≡ both m rest.0
  both-decoded (raised e) after rest = refl
  both-decoded (ok m) after (raised e, b) = refl
  both-decoded (ok m) after (ok ms, b) = refl

  left-decoded :
      (m : Outcome M) (after t : List ℕ) (rest : Outcome (List M) × List ℕ) (ms : List M)
      → ((ms' : List M) → rest.0 ≡ ok ms' → rest.1 ≡ t)
      → (decoded decode m after rest).0 ≡ ok ms
      → (decoded decode m after rest).1 ≡ t
  left-decoded (raised e) after t rest ms k h = cc
  left-decoded (ok m) after t (raised e, b) ms k h = cc
  left-decoded (ok m) after t (ok ms', b) ms k h = k ms' refl

  turn-IsRead :
      (fuel : ℕ) (buffer : List ℕ) (o : Option (List ℕ × List ℕ))
      → Cut buffer o
      → ((after : List ℕ)
          → length after < length buffer
          → IsRead (decode_lines decode fuel after) after)
      → IsRead
          (elim o [
            | none ↦ (ok [], buffer)
            | some (line, after) ↦
                let rest = decode_lines decode fuel after in
                if is_blank_line line then rest else decoded decode (decode line) after rest
          ])
          buffer
  unfolding Cut decode_each
  turn-IsRead fuel buffer none h k = record { outcome = rw h refl; left = λ ms e. rw h refl }
  turn-IsRead fuel buffer (some (line, after)) h k =
      let rest = k after h.1 in
      elim (Bool-cases (is_blank_line line)) [
        | inl blank ↦ rw blank (record {
          outcome = rw (h.0, blank) rest.outcome;
          left = λ ms e. rw h.0 (rest.left ms e);
        })
        | inr full ↦ rw full (record {
          outcome =
              rw
                (
                  h.0,
                  full,
                  both-decoded (decode line) after (decode_lines decode fuel after),
                  rest.outcome,
                )
                refl;
          left = λ ms e. rw h.0 (
              left-decoded (decode line) after (lines after).1 (decode_lines decode fuel after) ms
                rest.left e);
        })
      ]

  -- fuel as long as the buffer is enough
  decode_lines-IsRead :
      (fuel : ℕ) (buffer : List ℕ)
      → length buffer ≤ fuel
      → IsRead (decode_lines decode fuel buffer) buffer
  unfolding decode_lines decode_each lines
  decode_lines-IsRead zero [] h = record { outcome = refl; left = λ ms e. refl }
  decode_lines-IsRead zero (b ∷ bs) h = let impossible : ⊥ = omega (arith, h) in elim impossible [ ]
  decode_lines-IsRead (suc fuel) buffer h =
      turn-IsRead fuel buffer (split_line buffer) (Cut-split_line buffer)
        (λ after shorter. decode_lines-IsRead fuel after (omega (arith, h, shorter)))

  abbrev joined : Outcome (List M) → Outcome (List M) → Outcome (List M)
  joined (raised e) r = raised e
  joined (ok ms) (raised e) = raised e
  joined (ok ms) (ok ms') = ok (ms ++ ms')

  both-joined : (m : Outcome M) (p q : Outcome (List M)) → both m (joined p q) ≡ joined (both m p) q
  both-joined (raised e) p q = refl
  both-joined (ok m) (raised e) q = refl
  both-joined (ok m) (ok ms) (raised e) = refl
  both-joined (ok m) (ok ms) (ok ms') = refl

  joined_nil : (q : Outcome (List M)) → joined (ok []) q ≡ q
  joined_nil (raised e) = refl
  joined_nil (ok ms) = refl

  decode_each-append :
      (a b : List (List ℕ)) → decode_each (a ++ b) ≡ joined (decode_each a) (decode_each b)
  unfolding decode_each
  decode_each-append [] b = sym (joined_nil (decode_each b))
  decode_each-append (l ∷ a) b = elim (Bool-cases (is_blank_line l)) [
    | inl e ↦ rw e (decode_each-append a b)
    | inr e ↦
        rw (e, decode_each-append a b) (both-joined (decode l) (decode_each a) (decode_each b))
  ]

  -- what a successful read has decoded, and what it leaves
  record IsStream (stream : List ℕ) (ms : List M) (gone : Bool) (s : Connection) : Type 0 where
    all_decoded : decode_each (lines stream).0 ≡ ok ms
    still_there : gone ≡ false
    rest_kept : s.buffer ≡ (lines stream).1

  value : Outcome (List M × Bool) → List M × Bool
  value (ok a) = a
  value (raised e) = ([], false)

  received-IsStream :
      (r : Outcome (List M)) (s₁ s₂ : Connection) (q : Outcome (List M × Bool)) (full more : List ℕ)
      (ms : List M) (gone : Bool)
      → r ≡ decode_each (lines full).0
      → ((first ms' : List M) (g : Bool)
          → r ≡ ok first
          → q ≡ ok (ms', g)
          → IsStream ((lines full).1 ++ more) ms' g s₂)
      → (received decode r s₁ (q, s₂)).0 ≡ ok (ms, gone)
      → IsStream (full ++ more) ms gone (received decode r s₁ (q, s₂)).1
  unfolding value
  received-IsStream (raised e) s₁ s₂ q full more ms gone h k returns = cc
  received-IsStream (ok ms₁) s₁ s₂ (raised e) full more ms gone h k returns = cc
  received-IsStream (ok ms₁) s₁ s₂ (ok (ms₂, g)) full more ms gone h k returns =
      let rest = k ms₁ ms₂ g refl refl in
      let same : (ms₁ ++ ms₂, g) ≡ (ms, gone) = ap value returns in
      record {
        all_decoded =
            rw (lines-append full more, decode_each-append, sym h, rest.all_decoded)
              (ap ok (ap (λ (p : List M × Bool). p.0) same));
        still_there = ap (λ (p : List M × Bool). p.1) (sym same) ∙ rest.still_there;
        rest_kept = rw (lines-append full more) rest.rest_kept;
      }

  nothing_more :
      (s : Connection) (ms : List M) (gone : Bool)
      → lines s.buffer ≡ ([], s.buffer)
      → ◌≡◌ {A = Outcome (List M × Bool)} (ok ([], false)) (ok (ms, gone))
      → IsStream (s.buffer ++ []) ms gone s
  unfolding decode_each value
  nothing_more s ms gone cut returns =
      let same : ◌≡◌ {A = List M × Bool} ([], false) (ms, gone) = ap value returns in
      record {
        all_decoded = rw (append-nil s.buffer, cut) (ap ok (ap (λ (p : List M × Bool). p.0) same));
        still_there = ap (λ (p : List M × Bool). p.1) (sym same);
        rest_kept = rw (append-nil s.buffer, cut) refl;
      }

  -- reading from a buffer that holds no whole line
  receive-IsStream :
      (cs : List (ℕ × List ℕ)) (s : Connection) (ms : List M) (gone : Bool)
      → lines s.buffer ≡ ([], s.buffer)
      → (receive decode (chunks cs) s).0 ≡ ok (ms, gone)
      → IsStream (s.buffer ++ bytes_of cs) ms gone (receive decode (chunks cs) s).1
  unfolding receive chunks bytes_of
  receive-IsStream [] s ms gone cut returns = nothing_more s ms gone cut returns
  receive-IsStream ((b, bytes) ∷ cs) s ms gone cut returns =
      let full = s.buffer ++ b ∷ bytes in
      let r = decode_lines decode (length full) full in
      let one = decode_lines-IsRead (length full) full (omega arith) in
      let s' = record s { buffer = r.1 } in
      rw⁻¹ (append_assoc s.buffer (b ∷ bytes) (bytes_of cs)) (
        received-IsStream r.0 s' (receive decode (chunks cs) s').1 (receive decode (chunks cs) s').0
          full (bytes_of cs) ms gone one.outcome
          (λ first ms' g e q.
            subst
              (λ (t : List ℕ). IsStream (t ++ bytes_of cs) ms' g (receive decode (chunks cs) s').1)
              (one.left first e)
              (receive-IsStream cs s' ms' g (rw (one.left first e) (lines_left full)) q))
          returns)

  list_of : Outcome (List M) → List M
  list_of (ok ms) = ms
  list_of (raised e) = []

  nothing_left :
      (s : Connection) (ms : List M)
      → lines s.buffer ≡ ([], s.buffer)
      → decode_each (lines (s.buffer ++ [])).0 ≡ ok ms
      → ◌≡◌ {A = Outcome (List M × Bool)} (ok ([], false)) (ok (ms, false))
  unfolding decode_each list_of
  nothing_left s ms cut h =
      let none_yet : decode_each (lines (s.buffer ++ [])).0 ≡ ok [] =
        rw (append-nil s.buffer, cut) refl in
      ap (λ (o : Outcome (List M)). ok (list_of o, false)) (sym none_yet ∙ h)

  received_ok :
      (r : Outcome (List M)) (s : Connection) (answer : Outcome (List M × Bool) × Connection)
      (first later : List M)
      → r ≡ ok first
      → answer.0 ≡ ok (later, false)
      → (received decode r s answer).0 ≡ ok (first ++ later, false)
  unfolding value list_of
  received_ok (raised e) s answer first later h k = cc
  received_ok (ok ms) s (raised e, s') first later h k = cc
  received_ok (ok ms) s (ok (ms', gone), s') first later h k =
      let one : ms ≡ first = ap (λ (o : Outcome (List M)). list_of o) h in
      let two : ◌≡◌ {A = List M × Bool} (ms', gone) (later, false) = ap value k in
      rw (one, ap (λ (p : List M × Bool). p.0) two, ap (λ (p : List M × Bool). p.1) two) refl

  received-joined :
      (p q r : Outcome (List M)) (s : Connection) (answer : Outcome (List M × Bool) × Connection)
      (ms : List M)
      → r ≡ p
      → joined p q ≡ ok ms
      → ((first later : List M) → p ≡ ok first → q ≡ ok later → answer.0 ≡ ok (later, false))
      → (received decode r s answer).0 ≡ ok (ms, false)
  unfolding list_of
  received-joined (raised e) q r s answer ms h j k = cc
  received-joined (ok first) (raised e) r s answer ms h j k = cc
  received-joined (ok first) (ok later) r s answer ms h j k =
      received_ok r s answer first later h (k first later refl refl)
      ∙ ap (λ (o : Outcome (List M)). ok (list_of o, false)) j

  receive_returns :
      (cs : List (ℕ × List ℕ)) (s : Connection) (ms : List M)
      → lines s.buffer ≡ ([], s.buffer)
      → decode_each (lines (s.buffer ++ bytes_of cs)).0 ≡ ok ms
      → (receive decode (chunks cs) s).0 ≡ ok (ms, false)
  unfolding receive bytes_of chunks
  receive_returns [] s ms cut h = nothing_left s ms cut h
  receive_returns ((b, bytes) ∷ cs) s ms cut h =
      let full = s.buffer ++ b ∷ bytes in
      let r = decode_lines decode (length full) full in
      let one = decode_lines-IsRead (length full) full (omega arith) in
      let s' = record s { buffer = r.1 } in
      received-joined (decode_each (lines full).0)
        (decode_each (lines ((lines full).1 ++ bytes_of cs)).0) r.0 s'
        (receive decode (chunks cs) s') ms one.outcome
        (sym (decode_each-append (lines full).0 (lines ((lines full).1 ++ bytes_of cs)).0)
          ∙ sym (
              ap (λ (p : List (List ℕ) × List ℕ). decode_each p.0)
                (lines-append full (bytes_of cs)))
          ∙ ap (λ (t : List ℕ). decode_each (lines t).0)
              (append_assoc s.buffer (b ∷ bytes) (bytes_of cs))
          ∙ h)
        (λ first later e q.
          let left = one.left first (one.outcome ∙ e) in
          receive_returns cs s' later (rw left (lines_left full))
            (ap (λ (t : List ℕ). decode_each (lines (t ++ bytes_of cs)).0) left ∙ q))

open_reads :
    {M : Type 0} (decode : List ℕ → Outcome M) (s : Connection)
    (answer : Outcome (List M × Bool) × Connection)
    → s.is_open ≡ true
    → (if s.is_open then answer else (ok ([], false), s)) ≡ answer
open_reads decode s answer up = ground arith

-- Reading an open connection whose buffer holds no whole line, from bytes that come in any
-- chunks that are not empty: if every line of the buffer and all the bytes decodes, blank lines
-- left out, the read returns just what they decode to, in order, tells no disconnection, and
-- keeps in the buffer what stands after the last line end; so the result does not depend on the
-- chunks.
pub read_messages-chunks :
    {M : Type 0} (decode : List ℕ → Outcome M) (cs : List (ℕ × List ℕ)) (s : Connection)
    (ms : List M)
    → s.is_open ≡ true
    → lines s.buffer ≡ ([], s.buffer)
    → decode_each decode (lines (s.buffer ++ bytes_of cs)).0 ≡ ok ms
    → ((read_messages decode (chunks cs) s).0 ≡ ok (ms, false))
      × ((read_messages decode (chunks cs) s).1.buffer ≡ (lines (s.buffer ++ bytes_of cs)).1)
unfolding read_messages
read_messages-chunks decode cs s ms up cut all_fine =
    let e = open_reads decode s (receive decode (chunks cs) s) up in
    let returns = receive_returns decode cs s ms cut all_fine in
    (
      ap (λ p. p.0) e ∙ returns,
      ap (λ p. p.1.buffer) e ∙ (receive-IsStream decode cs s ms false cut returns).rest_kept,
    )
