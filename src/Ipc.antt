-- ===== src/Ipc.antt =====
-- The byte stream of the session socket: `read_messages` of relayinner_display/daemon.py cuts it into
-- lines and decodes each line; `decode_message` of relayinner_display/ipc.py is a parameter.
pub mod Lines
pub mod Stream
pub mod Validate
pub mod Shapes
pub mod Decode
use relay_inner_display_scri.Base.{
  ℕ, zero, suc, Bool, true, false, Option, none, some, List, [], ◌∷◌, ◌++◌, eqb, ◌||◌, length,
  all_of, if◌then◌else◌,
}
use relay_inner_display_scri.Exec.{Outcome, ok, raised}

abbrev pub newline : ℕ
newline = 10

-- the white space that `bytes.strip` removes
abbrev is_blank_byte : ℕ → Bool
is_blank_byte b = eqb b 32 || (eqb b 9 || (eqb b 10 || (eqb b 11 || (eqb b 12 || eqb b 13))))

unfoldable pub is_blank_line : List ℕ → Bool
is_blank_line line = all_of is_blank_byte line

-- `buffer.split(b"\n", 1)`, where the buffer has a line end
unfoldable pub split_line : List ℕ → Option (List ℕ × List ℕ)
split_line [] = none
split_line (b ∷ buffer) =
    let rest = split_line buffer in
    if eqb b newline
    then some ([], buffer)
    else elim rest [ none ↦ none | some (line, after) ↦ some (b ∷ line, after) ]

-- What one `recv` gives: bytes, or nothing for now, or an `OSError`; no bytes are the end.
pub data Recv : Type 0 where
  chunk : List ℕ → Recv
  blocking os_failure : Recv

pub record Connection : Type 0 where
  pub is_open : Bool
  pub buffer : List ℕ

unfoldable pub close_client : Connection → Connection
close_client s = record { is_open = false; buffer = [] }

module _ {M : Type 0} (decode : List ℕ → Outcome M) where
  -- `messages.append(decode_message(line))`; where the decoder raises, the line is off the buffer
  abbrev pub decoded : Outcome M → List ℕ → Outcome (List M) × List ℕ → Outcome (List M) × List ℕ
  decoded (raised e) after rest = (raised e, after)
  decoded (ok m) after (raised e, b) = (raised e, b)
  decoded (ok m) after (ok ms, b) = (ok (m ∷ ms), b)

  -- the inner loop, with what it leaves in the buffer
  unfoldable pub decode_lines : ℕ → List ℕ → Outcome (List M) × List ℕ
  unfolding split_line is_blank_line
  decode_lines zero buffer = (ok [], buffer)
  decode_lines (suc fuel) buffer = elim (split_line buffer) [
    | none ↦ (ok [], buffer)
    | some (line, after) ↦
        let rest = decode_lines fuel after in
        if is_blank_line line then rest else decoded (decode line) after rest
  ]

  abbrev Answer : Type 0
  Answer = Outcome (List M × Bool) × Connection

  abbrev pub received : Outcome (List M) → Connection → Answer → Answer
  received (raised e) s rest = (raised e, s)
  received (ok ms) s (raised e, s') = (raised e, s')
  received (ok ms) s (ok (ms', gone), s') = (ok (ms ++ ms', gone), s')

  -- the outer loop, over what `recv` gives; each turn takes at least one byte off the buffer
  unfoldable pub receive : List Recv → Connection → Answer
  unfolding decode_lines close_client
  receive [] s = (ok ([], false), s)
  receive (blocking ∷ _) s = (ok ([], false), s)
  receive (os_failure ∷ _) s = (ok ([], true), close_client s)
  receive (chunk [] ∷ _) s = (ok ([], true), close_client s)
  receive (chunk (b ∷ bytes) ∷ more) s =
      let buffer = s.buffer ++ b ∷ bytes in
      let (r, after) = decode_lines (length buffer) buffer in
      let s' = record s { buffer = after } in received r s' (receive more s')

  unfoldable pub read_messages : List Recv → Connection → Answer
  unfolding receive
  read_messages recvs s = if s.is_open then receive recvs s else (ok ([], false), s)
