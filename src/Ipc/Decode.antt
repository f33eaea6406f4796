-- ===== src/Ipc/Decode.antt =====
-- `decode_message` of relayinner_display/ipc.py; the JSON parser and the decoder of UTF-8 are
-- parameters.
use relay_inner_display_scri.Base.{
  ℕ, String, ◌⊎◌, inl, inr, Option, none, some, List, [], ◌∷◌, is_empty, strip, if◌then◌else◌,
}
use relay_inner_display_scri.Exec.{text, formatted, ipc_error, other, Outcome, ok, raised}
use relay_inner_display_scri.Json.{Json, object, string, Fields, lookup}

-- `json.loads`, with the text of its JSONDecodeError, and `bytes.decode("utf-8")`
pub record Codec : Type 0 where
  pub loads : String → String ⊎ Json
  pub utf_8 : List ℕ → Option String

-- the test of the type
abbrev pub with_type : Option Json → Fields → Outcome Fields
with_type (some (string type)) payload =
    if is_empty type
    then raised (ipc_error (text "IPC payload must contain a non-empty string 'type'"))
    else ok payload
with_type _ payload = raised (ipc_error (text "IPC payload must contain a non-empty string 'type'"))

abbrev pub payload_of : String ⊎ Json → Outcome Fields
payload_of (inl error) = raised (ipc_error (formatted "Invalid JSON IPC payload: {}" (error ∷ [])))
payload_of (inr (object payload)) = with_type (lookup payload "type") payload
payload_of (inr _) = raised (ipc_error (text "IPC payload must be a JSON object"))

unfoldable pub decode_text : Codec → String → Outcome Fields
decode_text codec line =
    if is_empty (strip line)
    then raised (ipc_error (text "IPC message must not be empty"))
    else payload_of (codec.loads (strip line))

abbrev decoded_line : Codec → Option String → Outcome Fields
decoded_line codec none = raised (other (text "UnicodeDecodeError"))
decoded_line codec (some line) = decode_text codec line

-- of the bytes of a line
unfoldable pub decode_message : Codec → List ℕ → Outcome Fields
unfolding decode_text
decode_message codec line = decoded_line codec (codec.utf_8 line)
