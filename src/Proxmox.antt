-- ===== src/Proxmox.antt =====
-- The class `ProxmoxClient` of relayinner_display/proxmox.py: each operation runs one command and
-- reads its output. The command runner, the JSON parser, `shlex.split`, the URL parser and the
-- sockets are parameters.
pub mod Vnc
pub mod Spice
pub mod Outputs
use Prim.Native.Char.{Char, code}
use relay_inner_display_scri.Base.{
  ℕ, zero, ℤ, pos, String, Bool, true, false, not, ◌⊎◌, inl, inr, Option, none, some, List, [], ◌∷◌,
  ◌++◌, ltb, if◌then◌else◌, ◌==◌, is_empty, is_space, strip, eqb, concat, show_ℕ, one_of, length,
}
use relay_inner_display_scri.Exec.{
  Reason, text, formatted, Exn, proxmox_command_error, Outcome, ok, raised,
}
use relay_inner_display_scri.Exec.Results.{◌>>=◌, ◌>>◌}
use relay_inner_display_scri.Json.{
  Json, null, boolean, integer, floating, string, array, object, Items, no_items, item, Fields,
  no_fields, field, lookup,
}

-- `CommandResult`, without its arguments
pub record CommandResult : Type 0 where
  pub returncode : ℤ
  pub stdout : String
  pub stderr : String

-- The attributes of the client at one call, and what it uses of Python's library.
pub record Client : Type 0 where
  pub timeout_s : ℕ
  -- the command and the timeout, in seconds
  pub runner : List String → ℕ → Outcome CommandResult
  pub hostname : String
  pub fqdn : String
  pub splitlines : String → List String
  -- `json.loads`, `inl` for a JSONDecodeError
  pub loads : String → Reason ⊎ Json
  -- `shlex.split`, `none` for a ValueError
  pub shlex_split : String → Option (List String)
  -- the value of a decimal digit
  pub decimal_value : Char → Option ℕ
  -- `str` of a JSON value
  pub show_json : Json → String
  -- `urlsplit(url).port`, which raises for a port that is no number
  pub url_port : String → Outcome (Option ℕ)
  -- connecting a TCP socket
  pub connect : String → ℕ → Outcome (Unit {0})

abbrev is_zero : ℤ → Bool
is_zero (pos zero) = true
is_zero _ = false

abbrev first_or : String → List String → String
first_or d [] = d
first_or d (s ∷ _) = s

-- `a or b`
abbrev or_text : String → String → String
or_text a b = if is_empty a then b else a

-- `\S+`, as far as it goes
abbrev pub word : String → String
word String.[] = ""
word (String.◌∷◌ c s) = let rest = word s in if is_space c then "" else String.◌∷◌ c rest

abbrev pub skip_spaces : String → String
skip_spaces String.[] = ""
skip_spaces (String.◌∷◌ c s) =
    let rest = skip_spaces s in if is_space c then rest else String.◌∷◌ c s

abbrev pub some_word : String → Option String
some_word w = if is_empty w then none else some w

-- `\s+(\S+)` at the start of a text
abbrev pub spaced_word : String → Option String
spaced_word String.[] = none
spaced_word (String.◌∷◌ c s) = if is_space c then some_word (word (skip_spaces s)) else none

-- the text after `prefix`, if it starts with it
abbrev pub after : String → String → Option String
after String.[] s = some s
after (String.◌∷◌ p ps) String.[] = none
after (String.◌∷◌ p ps) (String.◌∷◌ c s) =
    let rest = after ps s in if eqb (code p) (code c) then rest else none

abbrev pub status_at : String → Option String
status_at s = elim (after "status:" s) [ none ↦ none | some rest ↦ spaced_word rest ]

-- `re.search(r"status:\s+(\S+)", output)`, its group
unfoldable pub search_status : String → Option String
search_status String.[] = none
search_status (String.◌∷◌ c s) =
    let later = search_status s in
    elim (status_at (String.◌∷◌ c s)) [ none ↦ later | some w ↦ some w ]

-- the truth value of a JSON value
abbrev is_truthy : Json → Bool
is_truthy null = false
is_truthy (boolean b) = b
is_truthy (integer i) = not (is_zero i)
is_truthy (floating nonzero) = nonzero
is_truthy (string s) = not (is_empty s)
is_truthy (array no_items) = false
is_truthy (array (item _ _)) = true
is_truthy (object no_fields) = false
is_truthy (object (field _ _ _)) = true

abbrev or_json : Option Json → Option Json → Option Json
or_json none later = later
or_json (some v) later = if is_truthy v then some v else later

abbrev name_of : Option Json → List String → List String
name_of (some (string name)) names = name ∷ names
name_of _ names = names

-- the loop over the listed nodes
unfoldable pub node_names : Items → List String
node_names no_items = []
node_names (item (object entry) rest) =
    let later = node_names rest in
    name_of (or_json (lookup entry "node") (lookup entry "name")) later
node_names (item _ rest) = node_names rest

abbrev pub only_name : String → List String → String
only_name short (name ∷ []) = name
only_name short _ = short

unfoldable pub chosen_node : String → List String → String
chosen_node short names = if one_of short names then short else only_name short names

abbrev pub node_from : String → Json → String
node_from short (array nodes) = chosen_node short (node_names nodes)
node_from short _ = short

abbrev pub nodes_command : List String
nodes_command = "pvesh" ∷ "get" ∷ "/nodes" ∷ "--output-format" ∷ "json" ∷ []

-- `except ProxmoxCommandError`
abbrev pub node_or_short : String → Outcome Json → Outcome String
node_or_short short (ok nodes) = ok (node_from short nodes)
node_or_short short (raised (proxmox_command_error _)) = ok short
node_or_short short (raised e) = raised e

module _ (client : Client) where
  -- the summary of a failed command
  abbrev summary : CommandResult → String
  summary r = first_or "no command output" (client.splitlines (strip (or_text r.stderr r.stdout)))

  abbrev checked_result : List String → CommandResult → Outcome CommandResult
  checked_result command r =
      if is_zero r.returncode
      then ok r
      else raised
          (proxmox_command_error (formatted "{} failed: {}" (first_or "" command ∷ summary r ∷ [])))

  -- `_run`
  unfoldable pub run_command : List String → Outcome CommandResult
  run_command command = do
    result ← client.runner command client.timeout_s
    checked_result command result

  abbrev json_of : List String → Reason ⊎ Json → Outcome Json
  json_of command (inl _) =
      raised
        (proxmox_command_error (formatted "{} returned invalid JSON" (first_or "" command ∷ [])))
  json_of command (inr value) = ok value

  -- `_run_json`
  unfoldable pub run_json : List String → Outcome Json
  unfolding run_command
  run_json command = do result ← run_command command; json_of command (client.loads result.stdout)

  abbrev pub status_or_error : ℕ → Option String → Outcome String
  status_or_error vmid none = raised (
      proxmox_command_error
        (formatted "qm status returned unexpected output for VM {}" (show_ℕ vmid ∷ [])))
  status_or_error vmid (some status) = ok status

  unfoldable pub get_vm_status : ℕ → Outcome String
  unfolding run_command search_status
  get_vm_status vmid = do
    result ← run_command ("qm" ∷ "status" ∷ show_ℕ vmid ∷ [])
    status_or_error vmid (search_status result.stdout)

  unfoldable pub start_vm : ℕ → Outcome (Unit {0})
  unfolding run_command
  start_vm vmid = do run_command ("qm" ∷ "start" ∷ show_ℕ vmid ∷ []); ok tt

  abbrev pub shutdown_arguments : ℕ → ℕ → List String
  shutdown_arguments vmid timeout_s =
      "qm"
      ∷ "shutdown"
      ∷ show_ℕ vmid
      ∷ (if ltb 0 timeout_s then "--timeout" ∷ show_ℕ timeout_s ∷ [] else [])

  unfoldable pub shutdown_vm : ℕ → ℕ → Outcome (Unit {0})
  unfolding run_command
  shutdown_vm vmid timeout_s = do run_command (shutdown_arguments vmid timeout_s); ok tt

  unfoldable pub resolve_node_name : String → Outcome String
  unfolding run_json node_names chosen_node
  resolve_node_name configured_name =
      if not (configured_name == "auto")
      then ok configured_name
      else node_or_short client.hostname (run_json nodes_command)
