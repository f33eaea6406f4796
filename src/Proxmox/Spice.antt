-- ===== src/Proxmox/Spice.antt =====
-- The SPICE configuration: `request_spice_config` and the content of the file that `write_vv_file` of
-- relayinner_display/proxmox.py writes.
pub mod Local
use Prim.Native.String.{compare}
use Prim.Native.Nat.{Ordering}
use relay_inner_display_scri.Base.{
  ℕ, ◌≡◌, refl, String, Bool, true, false, Option, none, some, List, [], ◌∷◌, ◌++◌, map,
  if◌then◌else◌, ◌==◌, concat, show_ℕ, is_empty, arith,
}
use relay_inner_display_scri.Exec.{Reason, text, Exn, proxmox_command_error, Outcome, ok, raised}
use relay_inner_display_scri.Exec.Results.{◌>>=◌, ◌>>◌}
use relay_inner_display_scri.Json.{Json, object, Fields, no_fields, field}
use relay_inner_display_scri.Proxmox.{Client, run_json}
use relay_inner_display_scri.AtomicFile.{Attempt, Files, atomic_write}
use relay_inner_display_scri.Exec.{Exec}

abbrev pub Entry : Type 0
Entry = String × String

-- the order of Python's tuples of texts
abbrev entry_first : Entry → Entry → Bool
entry_first (k, v) (j, w) = elim (compare k j) [
  | Ordering.lt ↦ true
  | Ordering.gt ↦ false
  | Ordering.eq ↦ elim (compare v w) [ Ordering.gt ↦ false | _ ↦ true ]
]

abbrev pub insert_entry : Entry → List Entry → List Entry
insert_entry e [] = e ∷ []
insert_entry e (f ∷ fs) =
    let later = insert_entry e fs in if entry_first e f then e ∷ f ∷ fs else f ∷ later

-- `sorted(spice_config.items())`
unfoldable pub sorted_entries : List Entry → List Entry
sorted_entries [] = []
sorted_entries (e ∷ es) = insert_entry e (sorted_entries es)

-- `"\n".join(lines) + "\n"`
unfoldable pub text_of_lines : List String → String
text_of_lines [] = "\n"
text_of_lines (l ∷ []) = concat (l ∷ "\n" ∷ [])
text_of_lines (l ∷ (m ∷ ls)) = concat (l ∷ "\n" ∷ text_of_lines (m ∷ ls) ∷ [])

-- a port as an f-string shows it
abbrev pub shown_port : Option ℕ → String
shown_port none = "None"
shown_port (some n) = show_ℕ n

module _ (client : Client) where
  abbrev shown_members : Fields → List Entry
  shown_members no_fields = []
  shown_members (field key value rest) = (key, client.show_json value) ∷ shown_members rest

  abbrev entries_of : Json → Outcome (List Entry)
  entries_of (object members) = ok (shown_members members)
  entries_of _ = raised (proxmox_command_error (text "spiceproxy did not return a JSON object"))

  abbrev proxy_or : String → String
  proxy_or proxy_host = if is_empty proxy_host then client.fqdn else proxy_host

  -- the daemon passes no proxy host, which is the empty text here
  unfoldable pub request_spice_config : String → ℕ → String → Outcome (List Entry)
  request_spice_config node_name vmid proxy_host = do
    payload ← run_json client (
        "pvesh"
        ∷ "create"
        ∷ concat ("/nodes/" ∷ node_name ∷ "/qemu/" ∷ show_ℕ vmid ∷ "/spiceproxy" ∷ [])
        ∷ "--output-format"
        ∷ "json"
        ∷ "--proxy"
        ∷ proxy_or proxy_host
        ∷ [])
    entries_of payload

  -- the value that is written: the proxy is reached through the loopback address
  unfoldable pub written_value : Entry → Outcome Entry
  written_value (key, value) =
      if key == "proxy"
      then (client.url_port value >>= λ port.
          ok (key, concat ("http://127.0.0.1:" ∷ shown_port port ∷ [])))
      else ok (key, value)

  -- the loop over the sorted items
  unfoldable pub written_entries : List Entry → Outcome (List Entry)
  unfolding written_value
  written_entries [] = ok []
  written_entries (e ∷ es) = do
    entry ← written_value e
    later ← written_entries es
    ok (entry ∷ later)

  abbrev line_of : Entry → String
  line_of (key, value) = concat (key ∷ "=" ∷ value ∷ [])

  unfoldable pub vv_content : List Entry → Outcome String
  unfolding written_entries sorted_entries text_of_lines
  vv_content spice_config = do
    entries ← written_entries (sorted_entries spice_config)
    ok (text_of_lines ("[virt-viewer]" ∷ map line_of entries))

  abbrev write_or_raise : Attempt → String → Outcome String → Exec Files (Unit {0})
  write_or_raise attempt path (ok content) = atomic_write attempt path content
  write_or_raise attempt path (raised e) = λ files. (raised e, files)

  -- the parent directory is there
  unfoldable pub write_vv_file : Attempt → String → List Entry → Exec Files (Unit {0})
  write_vv_file attempt path spice_config = write_or_raise attempt path (vv_content spice_config)
