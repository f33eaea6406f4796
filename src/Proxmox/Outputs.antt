-- ===== src/Proxmox/Outputs.antt =====
-- What the outputs of the commands give: the status of a VM and the name of the node.
use Prim.Native.Char.{Char}
use Prim.Native.String.{◌++◌ as ◌<>◌}
use package.text.Mathlib.TextLemmas.{nil-append, cons-append, append-nil}
use mathlib.Core.Path.{subst}
use relay_inner_display_scri.Base.{
  ℕ, ◌≡◌, refl, ◌∙◌, ap, String, Bool, true, false, ◌⊎◌, inl, inr, Option, none, some, List, [],
  ◌∷◌, if◌then◌else◌, is_empty, is_space, show_ℕ, one_of, concat, arith, pos, Bool-cases,
}
use relay_inner_display_scri.Exec.{Reason, Outcome, ok, raised, proxmox_command_error}
use relay_inner_display_scri.Exec.Results.{◌>>=◌}
use relay_inner_display_scri.Json.{Json, array, Items}
use relay_inner_display_scri.Decimal.Prints.{all_chars, is_solid}
use relay_inner_display_scri.Proxmox.{
  Client, CommandResult, run_json, word, skip_spaces, spaced_word, some_word, after, status_at,
  search_status, status_or_error, get_vm_status, node_names, chosen_node, node_or_short,
  resolve_node_name, nodes_command,
}

-- a text that is not empty and has no white space
abbrev pub IsWord : String → Type 0
IsWord w = (is_empty w ≡ false) × (all_chars is_solid w ≡ true)

guarded-solid :
    (c : Char) (t : String) (b : Bool)
    → is_space c ≡ b
    → all_chars is_solid t ≡ true
    → all_chars is_solid (if b then "" else String.◌∷◌ c t) ≡ true
unfolding all_chars
guarded-solid c t true e h = refl
guarded-solid c t false e h = ground (arith, e, h)

word-solid : (s : String) → all_chars is_solid (word s) ≡ true
unfolding all_chars
word-solid String.[] = refl
word-solid (String.◌∷◌ c s) = guarded-solid c (word s) (is_space c) refl (word-solid s)

some_word-IsWord : (s w : String) → some_word (word s) ≡ some w → IsWord w
some_word-IsWord s w h =
    let same : word s ≡ w = ground (arith, h) in
    (ground (arith, h), subst (λ t. all_chars is_solid t ≡ true) same (word-solid s))

spaced_word-IsWord : (s w : String) → spaced_word s ≡ some w → IsWord w
spaced_word-IsWord String.[] w h = let impossible : ⊥ = cc h in elim impossible [ ]
spaced_word-IsWord (String.◌∷◌ c s) w h = some_word-IsWord (skip_spaces s) w (ground (arith, h))

status_at-IsWord :
    (o : Option String) (w : String)
    → elim o [ none ↦ none | some rest ↦ spaced_word rest ] ≡ some w
    → IsWord w
status_at-IsWord none w h = let impossible : ⊥ = cc h in elim impossible [ ]
status_at-IsWord (some rest) w h = spaced_word-IsWord rest w h

searched-IsWord :
    (s w : String) (later : Option String)
    → (later ≡ some w → IsWord w)
    → elim (status_at s) [ none ↦ later | some v ↦ some v ] ≡ some w
    → IsWord w
searched-IsWord s w later k h = at_place (status_at s) refl h
  where
    at_place :
        (o : Option String)
        → status_at s ≡ o
        → elim o [ none ↦ later | some v ↦ some v ] ≡ some w
        → IsWord w
    at_place none e g = k g
    at_place (some v) e g = status_at-IsWord (after "status:" s) w (e ∙ g)

search_status-IsWord : (s w : String) → search_status s ≡ some w → IsWord w
unfolding search_status
search_status-IsWord String.[] w h = let impossible : ⊥ = cc h in elim impossible [ ]
search_status-IsWord (String.◌∷◌ c s) w h =
    searched-IsWord (String.◌∷◌ c s) w (search_status s) (search_status-IsWord s w) h

status_or_error-IsWord :
    (client : Client) (vmid : ℕ) (w : String) (o : Option String)
    → (o ≡ some w → IsWord w)
    → status_or_error client vmid o ≡ ok w
    → IsWord w
status_or_error-IsWord client vmid w none k h = let impossible : ⊥ = cc h in elim impossible [ ]
status_or_error-IsWord client vmid w (some v) k h = k (cc h)

result-IsWord :
    (client : Client) (vmid : ℕ) (w : String) (m : Outcome CommandResult)
    → (m >>= λ r. status_or_error client vmid (search_status r.stdout)) ≡ ok w
    → IsWord w
unfolding ◌>>=◌
result-IsWord client vmid w (raised x) h = let impossible : ⊥ = cc h in elim impossible [ ]
result-IsWord client vmid w (ok r) h =
    status_or_error-IsWord client vmid w (search_status r.stdout) (search_status-IsWord r.stdout w)
      h

-- Whatever `qm status` prints, a status that is returned is not empty and has no white space.
pub get_vm_status-IsWord :
    (client : Client) (vmid : ℕ) (w : String) → get_vm_status client vmid ≡ ok w → IsWord w
unfolding get_vm_status
get_vm_status-IsWord client vmid w h = result-IsWord client vmid w _ h

word-append : (w t : String) → all_chars is_solid w ≡ true → word (w <> t) ≡ w <> word t
unfolding all_chars
word-append String.[] t h = rw (nil-append, nil-append)
word-append (String.◌∷◌ c s) t h =
    rw (cons-append, cons-append) (ground (arith, word-append s t (ground (arith, h))))

skip_spaces-append : (w t : String) → IsWord w → skip_spaces (w <> t) ≡ w <> t
unfolding all_chars
skip_spaces-append String.[] t h = let impossible : ⊥ = ground (arith, h.0) in elim impossible [ ]
skip_spaces-append (String.◌∷◌ c s) t h = rw cons-append (ground (arith, h.1))

status_text :
    (t : String)
    → "status: " <> t
      ≡ String.◌∷◌ "s" (
          String.◌∷◌ "t" (
            String.◌∷◌ "a" (
              String.◌∷◌ "t"
                (String.◌∷◌ "u" (String.◌∷◌ "s" (String.◌∷◌ ":" (String.◌∷◌ " " t)))))))
status_text t = rw (
  cons-append, cons-append, cons-append, cons-append, cons-append, cons-append, cons-append,
  cons-append, nil-append,
)

abbrev status_line : String → String
status_line t = String.◌∷◌ "s" (
    String.◌∷◌ "t" (
      String.◌∷◌ "a"
        (String.◌∷◌ "t" (String.◌∷◌ "u" (String.◌∷◌ "s" (String.◌∷◌ ":" (String.◌∷◌ " " t)))))))

search_status_line :
    (t w : String)
    → word (skip_spaces t) ≡ w
    → is_empty w ≡ false
    → search_status (status_line t) ≡ some w
unfolding search_status is_space
search_status_line t w e filled = rw (search_status, e, filled)

search_status-prints :
    (w : String) → IsWord w → search_status (concat ("status: " ∷ w ∷ "\n" ∷ [])) ≡ some w
unfolding is_space
search_status-prints w is_word = rw status_text (
    search_status_line (w <> ("\n" <> "")) w
      (ap word (skip_spaces-append w ("\n" <> "") is_word)
        ∙ word-append w ("\n" <> "") is_word.1
        ∙ append-nil w)
      is_word.0)

-- If `qm status` succeeds and prints `status: `, a word and a line end, then that word is the
-- status, if it is not empty and has no white space.
pub get_vm_status-prints :
    (client : Client) (vmid : ℕ) (w : String) (r : CommandResult)
    → client.runner ("qm" ∷ "status" ∷ show_ℕ vmid ∷ []) client.timeout_s ≡ ok r
    → r.returncode ≡ pos 0
    → r.stdout ≡ concat ("status: " ∷ w ∷ "\n" ∷ [])
    → IsWord w
    → get_vm_status client vmid ≡ ok w
unfolding get_vm_status ◌>>=◌
get_vm_status-prints client vmid w r ran succeeded printed is_word =
    rw (ran, succeeded, printed, search_status-prints w is_word)

node_or_short-cases :
    (short name : String) (o : Outcome Json)
    → node_or_short short o ≡ ok name
    → (name ≡ short) ⊎ ((nodes : Items) × (o ≡ ok (array nodes)) × (node_names nodes ≡ name ∷ []))
unfolding chosen_node
node_or_short-cases short name (ok (array nodes)) h = chosen (node_names nodes) refl (cc h)
  where
    chosen :
        (names : List String)
        → node_names nodes ≡ names
        → name ≡ chosen_node short names
        → (name ≡ short)
          ⊎ ((nodes' : Items) × (ok (array nodes) ≡ ok (array nodes'))
              × (node_names nodes' ≡ name ∷ []))
    chosen [] e g = inl (ground (arith, g))
    chosen (n ∷ []) e g = elim (Bool-cases (one_of short (n ∷ []))) [
      | inl there ↦ inl (g ∙ rw there)
      | inr missing ↦ inr (nodes, refl, e ∙ rw (g, missing))
    ]
    chosen (n ∷ (m ∷ ns)) e g = elim (Bool-cases (one_of short (n ∷ (m ∷ ns)))) [
      | inl there ↦ inl (g ∙ rw there)
      | inr missing ↦ inl (g ∙ rw missing)
    ]
node_or_short-cases short name (raised (proxmox_command_error _)) h = inl (cc h)
node_or_short-cases short name (raised _) h = let impossible : ⊥ = cc h in elim impossible [ ]
node_or_short-cases short name (ok _) h = inl (cc h)

-- A name is the short host name, or the only one that the listing has.
abbrev pub IsNodeName : Client → String → Type 0
IsNodeName client name =
    (name ≡ client.hostname)
    ⊎ ((nodes : Items) × (run_json client nodes_command ≡ ok (array nodes))
        × (node_names nodes ≡ name ∷ []))

abbrev pub IsResolved : Client → Outcome String → Type 0
IsResolved client (ok name) = IsNodeName client name
IsResolved client (raised (proxmox_command_error _)) = ⊥
IsResolved client (raised _) = Unit

caught :
    (short : String) (o : Outcome Json) (r : Reason)
    → node_or_short short o ≡ raised (proxmox_command_error r)
    → ⊥
caught short (ok _) r h = cc h
caught short (raised (proxmox_command_error _)) r h = cc h
caught short (raised _) r h = cc h

resolved :
    (client : Client) (o : Outcome String)
    → ((name : String) → o ≡ ok name → IsNodeName client name)
    → ((r : Reason) → o ≡ raised (proxmox_command_error r) → ⊥)
    → IsResolved client o
resolved client (ok name) k l = k name refl
resolved client (raised (proxmox_command_error r)) k l = l r refl
resolved client (raised _) k l = tt

-- Where the node name is automatic, the name is the short host name or the only one that the
-- listing of the nodes has, and no failed command or invalid output is raised as
-- ProxmoxCommandError.
pub resolve_node_name-IsResolved :
    (client : Client) → IsResolved client (resolve_node_name client "auto")
unfolding resolve_node_name
resolve_node_name-IsResolved client =
    resolved client (node_or_short client.hostname (run_json client nodes_command))
      (λ name h. node_or_short-cases client.hostname name (run_json client nodes_command) h)
      (λ r h. caught client.hostname (run_json client nodes_command) r h)
