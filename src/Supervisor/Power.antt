-- ===== src/Supervisor/Power.antt =====
-- The display helper: which outputs it is asked to switch, and what is reported.
use Prim.Native.Char.{code}
use relay_inner_display_scri.Base.{
  String, Bool, true, not, ◌&&◌, ◌||◌, Option, none, some, List, [], ◌∷◌, if◌then◌else◌, ◌==◌,
  is_empty, strip, is_space, eqb, one_of,
}
use relay_inner_display_scri.Exec.{Exn, os_error, Exec, pure, raise, gets, method, ◌>>=◌, try_then}
use relay_inner_display_scri.Services.{Completed}
use relay_inner_display_scri.Message.{Event, display_power_applied}
use relay_inner_display_scri.Supervisor.State.{
  ProcessCall, Host, SessionSupervisor, refresh_view_state, text_or, call_host,
}

-- `line.split(maxsplit=1)[0]` of a line that starts with no blank
unfoldable pub first_word : String → String
first_word String.[] = ""
first_word (String.◌∷◌ ch line) =
    let rest = first_word line in if is_space ch then "" else String.◌∷◌ ch rest

abbrev starts_blank : String → Bool
starts_blank String.[] = true
starts_blank (String.◌∷◌ ch line) = is_space ch

module _ (w : Host) where
  unfoldable pub is_output_name : String → Bool
  is_output_name String.[] = true
  is_output_name (String.◌∷◌ ch name) =
      let rest = is_output_name name in
      (w.isalnum ch || eqb (code ch) b'-' || eqb (code ch) b'.' || eqb (code ch) b'_') && rest

  unfoldable pub wlr_randr_names : List String → List String → List String
  unfolding is_output_name first_word
  wlr_randr_names seen [] = []
  wlr_randr_names seen (line ∷ lines) =
      let name = first_word line in
      let skipped = wlr_randr_names seen lines in
      let kept = wlr_randr_names (name ∷ seen) lines in
      if starts_blank line
      then skipped
      else if is_empty name || not (is_output_name name)
      then skipped
      else if one_of name seen
      then skipped
      else name ∷ kept

  unfoldable pub parse_wlr_randr_outputs : String → List String
  unfolding wlr_randr_names
  parse_wlr_randr_outputs output = wlr_randr_names [] (w.splitlines output)

  unfoldable pub helper_failed : Exn → Exec SessionSupervisor (Option Completed)
  helper_failed (os_error reason) = pure none
  helper_failed e = raise e

  unfoldable pub run_power_helper_command : List String → Exec SessionSupervisor (Option Completed)
  unfolding helper_failed
  run_power_helper_command command =
      try_then (call_host (ProcessCall.run_helper command) (λ t. w.run_helper t command))
        helper_failed
        (λ completed. pure (if eqb completed.returncode 0 then some completed else none))

  unfoldable pub applied : String → SessionSupervisor → List Event × SessionSupervisor
  applied state s = (
    display_power_applied state ∷ [],
    refresh_view_state
        (record s { view_state = record s.view_state { display_power_state = state } }),
  )

  abbrev switch : String → String
  switch state = if state == "on" then "--on" else "--off"

  unfoldable pub report_applied : String → Option Completed → Exec SessionSupervisor (List Event)
  unfolding applied
  report_applied state none = pure []
  report_applied state (some _) = method (applied state)

  unfoldable pub apply_generic_display_power : String → String → Exec SessionSupervisor (List Event)
  unfolding report_applied
  apply_generic_display_power state output = do
    helper ← gets (λ (s : SessionSupervisor). s.power_helper)
    completed ← run_power_helper_command (helper ∷ switch state ∷ text_or (strip output) "*" ∷ [])
    report_applied state completed

  unfoldable pub outputs_of : Option Completed → List String
  unfolding parse_wlr_randr_outputs
  outputs_of none = []
  outputs_of (some completed) = parse_wlr_randr_outputs completed.stdout

  unfoldable pub resolve_wlr_randr_outputs : String → Exec SessionSupervisor (List String)
  unfolding outputs_of
  resolve_wlr_randr_outputs output = do
    helper ← gets (λ (s : SessionSupervisor). s.power_helper)
    if not (is_empty (strip output))
        then pure (strip output ∷ [])
        else do completed ← run_power_helper_command (helper ∷ []); pure (outputs_of completed)

  -- `if completed is None: return []`
  abbrev pub if_completed :
      Option Completed → Exec SessionSupervisor (List Event) → Exec SessionSupervisor (List Event)
  if_completed none next = pure []
  if_completed (some _) next = next

  -- The loop over the outputs ends at the first that fails; with none left, the switch is reported.
  unfoldable pub switch_outputs : String → List String → Exec SessionSupervisor (List Event)
  unfolding applied
  switch_outputs state [] = method (applied state)
  switch_outputs state (output ∷ outputs) = do
    helper ← gets (λ (s : SessionSupervisor). s.power_helper)
    completed ← run_power_helper_command (helper ∷ "--output" ∷ output ∷ switch state ∷ [])
    if_completed completed (switch_outputs state outputs)

  unfoldable pub switch_resolved : String → List String → Exec SessionSupervisor (List Event)
  unfolding switch_outputs
  switch_resolved state [] = pure []
  switch_resolved state (output ∷ outputs) = switch_outputs state (output ∷ outputs)

  unfoldable pub apply_wlr_randr_display_power :
      String → String → Exec SessionSupervisor (List Event)
  unfolding switch_resolved
  apply_wlr_randr_display_power state output = do
    outputs ← resolve_wlr_randr_outputs output
    switch_resolved state outputs

  abbrev uses_wlr_randr : SessionSupervisor → Bool
  uses_wlr_randr s = text_or (w.path_name s.power_helper) s.power_helper == "wlr-randr"

  unfoldable pub apply_display_power : String → String → Exec SessionSupervisor (List Event)
  apply_display_power state output = do
    wlr ← gets uses_wlr_randr
    if wlr
        then apply_wlr_randr_display_power state output
        else apply_generic_display_power state output
