-- ===== src/Daemon/Pairing.antt =====
-- Moonlight pairing: reachability, the live pair state, and the PIN that the operator enters.
use relay_inner_display_scri.Base.{
  ℕ, ◌+◌, String, Bool, true, false, not, ◌&&◌, ◌||◌, Option, none, some, List, [], ◌∷◌, leb,
  if◌then◌else◌, is_some, ◌==◌,
}
use relay_inner_display_scri.Exec.{
  Reason, text, moonlight_host_unreachable, moonlight_probe_unreachable, Exn, os_error,
  assertion_error, Exec, pure, raise, gets, method, modify, ◌>>=◌, ◌>>◌, try_then, Outcome, ok,
}
use relay_inner_display_scri.Config.{AppConfig, ConsoleMoonlightConfig, host_authority}
use relay_inner_display_scri.Models.{
  SessionState, waiting_for_pairing, reconnecting_console, pending_pin_approval, is_pending,
}
use relay_inner_display_scri.Message.{Message, show_waiting, waiting, connect_console}
use relay_inner_display_scri.Services.{Call, Services}
use relay_inner_display_scri.Daemon.State.{Daemon, transition, set_last_error, call}
use relay_inner_display_scri.Daemon.Failures.{schedule_reconnect}
use relay_inner_display_scri.Daemon.PairState.{
  set_moonlight_pair_state, mark_moonlight_as_paired, clear_moonlight_pair_state,
}

-- five minutes, in microseconds
abbrev pub moonlight_pair_timeout : ℕ
moonlight_pair_timeout = 300_000_000

abbrev pub no_moonlight_config : Exn
no_moonlight_config =
    assertion_error (text "Moonlight backend selected without console.moonlight config")

abbrev pub with_moonlight {ℓ} :
    {A : Type ℓ} → Option ConsoleMoonlightConfig → (ConsoleMoonlightConfig → A) → A → A
with_moonlight none k missing = missing
with_moonlight (some m) k missing = k m

abbrev is_waiting_for_pairing : SessionState → Bool
is_waiting_for_pairing waiting_for_pairing = true
is_waiting_for_pairing _ = false

abbrev expired : ℕ → Option ℕ → Bool
expired now none = true
expired now (some requested) = leb (requested + moonlight_pair_timeout) now

unfoldable pub should_issue_pair : ℕ → Daemon → Bool
should_issue_pair now d =
    not (is_pending d.state.moonlight_pair_state)
    || not (is_some d.state.moonlight_pair_pin)
    || expired now d.moonlight_pair_requested_at
    || not d.moonlight_pair_launch_pending

abbrev pairing_message : Services → Option ConsoleMoonlightConfig → Option String → Outcome Message
pairing_message w none pin =
    Outcome.raised
      (assertion_error (text "Moonlight pairing wait requested without active Moonlight PIN"))
pairing_message w (some m) none =
    Outcome.raised
      (assertion_error (text "Moonlight pairing wait requested without active Moonlight PIN"))
pairing_message w (some m) (some pin) = ok (
    show_waiting "pairing_required" (
      some (
        ("backend", "moonlight")
        ∷ ("host", host_authority w.python m)
        ∷ ("pin", pin)
        ∷ ("instructions", "Open the Sunshine web UI PIN page on the guest and enter this PIN.")
        ∷ [])))

module _ (w : Services) (c : AppConfig) where
  unfoldable pub moonlight_pair_waiting_message : Exec Daemon Message
  moonlight_pair_waiting_message d =
      (pairing_message w c.console.moonlight d.state.moonlight_pair_pin, d)

  unfoldable pub moonlight_pairing_pending : Daemon → Bool
  moonlight_pairing_pending d =
      c.target.console_backend == "moonlight"
      && is_pending d.state.moonlight_pair_state
      && is_some d.state.moonlight_pair_pin

  unfoldable pub unreachable_caught : Exn → Exec Daemon Bool
  unreachable_caught (os_error _) = pure false
  unreachable_caught e = raise e

  unfoldable pub moonlight_host_is_reachable : String → ℕ → Exec Daemon Bool
  unfolding unreachable_caught
  moonlight_host_is_reachable host port =
      try_then (call (Call.tcp_connect host port) (λ t. w.tcp_connect t host port))
        unreachable_caught (λ _. pure true)

  unfoldable pub retry_later : ℕ → Reason → Daemon → (Bool × List Message) × Daemon
  unfolding clear_moonlight_pair_state set_last_error schedule_reconnect transition
  retry_later now reason d =
      let d₁ = set_last_error (some reason) (clear_moonlight_pair_state d) in
      (
        (true, waiting "reconnecting" ∷ []),
        transition reconnecting_console (schedule_reconnect c now d₁),
      )

  abbrev unblocked : Daemon → (Bool × List Message) × Daemon
  unblocked d = ((false, []), mark_moonlight_as_paired d)

  -- `_prepare_moonlight_pair_launch`
  unfoldable pub pair_launch_message : ConsoleMoonlightConfig → String → Message
  pair_launch_message m pin =
      connect_console "moonlight" m.binary
        (m.binary ∷ "pair" ∷ host_authority w.python m ∷ "--pin" ∷ pin ∷ []) (some m.state_dir)

  -- the pairing is asked for once more, with a new PIN
  unfoldable pub issue_pair :
      ℕ → ConsoleMoonlightConfig → String → Daemon → (Bool × List Message) × Daemon
  unfolding pair_launch_message set_moonlight_pair_state transition set_last_error
  issue_pair now m pin d =
      let d₁ = record d {
        moonlight_pair_requested_at = some now;
        moonlight_pair_launch_pending = true;
        state = record d.state { moonlight_pair_pin = some pin };
      } in
      let d₂ = set_last_error none (set_moonlight_pair_state pending_pin_approval d₁) in
      ((true, pair_launch_message m pin ∷ []), transition waiting_for_pairing d₂)

  -- the pairing that was asked for is still open
  unfoldable pub keep_waiting : Exec Daemon (Bool × List Message)
  unfolding moonlight_pair_waiting_message
  keep_waiting = do
    modify (λ d. set_last_error none (set_moonlight_pair_state pending_pin_approval d))
    previous ← gets (λ (d : Daemon). d.state.session_state)
    modify (transition waiting_for_pairing)
    if is_waiting_for_pairing previous
        then pure (true, [])
        else do message ← moonlight_pair_waiting_message; pure (true, message ∷ [])

  unfoldable pub wait_for_pin : ℕ → ConsoleMoonlightConfig → Exec Daemon (Bool × List Message)
  wait_for_pin now m = do
    issue ← gets (should_issue_pair now)
    if issue
        then (do
          pin ← call Call.generate_pin (λ t. ok (w.generate_pin t))
          method (issue_pair now m pin))
        else keep_waiting

  abbrev probe : ConsoleMoonlightConfig → Bool → Exec Daemon String
  probe m any_host =
      call (Call.pair_state_probe (host_authority w.python m) any_host)
        (λ t. w.pair_state_probe t (host_authority w.python m) any_host)

  -- `contains_pinned_host_record() and host_reuses_existing_pairing()`
  unfoldable pub reuses_existing_pairing : ConsoleMoonlightConfig → Exec Daemon Bool
  reuses_existing_pairing m = do
    pinned ← call Call.contains_pinned_host_record w.contains_pinned_host_record
    if pinned then (do state ← probe m true; pure (state == "paired")) else pure false

  unfoldable pub after_probe :
      ℕ → ConsoleMoonlightConfig → String → Exec Daemon (Bool × List Message)
  after_probe now m pair_state =
      if pair_state == "paired"
      then method unblocked
      else if pair_state == "unreachable"
      then method (retry_later now (moonlight_probe_unreachable (host_authority w.python m)))
      else do
        reused ← reuses_existing_pairing m
        if reused
            then (do
              call Call.normalize_workspace_host w.normalize_workspace_host
              method unblocked)
            else wait_for_pin now m

  unfoldable pub pair_with : ℕ → ConsoleMoonlightConfig → Exec Daemon (Bool × List Message)
  pair_with now m = do
    reachable ← moonlight_host_is_reachable m.host m.base_port
    if not reachable
        then method
            (retry_later now (moonlight_host_unreachable (host_authority w.python m) m.base_port))
        else do
          modify (λ d. record d { next_reconnect_at = none })
          pair_state ← probe m false
          after_probe now m pair_state

  -- `_handle_moonlight_pairing`: whether the launch is blocked, and the messages.
  unfoldable pub handle_moonlight_pairing : ℕ → Exec Daemon (Bool × List Message)
  handle_moonlight_pairing now =
      with_moonlight c.console.moonlight (pair_with now) (raise no_moonlight_config)
