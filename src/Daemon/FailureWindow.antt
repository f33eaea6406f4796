-- ===== src/Daemon/FailureWindow.antt =====
-- When a run of Proxmox failures degrades the appliance.
use relay_inner_display_scri.Base.{
  ℕ, ◌+◌, ◌≤◌, ◌<◌, ◌≡◌, refl, ◌∙◌, arith, List, [], ◌∷◌, ◌++◌, length, length-append,
}
use mathlib.Core.List.{append-nil, append_assoc}
use relay_inner_display_scri.Exec.{Reason}
use relay_inner_display_scri.Models.{degraded}
use relay_inner_display_scri.Daemon.State.{Daemon, persist_state, set_last_error}
use relay_inner_display_scri.Daemon.Failures.{
  record_proxmox_failure, recent_failures, enter_degraded, proxmox_failure_window,
}

-- failures at the given times, with no success between them
pub fail_each : Reason → List ℕ → Daemon → Daemon
fail_each r [] d = d
fail_each r (now ∷ later) d = fail_each r later (record_proxmox_failure now r d).1

-- every time is at most the window before `last`, and at most `last`
abbrev pub IsBurst : ℕ → List ℕ → Type 0
IsBurst last [] = Unit
IsBurst last (t ∷ ts) = (t ≤ last) × (last ≤ t + proxmox_failure_window) × IsBurst last ts

-- all of the stamps are recent at any time up to `last`
recent_burst :
    (last now : ℕ) (ts : List ℕ) → now ≤ last → IsBurst last ts → recent_failures now ts ≡ ts
unfolding recent_failures
recent_burst last now [] h b = refl
recent_burst last now (t ∷ ts) h b = ground (arith, recent_burst last now ts h b.2)

IsBurst-append :
    (last : ℕ) (ss ts : List ℕ) → IsBurst last ss → IsBurst last ts → IsBurst last (ss ++ ts)
IsBurst-append last [] ts hs ht = ht
IsBurst-append last (s ∷ ss) ts hs ht = (hs.0, hs.1, IsBurst-append last ss ts hs.2 ht)

stamps_after :
    (r : Reason) (now : ℕ) (d : Daemon)
    → (record_proxmox_failure now r d).1.proxmox_failure_timestamps
      ≡ recent_failures now d.proxmox_failure_timestamps ++ now ∷ []
unfolding record_proxmox_failure enter_degraded
stamps_after r now d = ground arith

stamps-fail_each :
    (r : Reason) (last : ℕ) (ts : List ℕ) (d : Daemon)
    → IsBurst last d.proxmox_failure_timestamps
    → IsBurst last ts
    → (fail_each r ts d).proxmox_failure_timestamps ≡ d.proxmox_failure_timestamps ++ ts
unfolding fail_each
stamps-fail_each r last [] d hd ht = rw append-nil
stamps-fail_each r last (t ∷ ts) d hd ht =
    let d' = (record_proxmox_failure t r d).1 in
    let e : d'.proxmox_failure_timestamps ≡ d.proxmox_failure_timestamps ++ t ∷ [] =
      rw (stamps_after, recent_burst last t d.proxmox_failure_timestamps ht.0 hd) in
    stamps-fail_each r last ts d'
      (rw e (IsBurst-append last d.proxmox_failure_timestamps (t ∷ []) hd (ht.0, ht.1, tt))) ht.2
    ∙ rw e (append_assoc d.proxmox_failure_timestamps (t ∷ []) ts)

-- The last failure of the run decides: its stamps are those of the whole run.
degraded_by_last :
    (r : Reason) (now : ℕ) (d : Daemon)
    → 4 ≤ length (recent_failures now d.proxmox_failure_timestamps)
    → (record_proxmox_failure now r d).1.state.session_state ≡ degraded
unfolding record_proxmox_failure enter_degraded
degraded_by_last r now d h =
    ground (arith, length-append (recent_failures now d.proxmox_failure_timestamps) (now ∷ []))

fail_each-append :
    (r : Reason) (ts : List ℕ) (now : ℕ) (d : Daemon)
    → fail_each r (ts ++ now ∷ []) d ≡ (record_proxmox_failure now r (fail_each r ts d)).1
unfolding fail_each
fail_each-append r [] now d = refl
fail_each-append r (t ∷ ts) now d = fail_each-append r ts now (record_proxmox_failure t r d).1

-- Five or more Proxmox failures, with no success between them and none before them, leave the
-- appliance in degraded mode, if the failures before the last are at most two minutes older than
-- it and no later.
pub burst_degrades :
    (r : Reason) (ts : List ℕ) (last : ℕ) (d : Daemon)
    → d.proxmox_failure_timestamps ≡ []
    → IsBurst last ts
    → 4 ≤ length ts
    → (fail_each r (ts ++ last ∷ []) d).state.session_state ≡ degraded
burst_degrades r ts last d cleared burst many =
    let d' = fail_each r ts d in
    let stamps : d'.proxmox_failure_timestamps ≡ ts =
      stamps-fail_each r last ts d (rw cleared tt) burst ∙ rw cleared in
    rw fail_each-append
      (degraded_by_last r last d' (rw (stamps, recent_burst last last ts (omega arith) burst) many))

recent_le : (now : ℕ) (ss : List ℕ) → length (recent_failures now ss) ≤ length ss
unfolding recent_failures
recent_le now [] = omega arith
recent_le now (s ∷ ss) = ground (arith, recent_le now ss)

stays_once :
    (r : Reason) (now : ℕ) (d : Daemon)
    → length d.proxmox_failure_timestamps < 4
    → ((record_proxmox_failure now r d).1.state.session_state ≡ d.state.session_state)
      × (length (record_proxmox_failure now r d).1.proxmox_failure_timestamps
          ≤ length d.proxmox_failure_timestamps + 1)
unfolding record_proxmox_failure persist_state set_last_error
stays_once r now d h = ground (
  arith,
  recent_le now d.proxmox_failure_timestamps,
  length-append (recent_failures now d.proxmox_failure_timestamps) (now ∷ []),
)

-- Failures that make, with those already remembered, at most four never change the session state
-- of the appliance, however close they are.
pub few_failures_stay :
    (r : Reason) (ts : List ℕ) (d : Daemon)
    → length d.proxmox_failure_timestamps + length ts ≤ 4
    → (fail_each r ts d).state.session_state ≡ d.state.session_state
unfolding fail_each
few_failures_stay r [] d h = refl
few_failures_stay r (t ∷ ts) d h =
    let once = stays_once r t d (omega arith) in
    few_failures_stay r ts (record_proxmox_failure t r d).1 (omega (arith, once.1)) ∙ once.0
