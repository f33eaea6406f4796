-- ===== src/Daemon.antt =====
-- The class `DisplayDaemon` of relayinner_display/daemon.py, one module for each concern. A
-- method that cannot raise is a function on the daemon; one that may is an action of `Exec Daemon`.
pub mod State
pub mod Failures
pub mod Display
pub mod PairState
pub mod PowerButton
pub mod Pairing
pub mod Preflight
pub mod Launch
pub mod Session
pub mod Tick
pub mod Validity
pub mod Startup
pub mod Loop
pub mod Entry
pub mod FailureWindow
pub mod Presses
pub mod DisplayPolicy
pub mod StateFile
pub mod Backoff
pub mod Escapes
