-- ===== src/Supervisor.antt =====
-- The class `SessionSupervisor` of relayinner_display/session.py: it runs the viewer and the display
-- helper for the daemon, and keeps what the kiosk shows.
pub mod State
pub mod Console
pub mod Power
pub mod Loop
pub mod View
pub mod Allowed
pub mod Stop
pub mod Outputs
