-- ===== src/Lib.antt =====
-- The relay daemon and its session: an appliance that shows the console of one Proxmox VM on the
-- display of its host.
--
-- The daemon (relayinner_display/daemon.py) runs as root. It polls the status of the VM with `qm`,
-- reads the power button of the host, decides the power of the display, prepares the viewer of the
-- configured backend (SPICE, VNC, Looking Glass, Moonlight), and tells a session process over a Unix
-- socket what to show. The session (relayinner_display/session.py) runs the viewer, switches the
-- display, and reports back. Both read the records of relayinner_display/config.py; the daemon writes
-- its state (relayinner_display/models.py) to a file after each change.
--
-- Where the parts are modelled:
-- In Config: the dataclasses of relayinner_display/config.py and their derived properties. In
-- Config.Toml, Fields, Moonlight, Console, Parse and Load: the tables of the file, the validators of
-- a field, `_parse_console_config`, `parse_config`, `load_config` and the fallback. A result is a
-- value, a ConfigError or another exception (Config.Checked). Config.Platform names what is taken
-- from Python's library. In Config.Sound and Config.Escapes: what is stated of the parser.
-- In Models: `RuntimeState` and its methods, relayinner_display/models.py.
-- In Message: the payloads of the socket, as both sides use them once they are validated.
-- In Services: what the daemon calls outside itself. Each answer may depend on the history of the
-- calls, so a value of `Services` is any behaviour of the outside. The evdev source, the Moonlight
-- workspace and its probes stand here as parameters; so does the Proxmox client. Input, Moonlight and
-- Proxmox model them on their own.
-- In Input: relayinner_display/input.py, the device given by the events that it holds, and the files of
-- logind by their lines. In Moonlight, Moonlight.Settings, Escapes and Hosts: what the daemon reads
-- from Moonlight's settings files (`_moonlight_workspace_*` of relayinner_display/daemon.py), each file
-- a list of lines, and the choice of the server's certificate. In Moonlight.Probe:
-- `_probe_moonlight_pair_state`, over what its requests and the XML parser give. The index of a host
-- record is read as its number, also where it has more digits than `int` takes.
-- In Proxmox, Proxmox.Vnc and Proxmox.Spice: `ProxmoxClient` of relayinner_display/proxmox.py, each
-- operation over the result of its command. In Decimal: `int` and the digits that `str` prints. In
-- AtomicFile: a write by way of a temporary file, over the files as a function of the path.
-- In Daemon.Entry: the configuration that `run` of the daemon starts with.
-- In Exec: methods as functions from an object to an outcome and the object. An exception is a value
-- of `Exn`, and what was written before a raise stays written. Exec.Keeps and Exec.Ends are the
-- rules for invariants and for postconditions of such methods.
-- In Daemon.State, Failures, Display, PairState, PowerButton, Pairing, Preflight, Launch, Session, Tick,
-- Startup and Loop: the attributes and the methods of `DisplayDaemon` and the loop of `run`. A
-- method that cannot raise is a function on the daemon; a method with several exits is a chain of
-- definitions, one for each part between two exits.
-- In Daemon.Validity, StateFile, Presses, FailureWindow, Backoff, DisplayPolicy and Escapes: what is
-- stated of the daemon.
-- In Ipc: `read_messages` of the socket server over what `recv` gives, and the lines of a stream; the
-- loop over the lines has the length of the buffer as fuel, and each turn takes at least one byte. In
-- Ipc.Decode, Validate and Shapes: `decode_message` and `_validate_message` of
-- relayinner_display/ipc.py over JSON values (Json), with the schemas, and the messages as objects.
-- In Supervisor: `SessionSupervisor`, with the viewer process and the display helper as parameters.
-- In Examples: one configuration and the daemons at which the theorems are applied.
--
-- Times are microseconds in ℕ. Log lines are left out, and so are the modes and owners of files,
-- sockets, and sleeps. Texts of messages and errors are kept as constructors over their arguments.
-- The write of the state file is taken to succeed, and a reconnect delay to be one that a `timedelta`
-- holds. Each handler reads its own time.
-- The loop of `run` has no end of its own, so it is modelled over any finite list of rounds; every
-- other loop of the daemon and of the session is a recursion on a list or on a count.
--
-- Not modelled: the parsers of TOML and JSON, the rewriting of Moonlight's settings files, the
-- HTTP request of the probe, the socket client of the session, the kiosk launcher and the installer.
pub mod Base
pub mod Exec
pub mod Config
pub mod Models
pub mod Message
pub mod Services
pub mod AtomicFile
pub mod Json
pub mod Decimal
pub mod Ipc
pub mod Proxmox
pub mod Input
pub mod Moonlight
pub mod Daemon
pub mod Supervisor
pub mod Examples
