-- ===== src/Lib.antt =====
-- True Tick: the timer resolution utility.
--
-- True Tick is a Windows notification area application. It asks the kernel for a finer timer
-- resolution, verifies what the kernel reports, and gives back exactly its own request. A command
-- line client sends it authenticated frames over a named pipe.
--
-- The parts and how they interact:
--
-- * Core (crates/tick-core/src/lib.rs): the durations in units of 100 ns, the status and error
--   values, and the queue that keeps the latest intent.
-- * Platform (crates/tick-platform-windows/src/lib.rs): the interface TimerPlatform as a record of
--   operations on a state, the checks of a requested interval (validate_interval,
--   resolve_request), and in Platform/Windows the adapter WindowsTimerPlatform over the two native
--   calls, which are the parameter Kernel. Platform/Sampling is about the median of the reads that
--   follow a request, Platform/Bounds about the checks, and Platform/Token states as laws what the
--   controller relies on: a resolution request is held or not. Platform/Windows/Token derives the
--   laws from the documented behaviour of the native calls.
-- * Ownership (crates/tick-ownership/src/lib.rs): the state machine of ownership, and in
--   Ownership/Controller the TimerController over any platform: start, stop, query,
--   observe_current, the startup settle probe, and the floor of the requested interval. Its
--   children give the step relation of the public methods, the invariant, the outcomes, and the
--   agreement of the state with the request that is really held.
-- * Ipc (crates/tick-ipc/src/lib.rs): verbs, errors and bounds; Ipc/Crc the checksum; Ipc/Frame the
--   frames; Ipc/Token the session token and its hex form; Ipc/Response the replies; Ipc/RateLimit
--   the limiter of requests of each process.
-- * Policy (crates/tick-policy/src/lib.rs): whether a request is wanted, the tiers, and in
--   Policy/Latency the responsiveness tracker.
-- * Watchdog (crates/tick-watchdog/src/lib.rs): the verdict on a heartbeat and the monitor loop.
-- * Observation (crates/tick-observation-windows/src/lib.rs): the power state, over what the native
--   calls return. Observation/Blocking composes it with the policy and the acquisition test.
-- * Pause (apps/true-tick/src/pause.rs): the presets of durations, the coordinator of the one timed
--   action, the acquisition test and the timer interval.
-- * App (apps/true-tick/src): App/Shutdown is shutdown.rs, App/Quit is tray/quit.rs,
--   App/CommandQueue is tray/ipc_queue.rs, the queue from the pipe server to the UI thread, and
--   App/PipeServer is the handler of a connection in tray/ipc.rs, which composes the rate limiter,
--   the frame, the token and the queue. App/Power is the reconciliation of power and the handoff
--   after a release in tray_surface.rs, with a test of tray/power.rs.
-- * Diagnostics (crates/tick-diagnostics/src/lib.rs and privacy.rs): the events, their labels and
--   bounds. Diagnostics/Privacy is the redaction of texts, Diagnostics/Store the bounded store with
--   its hash chain, over Diagnostics/State, with the operations that events belong to in
--   Diagnostics/Operations and the counting of repeated errors in Diagnostics/Coalescing.
--   Diagnostics/Rows is the selection of rows, and Diagnostics/Report the two table formats and the
--   line of an event.
-- * Crypto (crates/tick-crypto/src/lib.rs): the signed release manifest, its parsing, its canonical
--   bytes and its verification.
-- * Launcher (apps/launcher/src/main.rs): Launcher/Slots verifies a slot by the signed manifest of
--   Crypto or by the list of checksums, Launcher/Selection keeps the health of the slots and the
--   release counter, restores the golden master and selects the slot, and Launcher/Run starts its
--   program.
-- * Cli (apps/true-tick-cli/src/main.rs): the arguments of the client, in Cli/Run the run of a
--   request and the client's exchange with the engine (crates/tick-ipc/src/lib.rs), and in
--   Cli/Json the JSON form of the status.
-- * Session (apps/true-tick/src/session.rs): the tombstone of a running process, and in
--   Session/Files the reads and writes of the marker.
-- * Config (apps/true-tick/src/config.rs): the text of the configuration, and in Config/Files its
--   load, recovery and replacement.
-- * Base holds what these share: lists and Boolean tests over the native numbers, results and the
--   methods that return them, bytes and little-endian words, the laws of the bit operations, and
--   the texts with their decimal numbers, words and lines.
-- * Tests runs the definitions at concrete inputs and applies each theorem there.
--
-- A method that changes a record takes it as its last argument and returns it beside the result.
-- A method that returns at an error keeps the state as it stands. Words are numbers: where the
-- source wraps, saturates or casts, the model writes it out. An Instant is a number of nanoseconds
-- and a text is its bytes in UTF-8. A path is the list of its parts below the root of the package.
-- Loops are structural recursion, over the bytes, the records or the bits, so that no fuel is
-- chosen; the startup probe carries the attempts that are left. Four loops carry a number: the
-- decimal form has at most 40 digits, which a word of 128 bits does not reach; a scan of the
-- redaction has the length of its text, and moves at least one byte at a time; the search for the
-- name of a backup has the 1025 attempts of the source; and the normalization of active-slot.txt
-- has the eight passes of the source.
-- A loop that a thread runs is a function of what it reads in each cycle, and an interleaving of
-- two threads is a sequence of whole operations.
--
-- Not modelled: the native calls, SHA-256, Ed25519, the table of alphabetic characters and the
-- lower case of Unicode, the operating system's random source, files, clock, pipes, windows and
-- threads, which are parameters or left out; run_daemon of apps/true-tick-cli, which starts the
-- engine and polls the clock, a file and the pipe, and the texts of the errors of Ipc, which are
-- code of the repository that Cli/Run takes as parameters; the log calls of the platform and the
-- controller, which only feed the diagnostic store; the recorder and the retention of log files
-- in crates/tick-diagnostics; the civil calendar of crates/tick-core; the parser and the labels
-- of durations in apps/true-tick/src/pause.rs; the message box of apps/launcher; the override of
-- the trust anchor in debug builds; crates/tick-startup-windows;
-- apps/true-tick/src/emergency.rs; the tray controller, menu, icon and windows of
-- apps/true-tick; apps/manifest-tool.
pub mod Base
pub mod Core
pub mod Platform
pub mod Ownership
pub mod Ipc
pub mod Policy
pub mod Watchdog
pub mod Pause
pub mod Observation
pub mod App
pub mod Cli
pub mod Session
pub mod Config
pub mod Diagnostics
pub mod Crypto
pub mod Launcher
mod Tests
