-- ===== src/Daemon.antt =====
-- src/daemon/daemon.cpp: the state of the daemon, its handlers and its event loop, and what is
-- proved of them.
pub mod State
pub mod Handlers
pub mod Control
pub mod Loop
pub mod Inhibits
pub mod Policy
pub mod Suspend
pub mod Moves
pub mod Traces
pub mod Speech
pub mod Marks
pub mod Clients
pub mod Setup
pub mod Start
pub mod Switching
pub mod Main
pub mod Lines
pub mod Board
pub mod Refines
