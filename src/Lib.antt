-- ===== src/Lib.antt =====
-- draind: a daemon that applies power profiles, dims the screen and suspends the machine, agents in
-- the sessions of the users that tell it of idleness and of inhibits, and a command, `draindctl`.
-- They talk over a Unix socket, one JSON message per line.
--
-- What is modelled, and where:
--   Json        src/shared/json.hpp: the value, its accessors, the parser, the two printers.
--   Socket      src/shared/socket.cpp: `LineBuffer::feed` and `write_line`; Open has `listen_unix`
--               and `connect_unix`, as the calls of the kernel that they make.
--   Protocol    src/shared/protocol.hpp: the messages.
--   Config      src/shared/config.cpp: the profiles and the loading of their file.
--   Manager     src/daemon/config_manager.cpp: the loaded configuration and the profile in force.
--   Power       src/daemon/power_manager.cpp: the backlight and the CPU policy in sysfs.
--   Battery     src/shared/battery.hpp: the states of the battery, its reading (Reading).
--   Log         src/shared/logger.hpp: the levels and the line of an entry.
--   Session     src/daemon/session_tracker.cpp: the active session, from the signals of logind.
--   HwEvents    src/daemon/hw_event_monitor.cpp: the lid, the buttons and the commands.
--   Server      src/daemon/server.cpp: the connections and the wait for the acks.
--   Daemon      src/daemon/daemon.cpp: State (the record of the state, the helpers), Handlers (the
--               messages of the agents, the hardware events), Control (the requests of
--               `draindctl`), Loop (the dispatch, the reading of a client, the event loop), Setup
--               (the start and the exit code). Main is src/daemon/main.cpp, the options.
--   Agent       src/agent/agent.cpp: the lines of the daemon and the commands; Running is the
--               connection and the loop, Retiming what new timeouts do to a monitor, Start src/agent/main.cpp and src/agent/agent_config.cpp.
--   Ctl         src/ctl/main.cpp: `draindctl`; Listing, SetProfile and WhileDimmed are its requests
--               over the daemon.
--   Mpris       src/agent/mpris_monitor.cpp: the media players and the inhibit that they hold; the
--               signals of D-Bus and the answers to its queries are events. Board keeps the history of
--               what the bus has said, against which Heard sets the monitor.
--   Idle        src/agent/input_idle_monitor.cpp: the idle timer and its reports; inputs and firings
--               of the timer come with the time of the clock.
--   Wayland     src/agent/wayland_idle_monitor.cpp: the notifications of the compositor.
--   System      an agent and the daemon as one system: Flight (what the lines in flight will do), Acts
--               (what an act of the agent writes), Seen (what the daemon holds), Sync (the invariant),
--               Agreement, Dimming, Sleeping.
--   Base        what these share: lists, texts, maps, integers, results.
--   Tests       runs and laws at concrete inputs.
-- A function of the source keeps its name. The children of a module prove what their names say.
--
-- How the state is modelled. A handler is a function from the state of the daemon to the next one.
-- What it does to the outside (lines, descriptors, commands) is appended to a log. What the kernel
-- answers is an argument: the results of `read` and `write` as lists, the rounds of a wait, the
-- files of sysfs as a function from paths to contents. A call that may throw ends in `done` or
-- `throws`, either with the state it leaves. The event loop runs over a list of events; one that
-- throws ends it, as it ends the program. `std::unordered_map` is an association list, in the order
-- in which the program would walk through it.
--
-- Numbers. `int`, `int64_t` and `uint32_t` are integers with their wrap-around written out. A float
-- is a bit pattern; `std::stod`, `%g` and the cast of a float are the record `Floats`, a parameter.
--
-- Fuel. The parser takes three times the length of the text and one as its fuel: each of its
-- functions takes at most three calls for a character. `Json/Fuel` shows that it is enough. The
-- line buffer takes one round for a character at most. All other loops recurse on a list.
--
-- How the programs interact. The lines that one program hands to `write_line` are texts, and the
-- other reads texts: Daemon/Lines takes the lines of the agent to the handlers of the daemon,
-- Agent/Orders those of the daemon to the agent, Ctl/Listing a request of `draindctl` to the daemon
-- and the reply back. Daemon/Refines sets the handlers against an abstract machine of agents and
-- their reasons. System puts the agent and the daemon side by side: each acts at any time, the lines of
-- the agent are in flight between them in order, and what the daemon says to the agent is any line. It
-- carries the history of what the bus has said of the players, which no program sees.
--
-- Not modelled: where the programs log; the registration of descriptors with epoll, signals and
-- forks; what D-Bus, logind, the compositor and the kernel do, whose answers are
-- arguments; the usage texts of the daemon and of the agent. `draindctl` and the daemon's
-- configuration manager do not look at the results of their writes, nor does the power manager, and
-- these results are left out. The line that a handler hands to `Server::send` counts as sent; what a
-- partial write does is in Socket/Write.
pub mod Base
pub mod Json
pub mod Socket
pub mod Protocol
pub mod Config
pub mod Power
pub mod Agent
pub mod Battery
pub mod Ctl
pub mod Server
pub mod Session
pub mod Manager
pub mod HwEvents
pub mod Mpris
pub mod Idle
pub mod Log
pub mod Wayland
pub mod Daemon
pub mod System
pub mod Tests
