-- ===== src/Server.antt =====
-- src/daemon/server.hpp and src/daemon/server.cpp: the connections, and the wait for the acks of the
-- agents. The calls back into the daemon are in Daemon/Loop.
pub mod Acks
use draind.Base.{
  starts_with, ℕ, Bool, true, false, ◌&&◌, ◌||◌, Option, none, some, List, [], ◌∷◌, Text, codes,
  ◌==◌, if◌then◌else◌,
}
use draind.Base.Maps.{insert, lookup}
use draind.Socket.Open.{SocketAnswers, listen_unix}

-- `init`: the descriptor that it listens on, `none` where it returns false.
unfoldable pub init : SocketAnswers → Text → Option ℕ
unfolding listen_unix
init k path = (listen_unix k path).0

-- `Connection`: the text in its line buffer and its two marks.
pub record Connection : Type 0 where
  pub buf : Text
  pub is_agent : Bool
  pub is_ctl : Bool

abbrev pub Connections : Type 0
Connections = List (ℕ × Connection)

-- The entry that `accept_client` makes.
abbrev pub fresh : Connection
fresh = record { buf = []; is_agent = false; is_ctl = false }

-- `m_conns.emplace`: an entry that is there stays as it is.
unfoldable pub emplace : ℕ → Connections → Connections
emplace fd conns = elim (lookup fd conns) [ none ↦ insert fd fresh conns | some c ↦ conns ]

-- The connections that `broadcast_and_wait_acks` writes to.
unfoldable pub agent_fds : Connections → List ℕ
agent_fds [] = []
agent_fds ((fd, c) ∷ conns) = let rest = agent_fds conns in if c.is_agent then fd ∷ rest else rest

-- The ones to which the line could be written.
unfoldable pub written_fds : (ℕ → Bool) → List ℕ → List ℕ
written_fds line_ok [] = []
written_fds line_ok (fd ∷ fds) =
    let rest = written_fds line_ok fds in if line_ok fd then fd ∷ rest else rest

-- What `recv` gives for a descriptor that is ready: nothing more, or some bytes.
pub data Received : Type 0 where
  hung_up : Received
  got : Text → Received

-- One round of the wait: the deadline has passed, `poll` reports nothing, or what it reports.
pub data Round : Type 0 where
  expired silent : Round
  ready : List (ℕ × Received) → Round

-- `sv.find(t) != npos`.
unfoldable pub contains : Text → Text → Bool
unfolding starts_with
contains t [] = starts_with t []
contains t (c ∷ s) = starts_with t (c ∷ s) || contains t s

unfoldable pub remove : ℕ → List ℕ → List ℕ
remove fd [] = []
remove fd (x ∷ xs) = let rest = remove fd xs in if fd == x then rest else x ∷ rest

-- Whether what was received takes the descriptor off the list.
unfoldable pub answers : Received → Bool
unfolding contains
answers hung_up = true
answers (got s) = contains (codes "\"ack\"") s

unfoldable pub collect : List ℕ → List (ℕ × Received) → List ℕ
unfolding answers remove
collect pending [] = pending
collect pending ((fd, r) ∷ rs) = collect (if answers r then remove fd pending else pending) rs

-- The loop of `broadcast_and_wait_acks`: the descriptors that had not answered when it ended.
unfoldable pub wait_acks : List ℕ → List Round → List ℕ
unfolding collect
wait_acks [] rounds = []
wait_acks (fd ∷ fds) [] = fd ∷ fds
wait_acks (fd ∷ fds) (expired ∷ rounds) = fd ∷ fds
wait_acks (fd ∷ fds) (silent ∷ rounds) = wait_acks (fd ∷ fds) rounds
wait_acks (fd ∷ fds) (ready rs ∷ rounds) = wait_acks (collect (fd ∷ fds) rs) rounds
