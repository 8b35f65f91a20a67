-- ===== src/Daemon/Board.antt =====
-- The abstract machine behind the inhibits of src/daemon/daemon.cpp: who is registered, and who holds
-- which reason.
use draind.Base.{
  ℕ, Bool, not, ◌&&◌, ◌||◌, ◌≡◌, refl, List, [], ◌∷◌, Text, codes, text_eq, ◌==◌, if◌then◌else◌,
}
use draind.Json.Value.{Value, str}
use draind.Protocol.{msg_type, t_hello, t_inhibit, t_uninhibit}
use draind.Daemon.State.{Daemon}
use draind.Daemon.Moves.{
  nobody, Reach, here, output, power, configure, switch, register, forget, buffer, connect, close,
}
use draind.Daemon.Inhibits.{holds, is_registered}

-- The abstract state, and what it is asked.
pub record Board : Type 0 where
  pub here : ℕ → Bool
  pub has : ℕ → Text → Bool

pub data Ask : Type 0 where
  arrive leave : ℕ → Ask
  hold release : ℕ → Text → Ask
  nothing : Ask

unfoldable pub obey : Board → Ask → Board
obey b (arrive fd) = record {
  here = λ j. fd == j || b.here j;
  has = λ j r. not (fd == j) && b.has j r;
}
obey b (leave fd) = record {
  here = λ j. not (fd == j) && b.here j;
  has = λ j r. not (fd == j) && b.has j r;
}
obey b (hold fd r) = record {
  here = b.here;
  has = λ j x. (b.here fd && (fd == j && text_eq x r)) || b.has j x;
}
obey b (release fd r) = record {
  here = b.here;
  has = λ j x. not (fd == j && text_eq r x) && b.has j x;
}
obey b nothing = b

unfoldable pub obey_all : Board → List Ask → Board
obey_all b [] = b
obey_all b (a ∷ asks) = obey_all (obey b a) asks

-- What a message of a type that only agents send asks of the machine.
unfoldable pub agent_ask : ℕ → Value → Text → Ask
agent_ask fd msg type =
    if text_eq type t_inhibit
    then hold fd (str msg (codes "reason") [])
    else if text_eq type t_uninhibit
    then release fd (str msg (codes "reason") [])
    else nothing

-- What a message asks of the machine.
unfoldable pub ask_of : ℕ → Value → Ask
unfolding agent_ask
ask_of fd msg =
    if text_eq (msg_type msg) t_hello then arrive fd else agent_ask fd msg (msg_type msg)

-- The daemon and the machine have the same agents and reasons.
pub record Agrees (d : Daemon) (b : Board) : Type 0 where
  pub agents : (j : ℕ) → is_registered d j ≡ b.here j
  pub reasons : (j : ℕ) (r : Text) → holds d j r ≡ b.has j r

-- Changes of other kinds leave the agents as they are.
Reach-agents : {d e : Daemon} → Reach nobody d e → e.agents ≡ d.agents
Reach-agents here = refl
Reach-agents (output xs f r) = Reach-agents r
Reach-agents (power w b r) = Reach-agents r
Reach-agents (configure m r) = Reach-agents r
Reach-agents (switch s r) = Reach-agents r
Reach-agents (register fd a p r) = cc
Reach-agents (forget fd p r) = cc
Reach-agents (buffer fd c rest k r) = Reach-agents r
Reach-agents (connect fd r) = Reach-agents r
Reach-agents (close fd r) = Reach-agents r

pub Reach-Agrees : {d e : Daemon} (b : Board) → Reach nobody d e → Agrees d b → Agrees e b
unfolding is_registered holds
Reach-Agrees b r h = record {
  agents = λ j. rw (Reach-agents r) (h.agents j);
  reasons = λ j x. rw (Reach-agents r) (h.reasons j x);
}
