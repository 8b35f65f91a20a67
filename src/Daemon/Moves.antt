-- ===== src/Daemon/Moves.antt =====
-- The changes that the daemon of src/daemon/daemon.cpp makes to its state, as a relation, and
-- the lines that it may send. That every handler and the event loop make no others is in Handlers
-- and in Daemon/Traces.
pub mod Handlers
pub mod Requests
use draind.Base.{
  ℕ, Bool, true, false, ◌≡◌, Option, none, some, List, [], ◌∷◌, ◌++◌, Text, codes, leb_ℤ, pos, not,
  if◌then◌else◌, Outcome, done, throws, left, All, All-append,
}
use draind.Base.Maps.{lookup, insert, erase}
use draind.Json.Value.{Value, Floats}
use draind.Config.{Profile}
use draind.Power
use draind.Power.{Power}
use draind.Server.{Connection, Round, emplace, agent_fds, written_fds}
use draind.Manager.{ConfigManager}
use draind.HwEvents.{HwEvent, command_for}
use draind.Protocol.{encode_lock, encode_pre_sleep, encode_ack, encode_ctl_reply}
use draind.Daemon.State.{
  Daemon, AgentState, Env, Output, sent, closed, watched, unwatched, ran, waited, emit, send,
  close_client, epoll_del, profile, send_config, config_line, send_each, wait_outputs, lock_target,
  send_lock_to_active_agent, broadcast_and_wait_acks, run_hw_action, do_suspend, is_active_agent,
  has_any_inhibit,
}
use draind.Daemon.Handlers.{
  on_disconnect, on_hello, on_idle_dim, on_idle_sleep, on_active, on_inhibit, on_uninhibit,
  on_event, act, dim_by, undim_by, suspend_by, change_agent, action_of, new_agent,
}

-- What the changes may do: whose entry among the agents may change, and which lines may be sent.
pub record Limits : Type 1 where
  pub members : ℕ → Bool
  pub Line : Text → Type 0

-- An output that is in these limits.
unfoldable pub Fits : Limits → Output → Type 0
Fits k (sent fd line) = k.Line line
Fits k (closed fd) = Unit
Fits k (watched fd) = Unit
Fits k (unwatched fd) = Unit
Fits k (ran cmd) = Unit
Fits k (waited fds) = Unit

-- The states that changes in these limits lead to from `d`.
pub data Reach (k : Limits) (d : Daemon) : Daemon → Type 0 where
  here : Reach k d d
  output :
      {e : Daemon} (xs : List Output)
      → All (Fits k) xs
      → Reach k d e
      → Reach k d (record e { log = e.log ++ xs })
  power :
      {e : Daemon} (w : Power) (b : Bool)
      → Reach k d e
      → Reach k d (record e { power = w; dimmed = b })
  configure : {e : Daemon} (m : ConfigManager) → Reach k d e → Reach k d (record e { manager = m })
  switch : {e : Daemon} (s : Text) → Reach k d e → Reach k d (record e { active_session = s })
  register :
      {e : Daemon} (fd : ℕ) (a : AgentState)
      → k.members fd ≡ true
      → Reach k d e
      → Reach k d (record e { agents = insert fd a e.agents })
  forget :
      {e : Daemon} (fd : ℕ)
      → k.members fd ≡ true
      → Reach k d e
      → Reach k d (record e { agents = erase fd e.agents })
  buffer :
      {e : Daemon} (fd : ℕ) (c : Connection) (rest : Text)
      → lookup fd e.conns ≡ some c
      → Reach k d e
      → Reach k d (record e { conns = insert fd (record c { buf = rest }) e.conns })
  connect :
      {e : Daemon} (fd : ℕ) → Reach k d e → Reach k d (record e { conns = emplace fd e.conns })
  close : {e : Daemon} (fd : ℕ) → Reach k d e → Reach k d (record e { conns = erase fd e.conns })

-- The lines that the handlers send are in the limits.
pub record Says (k : Limits) (fl : Floats) : Type 0 where
  pub config : (d : Daemon) → k.Line (config_line fl d)
  pub lock : k.Line (encode_lock fl)
  pub pre_sleep : k.Line (encode_pre_sleep fl)
  pub ack : k.Line (encode_ack fl)
  pub reply : (r : Value) → k.Line (encode_ctl_reply fl r)

-- Limits on the agents alone.
abbrev pub only : (ℕ → Bool) → Limits
only members = record { members = members; Line = λ line. Unit }

abbrev pub anyone : Limits
anyone = only (λ fd. true)

abbrev pub nobody : Limits
nobody = only (λ fd. false)

pub Says-only : (members : ℕ → Bool) (fl : Floats) → Says (only members) fl
Says-only members fl = record {
  config = λ d. tt;
  lock = tt;
  pre_sleep = tt;
  ack = tt;
  reply = λ r. tt;
}

module _ (k : Limits) where
  pub send_each-Fits :
      (line : Text) (fds : List ℕ) → k.Line line → All (Fits k) (send_each line fds)
  unfolding send_each Fits
  send_each-Fits line [] h = tt
  send_each-Fits line (fd ∷ fds) h = (h, send_each-Fits line fds h)

  pub wait_outputs-Fits :
      (fds : List ℕ) (rounds : List Round) → All (Fits k) (wait_outputs fds rounds)
  unfolding wait_outputs Fits
  wait_outputs-Fits [] rounds = tt
  wait_outputs-Fits (fd ∷ fds) rounds = (tt, tt)

module _ (k : Limits) (d : Daemon) where
  -- The state that a call leaves is one of them.
  unfoldable pub Leads : Outcome Daemon → Type 0
  Leads o = Reach k d (left o)

  pub if-Leads : (b : Bool) (x y : Outcome Daemon) → Leads x → Leads y → Leads (if b then x else y)
  if-Leads true x y h l = h
  if-Leads false x y h l = l

  pub if-Reach :
      (b : Bool) {x y : Daemon} → Reach k d x → Reach k d y → Reach k d (if b then x else y)
  if-Reach true h l = h
  if-Reach false h l = l

  pub done-Leads : {e : Daemon} → Reach k d e → Leads (done e)
  unfolding Leads
  done-Leads h = h
