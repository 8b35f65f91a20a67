-- ===== src/Daemon/Suspend.antt =====
-- The broadcast before a suspend in src/daemon/daemon.cpp.
use draind.Base.{◌≡◌, refl, List, [], ◌++◌, append-nil, Text}
use draind.Json.Value.{Floats}
use draind.Server.{agent_fds, written_fds}
use draind.Daemon.State.{Daemon, Env, Output, send_each, wait_outputs, broadcast_and_wait_acks}

-- More outputs.
unfoldable pub extend : Daemon → List Output → Daemon
extend d xs = record d { log = d.log ++ xs }

pub extend-nil : (d : Daemon) → extend d [] ≡ d
unfolding extend
extend-nil d = rw (append-nil d.log) refl

module _ (fl : Floats) where
  pub broadcast-extend :
      (env : Env) (line : Text) (d : Daemon)
      → broadcast_and_wait_acks fl env line d
        ≡ extend d (
            send_each line (agent_fds d.conns)
            ++ wait_outputs (written_fds env.line_ok (agent_fds d.conns)) env.rounds)
  unfolding broadcast_and_wait_acks extend
  broadcast-extend env line d = refl
