-- ===== src/Protocol.antt =====
-- src/shared/protocol.hpp: the messages between the daemon, its agents and the ctl client. A
-- message is built by assignments to keys and printed by `json::dump`.
pub mod Messages
pub mod Channel
use draind.Base.{ℕ, List, [], Text, codes, is_empty, ℤ, pos, Result, if◌then◌else◌}
use draind.Json.Value.{Value, Floats, null, int, string, assign, str}
use draind.Json.Parser.{parse}
use draind.Json.Printer.{dump}

abbrev pub socket_path : Text
socket_path = codes "/run/draind/draind.sock"

abbrev pub t_hello : Text
t_hello = codes "hello"

abbrev pub t_config : Text
t_config = codes "config"

abbrev pub t_idle_dim : Text
t_idle_dim = codes "idle_dim"

abbrev pub t_idle_sleep : Text
t_idle_sleep = codes "idle_sleep"

abbrev pub t_active : Text
t_active = codes "active"

abbrev pub t_inhibit : Text
t_inhibit = codes "inhibit"

abbrev pub t_uninhibit : Text
t_uninhibit = codes "uninhibit"

abbrev pub t_ack : Text
t_ack = codes "ack"

abbrev pub t_lock : Text
t_lock = codes "lock"

abbrev pub t_pre_sleep : Text
t_pre_sleep = codes "pre_sleep"

abbrev pub t_ctl : Text
t_ctl = codes "ctl"

abbrev pub t_ctl_reply : Text
t_ctl_reply = codes "ctl_reply"

unfoldable pub msg_type : Value → Text
msg_type v = str v (codes "type") []

-- A message that holds nothing but its type.
abbrev pub typed : Text → Value
typed t = assign null (codes "type") (string t)

module _ (fl : Floats) where
  unfoldable pub decode : Text → Result Value
  decode line = parse fl line

  unfoldable pub encode_hello : Text → ℕ → Text
  encode_hello session_id uid = dump fl (
      assign (assign (typed t_hello) (codes "session_id") (string session_id)) (codes "uid")
        (int (pos uid)))

  unfoldable pub encode_idle_dim : Text
  encode_idle_dim = dump fl (typed t_idle_dim)

  unfoldable pub encode_idle_sleep : Text
  encode_idle_sleep = dump fl (typed t_idle_sleep)

  unfoldable pub encode_active : Text
  encode_active = dump fl (typed t_active)

  unfoldable pub encode_inhibit : Text → Text
  encode_inhibit reason = dump fl (assign (typed t_inhibit) (codes "reason") (string reason))

  unfoldable pub encode_uninhibit : Text → Text
  encode_uninhibit reason = dump fl (assign (typed t_uninhibit) (codes "reason") (string reason))

  unfoldable pub encode_config : ℤ → ℤ → Text
  encode_config dim_timeout sleep_timeout = dump fl (
      assign (assign (typed t_config) (codes "dim_timeout") (int dim_timeout))
        (codes "sleep_timeout") (int sleep_timeout))

  unfoldable pub encode_ack : Text
  encode_ack = dump fl (typed t_ack)

  unfoldable pub encode_lock : Text
  encode_lock = dump fl (typed t_lock)

  unfoldable pub encode_pre_sleep : Text
  encode_pre_sleep = dump fl (typed t_pre_sleep)

  unfoldable pub encode_ctl : Text → Text → Text
  encode_ctl cmd profile =
      let v = assign (typed t_ctl) (codes "cmd") (string cmd) in
      dump fl (if is_empty profile then v else assign v (codes "profile") (string profile))

  unfoldable pub encode_ctl_reply : Value → Text
  encode_ctl_reply fields = dump fl (assign fields (codes "type") (string t_ctl_reply))
