-- ===== src/Daemon/Control.antt =====
-- `on_ctl` and the change of the configuration in src/daemon/daemon.cpp.
use draind.Base.{
  ℕ, Bool, true, false, Option, none, some, List, [], ◌∷◌, ◌++◌, Text, codes, is_empty, text_eq, ℤ,
  Result, ok, err, out_of_fuel, if◌then◌else◌, Outcome, done, throws,
}
use draind.Json.Value.{Value, Items, Floats, null, bool, int, string, array, nil, cons, assign, str}
use draind.Config.{Profile}
use draind.Power
use draind.Battery.{BatteryInfo, status_string}
use draind.Manager
use draind.Manager.{ConfigManager}
use draind.Protocol.{encode_ctl_reply}
use draind.Daemon.State.{
  Daemon, Agents, Env, send, profile, with_power, broadcast_config, send_lock_to_active_agent,
}

unfoldable pub apply_by : Daemon → Option Profile → Outcome Daemon
unfolding with_power
apply_by d none = done d
apply_by d (some p) = with_power d (Power.apply d.power p)

-- `r["ok"] = b` on a new reply.
abbrev pub reply_ok : Bool → Value
reply_ok b = assign null (codes "ok") (bool b)

abbrev pub reply_error : Text → Value
reply_error e = assign (reply_ok false) (codes "error") (string e)

unfoldable pub status_reply : Daemon → BatteryInfo → Value
unfolding status_string
status_reply d bat =
    let r₁ = assign (reply_ok true) (codes "active_profile") (string d.manager.active) in
    let r₂ = assign r₁ (codes "dimmed") (bool d.dimmed) in
    let r₃ = assign r₂ (codes "active_session") (string d.active_session) in
    let r₄ = assign r₃ (codes "battery_status") (string (status_string bat.status)) in
    assign r₄ (codes "battery_percent") (int bat.percent)

unfoldable pub profile_names : List Profile → Items
profile_names [] = nil
profile_names (p ∷ ps) = cons (string p.name) (profile_names ps)

-- One agent's reasons, each behind its session if that is known.
unfoldable pub reasons_of : Text → List Text → Items → Items
reasons_of session [] more = more
reasons_of session (r ∷ rs) more =
    cons (string (if is_empty session then r else session ++ (codes ": " ++ r)))
      (reasons_of session rs more)

unfoldable pub inhibitors : Agents → Items
unfolding reasons_of
inhibitors [] = nil
inhibitors ((fd, a) ∷ rest) = reasons_of a.session_id a.inhibits (inhibitors rest)

assign_some : Value → Text → Option ℤ → Value
assign_some r key none = r
assign_some r key (some n) = assign r key (int n)

unfoldable pub battery_reply : BatteryInfo → Value
unfolding assign_some status_string
battery_reply bat =
    let r₁ = assign (reply_ok true) (codes "present") (bool bat.present) in
    let r₂ = assign r₁ (codes "status") (string (status_string bat.status)) in
    let r₃ = assign r₂ (codes "percent") (int bat.percent) in
    let r₄ = assign_some r₃ (codes "time_to_empty_min") bat.time_to_empty_min in
    let r₅ = assign_some r₄ (codes "time_to_full_min") bat.time_to_full_min in
    if bat.present then r₅ else r₂

module _ (fl : Floats) where
  -- The callback that `setup` gives to the configuration manager.
  unfoldable pub on_change : Daemon → Outcome Daemon
  unfolding apply_by broadcast_config
  on_change d = elim (apply_by d (profile d)) [
    | done d' ↦ done (broadcast_config fl d')
    | throws e d' ↦ throws e d'
  ]

  unfoldable pub reply : Daemon → ℕ → Value → Daemon
  unfolding send
  reply d fd r = send d fd (encode_ctl_reply fl r)

  -- `set_profile` answers once the callback has returned; what that throws is not caught here.
  unfoldable pub set_profile : Daemon → ℕ → Text → Option ConfigManager → Outcome Daemon
  unfolding on_change reply
  set_profile d fd name none = done (reply d fd (reply_error (codes "profile not found: " ++ name)))
  set_profile d fd name (some m) = elim (on_change (record d { manager = m })) [
    | done d' ↦ done (reply d' fd (reply_ok true))
    | throws e d' ↦ throws e d'
  ]

  -- `reload_config` answers with the text of what was thrown.
  unfoldable pub reload_config : Daemon → ℕ → Result ConfigManager → Daemon
  unfolding on_change reply
  reload_config d fd (err e) = reply d fd (reply_error e)
  reload_config d fd out_of_fuel = d
  reload_config d fd (ok m) = elim (on_change (record d { manager = m })) [
    | done d' ↦ reply d' fd (reply_ok true)
    | throws e d' ↦ reply d' fd (reply_error e)
  ]

  unfoldable pub on_ctl : Env → Daemon → ℕ → Value → Outcome Daemon
  unfolding reply set_profile reload_config status_reply profile_names inhibitors battery_reply
      send_lock_to_active_agent
  on_ctl env d fd msg =
      let cmd = str msg (codes "cmd") [] in
      let name = str msg (codes "profile") [] in
      if text_eq cmd (codes "status")
      then done (reply d fd (status_reply d env.battery))
      else if text_eq cmd (codes "set_profile")
      then set_profile d fd name (Manager.set_active fl d.manager name)
      else if text_eq cmd (codes "list_profiles")
      then done (
          reply d fd (
            assign (reply_ok true) (codes "profiles")
              (array (profile_names d.manager.config.profiles))))
      else if text_eq cmd (codes "lock")
      then done (reply (send_lock_to_active_agent fl d) fd (reply_ok true))
      else if text_eq cmd (codes "list_inhibitors")
      then done
          (reply d fd (assign (reply_ok true) (codes "inhibitors") (array (inhibitors d.agents))))
      else if text_eq cmd (codes "reload_config")
      then done (reload_config d fd (Manager.reload fl d.manager))
      else if text_eq cmd (codes "battery")
      then done (reply d fd (battery_reply env.battery))
      else done (reply d fd (reply_error (codes "unknown command: " ++ cmd)))
