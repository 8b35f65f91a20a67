-- ===== src/Daemon/Moves/Requests.antt =====
-- The commands of `draindctl` in src/daemon/daemon.cpp make no other changes than those of Daemon/Moves.
use draind.Base.{
  ℕ, true, Option, none, some, [], ◌∷◌, ◌++◌, Text, codes, text_eq, Result, ok, err, out_of_fuel,
  Outcome, done, throws,
}
use draind.Json.Value.{Value, Floats, str, assign, array}
use draind.Config.{Profile}
use draind.Power
use draind.Power.{Power}
use draind.Manager
use draind.Manager.{ConfigManager}
use draind.Protocol.{encode_ctl_reply}
use draind.Daemon.State.{
  Daemon, Env, sent, emit, send, profile, with_power, broadcast_config, config_line, fds_of,
  send_each, send_lock_to_active_agent,
}
use draind.Daemon.Control.{
  apply_by, reply_ok, reply_error, status_reply, profile_names, inhibitors, battery_reply,
  on_change, reply, set_profile, reload_config, on_ctl,
}
use draind.Daemon.Moves.Handlers.{send_lock-Reach}
use draind.Daemon.Moves.{
  Limits, Says, Fits, send_each-Fits, Reach, output, power, configure, Leads, if-Leads, done-Leads,
}

module _ (k : Limits) (fl : Floats) (says : Says k fl) (d : Daemon) where
  reply-Reach : (e : Daemon) (fd : ℕ) (r : Value) → Reach k d e → Reach k d (reply fl e fd r)
  unfolding reply send emit Fits
  reply-Reach e fd r h = output (sent fd (encode_ctl_reply fl r) ∷ []) (says.reply r, tt) h

  with_power-Leads : (e : Daemon) (o : Outcome Power) → Reach k d e → Leads k d (with_power e o)
  unfolding with_power Leads
  with_power-Leads e (done w) h = power w e.dimmed h
  with_power-Leads e (throws t w) h = power w e.dimmed h

  apply_by-Leads : (e : Daemon) (p : Option Profile) → Reach k d e → Leads k d (apply_by e p)
  unfolding apply_by
  apply_by-Leads e none h = done-Leads k d h
  apply_by-Leads e (some p) h = with_power-Leads e (Power.apply e.power p) h

  broadcast_config-Reach : (e : Daemon) → Reach k d e → Reach k d (broadcast_config fl e)
  unfolding broadcast_config
  broadcast_config-Reach e h =
      output (send_each (config_line fl e) (fds_of e.agents))
        (send_each-Fits k (config_line fl e) (fds_of e.agents) (says.config e)) h

  -- A call after one that returned.
  pub then-Leads :
      (o : Outcome Daemon) (f : Daemon → Outcome Daemon)
      → Leads k d o
      → ((e : Daemon) → Reach k d e → Leads k d (f e))
      → Leads k d (elim o [ done e ↦ f e | throws t e ↦ throws t e ])
  unfolding Leads
  then-Leads (done e) f h l = l e h
  then-Leads (throws t e) f h l = h

  on_change-Leads : (e : Daemon) → Reach k d e → Leads k d (on_change fl e)
  unfolding on_change
  on_change-Leads e h =
      then-Leads (apply_by e (profile e)) (λ e'. done (broadcast_config fl e'))
        (apply_by-Leads e (profile e) h) (λ e' l. done-Leads k d (broadcast_config-Reach e' l))

  set_profile-Leads :
      (e : Daemon) (fd : ℕ) (name : Text) (m : Option ConfigManager)
      → Reach k d e
      → Leads k d (set_profile fl e fd name m)
  unfolding set_profile
  set_profile-Leads e fd name none h = done-Leads k d (reply-Reach e fd _ h)
  set_profile-Leads e fd name (some m) h =
      then-Leads (on_change fl (record e { manager = m }))
        (λ e'. done (reply fl e' fd (reply_ok true)))
        (on_change-Leads (record e { manager = m }) (configure m h))
        (λ e' l. done-Leads k d (reply-Reach e' fd (reply_ok true) l))

  answered :
      (o : Outcome Daemon) (fd : ℕ)
      → Leads k d o
      → Reach k d (elim o [
        | done e ↦ reply fl e fd (reply_ok true)
        | throws t e ↦ reply fl e fd (reply_error t)
      ])
  unfolding Leads
  answered (done e) fd h = reply-Reach e fd (reply_ok true) h
  answered (throws t e) fd h = reply-Reach e fd (reply_error t) h

  reload_config-Reach :
      (e : Daemon) (fd : ℕ) (r : Result ConfigManager)
      → Reach k d e
      → Reach k d (reload_config fl e fd r)
  unfolding reload_config
  reload_config-Reach e fd (err t) h = reply-Reach e fd (reply_error t) h
  reload_config-Reach e fd out_of_fuel h = h
  reload_config-Reach e fd (ok m) h =
      answered (on_change fl (record e { manager = m })) fd
        (on_change-Leads (record e { manager = m }) (configure m h))

  pub on_ctl-Leads :
      (env : Env) (e : Daemon) (fd : ℕ) (msg : Value)
      → Reach k d e
      → Leads k d (on_ctl fl env e fd msg)
  unfolding on_ctl
  on_ctl-Leads env e fd msg h =
      let cmd = str msg (codes "cmd") [] in
      let name = str msg (codes "profile") [] in
      let answer = λ (r : Value). done-Leads k d (reply-Reach e fd r h) in
      let lock = send_lock_to_active_agent fl e in
      let names = array (profile_names e.manager.config.profiles) in
      if-Leads k d (text_eq cmd (codes "status")) _ _ (answer (status_reply e env.battery)) (
        if-Leads k d (text_eq cmd (codes "set_profile")) _ _
          (set_profile-Leads e fd name (Manager.set_active fl e.manager name) h)
          (if-Leads k d (text_eq cmd (codes "list_profiles")) _ _
            (answer (assign (reply_ok true) (codes "profiles") names))
            (if-Leads k d (text_eq cmd (codes "lock")) _ _
              (done-Leads k d
                (reply-Reach lock fd (reply_ok true) (send_lock-Reach k d fl says e h)))
              (if-Leads k d (text_eq cmd (codes "list_inhibitors")) _ _
                (answer (assign (reply_ok true) (codes "inhibitors") (array (inhibitors e.agents))))
                (if-Leads k d (text_eq cmd (codes "reload_config")) _ _
                  (done-Leads k d (reload_config-Reach e fd (Manager.reload fl e.manager) h))
                  (if-Leads k d (text_eq cmd (codes "battery")) _ _
                    (answer (battery_reply env.battery))
                    (answer (reply_error (codes "unknown command: " ++ cmd)))))))))
