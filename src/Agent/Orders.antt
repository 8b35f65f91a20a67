-- ===== src/Agent/Orders.antt =====
-- The lines that src/daemon/daemon.cpp sends, and what src/agent/agent.cpp does when it reads them.
use draind.Base.{
  InSigned, ℕ, ◌+◌, ◌*◌, ◌<◌, ◌≤◌, ◌^◌, ◌≡◌, ◌≢◌, refl, ap, ◌∙◌, true, false, some, none, Option,
  inl, inr, [], ◌∷◌, ◌++◌, append_assoc, Text, is_empty, text_eq, ℤ, pos, negsuc, pos_part,
  neg_part, to_int_id, int_half, ◌*ℤ◌, Result-cases, ok, arith,
}
use draind.Json.Value.{Value, Floats}
use draind.Server.{got, answers}
use draind.Protocol.{
  decode, encode_config, encode_lock, encode_pre_sleep, encode_ack, t_lock, t_pre_sleep,
}
use draind.Protocol.Messages.{decode-encode_config, decode-typed}
use draind.Agent.{
  Agent, Monitor, wayland, input, Deed, wrote, started, finished, emit, send, Surroundings,
  choose_monitor, retime, use_timeouts, milliseconds, run_lock_cmd, run_before_sleep_cmd,
  on_message, on_daemon_line,
}

-- A number of seconds whose milliseconds are in the range of `int`.
abbrev pub IsSeconds : ℤ → Type 0
IsSeconds n = (pos_part n * 1000 < 2 ^ 31) × (neg_part n * 1000 ≤ 2 ^ 31)

-- Its milliseconds.
abbrev pub in_ms : ℤ → ℤ
in_ms (pos n) = pos (n * 1000)
in_ms (negsuc n) = negsuc (n * 1000 + 999)

in_ms-product : (n : ℤ) → n *ℤ pos 1000 ≡ in_ms n
in_ms-product (pos n) = ground arith
in_ms-product (negsuc n) = ground arith

in_ms-range : (n : ℤ) → IsSeconds n → InSigned int_half n × InSigned int_half (in_ms n)
in_ms-range (pos n) h = (omega arith, omega arith)
in_ms-range (negsuc n) h = (omega arith, omega arith)

milliseconds_lem : (n : ℤ) → IsSeconds n → milliseconds n ≡ in_ms n
unfolding milliseconds
milliseconds_lem n h =
    let (seconds, product) = in_ms-range n h in
    rw (to_int_id n seconds, in_ms-product n) (to_int_id (in_ms n) product)

-- The monitor that is there with other timeouts, or a new one.
abbrev pub monitor_for : Surroundings → Option Monitor → ℤ → ℤ → Option Monitor
monitor_for s none dim_ms sleep_ms = choose_monitor s dim_ms sleep_ms
monitor_for s (some m) dim_ms sleep_ms = some (retime s m dim_ms sleep_ms)

use_timeouts_lem :
    (s : Surroundings) (a : Agent) (o : Option Monitor) (dim_ms sleep_ms : ℤ)
    → use_timeouts s a o dim_ms sleep_ms ≡ record a { idle = monitor_for s o dim_ms sleep_ms }
unfolding use_timeouts
use_timeouts_lem s a none dim_ms sleep_ms = unfold draind.Agent.setup_idle_monitor in refl
use_timeouts_lem s a (some m) dim_ms sleep_ms = refl

module _ (fl : Floats) (s : Surroundings) (a : Agent) where
  on_daemon_line-message :
      (line : Text) (v : Value)
      → decode fl line ≡ ok v
      → on_daemon_line fl s a line ≡ on_message fl s a v
  unfolding on_daemon_line
  on_daemon_line-message line v e = rw (on_daemon_line, e) refl

  -- The daemon's line with timeouts in seconds, whose milliseconds are in the range of `int`, gives
  -- the idle monitor these timeouts in milliseconds, or starts one with them where there is none; it
  -- changes nothing else.
  pub on_daemon_line-encode_config :
      (dim sleep : ℤ)
      → IsSeconds dim
      → IsSeconds sleep
      → on_daemon_line fl s a (encode_config fl dim sleep)
        ≡ record a { idle = monitor_for s a.idle (in_ms dim) (in_ms sleep) }
  unfolding on_message text_eq
  on_daemon_line-encode_config dim sleep h k =
      let (v, e, t, d, z) =
        decode-encode_config fl dim sleep (omega arith, omega arith) (omega arith, omega arith) in
      on_daemon_line-message (encode_config fl dim sleep) v e
      ∙ rw (t, d, z, milliseconds_lem dim h, milliseconds_lem sleep k)
          (use_timeouts_lem s a a.idle (in_ms dim) (in_ms sleep))

  -- Where a child can be forked and a lock command is configured, the daemon's lock starts it.
  pub on_daemon_line-encode_lock :
      s.forks ≡ true
      → is_empty a.opts.lock_cmd ≡ false
      → on_daemon_line fl s a (encode_lock fl)
        ≡ record a { deeds = a.deeds ++ started a.opts.lock_cmd ∷ [] }
  unfolding on_message text_eq encode_lock run_lock_cmd emit
  on_daemon_line-encode_lock f l =
      let (v, p, t) = decode-typed fl t_lock in
      on_daemon_line-message (encode_lock fl) v p ∙ rw (t, l, f) refl

  -- Where a child can be forked and commands are configured, the daemon's lock starts the lock
  -- command; its pre_sleep runs the other command to its end and is then acknowledged, by a line in
  -- which the daemon finds the ack that it waits for.
  pub orders_are_carried_out :
      (fd : ℕ)
      → s.forks ≡ true
      → a.daemon_fd ≡ some fd
      → is_empty a.opts.lock_cmd ≡ false
      → is_empty a.opts.before_sleep_cmd ≡ false
      → (on_daemon_line fl s a (encode_lock fl)
          ≡ record a { deeds = a.deeds ++ started a.opts.lock_cmd ∷ [] })
        × (on_daemon_line fl s a (encode_pre_sleep fl) ≡ record a {
          deeds = a.deeds ++ finished a.opts.before_sleep_cmd ∷ wrote fd (encode_ack fl) ∷ [];
        })
        × (answers (got (encode_ack fl)) ≡ true)
  unfolding on_message text_eq encode_lock encode_pre_sleep encode_ack run_lock_cmd
      run_before_sleep_cmd send emit answers draind.Json.Printer.dump draind.Json.Value.assign
      draind.Json.Value.insert draind.Json.Value.get_object draind.Json.Printer.escape
  orders_are_carried_out fd f e l b =
      let (w, q, u) = decode-typed fl t_pre_sleep in
      (
        on_daemon_line-encode_lock f l,
        on_daemon_line-message (encode_pre_sleep fl) w q
            ∙ rw (u, b, f, e)
                (ap (λ xs. record a { daemon_fd = some fd; deeds = xs })
                  (append_assoc a.deeds _ _)),
        refl,
      )

  -- A line that does not decode changes nothing.
  pub malformed_line_ignored :
      (line : Text) → ((msg : Value) → decode fl line ≢ ok msg) → on_daemon_line fl s a line ≡ a
  unfolding on_daemon_line
  malformed_line_ignored line h = elim (Result-cases (decode fl line)) [
    | inl (v, e) ↦ absurd (h v e)
    | inr (inl (t, e)) ↦ rw (on_daemon_line, e) refl
    | inr (inr e) ↦ rw (on_daemon_line, e) refl
  ]
