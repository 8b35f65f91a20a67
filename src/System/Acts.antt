-- ===== src/System/Acts.antt =====
-- What an act of the agent puts in flight.
use draind.Base.{
  ℕ, Bool, true, false, ◌≡◌, refl, sym, ap, ◌∙◌, subst, Option, none, some, List, [], ◌∷◌, ◌++◌,
  append_assoc, append-nil, map, Text, is_empty, if◌then◌else◌, ok, err, out_of_fuel, ℤ,
}
use draind.Json.Value.{Value, Floats}
use draind.Idle.{IdleCall}
use draind.Mpris
use draind.Mpris.{Mpris, Signal}
use draind.Protocol.{decode, encode_ack}
use draind.Agent.{
  Agent, Monitor, Deed, wrote, Surroundings, emit, send, send_to, send_all, run_lock_cmd,
  run_before_sleep_cmd, use_timeouts, setup_idle_monitor, on_message, on_daemon_line, idle_line,
  mpris_line,
}
use draind.Agent.Running.{IdleEvents, poll_monitor, poll_idle, poll_mpris}
use draind.System.{lines_of}

lines_of-append : (xs ys : List Deed) → lines_of (xs ++ ys) ≡ lines_of xs ++ lines_of ys
unfolding lines_of
lines_of-append [] ys = refl
lines_of-append (wrote fd line ∷ xs) ys = ap (λ t. line ∷ t) (lines_of-append xs ys)
lines_of-append (Deed.watched fd ∷ xs) ys = lines_of-append xs ys
lines_of-append (Deed.unwatched fd ∷ xs) ys = lines_of-append xs ys
lines_of-append (Deed.closed fd ∷ xs) ys = lines_of-append xs ys
lines_of-append (Deed.started cmd ∷ xs) ys = lines_of-append xs ys
lines_of-append (Deed.finished cmd ∷ xs) ys = lines_of-append xs ys

-- An act that keeps the connection, the media player monitor and the options, and writes some lines.
pub record Writes (a b : Agent) (lines : List Text) : Type 0 where
  pub connection : b.daemon_fd ≡ a.daemon_fd
  pub players : b.mpris ≡ a.mpris
  pub options : b.opts ≡ a.opts
  pub written : lines_of b.deeds ≡ lines_of a.deeds ++ lines

send_to-Writes : (a : Agent) (n : ℕ) (line : Text) → Writes a (send_to a (some n) line) (line ∷ [])
unfolding send_to emit lines_of
send_to-Writes a n line = record {
  connection = refl;
  players = refl;
  options = refl;
  written = lines_of-append a.deeds (wrote n line ∷ []);
}

send-Writes :
    (a : Agent) (n : ℕ) (line : Text) → a.daemon_fd ≡ some n → Writes a (send a line) (line ∷ [])
unfolding send
send-Writes a n line h =
    subst (λ o. Writes a (send_to a o line) (line ∷ [])) (sym h) (send_to-Writes a n line)

pub send_all-Writes :
    (a : Agent) (n : ℕ) (lines : List Text)
    → a.daemon_fd ≡ some n
    → Writes a (send_all a lines) lines
unfolding send_all
send_all-Writes a n [] h = record {
  connection = refl;
  players = refl;
  options = refl;
  written = sym (append-nil _);
}
send_all-Writes a n (line ∷ lines) h =
    let one = send-Writes a n line h in
    let more = send_all-Writes (send a line) n lines (one.connection ∙ h) in
    record {
      connection = more.connection ∙ one.connection;
      players = more.players ∙ one.players;
      options = more.options ∙ one.options;
      written =
          more.written
          ∙ ap (λ t. t ++ lines) one.written
          ∙ append_assoc (lines_of a.deeds) (line ∷ []) lines;
    }

same-Writes : (a : Agent) → Writes a a []
same-Writes a = record {
  connection = refl;
  players = refl;
  options = refl;
  written = sym (append-nil _);
}

emit-Writes : (a : Agent) (x : Deed) → lines_of (x ∷ []) ≡ [] → Writes a (emit a x) []
unfolding emit
emit-Writes a x h = record {
  connection = refl;
  players = refl;
  options = refl;
  written = lines_of-append a.deeds (x ∷ []) ∙ ap (λ t. lines_of a.deeds ++ t) h;
}

if-Writes :
    (c : Bool) {a x y : Agent} {lines : List Text}
    → Writes a x lines
    → Writes a y lines
    → Writes a (if c then x else y) lines
if-Writes true h k = h
if-Writes false h k = k

run_lock_cmd-Writes : (forks : Bool) (a : Agent) → Writes a (run_lock_cmd forks a) []
unfolding run_lock_cmd lines_of
run_lock_cmd-Writes forks a =
    if-Writes (is_empty a.opts.lock_cmd) (same-Writes a)
      (if-Writes forks (emit-Writes a (Deed.started a.opts.lock_cmd) refl) (same-Writes a))

run_before_sleep_cmd-Writes :
    (forks : Bool) (a : Agent) → Writes a (run_before_sleep_cmd forks a) []
unfolding run_before_sleep_cmd lines_of
run_before_sleep_cmd-Writes forks a =
    if-Writes (is_empty a.opts.before_sleep_cmd) (same-Writes a)
      (if-Writes forks (emit-Writes a (Deed.finished a.opts.before_sleep_cmd) refl) (same-Writes a))

use_timeouts-Writes :
    (s : Surroundings) (a : Agent) (m : Option Monitor) (dim_ms sleep_ms : ℤ)
    → Writes a (use_timeouts s a m dim_ms sleep_ms) []
unfolding use_timeouts setup_idle_monitor
use_timeouts-Writes s a none dim_ms sleep_ms = record {
  connection = refl;
  players = refl;
  options = refl;
  written = sym (append-nil _);
}
use_timeouts-Writes s a (some m) dim_ms sleep_ms = record {
  connection = refl;
  players = refl;
  options = refl;
  written = sym (append-nil _);
}

module _ (fl : Floats) where
  -- What the agent writes for a line of the daemon: nothing, or an ack.
  pub data Replies : List Text → Type 0 where
    silent : Replies []
    acknowledges : Replies (encode_ack fl ∷ [])

  abbrev Answered : Agent → Agent → Type 0
  Answered a b = (lines : List Text) × Replies lines × Writes a b lines

  if-Answered :
      (c : Bool) {a x y : Agent} → Answered a x → Answered a y → Answered a (if c then x else y)
  if-Answered true h k = h
  if-Answered false h k = k

  acknowledged :
      (forks : Bool) (a : Agent) (n : ℕ)
      → a.daemon_fd ≡ some n
      → Writes a (send (run_before_sleep_cmd forks a) (encode_ack fl)) (encode_ack fl ∷ [])
  acknowledged forks a n h =
      let ran = run_before_sleep_cmd-Writes forks a in
      let sends =
        send-Writes (run_before_sleep_cmd forks a) n (encode_ack fl) (ran.connection ∙ h) in
      record {
        connection = sends.connection ∙ ran.connection;
        players = sends.players ∙ ran.players;
        options = sends.options ∙ ran.options;
        written = sends.written ∙ ap (λ t. t ++ encode_ack fl ∷ []) (ran.written ∙ append-nil _);
      }

  on_message-Answered :
      (s : Surroundings) (a : Agent) (n : ℕ) (msg : Value)
      → a.daemon_fd ≡ some n
      → Answered a (on_message fl s a msg)
  unfolding on_message
  on_message-Answered s a n msg h =
      if-Answered _ ([], silent, use_timeouts-Writes s a a.idle _ _)
        (if-Answered _ ([], silent, run_lock_cmd-Writes s.forks a)
          (if-Answered _ (encode_ack fl ∷ [], acknowledges, acknowledged s.forks a n h)
            ([], silent, same-Writes a)))

  pub on_daemon_line-Answered :
      (s : Surroundings) (a : Agent) (n : ℕ) (line : Text)
      → a.daemon_fd ≡ some n
      → (lines : List Text) × Replies lines × Writes a (on_daemon_line fl s a line) lines
  unfolding on_daemon_line
  on_daemon_line-Answered s a n line h =
      elim (decode fl line)
        as (λ o.
          Answered a (elim o [ ok msg ↦ on_message fl s a msg | err e ↦ a | out_of_fuel ↦ a ])) [
            | ok msg ↦ on_message-Answered s a n msg h
            | err e ↦ ([], silent, same-Writes a)
            | out_of_fuel ↦ ([], silent, same-Writes a)
          ]

  -- What a poll of the idle monitor writes is the lines of some calls.
  pub poll_idle-Writes :
      (a : Agent) (n : ℕ) (m : Option Monitor) (events : IdleEvents)
      → a.daemon_fd ≡ some n
      → (calls : List IdleCall) × Writes a (poll_idle fl a m events) (map (idle_line fl) calls)
  unfolding poll_idle
  poll_idle-Writes a n none events h = ([], same-Writes a)
  poll_idle-Writes a n (some m) events h =
      let m' = (poll_monitor m events).0 in
      let calls = (poll_monitor m events).1 in
      let sends = send_all-Writes (record a { idle = some m' }) n (map (idle_line fl) calls) h in
      (
        calls,
        record {
          connection = sends.connection;
          players = sends.players;
          options = sends.options;
          written = sends.written;
        },
      )

  -- What a poll of the media players writes is the lines of its calls.
  pub poll_mpris-Writes :
      (a : Agent) (n : ℕ) (m : Mpris) (signals : List Signal)
      → a.daemon_fd ≡ some n
      → let m' = Mpris.poll (record m { calls = [] }) signals in
        Writes
          (record a { mpris = some m' })
          (poll_mpris fl a (some m) signals)
          (map (mpris_line fl) m'.calls)
  unfolding poll_mpris
  poll_mpris-Writes a n m signals h = send_all-Writes _ n _ h
