-- ===== src/Daemon/Speech.antt =====
-- What src/daemon/daemon.cpp sends in any run: messages of the protocol of src/shared/protocol.hpp that
-- a daemon may send, one on a line.
use draind.Base.{
  ℕ, Bool, true, ◌||◌, ◌≡◌, refl, sym, ap, ◌∙◌, List, [], ◌∷◌, ◌++◌, append_assoc, append-nil, Text,
  codes, text_eq, text_ltb, All, All-append, left, ℤ, pos, Option-cases, inl, inr,
}
use draind.Json.Value.{
  Value, Floats, is_object, assign, string, int, insert, index, find, str, has, get_object,
  get_string,
}
use draind.Json.Printer.{dump}
use draind.Json.OneLine.{IsLine, dump-IsLine}
use draind.Json.Assign.{str-assign}
use draind.Protocol.{
  msg_type, typed, t_config, t_lock, t_pre_sleep, t_ack, t_ctl_reply, encode_config, encode_lock,
  encode_pre_sleep, encode_ack, encode_ctl_reply,
}
use draind.Daemon.State.{Daemon, Env, Output, config_line, profile}
use draind.Daemon.Loop.{Event, loop}
use draind.Daemon.Moves.{
  Limits, Fits, Says, Leads, Reach, here, output, power, configure, switch, register, forget,
  buffer, connect, close,
}
use draind.Daemon.Traces.{loop-Leads, Allows}

-- A daemon may send messages of these types.
unfoldable pub is_spoken : Text → Bool
is_spoken t =
    text_eq t t_config
    || (text_eq t t_lock || (text_eq t t_pre_sleep || (text_eq t t_ack || text_eq t t_ctl_reply)))

-- What a run adds to the log is in the limits.
Reach-log :
    {k : Limits} {d e : Daemon}
    → Reach k d e
    → (xs : List Output) × (e.log ≡ d.log ++ xs) × All (Fits k) xs
Reach-log here = ([], sym (append-nil _), tt)
Reach-log {k} {d} (output ys f r) =
    let (xs, p, h) = Reach-log r in
    (xs ++ ys, ap (λ t. t ++ ys) p ∙ append_assoc d.log xs ys, All-append (Fits k) xs ys h f)
Reach-log (power w b r) = Reach-log r
Reach-log (configure m r) = Reach-log r
Reach-log (switch s r) = Reach-log r
Reach-log (register fd a p r) = Reach-log r
Reach-log (forget fd p r) = Reach-log r
Reach-log (buffer fd c rest q r) = Reach-log r
Reach-log (connect fd r) = Reach-log r
Reach-log (close fd r) = Reach-log r

module _ (fl : Floats) where
  -- A line is the printed form of an object of one of the types above, and holds no line break.
  pub record IsSpoken (line : Text) : Type 0 where
    pub message : Value
    pub printed : line ≡ dump fl message
    pub object : is_object message ≡ true
    pub typed_as : is_spoken (msg_type message) ≡ true
    pub one_line : IsLine line

  -- Anyone may come and go, and only such lines are sent.
  abbrev pub spoken : Limits
  spoken = record { members = λ fd. true; Line = IsSpoken }

  spoken-Allows : (events : List (Env × Event)) → All (λ (env, event). Allows spoken event) events
  spoken-Allows [] = tt
  spoken-Allows ((env, Event.logind ms) ∷ events) = (tt, spoken-Allows events)
  spoken-Allows ((env, Event.connects fd) ∷ events) = (tt, spoken-Allows events)
  spoken-Allows ((env, Event.ready fd rs) ∷ events) = (refl, spoken-Allows events)
  spoken-Allows ((env, Event.hardware event) ∷ events) = (tt, spoken-Allows events)

module _ (fl : Floats) (float_line : (x : ℕ) → IsLine (fl.print_g x)) where
  dump-IsSpoken :
      (v : Value) → is_object v ≡ true → is_spoken (msg_type v) ≡ true → IsSpoken fl (dump fl v)
  dump-IsSpoken v o t = record {
    message = v;
    printed = refl;
    object = o;
    typed_as = t;
    one_line = dump-IsLine fl float_line v;
  }

  typed-IsSpoken : (t : Text) → is_spoken t ≡ true → IsSpoken fl (dump fl (typed t))
  unfolding assign is_object msg_type draind.Json.Value.str
  typed-IsSpoken t h =
      dump-IsSpoken (typed t) refl
        (ap is_spoken (str-assign (codes "type") t [] draind.Json.Value.null) ∙ h)

  encode_config-IsSpoken : (dim sleep : ℤ) → IsSpoken fl (encode_config fl dim sleep)
  unfolding encode_config assign is_spoken is_object text_eq text_ltb insert index find msg_type str
      has get_object get_string
  encode_config-IsSpoken dim sleep = dump-IsSpoken _ refl refl

  config_line-IsSpoken : (d : Daemon) → IsSpoken fl (config_line fl d)
  unfolding config_line
  config_line-IsSpoken d = elim (Option-cases (profile d)) [
    | inl e ↦ rw (config_line, e) (encode_config-IsSpoken (pos 0) (pos 0))
    | inr (p, e) ↦ rw (config_line, e) (encode_config-IsSpoken p.dim_timeout p.sleep_timeout)
  ]

  encode_ctl_reply-IsSpoken : (r : Value) → IsSpoken fl (encode_ctl_reply fl r)
  unfolding encode_ctl_reply assign is_spoken text_eq is_object msg_type draind.Json.Value.str
  encode_ctl_reply-IsSpoken r =
      dump-IsSpoken (assign r (codes "type") (string t_ctl_reply)) refl
        (ap is_spoken (str-assign (codes "type") t_ctl_reply [] r))

  spoken-Says : Says (spoken fl) fl
  unfolding is_spoken text_eq encode_lock encode_pre_sleep encode_ack
  spoken-Says = record {
    config = config_line-IsSpoken;
    lock = typed-IsSpoken t_lock refl;
    pre_sleep = typed-IsSpoken t_pre_sleep refl;
    ack = typed-IsSpoken t_ack refl;
    reply = encode_ctl_reply-IsSpoken;
  }

  -- Where `%g` prints no line break, every line that a run of the event loop sends to a client, one that
  -- ends in an exception included, is one line, the printed form of an object whose type is one of
  -- those that a daemon may send.
  pub loop_speaks :
      (d : Daemon) (events : List (Env × Event))
      → (xs : List Output) × ((left (loop fl d events)).log ≡ d.log ++ xs)
        × All (Fits (spoken fl)) xs
  unfolding Leads
  loop_speaks d events =
      Reach-log (loop-Leads (spoken fl) fl spoken-Says d d events (spoken-Allows fl events) here)
