-- ===== src/Protocol/Messages.antt =====
-- What the receiver reads out of each message of src/shared/protocol.hpp.
use draind.Base.{
  ℕ, ◌<◌, ◌^◌, ◌≡◌, refl, Text, [], ◌∷◌, codes, text_eq, text_ltb, ℤ, pos, to_uint32, ok, arith,
}
use draind.Json.Value.{
  Value, Floats, assign, insert, get_object, str, num, has, index, find, get_string, get_int,
}
use draind.Json.Printer.{dump}
use draind.Json.RoundTrip.{parse-dump}
use draind.Json.Digits.{IsInt64}
use draind.Protocol.{
  t_hello, t_config, t_inhibit, t_ctl, msg_type, decode, encode_hello, encode_inhibit,
  encode_uninhibit, t_uninhibit, encode_config, encode_ctl, typed,
}

module _ (fl : Floats) where
  -- The daemon reads out of a hello the session and the user, a number below 2 ^ 32, that the agent
  -- wrote into it.
  pub decode-encode_hello :
      (session_id : Text) (uid : ℕ)
      → uid < 2 ^ 32
      → (v : Value) × (decode fl (encode_hello fl session_id uid) ≡ ok v)
        × (msg_type v ≡ t_hello)
        × (str v (codes "session_id") [] ≡ session_id)
        × (to_uint32 (num fl v (codes "uid") (pos 0)) ≡ uid)
  unfolding decode encode_hello assign insert text_eq text_ltb str num has index find msg_type
      to_uint32 get_object get_string get_int
  decode-encode_hello session_id uid h = (
    _,
    parse-dump fl _
        ((refl, (refl, tt)), tt, ((refl, tt), tt, (tt, (omega arith, omega arith), tt))),
    refl,
    refl,
    omega arith,
  )

  -- The daemon reads out of an inhibit the reason that the agent wrote into it.
  pub decode-encode_inhibit :
      (reason : Text)
      → (v : Value) × (decode fl (encode_inhibit fl reason) ≡ ok v)
        × (msg_type v ≡ t_inhibit)
        × (str v (codes "reason") [] ≡ reason)
  unfolding decode encode_inhibit assign insert text_eq text_ltb str has index find msg_type
      get_object get_string
  decode-encode_inhibit reason = (_, parse-dump fl _ ((refl, tt), tt, (tt, tt, tt)), refl, refl)

  -- The daemon reads out of an uninhibit the reason that the agent wrote into it.
  pub decode-encode_uninhibit :
      (reason : Text)
      → (v : Value) × (decode fl (encode_uninhibit fl reason) ≡ ok v)
        × (msg_type v ≡ t_uninhibit)
        × (str v (codes "reason") [] ≡ reason)
  unfolding decode encode_uninhibit assign insert text_eq text_ltb str has index find msg_type
      get_object get_string
  decode-encode_uninhibit reason = (_, parse-dump fl _ ((refl, tt), tt, (tt, tt, tt)), refl, refl)

  -- The agent reads out of a config the timeouts, in the range of `int64_t`, that the daemon wrote
  -- into it.
  pub decode-encode_config :
      (dim sleep : ℤ)
      → IsInt64 dim
      → IsInt64 sleep
      → (v : Value) × (decode fl (encode_config fl dim sleep) ≡ ok v)
        × (msg_type v ≡ t_config)
        × (num fl v (codes "dim_timeout") (pos 0) ≡ dim)
        × (num fl v (codes "sleep_timeout") (pos 0) ≡ sleep)
  unfolding decode encode_config assign insert text_eq text_ltb num has index find msg_type str
      get_object get_string get_int
  decode-encode_config dim sleep hd hs = (
    _,
    parse-dump fl _ ((refl, (refl, tt)), hd, ((refl, tt), hs, (tt, tt, tt))),
    refl,
    refl,
    refl,
  )

  -- The daemon reads out of a request the command and the profile that the client wrote into it,
  -- an empty profile as a missing one.
  pub decode-encode_ctl :
      (cmd profile : Text)
      → (v : Value) × (decode fl (encode_ctl fl cmd profile) ≡ ok v)
        × (msg_type v ≡ t_ctl)
        × (str v (codes "cmd") [] ≡ cmd)
        × (str v (codes "profile") [] ≡ profile)
  unfolding decode encode_ctl assign insert text_eq text_ltb str has index find msg_type get_object
      get_string
  decode-encode_ctl cmd [] = (_, parse-dump fl _ ((refl, tt), tt, (tt, tt, tt)), refl, refl, refl)
  decode-encode_ctl cmd (c ∷ profile) = (
    _,
    parse-dump fl _ ((refl, (refl, tt)), tt, ((refl, tt), tt, (tt, tt, tt))),
    refl,
    refl,
    refl,
  )

  -- A message that holds nothing but its type.
  pub decode-typed :
      (t : Text) → (v : Value) × (decode fl (dump fl (typed t)) ≡ ok v) × (msg_type v ≡ t)
  unfolding decode assign insert text_eq str has index find msg_type get_object get_string
  decode-typed t = (_, parse-dump fl _ (tt, tt, tt), refl)
