-- ===== src/Agent/Life.antt =====
-- When the loop of src/agent/agent.cpp returns, and what becomes of a player that plays before the
-- agent starts.
use draind.Base.{
  ℕ, ◌≡◌, ap, ◌∙◌, false, some, none, Option, List, [], ◌∷◌, ◌++◌, append_assoc, some-injective,
}
use draind.Json.Value.{Floats}
use draind.Socket.{ReadResult, feed}
use draind.Mpris
use draind.Mpris.{Mpris, Signal, Call, inhibit, uninhibit}
use draind.Protocol.{encode_hello}
use draind.Agent.{Agent, wrote, watched, unwatched, closed, emit, send, send_to, Surroundings}
use draind.Agent.Running.{
  Attempt, accepted, refused, Ready, daemon, Lap, connect_to_daemon, on_daemon_disconnect,
  read_daemon, on_ready, loop, poll_mpris,
}

-- The first attempt that is accepted, if no signal comes before it.
unfoldable pub first_accepted : List Attempt → Option ℕ
first_accepted [] = none
first_accepted (refused ∷ xs) = first_accepted xs
first_accepted (accepted fd ∷ xs) = some fd
first_accepted (Attempt.accepted_late fd ∷ xs) = none

module _ (fl : Floats) where
  connect_to_daemon_lem :
      (a : Agent) (xs : List Attempt) (fd : ℕ)
      → first_accepted xs ≡ some fd
      → connect_to_daemon fl a xs ≡ record a {
        daemon_fd = some fd;
        deeds =
            a.deeds ++ watched fd ∷ wrote fd (encode_hello fl a.opts.session_id a.opts.uid) ∷ [];
      }
  unfolding first_accepted connect_to_daemon send send_to emit
  connect_to_daemon_lem a [] fd e = cc
  connect_to_daemon_lem a (refused ∷ xs) fd e = connect_to_daemon_lem a xs fd e
  connect_to_daemon_lem a (accepted n ∷ xs) fd e =
      rw (some-injective n fd e)
        (ap (λ ys. record a { daemon_fd = some fd; deeds = ys }) (append_assoc a.deeds _ _))
  connect_to_daemon_lem a (Attempt.accepted_late n ∷ xs) fd e = cc

  -- When, in a lap that begins with the players' signals, the stream of the daemon ends and a new connection is made, the agent drops what was
  -- received, closes the old connection, says hello on the new one, and its loop returns without a
  -- look at the laps that are left: the agent ends although it is connected again.
  pub loop_ends_after_reconnect :
      (a b : Agent) (fd next : ℕ) (signals : List Signal) (rs : List ReadResult) (xs : List Attempt)
      (more : List Ready) (s : Surroundings) (laps : List Lap)
      → poll_mpris fl a a.mpris signals ≡ b
      → b.daemon_fd ≡ some fd
      → (feed b.buf rs).0 ≡ false
      → first_accepted xs ≡ some next
      → loop fl a (record { signals = signals; ready = daemon rs xs ∷ more; around = s } ∷ laps) ≡ (
        laps,
        record b {
          daemon_fd = some next;
          buf = [];
          deeds =
              b.deeds
              ++ unwatched fd
                ∷ closed fd
                ∷ watched next
                ∷ wrote next (encode_hello fl b.opts.session_id b.opts.uid)
                ∷ [];
        },
      )
  unfolding loop on_ready read_daemon on_daemon_disconnect emit
  loop_ends_after_reconnect a b fd next signals rs xs more s laps p e f g =
      rw (p, e, f, connect_to_daemon_lem _ xs next g)
        (ap (λ ys. (laps, record b { daemon_fd = some next; buf = []; deeds = ys }))
          (append_assoc (b.deeds ++ unwatched fd ∷ []) _ _ ∙ append_assoc b.deeds _ _))
