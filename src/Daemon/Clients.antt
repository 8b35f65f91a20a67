-- ===== src/Daemon/Clients.antt =====
-- What becomes of a client of src/daemon/daemon.cpp whose stream ends, or that sends a line that
-- does not parse.
use draind.Base.{
  ℕ, false, ◌≡◌, ◌≢◌, refl, none, some, inl, inr, not, ◌&&◌, Result-cases, Bool-cases, List, [],
  Text, done, ok, arith, ◌==◌,
}
use draind.Base.Maps.{lookup, insert, lookup-erase}
use draind.Json.Value.{Value, Floats}
use draind.Socket.{ReadResult, feed, read_all}
use draind.Server.{Connection}
use draind.Protocol.{decode}
use draind.Daemon.State.{Daemon, Env, close_client, epoll_del, emit}
use draind.Daemon.Handlers.{on_disconnect}
use draind.Daemon.Loop.{reject, on_line, on_lines, finish_client, serve, handle_client}
use draind.Daemon.Inhibits.{holds, holds-on_disconnect}

feed_ended : (buf : Text) (rs : List ReadResult) → (feed buf rs).0 ≡ false → (feed buf rs).1 ≡ []
unfolding feed
feed_ended buf rs h = elim (Bool-cases (read_all buf rs).0) [
  | inl e ↦ absurd (ground (arith, e, h))
  | inr e ↦ rw e refl
]

module _ (fl : Floats) (env : Env) (d : Daemon) (fd : ℕ) where
  rejected :
      (line : Text)
      → ((msg : Value) → decode fl line ≢ ok msg)
      → on_line fl env d fd line ≡ done (reject fl d fd)
  unfolding on_line
  rejected line h = elim (Result-cases (decode fl line)) [
    | inl (msg, e) ↦ absurd (h msg e)
    | inr (inl (t, e)) ↦ rw (e, on_line) refl
    | inr (inr e) ↦ rw (e, on_line) refl
  ]

  not_served :
      (e : Daemon) (rs : List ReadResult)
      → lookup fd e.conns ≡ none
      → handle_client fl env e fd rs ≡ done e
  unfolding handle_client serve
  not_served e rs h = rw h refl

  -- A line that does not parse ends the connection: in the state behind it nothing that arrives
  -- for the descriptor is handled. But every agent keeps its reasons, the one that is gone too.
  pub malformed_line_keeps_inhibits :
      (line : Text)
      → ((msg : Value) → decode fl line ≢ ok msg)
      → (e : Daemon) × (on_line fl env d fd line ≡ done e)
        × ((rs : List ReadResult) → handle_client fl env e fd rs ≡ done e)
        × ((j : ℕ) (r : Text) → holds e j r ≡ holds d j r)
  unfolding reject close_client epoll_del emit holds
  malformed_line_keeps_inhibits line h =
      let gone : lookup fd (reject fl d fd).conns ≡ none =
        ground (arith, lookup-erase fd fd d.conns) in
      (reject fl d fd, rejected line h, λ rs. not_served (reject fl d fd) rs gone, λ j r. refl)

  -- The state behind a stream that has ended.
  without_client : Connection → Text → Daemon
  unfolding close_client on_disconnect
  without_client c rest =
      let e = record d { conns = insert fd (record c { buf = rest }) d.conns } in
      close_client (on_disconnect e fd) fd

  handle_ended :
      (rs : List ReadResult) (c : Connection)
      → lookup fd d.conns ≡ some c
      → (feed c.buf rs).0 ≡ false
      → handle_client fl env d fd rs ≡ done (without_client c (feed c.buf rs).2)
  unfolding handle_client serve finish_client on_lines without_client
  handle_ended rs c h k = rw h (rw (k, feed_ended c.buf rs k) refl)

  -- A stream that has ended takes the client with it, whatever it had sent: neither a connection nor
  -- an agent is left at the descriptor, its reasons are dropped and those of the others kept, and
  -- what arrived with the end is not handled.
  pub ended_stream_is_dropped :
      (rs : List ReadResult) (c : Connection)
      → lookup fd d.conns ≡ some c
      → (feed c.buf rs).0 ≡ false
      → (e : Daemon) × (handle_client fl env d fd rs ≡ done e)
        × (lookup fd e.conns ≡ none)
        × (lookup fd e.agents ≡ none)
        × ((j : ℕ) (r : Text) → holds e j r ≡ (not (fd == j) && holds d j r))
        × (e.power ≡ d.power)
        × (e.dimmed ≡ d.dimmed)
  unfolding without_client close_client on_disconnect epoll_del emit holds
  ended_stream_is_dropped rs c h k =
      let e = without_client c (feed c.buf rs).2 in
      let conns = insert fd (record c { buf = (feed c.buf rs).2 }) d.conns in
      (
        e,
        handle_ended rs c h k,
        ground (arith, lookup-erase fd fd conns),
        ground (arith, lookup-erase fd fd d.agents),
        λ j r. holds-on_disconnect d fd j r,
        refl,
        refl,
      )
