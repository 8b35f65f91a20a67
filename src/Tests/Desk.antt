-- ===== src/Tests/Desk.antt =====
-- The laws of the agent, of its Wayland monitor, and of the lines between it and the daemon, at
-- concrete inputs.
use draind.Base.{
  ℕ, ◌≡◌, ◌≢◌, refl, sym, ◌∙◌, Bool, true, false, none, some, Option, List, [], ◌∷◌, ◌++◌, Text,
  codes, pos, arith, done, ok, err, err-ne-ok, is_empty, left,
}
use draind.Base.Maps.{lookup, insert}
use draind.Socket.{eof, bytes, feed}
use draind.Server.{answers, got}
use draind.Mpris
use draind.Mpris.{Mpris, Bus}
use draind.Log.{info}
use draind.Protocol.{encode_hello, encode_lock, encode_pre_sleep, encode_ack}
use draind.Wayland
use draind.Wayland.{WaylandIdle, created, set_timeouts}
use draind.Wayland.Objects.{IsTidy, live, set_timeouts-IsTidy}
use draind.Agent.{
  Agent, AgentOptions, Surroundings, on_daemon_line, started, finished, wrote, watched, unwatched,
  closed,
}
use draind.Agent.Running.{accepted, refused, daemon, loop, poll_mpris}
use draind.Agent.Orders.{orders_are_carried_out}
use draind.Agent.Life.{loop_ends_after_reconnect, first_accepted}
use draind.Tests.Json.{no_floats}
use draind.Tests.Players.{names, signals}

abbrev pub options : AgentOptions
options = record {
  socket_path = codes "/run/draind/draind.sock";
  session_id = codes "2";
  lock_cmd = codes "swaylock";
  before_sleep_cmd = codes "sync";
  uid = 1000;
  log_level = info;
}

abbrev pub desk : Agent
desk = record {
  opts = options;
  daemon_fd = some 4;
  buf = codes "{";
  idle = none;
  mpris = none;
  deeds = [];
}

abbrev pub around : Surroundings
around = record {
  forks = true;
  compositor = record {
    display_set = true;
    connects = true;
    globals = (codes "wl_seat", 1) ∷ (codes "ext_idle_notifier_v1", 2) ∷ [];
    answers = (some 3, some 4);
  };
  epoll_ok = true;
  timer_ok = true;
  now = 0;
  answers = (some 5, none);
}

orders_are_carried_out_example :
    (on_daemon_line no_floats around desk (encode_lock no_floats)
      ≡ record desk { deeds = started (codes "swaylock") ∷ [] })
    × (on_daemon_line no_floats around desk (encode_pre_sleep no_floats)
        ≡ record desk { deeds = finished (codes "sync") ∷ wrote 4 (encode_ack no_floats) ∷ [] })
    × (answers (got (encode_ack no_floats)) ≡ true)
orders_are_carried_out_example = orders_are_carried_out no_floats around desk 4 refl refl refl refl

desk_ended : (feed (codes "{") (bytes (codes "}") ∷ eof ∷ [])).0 ≡ false
unfolding feed
desk_ended = refl

desk_back : first_accepted (refused ∷ accepted 6 ∷ []) ≡ some 6
unfolding first_accepted
desk_back = refl

desk_quiet : poll_mpris no_floats desk none [] ≡ desk
unfolding poll_mpris
desk_quiet = refl

loop_ends_after_reconnect_example :
    loop no_floats desk (
      record {
        signals = [];
        ready = daemon (bytes (codes "}") ∷ eof ∷ []) (refused ∷ accepted 6 ∷ []) ∷ [];
        around = around;
      }
      ∷ record { signals = []; ready = []; around = around }
      ∷ [])
    ≡ (
      record { signals = []; ready = []; around = around } ∷ [],
      record desk {
        daemon_fd = some 6;
        buf = [];
        deeds =
            unwatched 4
            ∷ closed 4
            ∷ watched 6
            ∷ wrote 6 (encode_hello no_floats (codes "2") 1000)
            ∷ [];
      },
    )
loop_ends_after_reconnect_example =
    loop_ends_after_reconnect no_floats desk desk 4 6 [] (bytes (codes "}") ∷ eof ∷ [])
      (refused ∷ accepted 6 ∷ []) [] around
      (record { signals = []; ready = []; around = around } ∷ []) desk_quiet refl desk_ended
      desk_back

abbrev bus : Bus
bus = record { opens = true; matches_owners = true; matches_properties = true; names = some names }

-- A monitor with a notification for dim.
abbrev watching : WaylandIdle
watching = record Wayland.fresh { notif_dim = some 3; requests = created 3 300000 ∷ [] }

watching-IsTidy : IsTidy watching
unfolding IsTidy live
watching-IsTidy = refl

set_timeouts-IsTidy_example : IsTidy (set_timeouts watching (pos 1000) (pos 2000) (some 5, none))
set_timeouts-IsTidy_example =
    set_timeouts-IsTidy watching (pos 1000) (pos 2000) (some 5, none) watching-IsTidy
