-- ===== src/Wayland.antt =====
-- src/agent/wayland_idle_monitor.cpp: the two notifications that the monitor asks the compositor
-- for, and the calls that their events make. What the compositor answers is an argument; an object
-- is its number.
pub mod Objects
pub mod Reports
use draind.Base.{
  ℕ, Bool, true, false, not, ◌&&◌, Option, none, some, List, [], ◌∷◌, ◌++◌, Text, codes, text_eq, ℤ,
  pos, ltb_ℤ, to_uint32, ◌==◌, if◌then◌else◌,
}
use draind.Idle.{IdleCall, dims, sleeps, active}

-- A request to the compositor: a notification made for a time in milliseconds, or destroyed.
pub data Request : Type 0 where
  created : ℕ → ℕ → Request
  destroyed : ℕ → Request

pub record WaylandIdle : Type 0 where
  pub notifier : Option ℕ
  pub seat : Option ℕ
  pub notif_dim : Option ℕ
  pub notif_sleep : Option ℕ
  pub requests : List Request
  pub calls : List IdleCall

abbrev pub fresh : WaylandIdle
fresh = record {
  notifier = none;
  seat = none;
  notif_dim = none;
  notif_sleep = none;
  requests = [];
  calls = [];
}

unfoldable pub destroy_sleep : WaylandIdle → Option ℕ → WaylandIdle
destroy_sleep m none = m
destroy_sleep m (some n) = record m {
  requests = m.requests ++ destroyed n ∷ [];
  notif_sleep = none;
}

unfoldable pub destroy_dim : WaylandIdle → Option ℕ → WaylandIdle
destroy_dim m none = m
destroy_dim m (some n) = record m { requests = m.requests ++ destroyed n ∷ []; notif_dim = none }

unfoldable pub destroy_notifications : WaylandIdle → WaylandIdle
unfolding destroy_sleep destroy_dim
destroy_notifications m = let m' = destroy_sleep m m.notif_sleep in destroy_dim m' m'.notif_dim

-- The dim notification, by the answer of the compositor; `false` where it makes none.
unfoldable pub create_dim : WaylandIdle → ℤ → Option ℕ → Bool × WaylandIdle
create_dim m dim_ms none = (not (ltb_ℤ (pos 0) dim_ms), m)
create_dim m dim_ms (some n) =
    if ltb_ℤ (pos 0) dim_ms
    then (
      true,
      record m { notif_dim = some n; requests = m.requests ++ created n (to_uint32 dim_ms) ∷ [] },
    )
    else (true, m)

unfoldable pub create_sleep : WaylandIdle → ℤ → Option ℕ → Bool × WaylandIdle
create_sleep m sleep_ms none = (not (ltb_ℤ (pos 0) sleep_ms), m)
create_sleep m sleep_ms (some n) =
    if ltb_ℤ (pos 0) sleep_ms
    then (
      true,
      record m {
        notif_sleep = some n;
        requests = m.requests ++ created n (to_uint32 sleep_ms) ∷ [];
      },
    )
    else (true, m)

-- The two answers of the compositor to a request for a notification.
abbrev pub Answers : Type 0
Answers = Option ℕ × Option ℕ

unfoldable pub create_notifications : WaylandIdle → ℤ → ℤ → Answers → Bool × WaylandIdle
unfolding destroy_notifications create_dim create_sleep
create_notifications m dim_ms sleep_ms (a, b) =
    let (ok, m') = create_dim (destroy_notifications m) dim_ms a in
    if ok then create_sleep m' sleep_ms b else (false, m')

unfoldable pub set_timeouts : WaylandIdle → ℤ → ℤ → Answers → WaylandIdle
unfolding create_notifications
set_timeouts m dim_ms sleep_ms answers = (create_notifications m dim_ms sleep_ms answers).1

-- What `init` meets: whether WAYLAND_DISPLAY is set and the display connects, the globals that the
-- registry names, each with the object that it is bound to, and the answers.
pub record Compositor : Type 0 where
  pub display_set : Bool
  pub connects : Bool
  pub globals : List (Text × ℕ)
  pub answers : Answers

-- The listener of the registry.
unfoldable pub bind_globals : WaylandIdle → List (Text × ℕ) → WaylandIdle
bind_globals m [] = m
bind_globals m ((iface, n) ∷ globals) =
    bind_globals
      (if text_eq iface (codes "ext_idle_notifier_v1")
        then record m { notifier = some n }
        else if text_eq iface (codes "wl_seat")
        then record m { seat = some n }
        else m)
      globals

-- `init` behind the registry.
unfoldable pub init_bound : WaylandIdle → ℤ → ℤ → Answers → Option ℕ → Option ℕ → Bool × WaylandIdle
unfolding create_notifications
init_bound m dim_ms sleep_ms answers none seat = (false, m)
init_bound m dim_ms sleep_ms answers (some n) none = (false, m)
init_bound m dim_ms sleep_ms answers (some n) (some s) =
    create_notifications m dim_ms sleep_ms answers

unfoldable pub init : Compositor → ℤ → ℤ → Bool × WaylandIdle
unfolding bind_globals init_bound
init c dim_ms sleep_ms =
    let m = bind_globals fresh c.globals in
    if c.display_set && c.connects
    then init_bound m dim_ms sleep_ms c.answers m.notifier m.seat
    else (false, fresh)

-- `notif == m_notif_dim`, where the latter may be null.
unfoldable pub is_notif : ℕ → Option ℕ → Bool
is_notif n none = false
is_notif n (some k) = n == k

unfoldable pub call : WaylandIdle → IdleCall → WaylandIdle
call m c = record m { calls = m.calls ++ c ∷ [] }

unfoldable pub on_notification_idled : WaylandIdle → ℕ → WaylandIdle
unfolding call is_notif
on_notification_idled m n =
    if is_notif n m.notif_dim
    then call m dims
    else if is_notif n m.notif_sleep
    then call m sleeps
    else m

unfoldable pub on_notification_resumed : WaylandIdle → ℕ → WaylandIdle
unfolding call
on_notification_resumed m n = call m active

-- An event of a notification.
pub data Notice : Type 0 where
  idled resumed : ℕ → Notice

-- `poll` over the events that wait.
unfoldable pub poll : WaylandIdle → List Notice → WaylandIdle
unfolding on_notification_idled on_notification_resumed
poll m [] = m
poll m (idled n ∷ ns) = poll (on_notification_idled m n) ns
poll m (resumed n ∷ ns) = poll (on_notification_resumed m n) ns

-- The end of the monitor: its notifications go.
unfoldable pub finish : WaylandIdle → WaylandIdle
unfolding destroy_notifications
finish m = destroy_notifications m
