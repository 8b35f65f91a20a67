-- ===== src/Agent/Retiming.antt =====
-- What new timeouts do to the idle monitor of src/agent/agent.cpp, whichever it is.
use draind.Base.{
  ℕ, ◌+◌, ◌≡◌, refl, sym, ◌∙◌, ap, Bool, true, false, Option, none, some, List, [], ◌∷◌, ◌++◌,
  append_assoc, append-nil, ℤ, pos, pos_part, ltb_ℤ, to_uint32, if◌then◌else◌, arith, Bool-cases,
  inl, inr,
}
use draind.Json.Value.{Floats}
use draind.Protocol.{encode_config}
use draind.Idle
use draind.Idle.{InputIdle}
use draind.Wayland
use draind.Wayland.{
  WaylandIdle, Request, created, Answers, destroy_notifications, create_dim, create_sleep,
}
use draind.Agent.{Agent, Monitor, wayland, input, Surroundings, retime, on_daemon_line}
use draind.Agent.Orders.{IsSeconds, in_ms, on_daemon_line-encode_config}

-- When an input timer fires that is set at a time: after the time to dim, after the time to sleep where
-- there is none to dim, and as before where there is neither.
unfoldable pub due : ℕ → ℤ → ℤ → Option ℕ → Option ℕ
due now dim_ms sleep_ms before =
    if ltb_ℤ (pos 0) dim_ms
    then some (now + pos_part dim_ms)
    else if ltb_ℤ (pos 0) sleep_ms
    then some (now + pos_part sleep_ms)
    else before

-- The notification for a time, where it is positive and the compositor makes one.
unfoldable pub notification : ℤ → Option ℕ → List Request
notification ms none = []
notification ms (some n) = if ltb_ℤ (pos 0) ms then created n (to_uint32 ms) ∷ [] else []

-- The notifications for both times: none for the sleep where the one to dim is refused.
unfoldable pub notifications : ℤ → ℤ → Answers → List Request
unfolding notification
notifications dim_ms sleep_ms (none, b) =
    if ltb_ℤ (pos 0) dim_ms then [] else notification sleep_ms b
notifications dim_ms sleep_ms (some n, b) = notification dim_ms (some n) ++ notification sleep_ms b

-- The monitor goes by these times: an input monitor has them and its timer is set by them, a Wayland
-- monitor has asked the compositor for them last.
unfoldable pub GoesBy : Surroundings → ℤ → ℤ → Monitor → Type 0
unfolding due notifications
GoesBy s dim_ms sleep_ms (input m) =
    (m.dim_ms ≡ dim_ms)
    × (m.sleep_ms ≡ sleep_ms)
    × (before : Option ℕ) × (m.timer ≡ due s.now dim_ms sleep_ms before)
GoesBy s dim_ms sleep_ms (wayland m) =
    (before : List Request) × (m.requests ≡ before ++ notifications dim_ms sleep_ms s.answers)

set_timeouts-times :
    (m : InputIdle) (now : ℕ) (d l : ℤ)
    → ((Idle.set_timeouts m now d l).dim_ms ≡ d)
      × ((Idle.set_timeouts m now d l).sleep_ms ≡ l)
      × ((Idle.set_timeouts m now d l).timer ≡ due now d l m.timer)
unfolding Idle.set_timeouts Idle.reset_idle_timer Idle.arm_first due
set_timeouts-times m now d l = elim (Bool-cases (ltb_ℤ (pos 0) d)) [
  | inl e ↦ ground (arith, e)
  | inr e ↦ elim (Bool-cases (ltb_ℤ (pos 0) l)) [
    | inl f ↦ ground (arith, e, f)
    | inr f ↦ ground (arith, e, f)
  ]
]

create_sleep-requests :
    (m : WaylandIdle) (l : ℤ) (b : Option ℕ)
    → (create_sleep m l b).1.requests ≡ m.requests ++ notification l b
unfolding create_sleep notification
create_sleep-requests m l none = sym (append-nil m.requests)
create_sleep-requests m l (some n) = elim (Bool-cases (ltb_ℤ (pos 0) l)) [
  | inl e ↦ rw e refl
  | inr e ↦ rw e (sym (append-nil m.requests))
]

create_dim-refused :
    (m : WaylandIdle) (d : ℤ) → ltb_ℤ (pos 0) d ≡ true → create_dim m d none ≡ (false, m)
unfolding create_dim
create_dim-refused m d e = rw e refl

create_dim-unwanted :
    (m : WaylandIdle) (d : ℤ) (a : Option ℕ)
    → ltb_ℤ (pos 0) d ≡ false
    → create_dim m d a ≡ (true, m)
unfolding create_dim
create_dim-unwanted m d none e = rw e refl
create_dim-unwanted m d (some n) e = rw e refl

create_dim-made :
    (m : WaylandIdle) (d : ℤ) (n : ℕ)
    → ltb_ℤ (pos 0) d ≡ true
    → create_dim m d (some n) ≡ (
      true,
      record m { notif_dim = some n; requests = m.requests ++ created n (to_uint32 d) ∷ [] },
    )
unfolding create_dim
create_dim-made m d n e = rw e refl

-- The requests behind the notification for the dimming.
abbrev behind : ℤ → Option ℕ → Bool × WaylandIdle → List Request
behind l b (made, m) = (if made then create_sleep m l b else (false, m)).1.requests

set_timeouts-requests :
    (m : WaylandIdle) (d l : ℤ) (answers : Answers)
    → (Wayland.set_timeouts m d l answers).requests
      ≡ (destroy_notifications m).requests ++ notifications d l answers
unfolding Wayland.set_timeouts Wayland.create_notifications notifications notification
set_timeouts-requests m d l (none, b) = elim (Bool-cases (ltb_ℤ (pos 0) d)) [
  | inl e ↦
      ap (behind l b) (create_dim-refused (destroy_notifications m) d e)
      ∙ rw e (sym (append-nil (destroy_notifications m).requests))
  | inr e ↦
      ap (behind l b) (create_dim-unwanted (destroy_notifications m) d none e)
      ∙ rw e (create_sleep-requests (destroy_notifications m) l b)
]
set_timeouts-requests m d l (some n, b) = elim (Bool-cases (ltb_ℤ (pos 0) d)) [
  | inl e ↦
      ap (behind l b) (create_dim-made (destroy_notifications m) d n e)
      ∙ rw e (
          create_sleep-requests _ l b
          ∙ append_assoc (destroy_notifications m).requests (created n (to_uint32 d) ∷ [])
              (notification l b))
  | inr e ↦
      ap (behind l b) (create_dim-unwanted (destroy_notifications m) d (some n) e)
      ∙ rw e (create_sleep-requests (destroy_notifications m) l b)
]

retime-GoesBy : (s : Surroundings) (m : Monitor) (d l : ℤ) → GoesBy s d l (retime s m d l)
unfolding GoesBy retime
retime-GoesBy s (input m) d l = let (a, b, c) = set_timeouts-times m s.now d l in (a, b, m.timer, c)
retime-GoesBy s (wayland m) d l =
    ((destroy_notifications m).requests, set_timeouts-requests m d l s.answers)

-- The daemon's line with the timeouts, in the range of `int` as milliseconds, leaves the monitor of an
-- agent one that goes by them, and nothing else of the agent changes.
pub on_daemon_line-GoesBy :
    (fl : Floats) (s : Surroundings) (a : Agent) (m : Monitor) (dim sleep : ℤ)
    → a.idle ≡ some m
    → IsSeconds dim
    → IsSeconds sleep
    → (m' : Monitor) × (on_daemon_line fl s a (encode_config fl dim sleep)
        ≡ record a { idle = some m' })
      × GoesBy s (in_ms dim) (in_ms sleep) m'
on_daemon_line-GoesBy fl s a m dim sleep e h k = (
  retime s m (in_ms dim) (in_ms sleep),
  on_daemon_line-encode_config fl s a dim sleep h k ∙ rw e refl,
  retime-GoesBy s m (in_ms dim) (in_ms sleep),
)
