-- ===== src/Session.antt =====
-- src/daemon/session_tracker.cpp: the active session of seat0, from the signals of logind and from
-- the query at the start. What the calls of sd-bus yield on a message is the message here.
pub mod Follows
use draind.Base.{
  Bool, true, false, not, ◌&&◌, Option, none, some, List, [], ◌∷◌, Text, codes, is_empty, text_eq,
  if◌then◌else◌,
}

-- The value of a property as the calls yield it: the variant or the structure in it could not be
-- entered, or it could and the session was read, which may give no string.
pub data Variant : Type 0 where
  other_variant other_struct : Variant
  session : Option Text → Variant

-- A signal PropertiesChanged: the interface, whether the array of the changed properties could be
-- entered, and its entries, each a key and a value, as far as they could be entered.
pub record SeatSignal : Type 0 where
  pub iface : Option Text
  pub entered : Bool
  pub changed : List (Option Text × Variant)

-- The answers to the calls of `init`: the bus opened, the reply to GetSeat and the path in it, and
-- the reply to the query of ActiveSession.
pub record Logind : Type 0 where
  pub opened : Bool
  pub seat : Option (Option Text)
  pub active : Option Variant

pub record SessionTracker : Type 0 where
  pub has_bus : Bool
  pub seat0_path : Text
  pub active_session_id : Text

abbrev pub fresh : SessionTracker
fresh = record { has_bus = false; seat0_path = []; active_session_id = [] }

-- `SessionTracker::is_active`, on the active session and another.
unfoldable pub is_active : Text → Text → Bool
is_active active session_id = not (is_empty session_id) && text_eq session_id active

-- `s && strcmp(s, text) == 0`.
unfoldable pub reads_as : Text → Option Text → Bool
reads_as text none = false
reads_as text (some s) = text_eq s text

-- The session that was read, if one was, in the place of the one before.
unfoldable pub read_session : Text → Variant → Text
read_session active other_variant = active
read_session active other_struct = active
read_session active (session none) = active
read_session active (session (some sid)) = sid

-- The loop over the entries.
unfoldable pub scan_changed : Text → List (Option Text × Variant) → Text
unfolding read_session reads_as
scan_changed active [] = active
scan_changed active ((key, v) ∷ entries) =
    scan_changed (if reads_as (codes "ActiveSession") key then read_session active v else active)
      entries

unfoldable pub handle_seat_properties : Text → SeatSignal → Text
unfolding scan_changed
handle_seat_properties active m =
    if not (reads_as (codes "org.freedesktop.login1.Seat") m.iface)
    then active
    else if not m.entered
    then active
    else scan_changed active m.changed

-- `SessionTracker::poll` with the signals that wait: each goes to the handler.
unfoldable pub poll : Text → List SeatSignal → Text
unfolding handle_seat_properties
poll active [] = active
poll active (m ∷ ms) = poll (handle_seat_properties active m) ms

-- What is taken from a reply that may be missing.
taken_path : Option Text → Text
taken_path none = []
taken_path (some path) = path

taken_session : Text → Option Variant → Text
taken_session active none = active
taken_session active (some v) = read_session active v

unfoldable pub refresh_active_session : Logind → SessionTracker → SessionTracker
unfolding taken_session
refresh_active_session l t =
    if is_empty t.seat0_path
    then t
    else record t { active_session_id = taken_session t.active_session_id l.active }

-- `init` behind the reply to GetSeat; without one the tracker stays as it is.
unfoldable pub on_seat : Logind → SessionTracker → Option (Option Text) → SessionTracker
unfolding refresh_active_session taken_path
on_seat l t none = t
on_seat l t (some path) = refresh_active_session l (record t { seat0_path = taken_path path })

-- `SessionTracker::init`: its result and the tracker.
unfoldable pub init : Logind → Bool × SessionTracker
unfolding on_seat
init l =
    if l.opened then (true, on_seat l (record fresh { has_bus = true }) l.seat) else (false, fresh)

-- `session_is_active`; the answer of `sd_session_is_active` is a parameter.
unfoldable pub session_is_active : (Text → Bool) → Text → Bool
session_is_active sd_session_is_active session_id =
    if is_empty session_id then false else sd_session_is_active session_id
