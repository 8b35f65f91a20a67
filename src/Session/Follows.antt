-- ===== src/Session/Follows.antt =====
-- The active session of src/daemon/session_tracker.cpp against the history of the signals.
use draind.Base.{
  ◌≡◌, ◌∙◌, refl, sym, ◌&&◌, Option, none, some, List, [], ◌∷◌, ◌++◌, Text, codes, if◌then◌else◌,
  arith,
}
use draind.Session.{
  Variant, other_variant, other_struct, session, SeatSignal, reads_as, read_session, scan_changed,
  handle_seat_properties, poll,
}

-- The sessions that an entry names.
unfoldable pub entry_names : Option Text × Variant → List Text
entry_names (key, other_variant) = []
entry_names (key, other_struct) = []
entry_names (key, session none) = []
entry_names (key, session (some sid)) =
    if reads_as (codes "ActiveSession") key then sid ∷ [] else []

unfoldable pub changed_names : List (Option Text × Variant) → List Text
changed_names [] = []
changed_names (x ∷ xs) = entry_names x ++ changed_names xs

-- The sessions that a signal names, if it is one of the seat.
unfoldable pub named_by : SeatSignal → List Text
named_by m =
    if reads_as (codes "org.freedesktop.login1.Seat") m.iface && m.entered
    then changed_names m.changed
    else []

-- The sessions that the signals name, in their order.
unfoldable pub named : List SeatSignal → List Text
named [] = []
named (m ∷ ms) = named_by m ++ named ms

-- The last of a list, or what stood there before.
unfoldable pub last_or : Text → List Text → Text
last_or s [] = s
last_or s (t ∷ ts) = last_or t ts

last_or-append : (s : Text) (xs ys : List Text) → last_or s (xs ++ ys) ≡ last_or (last_or s xs) ys
unfolding last_or
last_or-append s [] ys = refl
last_or-append s (x ∷ xs) ys = last_or-append x xs ys

scan_changed-last_or :
    (s : Text) (xs : List (Option Text × Variant))
    → scan_changed s xs ≡ last_or s (changed_names xs)
unfolding scan_changed changed_names entry_names read_session last_or
scan_changed-last_or s [] = refl
scan_changed-last_or s ((key, other_variant) ∷ xs) = ground (arith, scan_changed-last_or s xs)
scan_changed-last_or s ((key, other_struct) ∷ xs) = ground (arith, scan_changed-last_or s xs)
scan_changed-last_or s ((key, session none) ∷ xs) = ground (arith, scan_changed-last_or s xs)
scan_changed-last_or s ((key, session (some sid)) ∷ xs) =
    ground (arith, scan_changed-last_or s xs, scan_changed-last_or sid xs)

pub handle-last_or :
    (s : Text) (m : SeatSignal) → handle_seat_properties s m ≡ last_or s (named_by m)
unfolding handle_seat_properties named_by last_or
handle-last_or s m = ground (arith, scan_changed-last_or s m.changed)

-- After any signals the active session is the last one that a signal of the seat named, or that of
-- before where none did.
pub poll-last_or : (s : Text) (ms : List SeatSignal) → poll s ms ≡ last_or s (named ms)
unfolding poll named last_or
poll-last_or s [] = refl
poll-last_or s (m ∷ ms) =
    poll-last_or (handle_seat_properties s m) ms
    ∙ rw (handle-last_or s m) (sym (last_or-append s (named_by m) (named ms)))
