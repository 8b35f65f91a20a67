-- ===== src/HwEvents.antt =====
-- src/daemon/hw_event_monitor.cpp: the events of the lid and the buttons, and the commands that
-- carry out an action. The numbers of linux/input.h are a parameter.
use draind.Base.{
  ℕ, ◌/◌, ◌%◌, ◌^◌, Bool, false, not, Option, none, some, List, [], ◌∷◌, ◌++◌, ◌&&◌, ◌||◌, Text,
  codes, starts_with, is_empty, text_eq, ◌==◌, if◌then◌else◌,
}

pub data HwEvent : Type 0 where
  lid_close lid_open power_button sleep_button : HwEvent

pub record InputCodes : Type 0 where
  pub ev_sw : ℕ
  pub ev_key : ℕ
  pub sw_lid : ℕ
  pub key_power : ℕ
  pub key_sleep : ℕ

-- `input_event`; a value is zero or not, and one for a key that goes down.
pub record InputEvent : Type 0 where
  pub kind : ℕ
  pub code : ℕ
  pub value : ℕ

module _ (k : InputCodes) where
  unfoldable pub event_of : InputEvent → Option HwEvent
  event_of ev =
      if ev.kind == k.ev_sw && ev.code == k.sw_lid
      then some (if ev.value == 0 then lid_open else lid_close)
      else if ev.kind == k.ev_key && ev.value == 1
      then (if ev.code == k.key_power
          then some power_button
          else if ev.code == k.key_sleep
          then some sleep_button
          else none)
      else none

  -- The events that `poll` reports for what was read.
  unfoldable pub poll_events : List InputEvent → List HwEvent
  poll_events [] = []
  poll_events (ev ∷ evs) = elim (event_of ev) [
    | none ↦ poll_events evs
    | some e ↦ e ∷ poll_events evs
  ]

-- What opening a path in /dev/input yields: nothing, a device that does not tell what it reports, or
-- one that tells it as bits.
pub data Device : Type 0 where
  unopened silent : Device
  reports : ℕ → Device

-- `evbits & (1UL << n)`.
unfoldable pub has_bit : ℕ → ℕ → Bool
has_bit evbits n = (evbits / 2 ^ n) % 2 == 1

module _ (k : InputCodes) where
  unfoldable pub is_suitable : Device → Bool
  unfolding has_bit
  is_suitable unopened = false
  is_suitable silent = false
  is_suitable (reports evbits) = has_bit evbits k.ev_sw || has_bit evbits k.ev_key

  -- The paths that `init` watches, out of the names in the directory.
  unfoldable pub watched_paths : (Text → Device) → List Text → List Text
  unfolding is_suitable
  watched_paths device [] = []
  watched_paths device (name ∷ names) =
      let rest = watched_paths device names in
      let path = codes "/dev/input/" ++ name in
      if starts_with (codes "event") name && is_suitable (device path) then path ∷ rest else rest

  -- `init`, and the paths that it watches: whether there is an epoll, and the directory, where it can
  -- be opened.
  unfoldable pub init : Bool → Option (List Text) → (Text → Device) → Bool × List Text
  unfolding watched_paths
  init epoll_ok none device = (false, [])
  init epoll_ok (some names) device =
      let paths = watched_paths device names in
      if epoll_ok then (not (is_empty paths), paths) else (false, [])

-- The command of `run_hw_action`: none for an action that is ignored or unknown.
unfoldable pub command_for : Text → Option Text
command_for action =
    if is_empty action || (text_eq action (codes "none") || text_eq action (codes "ignore"))
    then none
    else if text_eq action (codes "suspend")
    then some (codes "systemctl suspend")
    else if text_eq action (codes "hibernate")
    then some (codes "systemctl hibernate")
    else if text_eq action (codes "hybrid-sleep")
    then some (codes "systemctl hybrid-sleep")
    else if text_eq action (codes "poweroff")
    then some (codes "systemctl poweroff")
    else none
