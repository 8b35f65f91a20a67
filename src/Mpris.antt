-- ===== src/Mpris.antt =====
-- src/agent/mpris_monitor.cpp: which media players are known and which of them are playing, and the
-- inhibit that a playing one holds. The messages of D-Bus are the signals below.
pub mod Board
pub mod Playing
pub mod Owners
pub mod Heard
use draind.Base.{
  Bool, true, false, not, ◌&&◌, Option, none, some, List, [], ◌∷◌, ◌++◌, Text, codes, is_empty,
  text_eq, starts_with, if◌then◌else◌,
}
use draind.Base.Maps.{set_insert, set_erase}

-- `std::unordered_map` from texts to texts.
abbrev pub Names : Type 0
Names = List (Text × Text)

unfoldable pub owner_of : Text → Names → Option Text
owner_of name [] = none
owner_of name ((n, o) ∷ names) = if text_eq name n then some o else owner_of name names

unfoldable pub forget_name : Text → Names → Names
forget_name name [] = []
forget_name name ((n, o) ∷ names) =
    let rest = forget_name name names in if text_eq name n then rest else (n, o) ∷ rest

-- `m[name] = owner`.
unfoldable pub set_name : Text → Text → Names → Names
unfolding forget_name
set_name name owner names = (name, owner) ∷ forget_name name names

-- A call of `m_on_inhibit` or of `m_on_uninhibit`.
pub data Call : Type 0 where
  inhibit uninhibit : Text → Call

pub record Mpris : Type 0 where
  pub wk_to_unique : Names
  pub unique_to_wk : Names
  pub playing : List Text
  pub inhibiting : Bool
  pub calls : List Call

abbrev pub inhibit_reason : Text
inhibit_reason = codes "mpris-playing"

abbrev pub is_mpris_name : Text → Bool
is_mpris_name name = starts_with (codes "org.mpris.MediaPlayer2.") name

-- `set_player_playing` behind the change of the set.
unfoldable pub update_inhibit : Mpris → Mpris
update_inhibit m =
    let any_playing = not (is_empty m.playing) in
    if any_playing && not m.inhibiting
    then record m { inhibiting = true; calls = m.calls ++ inhibit inhibit_reason ∷ [] }
    else if not any_playing && m.inhibiting
    then record m { inhibiting = false; calls = m.calls ++ uninhibit inhibit_reason ∷ [] }
    else m

-- The change of the set in `set_player_playing`.
abbrev pub mark : Mpris → Text → Bool → Mpris
mark m unique playing = record m {
  playing = if playing then set_insert unique m.playing else set_erase unique m.playing;
}

unfoldable pub set_player_playing : Mpris → Text → Bool → Mpris
unfolding update_inhibit
set_player_playing m unique playing = update_inhibit (mark m unique playing)

-- `query_playback_status`, by what the player answers, `none` where that fails.
unfoldable pub query_playback_status : Mpris → Text → Option Text → Mpris
unfolding set_player_playing
query_playback_status m unique none = m
query_playback_status m unique (some status) =
    set_player_playing m unique (text_eq status (codes "Playing"))

unfoldable pub add_player : Mpris → Text → Text → Option Text → Mpris
unfolding query_playback_status set_name
add_player m well_known unique status =
    query_playback_status
      (record m {
        wk_to_unique = set_name well_known unique m.wk_to_unique;
        unique_to_wk = set_name unique well_known m.unique_to_wk;
      })
      unique status

-- `remove_player` behind the search for the name.
unfoldable pub remove_owner : Mpris → Text → Option Text → Mpris
unfolding set_player_playing forget_name
remove_owner m well_known none = m
remove_owner m well_known (some unique) =
    set_player_playing
      (record m {
        wk_to_unique = forget_name well_known m.wk_to_unique;
        unique_to_wk = forget_name unique m.unique_to_wk;
      })
      unique false

unfoldable pub remove_player : Mpris → Text → Mpris
unfolding remove_owner owner_of
remove_player m well_known = remove_owner m well_known (owner_of well_known m.wk_to_unique)

-- `handle_name_owner_changed`: a text that is missing in the message is `none`; the last argument is
-- the answer to the query for the status.
unfoldable pub handle_name_owner_changed : Mpris → Option Text → Option Text → Option Text → Mpris
unfolding add_player remove_player
handle_name_owner_changed m none new_owner status = m
handle_name_owner_changed m (some name) none status =
    if is_mpris_name name then remove_player m name else m
handle_name_owner_changed m (some name) (some owner) status =
    if not (is_mpris_name name)
    then m
    else if is_empty owner
    then remove_player m name
    else add_player m name owner status

-- One entry of the changed properties: its key, and its value if that is a text.
unfoldable pub change_entry : Mpris → Text → Option Text → Option Text → Mpris
unfolding set_player_playing
change_entry m unique none value = m
change_entry m unique (some key) none = m
change_entry m unique (some key) (some value) =
    if text_eq key (codes "PlaybackStatus")
    then set_player_playing m unique (text_eq value (codes "Playing"))
    else m

unfoldable pub change_entries : Mpris → Text → List (Option Text × Option Text) → Mpris
unfolding change_entry
change_entries m unique [] = m
change_entries m unique ((key, value) ∷ entries) =
    change_entries (change_entry m unique key value) unique entries

unfoldable pub change_player :
    Mpris → Text → Option Text → Option Text → List (Option Text × Option Text) → Mpris
unfolding change_entries
change_player m unique none iface entries = m
change_player m unique (some well_known) none entries = m
change_player m unique (some well_known) (some iface) entries =
    if text_eq iface (codes "org.mpris.MediaPlayer2.Player")
    then change_entries m unique entries
    else m

-- `handle_properties_changed`: the sender, the interface and the changed entries.
unfoldable pub handle_properties_changed :
    Mpris → Option Text → Option Text → List (Option Text × Option Text) → Mpris
unfolding change_player owner_of
handle_properties_changed m none iface entries = m
handle_properties_changed m (some unique) iface entries =
    change_player m unique (owner_of unique m.unique_to_wk) iface entries

-- `scan_existing_players` over the names on the bus: each with its owner, if the bus tells it, and
-- the answer to the query for the status.
unfoldable pub scan_existing_players : Mpris → List (Text × Option Text × Option Text) → Mpris
unfolding add_player
scan_existing_players m [] = m
scan_existing_players m ((name, none, status) ∷ names) = scan_existing_players m names
scan_existing_players m ((name, some unique, status) ∷ names) =
    scan_existing_players (if is_mpris_name name then add_player m name unique status else m) names

pub data Signal : Type 0 where
  name_owner_changed : Option Text → Option Text → Option Text → Signal
  properties_changed : Option Text → Option Text → List (Option Text × Option Text) → Signal

-- `poll` over the signals that wait.
unfoldable pub poll : Mpris → List Signal → Mpris
unfolding handle_name_owner_changed handle_properties_changed
poll m [] = m
poll m (name_owner_changed name owner status ∷ signals) =
    poll (handle_name_owner_changed m name owner status) signals
poll m (properties_changed sender iface entries ∷ signals) =
    poll (handle_properties_changed m sender iface entries) signals

-- The monitor before `init`.
abbrev pub initial : Mpris
initial = record {
  wk_to_unique = [];
  unique_to_wk = [];
  playing = [];
  inhibiting = false;
  calls = [];
}

-- What `init` meets: whether the bus opens, whether it takes the matches for the owners of names and for
-- the properties of players, and its names, `none` where that query fails. Each name is as in
-- `scan_existing_players`.
pub record Bus : Type 0 where
  pub opens : Bool
  pub matches_owners : Bool
  pub matches_properties : Bool
  pub names : Option (List (Text × Option Text × Option Text))

unfoldable pub listed :
    Option (List (Text × Option Text × Option Text)) → List (Text × Option Text × Option Text)
listed none = []
listed (some names) = names

-- `init`; `none` where it returns false.
unfoldable pub init : Bus → Option Mpris
unfolding scan_existing_players listed
init bus =
    if bus.opens && (bus.matches_owners && bus.matches_properties)
    then some (scan_existing_players initial (listed bus.names))
    else none

-- The names that are there at first, and the signals that come after them.
unfoldable pub run : List (Text × Option Text × Option Text) → List Signal → Mpris
unfolding scan_existing_players poll
run names signals = poll (scan_existing_players initial names) signals
