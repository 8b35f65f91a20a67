-- ===== src/Mpris/Heard.antt =====
-- The monitor of src/agent/mpris_monitor.cpp against the history of what the bus has said.
use draind.Base.{
  Bool, true, false, not, ◌&&◌, some-injective, Bool-cases, ◌≡◌, refl, ap, ◌∙◌, subst, inl, inr,
  Option, none, some, List, [], ◌∷◌, Text, codes, is_empty, text_eq, if◌then◌else◌,
}
use draind.Base.Maps.{has_text}
use draind.Mpris.{
  Mpris, Signal, name_owner_changed, properties_changed, set_player_playing, query_playback_status,
  add_player, remove_owner, remove_player, handle_name_owner_changed, change_entry, change_entries,
  change_player, handle_properties_changed, scan_existing_players, poll, initial, Bus, listed, init,
  owner_of, is_mpris_name,
}
use draind.Mpris.Owners.{
  set_player_playing-has, set_player_playing-names, set_player_playing-reverse,
  owner_of-forget_name_at, owner_of-set_name_at,
}
use draind.Mpris.Board.{
  some_playing-set, Board, nobody, last_said, some_playing, say, says_status, appears, vanishes,
  hears_owner, hears_entries, hears_properties, hears, finds,
}

-- The monitor knows the names on the board, and has in its set those who are said to play.
pub record Tracks (b : Board) (m : Mpris) : Type 0 where
  pub owners : (name : Text) → owner_of name m.wk_to_unique ≡ b.owners name
  pub names : (u : Text) → owner_of u m.unique_to_wk ≡ b.names u
  pub said : (u : Text) → has_text u m.playing ≡ last_said u b.said

say-Tracks :
    (b : Board) (m : Mpris) (u : Text) (p : Bool)
    → Tracks b m
    → Tracks (say b u p) (set_player_playing m u p)
unfolding last_said
say-Tracks b m u p h = record {
  owners = λ name. ap (owner_of name) (set_player_playing-names m u p) ∙ h.owners name;
  names = λ v. ap (owner_of v) (set_player_playing-reverse m u p) ∙ h.names v;
  said = λ v. set_player_playing-has m u v p ∙ rw (h.said v) refl;
}

says_status-Tracks :
    (b : Board) (m : Mpris) (u : Text) (status : Option Text)
    → Tracks b m
    → Tracks (says_status b u status) (query_playback_status m u status)
unfolding says_status query_playback_status
says_status-Tracks b m u none h = h
says_status-Tracks b m u (some status) h = say-Tracks b m u _ h

appears-Tracks :
    (b : Board) (m : Mpris) (name u : Text) (status : Option Text)
    → Tracks b m
    → Tracks (appears b name u status) (add_player m name u status)
unfolding appears add_player
appears-Tracks b m name u status h = says_status-Tracks _ _ u status (record {
  owners = λ x. owner_of-set_name_at name x u m.wk_to_unique ∙ rw (h.owners x) refl;
  names = λ v. owner_of-set_name_at u v name m.unique_to_wk ∙ rw (h.names v) refl;
  said = h.said;
})

vanishes-Tracks :
    (b : Board) (m : Mpris) (name : Text) (o : Option Text)
    → Tracks b m
    → Tracks (vanishes b name o) (remove_owner m name o)
unfolding vanishes remove_owner
vanishes-Tracks b m name none h = h
vanishes-Tracks b m name (some u) h = say-Tracks _ _ u false (record {
  owners = λ x. owner_of-forget_name_at name x m.wk_to_unique ∙ rw (h.owners x) refl;
  names = λ v. owner_of-forget_name_at u v m.unique_to_wk ∙ rw (h.names v) refl;
  said = h.said;
})

removed-Tracks :
    (b : Board) (m : Mpris) (name : Text)
    → Tracks b m
    → Tracks (vanishes b name (b.owners name)) (remove_player m name)
unfolding remove_player
removed-Tracks b m name h =
    subst (λ o. Tracks (vanishes b name o) (remove_player m name)) (h.owners name)
      (vanishes-Tracks b m name (owner_of name m.wk_to_unique) h)

if-Tracks :
    (c : Bool) {b d : Board} {m n : Mpris}
    → Tracks b m
    → Tracks d n
    → Tracks (if c then b else d) (if c then m else n)
if-Tracks true h k = h
if-Tracks false h k = k

if_not-Tracks :
    (c : Bool) {b d : Board} {m n : Mpris}
    → Tracks b m
    → Tracks d n
    → Tracks (if c then b else d) (if not c then n else m)
if_not-Tracks true h k = h
if_not-Tracks false h k = k

owner-Tracks :
    (b : Board) (m : Mpris) (name : Text) (owner status : Option Text)
    → Tracks b m
    → Tracks
        (if is_mpris_name name then hears_owner b name owner status else b)
        (handle_name_owner_changed m (some name) owner status)
unfolding handle_name_owner_changed hears_owner
owner-Tracks b m name none status h = if-Tracks (is_mpris_name name) (removed-Tracks b m name h) h
owner-Tracks b m name (some []) status h =
    if_not-Tracks (is_mpris_name name) (removed-Tracks b m name h) h
owner-Tracks b m name (some (c ∷ u)) status h =
    if_not-Tracks (is_mpris_name name) (appears-Tracks b m name (c ∷ u) status h) h

entries-Tracks :
    (entries : List (Option Text × Option Text)) (b : Board) (m : Mpris) (u : Text)
    → Tracks b m
    → Tracks (hears_entries b u entries) (change_entries m u entries)
unfolding hears_entries change_entries change_entry says_status
entries-Tracks [] b m u h = h
entries-Tracks ((none, value) ∷ entries) b m u h = entries-Tracks entries b m u h
entries-Tracks ((some key, none) ∷ entries) b m u h =
    entries-Tracks entries _ m u
      (subst (λ x. Tracks x m) (same (text_eq key (codes "PlaybackStatus"))) h)
  where
    same : (c : Bool) → b ≡ (if c then b else b)
    same true = refl
    same false = refl
entries-Tracks ((some key, some value) ∷ entries) b m u h = entries-Tracks entries _ _ u (
    if-Tracks (text_eq key (codes "PlaybackStatus"))
      (say-Tracks b m u (text_eq value (codes "Playing")) h) h)

properties-Tracks :
    (b : Board) (m : Mpris) (u : Text) (o iface : Option Text)
    (entries : List (Option Text × Option Text))
    → Tracks b m
    → Tracks (hears_properties b u o iface entries) (change_player m u o iface entries)
unfolding hears_properties change_player
properties-Tracks b m u none iface entries h = h
properties-Tracks b m u (some name) none entries h = h
properties-Tracks b m u (some name) (some iface) entries h =
    if-Tracks (text_eq iface (codes "org.mpris.MediaPlayer2.Player"))
      (entries-Tracks entries b m u h) h

pub hears-Tracks :
    (signals : List Signal) (b : Board) (m : Mpris)
    → Tracks b m
    → Tracks (hears b signals) (poll m signals)
unfolding hears poll handle_properties_changed handle_name_owner_changed
hears-Tracks [] b m h = h
hears-Tracks (name_owner_changed none owner status ∷ signals) b m h = hears-Tracks signals b m h
hears-Tracks (name_owner_changed (some name) owner status ∷ signals) b m h =
    hears-Tracks signals _ _ (owner-Tracks b m name owner status h)
hears-Tracks (properties_changed none iface entries ∷ signals) b m h = hears-Tracks signals b m h
hears-Tracks (properties_changed (some u) iface entries ∷ signals) b m h =
    hears-Tracks signals _ _ (
      subst
        (λ o.
          Tracks (hears_properties b u o iface entries)
            (handle_properties_changed m (some u) iface entries))
        (h.names u) (properties-Tracks b m u (owner_of u m.unique_to_wk) iface entries h))

pub finds-Tracks :
    (names : List (Text × Option Text × Option Text)) (b : Board) (m : Mpris)
    → Tracks b m
    → Tracks (finds b names) (scan_existing_players m names)
unfolding finds scan_existing_players
finds-Tracks [] b m h = h
finds-Tracks ((name, none, status) ∷ names) b m h = finds-Tracks names b m h
finds-Tracks ((name, some u, status) ∷ names) b m h =
    finds-Tracks names _ _ (if-Tracks (is_mpris_name name) (appears-Tracks b m name u status h) h)

pub nobody-Tracks : Tracks nobody initial
unfolding last_said has_text owner_of
nobody-Tracks = record { owners = λ name. refl; names = λ u. refl; said = λ u. refl }

pub init-Tracks :
    (bus : Bus) (m : Mpris) → init bus ≡ some m → Tracks (finds nobody (listed bus.names)) m
unfolding init
init-Tracks bus m e =
    let found = finds-Tracks (listed bus.names) nobody initial nobody-Tracks in
    elim (Bool-cases (bus.opens && (bus.matches_owners && bus.matches_properties))) [
      | inl x ↦
          subst (Tracks (finds nobody (listed bus.names))) (some-injective _ _ (rw x at e)) found
      | inr x ↦ cc (rw x at e)
    ]

-- The inhibit of a consistent monitor is held as the board says.
pub Tracks-inhibiting :
    {b : Board} {m : Mpris}
    → Tracks b m
    → m.inhibiting ≡ not (is_empty m.playing)
    → m.inhibiting ≡ some_playing b.said
Tracks-inhibiting {b} {m} h k = k ∙ some_playing-set m.playing b.said h.said
