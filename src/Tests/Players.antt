-- ===== src/Tests/Players.antt =====
-- The laws of the media players at concrete inputs.
use draind.Base.{
  ◌≡◌, refl, true, false, none, some, Option, List, [], ◌∷◌, Text, codes, text_eq, is_empty,
}
use draind.Base.Maps.{has_text}
use draind.Mpris.{
  Signal, name_owner_changed, properties_changed, run, handle_name_owner_changed, owner_of,
  is_mpris_name,
}
use draind.Mpris.Playing.{run-IsConsistent}
use draind.Mpris.Owners.{replaced_owner_keeps_inhibit}

abbrev vlc : Text
vlc = codes "org.mpris.MediaPlayer2.vlc"

-- One player, which plays.
abbrev pub names : List (Text × Option Text × Option Text)
names = (vlc, some (codes ":1.5"), some (codes "Playing")) ∷ []

-- It pauses, and another one appears.
abbrev pub signals : List Signal
signals =
    properties_changed (some (codes ":1.5")) (some (codes "org.mpris.MediaPlayer2.Player"))
      ((some (codes "PlaybackStatus"), some (codes "Paused")) ∷ [])
    ∷ name_owner_changed (some (codes "org.mpris.MediaPlayer2.mpv")) (some (codes ":1.7"))
        (some (codes "Playing"))
    ∷ []

vlc-is_mpris_name : is_mpris_name vlc ≡ true
unfolding draind.Base.starts_with
vlc-is_mpris_name = refl

vlc-playing : has_text (codes ":1.5") (run names []).playing ≡ true
unfolding has_text run draind.Base.starts_with text_eq draind.Base.Maps.set_insert
vlc-playing = refl

owners_differ : text_eq (codes ":1.6") (codes ":1.5") ≡ false
unfolding text_eq
owners_differ = refl

replaced_owner_keeps_inhibit_example :
    (owner_of vlc
        (handle_name_owner_changed
          (handle_name_owner_changed
            (run names [])
            (some vlc)
            (some (codes ":1.6"))
            (some (codes "Paused")))
          (some vlc)
          (some [])
          none).wk_to_unique
      ≡ none)
    × (has_text
          (codes ":1.5")
          (handle_name_owner_changed
            (handle_name_owner_changed
              (run names [])
              (some vlc)
              (some (codes ":1.6"))
              (some (codes "Paused")))
            (some vlc)
            (some [])
            none).playing
        ≡ true)
    × ((handle_name_owner_changed
          (handle_name_owner_changed
            (run names [])
            (some vlc)
            (some (codes ":1.6"))
            (some (codes "Paused")))
          (some vlc)
          (some [])
          none).inhibiting
        ≡ true)
replaced_owner_keeps_inhibit_example =
    replaced_owner_keeps_inhibit (run names []) vlc (codes ":1.5") (codes ":1.6")
      (some (codes "Paused")) (run-IsConsistent names []) vlc-is_mpris_name refl owners_differ
      vlc-playing
