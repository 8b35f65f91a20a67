-- ===== src/Mpris/Playing.antt =====
-- The inhibit of src/agent/mpris_monitor.cpp is held exactly while a player is playing.
use draind.Base.{
  subst, ◌&&◌, Bool, true, false, not, Bool-cases, ◌≡◌, refl, ap, ◌∙◌, inl, inr, Option, none, some,
  some-injective, List, [], ◌∷◌, ◌++◌, Text, codes, is_empty, text_eq, if◌then◌else◌, arith,
}
use draind.Mpris.{
  Mpris, Call, inhibit, uninhibit, Signal, name_owner_changed, properties_changed, update_inhibit,
  set_player_playing, query_playback_status, add_player, remove_owner, remove_player,
  handle_name_owner_changed, change_entry, change_entries, change_player, handle_properties_changed,
  scan_existing_players, poll, initial, Bus, listed, init, run, inhibit_reason, owner_of,
  is_mpris_name,
}

-- Whether the inhibit is held behind some calls; `none` where one is asked for that is held already, or
-- given back that is not, or where the reason is another.
unfoldable pub held : Bool → List Call → Option Bool
held now [] = some now
held true (inhibit r ∷ calls) = none
held false (inhibit r ∷ calls) =
    let rest = held true calls in if text_eq r inhibit_reason then rest else none
held true (uninhibit r ∷ calls) =
    let rest = held false calls in if text_eq r inhibit_reason then rest else none
held false (uninhibit r ∷ calls) = none

held-append :
    (now later : Bool) (cs ds : List Call)
    → held now cs ≡ some later
    → held now (cs ++ ds) ≡ held later ds
unfolding held text_eq
held-append now later [] ds h = ap (λ b. held b ds) (some-injective now later h)
held-append true later (inhibit r ∷ cs) ds h = cc
held-append false later (inhibit r ∷ cs) ds h = ground (arith, held-append true later cs ds)
held-append true later (uninhibit r ∷ cs) ds h = ground (arith, held-append false later cs ds)
held-append false later (uninhibit r ∷ cs) ds h = cc

module _ (before : Bool) where
  -- The calls so far never ask twice, and the inhibit is held by them exactly if a player is playing.
  -- `before` says whether it was held in front of them.
  pub record IsConsistent (m : Mpris) : Type 0 where
    pub in_step : held before m.calls ≡ some m.inhibiting
    pub while_playing : m.inhibiting ≡ not (is_empty m.playing)

  update_inhibit-IsConsistent :
      (m : Mpris) → held before m.calls ≡ some m.inhibiting → IsConsistent (update_inhibit m)
  unfolding update_inhibit held text_eq
  update_inhibit-IsConsistent m h = elim (Bool-cases (is_empty m.playing)) [
    | inl e ↦ elim (Bool-cases m.inhibiting) [
      | inl i ↦
          let given_back =
            held-append before true m.calls (uninhibit inhibit_reason ∷ []) (h ∙ ap some i) in
          record {
            in_step = ground (arith, e, i, given_back);
            while_playing = ground (arith, e, i);
          }
      | inr i ↦ record { in_step = ground (arith, e, i, h); while_playing = ground (arith, e, i) }
    ]
    | inr e ↦ elim (Bool-cases m.inhibiting) [
      | inl i ↦ record { in_step = ground (arith, e, i, h); while_playing = ground (arith, e, i) }
      | inr i ↦
          let taken =
            held-append before false m.calls (inhibit inhibit_reason ∷ []) (h ∙ ap some i) in
          record { in_step = ground (arith, e, i, taken); while_playing = ground (arith, e, i) }
    ]
  ]

  set_player_playing-IsConsistent :
      (m : Mpris) (unique : Text) (playing : Bool)
      → IsConsistent m
      → IsConsistent (set_player_playing m unique playing)
  unfolding set_player_playing
  set_player_playing-IsConsistent m unique playing h = update_inhibit-IsConsistent _ h.in_step

  add_player-IsConsistent :
      (m : Mpris) (name unique : Text) (status : Option Text)
      → IsConsistent m
      → IsConsistent (add_player m name unique status)
  unfolding add_player query_playback_status
  add_player-IsConsistent m name unique none h = record {
    in_step = h.in_step;
    while_playing = h.while_playing;
  }
  add_player-IsConsistent m name unique (some status) h =
      set_player_playing-IsConsistent _ unique _
        (record { in_step = h.in_step; while_playing = h.while_playing })

  remove_owner-IsConsistent :
      (m : Mpris) (name : Text) (owner : Option Text)
      → IsConsistent m
      → IsConsistent (remove_owner m name owner)
  unfolding remove_owner
  remove_owner-IsConsistent m name none h = h
  remove_owner-IsConsistent m name (some unique) h =
      set_player_playing-IsConsistent _ unique false
        (record { in_step = h.in_step; while_playing = h.while_playing })

  remove_player-IsConsistent :
      (m : Mpris) (name : Text) → IsConsistent m → IsConsistent (remove_player m name)
  unfolding remove_player
  remove_player-IsConsistent m name h =
      remove_owner-IsConsistent m name (owner_of name m.wk_to_unique) h

  if-IsConsistent :
      (b : Bool) {m n : Mpris} → IsConsistent m → IsConsistent n → IsConsistent (if b then m else n)
  if-IsConsistent true h k = h
  if-IsConsistent false h k = k

  pub owner-IsConsistent :
      (m : Mpris) (name owner status : Option Text)
      → IsConsistent m
      → IsConsistent (handle_name_owner_changed m name owner status)
  unfolding handle_name_owner_changed
  owner-IsConsistent m none owner status h = h
  owner-IsConsistent m (some name) none status h =
      if-IsConsistent (is_mpris_name name) (remove_player-IsConsistent m name h) h
  owner-IsConsistent m (some name) (some owner) status h =
      if-IsConsistent (not (is_mpris_name name)) h (
        if-IsConsistent (is_empty owner) (remove_player-IsConsistent m name h)
          (add_player-IsConsistent m name owner status h))

  change_entry-IsConsistent :
      (m : Mpris) (unique : Text) (key value : Option Text)
      → IsConsistent m
      → IsConsistent (change_entry m unique key value)
  unfolding change_entry
  change_entry-IsConsistent m unique none value h = h
  change_entry-IsConsistent m unique (some key) none h = h
  change_entry-IsConsistent m unique (some key) (some value) h =
      if-IsConsistent (text_eq key (codes "PlaybackStatus"))
        (set_player_playing-IsConsistent m unique (text_eq value (codes "Playing")) h) h

  change_entries-IsConsistent :
      (m : Mpris) (unique : Text) (entries : List (Option Text × Option Text))
      → IsConsistent m
      → IsConsistent (change_entries m unique entries)
  unfolding change_entries
  change_entries-IsConsistent m unique [] h = h
  change_entries-IsConsistent m unique ((key, value) ∷ entries) h =
      change_entries-IsConsistent (change_entry m unique key value) unique entries
        (change_entry-IsConsistent m unique key value h)

  properties-IsConsistent :
      (m : Mpris) (sender iface : Option Text) (entries : List (Option Text × Option Text))
      → IsConsistent m
      → IsConsistent (handle_properties_changed m sender iface entries)
  unfolding handle_properties_changed
  properties-IsConsistent m none iface entries h = h
  properties-IsConsistent m (some unique) iface entries h =
      known (owner_of unique m.unique_to_wk) iface
    where
      known : (o iface : Option Text) → IsConsistent (change_player m unique o iface entries)
      known none iface = unfold change_player in h
      known (some name) none = unfold change_player in h
      known (some name) (some i) =
          unfold change_player in
          if-IsConsistent (text_eq i (codes "org.mpris.MediaPlayer2.Player"))
            (change_entries-IsConsistent m unique entries h) h

  pub scan-IsConsistent :
      (m : Mpris) (names : List (Text × Option Text × Option Text))
      → IsConsistent m
      → IsConsistent (scan_existing_players m names)
  unfolding scan_existing_players
  scan-IsConsistent m [] h = h
  scan-IsConsistent m ((name, none, status) ∷ names) h = scan-IsConsistent m names h
  scan-IsConsistent m ((name, some unique, status) ∷ names) h =
      scan-IsConsistent (if is_mpris_name name then add_player m name unique status else m) names
        (if-IsConsistent (is_mpris_name name) (add_player-IsConsistent m name unique status h) h)

  pub poll-IsConsistent :
      (m : Mpris) (signals : List Signal) → IsConsistent m → IsConsistent (poll m signals)
  unfolding poll
  poll-IsConsistent m [] h = h
  poll-IsConsistent m (name_owner_changed name owner status ∷ signals) h =
      poll-IsConsistent (handle_name_owner_changed m name owner status) signals
        (owner-IsConsistent m name owner status h)
  poll-IsConsistent m (properties_changed sender iface entries ∷ signals) h =
      poll-IsConsistent (handle_properties_changed m sender iface entries) signals
        (properties-IsConsistent m sender iface entries h)

pub init-IsConsistent : (bus : Bus) (m : Mpris) → init bus ≡ some m → IsConsistent false m
unfolding init
init-IsConsistent bus m e =
    let scanned =
      scan-IsConsistent false initial (listed bus.names)
        (record { in_step = unfold held in refl; while_playing = refl }) in
    elim (Bool-cases (bus.opens && (bus.matches_owners && bus.matches_properties))) [
      | inl x ↦ subst (IsConsistent false) (some-injective _ _ (rw x at e)) scanned
      | inr x ↦ cc (rw x at e)
    ]

-- Whatever players there are at first and whatever signals come, the monitor never asks for the inhibit
-- twice, gives back none that it does not hold, names the one reason, and holds it exactly while a
-- player is playing.
pub run-IsConsistent :
    (names : List (Text × Option Text × Option Text)) (signals : List Signal)
    → IsConsistent false (run names signals)
unfolding run
run-IsConsistent names signals = poll-IsConsistent false _ signals (
    scan-IsConsistent false initial names
      (record { in_step = unfold held in refl; while_playing = refl }))
