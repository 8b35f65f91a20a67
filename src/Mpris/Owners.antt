-- ===== src/Mpris/Owners.antt =====
-- A player of src/agent/mpris_monitor.cpp whose name passes from one owner to another.
use draind.Base.{
  Bool, true, false, not, ◌≡◌, refl, ap, ◌∙◌, Option, none, some, List, [], ◌∷◌, Text, is_empty,
  text_eq, text_eq_refl, text_eq_iff, if◌then◌else◌, arith,
}
use draind.Base.Maps.{has_text, has_text-set_insert, has_text-set_erase}
use draind.Mpris.{
  Mpris, Names, update_inhibit, set_player_playing, query_playback_status, add_player, remove_owner,
  remove_player, handle_name_owner_changed, owner_of, is_mpris_name, set_name, forget_name, mark,
}
use draind.Mpris.Playing.{IsConsistent, owner-IsConsistent}

update_inhibit-playing : (m : Mpris) → (update_inhibit m).playing ≡ m.playing
unfolding update_inhibit
update_inhibit-playing m = ground arith

update_inhibit-names : (m : Mpris) → (update_inhibit m).wk_to_unique ≡ m.wk_to_unique
unfolding update_inhibit
update_inhibit-names m = ground arith

-- Setting one player changes no other.
pub set_player_playing-has :
    (m : Mpris) (unique other : Text) (playing : Bool)
    → has_text other (set_player_playing m unique playing).playing
      ≡ (if text_eq unique other then playing else has_text other m.playing)
unfolding set_player_playing
set_player_playing-has m unique other true =
    rw (update_inhibit-playing (mark m unique true), has_text-set_insert unique other m.playing)
      (ground (arith, text_eq_iff other unique, text_eq_iff unique other))
set_player_playing-has m unique other false =
    rw (update_inhibit-playing (mark m unique false)) (has_text-set_erase unique other m.playing)

pub set_player_playing-names :
    (m : Mpris) (unique : Text) (playing : Bool)
    → (set_player_playing m unique playing).wk_to_unique ≡ m.wk_to_unique
unfolding set_player_playing
set_player_playing-names m unique playing = update_inhibit-names (mark m unique playing)

owner_of-set_name :
    (name owner : Text) (names : Names) → owner_of name (set_name name owner names) ≡ some owner
unfolding owner_of set_name
owner_of-set_name name owner names = rw (text_eq_refl name) refl

owner_of-forget_name : (name : Text) (names : Names) → owner_of name (forget_name name names) ≡ none
unfolding owner_of forget_name
owner_of-forget_name name [] = refl
owner_of-forget_name name ((n, o) ∷ names) = ground (arith, owner_of-forget_name name names)

pub owner_of-forget_name_at :
    (x y : Text) (names : Names)
    → owner_of y (forget_name x names) ≡ (if text_eq y x then none else owner_of y names)
unfolding owner_of forget_name
owner_of-forget_name_at x y [] = ground arith
owner_of-forget_name_at x y ((n, o) ∷ names) =
    ground
      (arith, text_eq_iff x n, text_eq_iff y x, text_eq_iff y n, owner_of-forget_name_at x y names)

pub owner_of-set_name_at :
    (x y o : Text) (names : Names)
    → owner_of y (set_name x o names) ≡ (if text_eq y x then some o else owner_of y names)
unfolding owner_of set_name
owner_of-set_name_at x y o names = ground (arith, owner_of-forget_name_at x y names)

update_inhibit-reverse : (m : Mpris) → (update_inhibit m).unique_to_wk ≡ m.unique_to_wk
unfolding update_inhibit
update_inhibit-reverse m = ground arith

pub set_player_playing-reverse :
    (m : Mpris) (unique : Text) (playing : Bool)
    → (set_player_playing m unique playing).unique_to_wk ≡ m.unique_to_wk
unfolding set_player_playing
set_player_playing-reverse m unique playing = update_inhibit-reverse (mark m unique playing)

-- What an appearing player changes: its name leads to it, and no other player's state changes.
add_player_lem :
    (m : Mpris) (name unique other : Text) (status : Option Text)
    → text_eq unique other ≡ false
    → (owner_of name (add_player m name unique status).wk_to_unique ≡ some unique)
      × (has_text other (add_player m name unique status).playing ≡ has_text other m.playing)
unfolding add_player query_playback_status
add_player_lem m name unique other none h = (owner_of-set_name name unique m.wk_to_unique, refl)
add_player_lem m name unique other (some status) h = (
  ap (owner_of name) (set_player_playing-names _ unique _)
      ∙ owner_of-set_name name unique m.wk_to_unique,
  set_player_playing-has _ unique other _ ∙ rw h refl,
)

remove_player_lem :
    (m : Mpris) (name unique other : Text)
    → owner_of name m.wk_to_unique ≡ some unique
    → text_eq unique other ≡ false
    → (owner_of name (remove_player m name).wk_to_unique ≡ none)
      × (has_text other (remove_player m name).playing ≡ has_text other m.playing)
unfolding remove_player remove_owner
remove_player_lem m name unique other h k = rw h (
  ap (owner_of name) (set_player_playing-names _ unique false)
      ∙ owner_of-forget_name name m.wk_to_unique,
  set_player_playing-has _ unique other false ∙ rw k refl,
)

nonempty-has : (t : Text) (ts : List Text) → has_text t ts ≡ true → is_empty ts ≡ false
unfolding has_text
nonempty-has t [] h = cc
nonempty-has t (x ∷ xs) h = refl

owner_appears :
    (m : Mpris) (name owner : Text) (status : Option Text)
    → is_mpris_name name ≡ true
    → is_empty owner ≡ false
    → handle_name_owner_changed m (some name) (some owner) status ≡ add_player m name owner status
unfolding handle_name_owner_changed
owner_appears m name owner status w x = rw (w, x) refl

owner_vanishes :
    (m : Mpris) (name : Text)
    → is_mpris_name name ≡ true
    → handle_name_owner_changed m (some name) (some []) none ≡ remove_player m name
unfolding handle_name_owner_changed
owner_vanishes m name w = rw w refl

-- In a consistent monitor, a player that is playing when its name passes to another owner still
-- counts as playing after the name has vanished: the name leads nowhere any more, but the inhibit
-- is held.
pub replaced_owner_keeps_inhibit :
    (m : Mpris) (name old new : Text) (status : Option Text)
    → IsConsistent false m
    → is_mpris_name name ≡ true
    → is_empty new ≡ false
    → text_eq new old ≡ false
    → has_text old m.playing ≡ true
    → let passed = handle_name_owner_changed m (some name) (some new) status in
      let gone = handle_name_owner_changed passed (some name) (some []) none in
      (owner_of name gone.wk_to_unique ≡ none)
      × (has_text old gone.playing ≡ true)
      × (gone.inhibiting ≡ true)
replaced_owner_keeps_inhibit m name old new status c w x y h =
    let passed = handle_name_owner_changed m (some name) (some new) status in
    let gone = handle_name_owner_changed passed (some name) (some []) none in
    let consistent =
      owner-IsConsistent false passed (some name) (some []) none
        (owner-IsConsistent false m (some name) (some new) status c) in
    let e₁ = owner_appears m name new status w x in
    let e₂ = owner_vanishes passed name w in
    let (a, b) = add_player_lem m name new old status y in
    let owner = ap (λ n. owner_of name n.wk_to_unique) e₁ ∙ a in
    let (u, v) = remove_player_lem passed name new old owner y in
    let still =
      ap (λ n. has_text old n.playing) e₂ ∙ v ∙ ap (λ n. has_text old n.playing) e₁ ∙ b ∙ h in
    (
      ap (λ n. owner_of name n.wk_to_unique) e₂ ∙ u,
      still,
      consistent.while_playing ∙ ap not (nonempty-has old gone.playing still),
    )
