-- ===== src/Mpris/Board.antt =====
-- What the bus has said of the media players that src/agent/mpris_monitor.cpp watches, kept as a plain
-- history next to the names: nothing here knows of the set of the monitor or of its inhibit.
use draind.Base.{
  ◌∙◌, true, not, ◌≡◌, refl, sym, inl, inr, Bool-cases, is_empty, text_eq_sound, text_eq_refl,
  arith, Bool, false, ◌||◌, Option, none, some, List, [], ◌∷◌, Text, codes, text_eq, if◌then◌else◌,
}
use draind.Base.Maps.{has_text}
use draind.Mpris.{Signal, name_owner_changed, properties_changed, is_mpris_name}

-- What was said of connections, the latest first: whether the connection is playing.
abbrev pub History : Type 0
History = List (Text × Bool)

-- The connection that a name leads to, and the name of a connection.
pub record Board : Type 0 where
  pub owners : Text → Option Text
  pub names : Text → Option Text
  pub said : History

abbrev pub nobody : Board
nobody = record { owners = λ name. none; names = λ u. none; said = [] }

-- A function that is changed at one text.
abbrev pub at : Text → Option Text → (Text → Option Text) → Text → Option Text
at x o f y = if text_eq y x then o else f y

-- The last thing that was said of a connection.
unfoldable pub last_said : Text → History → Bool
last_said u [] = false
last_said u ((v, p) ∷ said) = let earlier = last_said u said in if text_eq v u then p else earlier

-- The last thing that `all` says of one of the connections in a list is that it is playing.
unfoldable pub plays_among : History → History → Bool
unfolding last_said
plays_among all [] = false
plays_among all ((u, p) ∷ rest) = last_said u all || plays_among all rest

-- The last thing that was said of some connection is that it is playing.
unfoldable pub some_playing : History → Bool
unfolding plays_among
some_playing said = plays_among said said

abbrev pub say : Board → Text → Bool → Board
say b u p = record b { said = (u, p) ∷ b.said }

-- A connection says a status, if it says one.
unfoldable pub says_status : Board → Text → Option Text → Board
says_status b u none = b
says_status b u (some status) = say b u (text_eq status (codes "Playing"))

-- A connection has a name, and says a status.
unfoldable pub appears : Board → Text → Text → Option Text → Board
unfolding says_status
appears b name u status =
    says_status (record b { owners = at name (some u) b.owners; names = at u (some name) b.names })
      u status

-- The owner of a name is gone: it plays no longer.
unfoldable pub vanishes : Board → Text → Option Text → Board
vanishes b name none = b
vanishes b name (some u) =
    say (record b { owners = at name none b.owners; names = at u none b.names }) u false

unfoldable pub hears_owner : Board → Text → Option Text → Option Text → Board
unfolding appears vanishes
hears_owner b name none status = vanishes b name (b.owners name)
hears_owner b name (some []) status = vanishes b name (b.owners name)
hears_owner b name (some (c ∷ u)) status = appears b name (c ∷ u) status

unfoldable pub hears_entries : Board → Text → List (Option Text × Option Text) → Board
unfolding says_status
hears_entries b u [] = b
hears_entries b u ((none, value) ∷ entries) = hears_entries b u entries
hears_entries b u ((some key, value) ∷ entries) =
    hears_entries (if text_eq key (codes "PlaybackStatus") then says_status b u value else b) u
      entries

-- The entries count for a connection that has a name, on the interface of players.
unfoldable pub hears_properties :
    Board → Text → Option Text → Option Text → List (Option Text × Option Text) → Board
unfolding hears_entries
hears_properties b u none iface entries = b
hears_properties b u (some name) none entries = b
hears_properties b u (some name) (some iface) entries =
    if text_eq iface (codes "org.mpris.MediaPlayer2.Player") then hears_entries b u entries else b

unfoldable pub hears : Board → List Signal → Board
unfolding hears_owner hears_properties
hears b [] = b
hears b (name_owner_changed none owner status ∷ signals) = hears b signals
hears b (name_owner_changed (some name) owner status ∷ signals) =
    hears (if is_mpris_name name then hears_owner b name owner status else b) signals
hears b (properties_changed none iface entries ∷ signals) = hears b signals
hears b (properties_changed (some u) iface entries ∷ signals) =
    hears (hears_properties b u (b.names u) iface entries) signals

-- The names that are on the bus at first, each with its owner and its status.
unfoldable pub finds : Board → List (Text × Option Text × Option Text) → Board
unfolding appears
finds b [] = b
finds b ((name, none, status) ∷ names) = finds b names
finds b ((name, some u, status) ∷ names) =
    finds (if is_mpris_name name then appears b name u status else b) names

-- A history in which nobody plays last.
none_plays :
    (all rest : History) → ((u : Text) → last_said u all ≡ false) → plays_among all rest ≡ false
unfolding plays_among
none_plays all [] h = refl
none_plays all ((u, p) ∷ rest) h = rw (h u) (none_plays all rest h)

one_plays :
    (u : Text) (all rest : History)
    → last_said u all ≡ true
    → last_said u rest ≡ true
    → plays_among all rest ≡ true
unfolding plays_among last_said
one_plays u all [] h k = cc
one_plays u all ((v, p) ∷ rest) h k = elim (Bool-cases (text_eq v u)) [
  | inl e ↦ rw (text_eq_sound v u e, h) refl
  | inr e ↦
      let later : plays_among all rest ≡ true = one_plays u all rest h (rw e at k) in
      ground (arith, later)
]

-- A set of texts that has those who are said to play is empty exactly if nobody is.
pub some_playing-set :
    (playing : List Text) (said : History)
    → ((u : Text) → has_text u playing ≡ last_said u said)
    → not (is_empty playing) ≡ some_playing said
unfolding some_playing has_text
some_playing-set [] said h = sym (none_plays said said (λ u. sym (h u)))
some_playing-set (x ∷ xs) said h =
    let says : last_said x said ≡ true = sym (h x) ∙ rw (text_eq_refl x) refl in
    sym (one_plays x said said says says)
