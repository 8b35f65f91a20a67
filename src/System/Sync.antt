-- ===== src/System/Sync.antt =====
-- The invariant of the system: the daemon and an agent agree on whether a media player is playing, but
-- for what is in flight.
use draind.Base.{
  ℕ, Bool, false, not, ◌≡◌, refl, sym, ap, ◌∙◌, subst, inl, inr, Option-cases, some, some-injective,
  List, [], map, Text, is_empty, left,
}
use draind.Base.Maps.{lookup-insert_same, has_text}
use draind.Json.Value.{Floats}
use draind.Mpris
use draind.Mpris.{Mpris, Bus, Signal, Call, inhibit, uninhibit, inhibit_reason, listed}
use draind.Mpris.Board.{Board, nobody, hears, finds}
use draind.Mpris.Heard.{Tracks, Tracks-inhibiting, hears-Tracks, init-Tracks}
use draind.Mpris.Playing.{IsConsistent, held, poll-IsConsistent, init-IsConsistent}
use draind.Agent.{Agent, idle_line, mpris_line}
use draind.Agent.Running.{poll_mpris, start_mpris}
use draind.Daemon.State.{Daemon, AgentState, Env, send, send_config}
use draind.Daemon.Lines.{on_line-encode_hello}
use draind.System.{
  System, Step, polls, watches, obeys, handles, elsewhere, IsConnected, Run, connected, then_step,
  acted, is_playing, idle_agent, lines_of,
}
use draind.System.Seen.{Sees, line-Sees, event-Sees}
use draind.System.Flight.{Follows, landed, acks, Follows-append, held-Follows, idle-Follows}
use draind.System.Acts.{
  Writes, Replies, silent, acknowledges, on_daemon_line-Answered, poll_idle-Writes,
  poll_mpris-Writes,
}

module _ (fl : Floats) (fd : ℕ) where
  -- What holds between any two steps.
  pub record InSync (s : System) : Type 0 where
    pub connection : ℕ
    pub connected : s.agent.daemon_fd ≡ some connection
    pub monitor : Mpris
    pub monitors : s.agent.mpris ≡ some monitor
    pub while_playing : monitor.inhibiting ≡ not (is_empty monitor.playing)
    pub tracks : Tracks s.players monitor
    pub seen : Bool
    pub sees : Sees fd s.daemon seen
    pub follows : Follows fl seen s.in_flight monitor.inhibiting

  -- An act of the agent keeps it, if what it writes follows the state of the monitor.
  acted-InSync :
      (s : System) (h : InSync s) (b : Board) (a : Agent) (m : Mpris) (lines : List Text)
      → a.daemon_fd ≡ some h.connection
      → a.mpris ≡ some m
      → m.inhibiting ≡ not (is_empty m.playing)
      → Tracks b m
      → lines_of a.deeds ≡ lines
      → Follows fl h.monitor.inhibiting (map (λ line. (is_playing b, line)) lines) m.inhibiting
      → InSync (acted s b a)
  acted-InSync s h b a m lines p q r t w f = record {
    connection = h.connection;
    connected = p;
    monitor = m;
    monitors = q;
    while_playing = r;
    tracks = t;
    seen = h.seen;
    sees = h.sees;
    follows = Follows-append fl h.follows (rw w f);
  }

  -- So does one that leaves the monitor alone.
  quiet-InSync :
      (s : System) (h : InSync s) (a : Agent) (lines : List Text)
      → Writes (idle_agent s.agent) a lines
      → ((b : Bool) → Follows fl b (map (λ line. (b, line)) lines) b)
      → InSync (acted s s.players a)
  unfolding lines_of is_playing
  quiet-InSync s h a lines w f =
      let monitors = w.players ∙ h.monitors in
      let marked : is_playing s.players ≡ h.monitor.inhibiting =
        sym (Tracks-inhibiting h.tracks h.while_playing) in
      acted-InSync s h s.players a h.monitor lines (w.connection ∙ h.connected) monitors
        h.while_playing h.tracks w.written (rw marked (f h.monitor.inhibiting))

  polls-InSync :
      (s : System) (ms : List Signal)
      → InSync s
      → InSync (acted s (hears s.players ms) (poll_mpris fl (idle_agent s.agent) s.agent.mpris ms))
  unfolding lines_of
  polls-InSync s ms h =
      let m = Mpris.poll (record h.monitor { calls = [] }) ms in
      let consistent : IsConsistent h.monitor.inhibiting m =
        poll-IsConsistent h.monitor.inhibiting _ ms
          (record { in_step = unfold held in refl; while_playing = h.while_playing }) in
      let a = poll_mpris fl (idle_agent s.agent) (some h.monitor) ms in
      let writes =
        poll_mpris-Writes fl (idle_agent s.agent) h.connection h.monitor ms h.connected in
      let b = hears s.players ms in
      let tracks : Tracks b m =
        hears-Tracks ms s.players _
          (record { owners = h.tracks.owners; names = h.tracks.names; said = h.tracks.said }) in
      let after : InSync (acted s b a) =
        acted-InSync s h b a m (map (mpris_line fl) m.calls) (writes.connection ∙ h.connected)
          writes.players consistent.while_playing tracks writes.written
          (held-Follows fl (is_playing b) h.monitor.inhibiting m.inhibiting m.calls
            consistent.in_step) in
      subst (λ o. InSync (acted s b (poll_mpris fl (idle_agent s.agent) o ms))) (sym h.monitors)
        after

  Replies-Follows :
      (lines : List Text)
      → Replies fl lines
      → (b : Bool) → Follows fl b (map (λ line. (b, line)) lines) b
  Replies-Follows lines silent b = landed refl
  Replies-Follows lines acknowledges b = acks refl (landed refl)

  Step-InSync : {s t : System} → Step fl fd s t → InSync s → InSync t
  Step-InSync {s} (polls ms) h = polls-InSync s ms h
  Step-InSync {s} (watches events) h =
      let (calls, writes) =
        poll_idle-Writes fl (idle_agent s.agent) h.connection s.agent.idle events h.connected in
      quiet-InSync s h _ (map (idle_line fl) calls) writes (λ b. idle-Follows fl b calls)
  Step-InSync {s} (obeys around line) h =
      let (lines, replies, writes) =
        on_daemon_line-Answered fl around (idle_agent s.agent) h.connection line h.connected in
      quiet-InSync s h _ lines writes (Replies-Follows lines replies)
  Step-InSync {s} (handles env mark line rest d p q) h =
      let (b, sees, follows) =
        line-Sees fl fd env s.daemon d h.seen mark h.monitor.inhibiting line rest q h.sees
          (subst (λ xs. Follows fl h.seen xs h.monitor.inhibiting) p h.follows) in
      record {
        connection = h.connection;
        connected = h.connected;
        monitor = h.monitor;
        monitors = h.monitors;
        while_playing = h.while_playing;
        tracks = h.tracks;
        seen = b;
        sees = sees;
        follows = follows;
      }
  Step-InSync {s} (elsewhere env event d a p) h = record {
    connection = h.connection;
    connected = h.connected;
    monitor = h.monitor;
    monitors = h.monitors;
    while_playing = h.while_playing;
    tracks = h.tracks;
    seen = h.seen;
    sees = event-Sees fl fd env s.daemon d h.seen event a p h.sees;
    follows = h.follows;
  }

  start_mpris-InStep :
      (bus : Bus) (m : Mpris)
      → start_mpris bus ≡ some m
      → (m.inhibiting ≡ not (is_empty m.playing)) × Tracks (finds nobody (listed bus.names)) m
  unfolding start_mpris
  start_mpris-InStep bus m p = elim (Option-cases (Mpris.init bus)) [
    | inl e ↦ cc (rw (start_mpris, e) at p)
    | inr (scanned, e) ↦
        let t = init-Tracks bus scanned e in
        subst
          (λ x.
            (x.inhibiting ≡ not (is_empty x.playing)) × Tracks (finds nobody (listed bus.names)) x)
          (some-injective _ _ (rw (start_mpris, e) at p))
          (
            (init-IsConsistent bus scanned e).while_playing,
            record { owners = t.owners; names = t.names; said = t.said },
          )
  ]

  IsConnected-InSync : (s : System) → IsConnected fl fd s → InSync s
  unfolding send_config send is_playing draind.Daemon.State.emit has_text
  IsConnected-InSync s c =
      let greeted = ap left (
        sym (
          on_line-encode_hello fl c.env c.before fd s.agent.opts.session_id s.agent.opts.uid c.user)
        ∙ c.greets) in
      let (playing, found) = start_mpris-InStep c.bus c.monitor c.starts in
      let tracks : Tracks s.players c.monitor =
        subst (λ b. Tracks b c.monitor) (sym c.found) found in
      let silent : c.monitor.inhibiting ≡ false = Tracks-inhibiting tracks playing ∙ c.silent in
      record {
        connection = c.connection;
        connected = c.connected;
        monitor = c.monitor;
        monitors = c.monitors;
        while_playing = playing;
        tracks = tracks;
        seen = false;
        sees =
            subst (λ d. Sees fd d false) greeted
              (record {
                entry = record {
                  session_id = s.agent.opts.session_id;
                  uid = s.agent.opts.uid;
                  inhibits = [];
                };
                found = lookup-insert_same fd _ c.before.agents;
                held_as = refl;
              });
        follows = rw (c.delivered, silent) (landed refl);
      }

  pub Run-InSync : {s : System} → Run fl fd s → InSync s
  Run-InSync (connected c) = IsConnected-InSync _ c
  Run-InSync (then_step r x) = Step-InSync x (Run-InSync r)
