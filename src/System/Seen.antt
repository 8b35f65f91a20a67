-- ===== src/System/Seen.antt =====
-- What the daemon holds of the inhibit of an agent's players, along its steps.
use draind.Base.{
  ℕ, Bool, true, false, Bool-cases, ◌≡◌, refl, sym, ap, ◌∙◌, subst, inl, inr, some, List, ◌∷◌, Text,
  text_eq_refl, ◌==◌, ==_iff, done, left, arith,
}
use draind.Base.Maps.{
  lookup, insert, lookup-insert, lookup-insert_same, lookup-erase, has_text, has_text-set_insert,
  has_text-set_erase,
}
use draind.Json.Value.{Floats}
use draind.Idle.{IdleCall, dims, sleeps, active}
use draind.Mpris.{Call, inhibit, uninhibit, inhibit_reason}
use draind.Protocol.{encode_ack}
use draind.Daemon.State.{Daemon, AgentState, Env}
use draind.Daemon.Handlers.{add_inhibit, drop_inhibit}
use draind.Daemon.Loop.{Event, on_line, step}
use draind.Daemon.Lines.{on_line-idle_line, on_line-mpris_line}
use draind.Daemon.Inhibits.{holds, reason_of}
use draind.Daemon.Moves.{
  Limits, Reach, here, output, power, configure, switch, register, forget, buffer, connect, close,
  Leads, Says-only,
}
use draind.Daemon.Traces.{Allows, step-Leads}
use draind.System.{others}
use draind.System.Flight.{Follows, idles, acks, takes, gives}
use draind.Daemon.State.{send}
use draind.Daemon.Lines.{on_idle_call, reasons_after, on_line-encode_ack}
use draind.Daemon.Moves.{nobody}
use draind.Daemon.Moves.Handlers.{on_idle_dim-Leads, on_active-Leads, on_idle_sleep-Reach}

-- Changes that are not about a client leave its entry as it is.
Reach-lookup :
    {k : Limits} {d e : Daemon} (fd : ℕ)
    → k.members fd ≡ false
    → Reach k d e
    → lookup fd e.agents ≡ lookup fd d.agents
Reach-lookup fd h here = refl
Reach-lookup fd h (output xs f r) = Reach-lookup fd h r
Reach-lookup fd h (power w b r) = Reach-lookup fd h r
Reach-lookup fd h (configure m r) = Reach-lookup fd h r
Reach-lookup fd h (switch s r) = Reach-lookup fd h r
Reach-lookup {k} fd h (register {e} j a p r) = elim (Bool-cases (j == fd)) [
  | inl x ↦ cc (h, subst (λ i. k.members i ≡ true) ((==_iff j fd).0 x) p)
  | inr x ↦ rw (lookup-insert j fd a e.agents, x) (Reach-lookup fd h r)
]
Reach-lookup {k} fd h (forget {e} j p r) = elim (Bool-cases (j == fd)) [
  | inl x ↦ cc (h, subst (λ i. k.members i ≡ true) ((==_iff j fd).0 x) p)
  | inr x ↦ rw (lookup-erase j fd e.agents, x) (Reach-lookup fd h r)
]
Reach-lookup fd h (buffer j c rest q r) = Reach-lookup fd h r
Reach-lookup fd h (connect j r) = Reach-lookup fd h r
Reach-lookup fd h (close j r) = Reach-lookup fd h r

-- The daemon has an entry for the agent, and it holds the inhibit of the players as `b` says.
pub record Sees (fd : ℕ) (d : Daemon) (b : Bool) : Type 0 where
  pub entry : AgentState
  pub found : lookup fd d.agents ≡ some entry
  pub held_as : has_text inhibit_reason entry.inhibits ≡ b

Sees-lookup :
    {fd : ℕ} {d e : Daemon} {b : Bool}
    → lookup fd e.agents ≡ lookup fd d.agents
    → Sees fd d b
    → Sees fd e b
Sees-lookup p h = record { entry = h.entry; found = p ∙ h.found; held_as = h.held_as }

pub Sees-holds : {fd : ℕ} {d : Daemon} {b : Bool} → Sees fd d b → holds d fd inhibit_reason ≡ b
unfolding holds reason_of
Sees-holds h = rw h.found h.held_as

module _ (fl : Floats) (fd : ℕ) (env : Env) (d : Daemon) where
  Reach-Sees : {e : Daemon} {b : Bool} → Reach nobody d e → Sees fd d b → Sees fd e b
  Reach-Sees r h = Sees-lookup (Reach-lookup fd refl r) h

  idle_call-Reach : (c : IdleCall) → Reach nobody d (left (on_idle_call fl env d fd c))
  unfolding Leads
  idle_call-Reach dims = on_idle_dim-Leads nobody d d fd here
  idle_call-Reach sleeps = on_idle_sleep-Reach nobody d fl (Says-only _ fl) env d fd here
  idle_call-Reach active = on_active-Leads nobody d d fd here

  call-Sees :
      (c : Call) (a : AgentState) (b : Bool)
      → has_text inhibit_reason (reasons_after fl env d fd c a).inhibits ≡ b
      → Sees fd
          (send
            (record d { agents = insert fd (reasons_after fl env d fd c a) d.agents })
            fd
            (encode_ack fl))
          b
  unfolding send draind.Daemon.State.emit
  call-Sees c a b h = record {
    entry = reasons_after fl env d fd c a;
    found = lookup-insert_same fd (reasons_after fl env d fd c a) d.agents;
    held_as = h;
  }

  added : (a : AgentState) → has_text inhibit_reason (add_inhibit a inhibit_reason).inhibits ≡ true
  unfolding add_inhibit
  added a =
      has_text-set_insert inhibit_reason inhibit_reason a.inhibits
      ∙ rw (text_eq_refl inhibit_reason) refl

  dropped :
      (a : AgentState) → has_text inhibit_reason (drop_inhibit a inhibit_reason).inhibits ≡ false
  unfolding drop_inhibit
  dropped a =
      has_text-set_erase inhibit_reason inhibit_reason a.inhibits
      ∙ rw (text_eq_refl inhibit_reason) refl

  -- A line of the agent, taken by the daemon.
  pub line-Sees :
      (e : Daemon) (b mark last : Bool) (line : Text) (rest : List (Bool × Text))
      → on_line fl env d fd line ≡ done e
      → Sees fd d b
      → Follows fl b ((mark, line) ∷ rest) last
      → (b' : Bool) × Sees fd e b' × Follows fl b' rest last
  line-Sees e b mark last line rest p h (idles c q r f) =
      let same : left (on_idle_call fl env d fd c) ≡ e = ap left (
        sym (on_line-idle_line fl env d fd h.entry c h.found)
        ∙ ap (on_line fl env d fd) (sym q)
        ∙ p) in
      (b, subst (λ x. Sees fd x b) same (Reach-Sees (idle_call-Reach c) h), f)
  line-Sees e b mark last line rest p h (acks q f) =
      let same : d ≡ e = ap left (
        sym (on_line-encode_ack fl env d fd h.entry h.found)
        ∙ ap (on_line fl env d fd) (sym q)
        ∙ p) in
      (b, subst (λ x. Sees fd x b) same h, f)
  line-Sees e b mark last line rest p h (takes q f) =
      let c = inhibit inhibit_reason in
      let same = ap left (
        sym (on_line-mpris_line fl env d fd h.entry c h.found)
        ∙ ap (on_line fl env d fd) (sym q)
        ∙ p) in
      (true, subst (λ x. Sees fd x true) same (call-Sees c h.entry true (added h.entry)), f)
  line-Sees e b mark last line rest p h (gives q f) =
      let c = uninhibit inhibit_reason in
      let same = ap left (
        sym (on_line-mpris_line fl env d fd h.entry c h.found)
        ∙ ap (on_line fl env d fd) (sym q)
        ∙ p) in
      (false, subst (λ x. Sees fd x false) same (call-Sees c h.entry false (dropped h.entry)), f)

  -- An event that is about another client, a device or the sessions.
  pub event-Sees :
      (e : Daemon) (b : Bool) (event : Event)
      → Allows (others fd) event
      → step fl env d event ≡ done e
      → Sees fd d b
      → Sees fd e b
  unfolding Leads
  event-Sees e b event a p h =
      let moved = step-Leads (others fd) fl (Says-only _ fl) d env d event a here in
      let itself : (others fd).members fd ≡ false = ground arith in
      Sees-lookup (Reach-lookup fd itself (subst (Reach (others fd) d) (ap left p) moved)) h
