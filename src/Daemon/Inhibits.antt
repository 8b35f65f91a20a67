-- ===== src/Daemon/Inhibits.antt =====
-- The inhibits of src/daemon/daemon.cpp: what each handler does to the relation "the agent at this
-- descriptor holds this reason", and what a reason suppresses.
use draind.Base.{
  ℕ, Bool, true, false, ◌&&◌, ◌||◌, not, Bool-cases, Option-cases, ◌≡◌, ◌↔◌, refl, sym, subst, inl,
  inr, Option, none, some, List, [], ◌∷◌, Text, codes, is_empty, text_eq, text_eq_refl, ◌==◌,
  ==_iff, arith,
}
use draind.Base.Maps.{
  lookup, lookup-insert, lookup-erase, has_text, has_text-set_insert, has_text-set_erase, Distinct,
}
use draind.Json.Value.{Value, Floats, str}
use draind.Daemon.State.{Daemon, AgentState, Agents, has_any_inhibit, any_inhibit}
use draind.Daemon.Handlers.{
  on_disconnect, on_hello, on_inhibit, on_uninhibit, add_inhibit, drop_inhibit,
}

-- The reasons of an agent that may be missing.
unfoldable pub reason_of : Option AgentState → Text → Bool
reason_of none r = false
reason_of (some a) r = has_text r a.inhibits

-- The agent at `fd` holds the reason `r`.
unfoldable pub holds : Daemon → ℕ → Text → Bool
holds d fd r = reason_of (lookup fd d.agents) r

-- An agent is registered at `fd`.
unfoldable pub is_registered : Daemon → ℕ → Bool
is_registered d fd = elim (lookup fd d.agents) [ none ↦ false | some a ↦ true ]

has_text-nonempty : (r : Text) (rs : List Text) → has_text r rs ≡ true → is_empty rs ≡ false
unfolding has_text
has_text-nonempty r [] h = cc
has_text-nonempty r (x ∷ xs) h = refl

pub any_inhibit-lookup :
    (fd : ℕ) (r : Text) (m : Agents) → reason_of (lookup fd m) r ≡ true → any_inhibit m ≡ true
unfolding any_inhibit lookup reason_of
any_inhibit-lookup fd r [] h = cc
any_inhibit-lookup fd r ((j, a) ∷ m) h =
    ground (arith, has_text-nonempty r a.inhibits, any_inhibit-lookup fd r m)

first_reason : (rs : List Text) → is_empty rs ≡ false → (r : Text) × (has_text r rs ≡ true)
unfolding has_text
first_reason [] h = (([]), cc)
first_reason (x ∷ xs) h = (x, rw (text_eq_refl x))

reason_of-tail :
    (j : ℕ) (a : AgentState) (m : Agents) (fd : ℕ) (r : Text)
    → lookup j m ≡ none
    → reason_of (lookup fd m) r ≡ true
    → reason_of (lookup fd ((j, a) ∷ m)) r ≡ true
unfolding lookup reason_of
reason_of-tail j a m fd r h k = elim (Bool-cases (fd == j)) [
  | inl e ↦
      let none_there : lookup fd m ≡ none =
        subst (λ i. lookup i m ≡ none) (sym ((==_iff fd j).0 e)) h in
      cc (rw none_there at k)
  | inr e ↦ rw e k
]

reason_of-head :
    (j : ℕ) (a : AgentState) (m : Agents) (r : Text)
    → has_text r a.inhibits ≡ true
    → reason_of (lookup j ((j, a) ∷ m)) r ≡ true
unfolding lookup reason_of
reason_of-head j a m r k = rw ((==_iff j j).1 refl) k

-- The loop finds an agent that holds a reason, if it answers yes.
any_inhibit-found :
    (m : Agents)
    → Distinct m
    → any_inhibit m ≡ true
    → (fd : ℕ) × (r : Text) × (reason_of (lookup fd m) r ≡ true)
unfolding any_inhibit
any_inhibit-found [] h e = (0, [], cc)
any_inhibit-found ((j, a) ∷ m) (h, hs) e = elim (Bool-cases (is_empty a.inhibits)) [
  | inl x ↦
      let (fd, r, k) = any_inhibit-found m hs (rw x at e) in (fd, r, reason_of-tail j a m fd r h k)
  | inr x ↦ let (r, k) = first_reason a.inhibits x in (j, r, reason_of-head j a m r k)
]

-- Where no descriptor has two agents, some agent holds a reason exactly when the daemon sees an
-- inhibit.
pub has_any_inhibit_iff :
    (d : Daemon)
    → Distinct d.agents
    → (has_any_inhibit d ≡ true) ↔ ((fd : ℕ) × (r : Text) × (holds d fd r ≡ true))
unfolding has_any_inhibit holds
has_any_inhibit_iff d h =
    (any_inhibit-found d.agents h, λ (fd, r, k). any_inhibit-lookup fd r d.agents k)

module _ (fl : Floats) where
  -- An inhibit from a registered agent adds its reason to that agent and changes no other; one
  -- from elsewhere changes nothing.
  pub holds-on_inhibit :
      (d : Daemon) (fd : ℕ) (msg : Value) (j : ℕ) (r : Text)
      → holds (on_inhibit fl d fd msg) j r ≡ (
          (is_registered d fd && (fd == j && text_eq r (str msg (codes "reason") [])))
          || holds d j r)
  unfolding holds on_inhibit add_inhibit is_registered reason_of
  holds-on_inhibit d fd msg j r = elim (Option-cases (lookup fd d.agents)) [
    | inl e ↦ ground (arith, e)
    | inr (a, e) ↦
        let reason = str msg (codes "reason") [] in
        ground (
          arith,
          e,
          lookup-insert fd j (add_inhibit a reason) d.agents,
          has_text-set_insert reason r a.inhibits,
        )
  ]

  -- An uninhibit takes its reason from the agent that sent it, and from no other.
  pub holds-on_uninhibit :
      (d : Daemon) (fd : ℕ) (msg : Value) (j : ℕ) (r : Text)
      → holds (on_uninhibit fl d fd msg) j r
        ≡ (not (fd == j && text_eq (str msg (codes "reason") []) r) && holds d j r)
  unfolding holds on_uninhibit drop_inhibit reason_of
  holds-on_uninhibit d fd msg j r = elim (Option-cases (lookup fd d.agents)) [
    | inl e ↦ ground (arith, e)
    | inr (a, e) ↦
        let reason = str msg (codes "reason") [] in
        ground (
          arith,
          e,
          lookup-insert fd j (drop_inhibit a reason) d.agents,
          has_text-set_erase reason r a.inhibits,
        )
  ]

  -- An agent that says hello holds no reason, whatever stood at its descriptor; the others keep
  -- theirs.
  pub holds-on_hello :
      (d : Daemon) (fd : ℕ) (msg : Value) (j : ℕ) (r : Text)
      → holds (on_hello fl d fd msg) j r ≡ (not (fd == j) && holds d j r)
  unfolding holds on_hello reason_of has_text
  holds-on_hello d fd msg j r = rw lookup-insert (ground arith)

-- A disconnect drops every reason of that agent and none of the others.
pub holds-on_disconnect :
    (d : Daemon) (fd j : ℕ) (r : Text)
    → holds (on_disconnect d fd) j r ≡ (not (fd == j) && holds d j r)
unfolding holds on_disconnect reason_of
holds-on_disconnect d fd j r = rw lookup-erase (ground arith)
