-- ===== src/System/Flight.antt =====
-- What the lines in flight between an agent and the daemon will do to the inhibit of the media
-- players, as the daemon sees it.
use draind.Base.{
  Bool, true, false, Bool-cases, ◌≡◌, ◌≢◌, refl, sym, ap, ◌∙◌, subst, inl, inr, some,
  some-injective, List, [], ◌∷◌, ◌++◌, map, Text, text_eq, text_eq_sound, text_eq-ne, ok,
  ok-injective,
}
use draind.Json.Value.{Value, Floats}
use draind.Idle.{IdleCall, dims, sleeps, active}
use draind.Mpris.{Call, inhibit, uninhibit, inhibit_reason}
use draind.Mpris.Playing.{held}
use draind.Agent.{idle_line, mpris_line}
use draind.Protocol.{
  decode, msg_type, encode_ack, encode_idle_dim, encode_idle_sleep, encode_active, t_ack,
  t_idle_dim, t_idle_sleep, t_active, t_inhibit, t_uninhibit,
}
use draind.Protocol.Messages.{decode-typed, decode-encode_inhibit, decode-encode_uninhibit}

module _ (fl : Floats) where
  -- In front of the lines the daemon sees the inhibit as `b` says, behind them as `e` says. The mark of
  -- an idle line is what the daemon sees when it gets to that line.
  pub data Follows : Bool → List (Bool × Text) → Bool → Type 0 where
    landed : {b e : Bool} → b ≡ e → Follows b [] e
    idles :
        {b mark e : Bool} {line : Text} {rest : List (Bool × Text)} (c : IdleCall)
        → line ≡ idle_line fl c
        → mark ≡ b
        → Follows b rest e
        → Follows b ((mark, line) ∷ rest) e
    acks :
        {b mark e : Bool} {line : Text} {rest : List (Bool × Text)}
        → line ≡ encode_ack fl
        → Follows b rest e
        → Follows b ((mark, line) ∷ rest) e
    takes :
        {b mark e : Bool} {line : Text} {rest : List (Bool × Text)}
        → line ≡ mpris_line fl (inhibit inhibit_reason)
        → Follows true rest e
        → Follows b ((mark, line) ∷ rest) e
    gives :
        {b mark e : Bool} {line : Text} {rest : List (Bool × Text)}
        → line ≡ mpris_line fl (uninhibit inhibit_reason)
        → Follows false rest e
        → Follows b ((mark, line) ∷ rest) e

  pub Follows-append :
      {b e g : Bool} {xs ys : List (Bool × Text)}
      → Follows b xs e
      → Follows e ys g
      → Follows b (xs ++ ys) g
  Follows-append {g} {ys} (landed p) k = subst (λ x. Follows x ys g) (sym p) k
  Follows-append (idles c p q h) k = idles c p q (Follows-append h k)
  Follows-append (acks p h) k = acks p (Follows-append h k)
  Follows-append (takes p h) k = takes p (Follows-append h k)
  Follows-append (gives p h) k = gives p (Follows-append h k)

  -- The lines of calls that take the inhibit and give it back by turns.
  pub held-Follows :
      (mark b e : Bool) (calls : List Call)
      → held b calls ≡ some e
      → Follows b (map (λ line. (mark, line)) (map (mpris_line fl) calls)) e
  unfolding held
  held-Follows mark b e [] h = landed (some-injective b e h)
  held-Follows mark true e (inhibit r ∷ calls) h = cc
  held-Follows mark false e (inhibit r ∷ calls) h = elim (Bool-cases (text_eq r inhibit_reason)) [
    | inl x ↦
        takes (ap (λ t. mpris_line fl (inhibit t)) (text_eq_sound r inhibit_reason x))
          (held-Follows mark true e calls (rw x at h))
    | inr x ↦ cc (rw x at h)
  ]
  held-Follows mark true e (uninhibit r ∷ calls) h = elim (Bool-cases (text_eq r inhibit_reason)) [
    | inl x ↦
        gives (ap (λ t. mpris_line fl (uninhibit t)) (text_eq_sound r inhibit_reason x))
          (held-Follows mark false e calls (rw x at h))
    | inr x ↦ cc (rw x at h)
  ]
  held-Follows mark false e (uninhibit r ∷ calls) h = cc

  pub idle-Follows :
      (b : Bool) (calls : List IdleCall)
      → Follows b (map (λ line. (b, line)) (map (idle_line fl) calls)) b
  idle-Follows b [] = landed refl
  idle-Follows b (c ∷ calls) = idles c refl refl (idle-Follows b calls)

  -- The type of the message in a line.
  abbrev Says : Text → Text → Type 0
  Says t line = (v : Value) × (decode fl line ≡ ok v) × (msg_type v ≡ t)

  Says-same : (t u line : Text) → Says t line → Says u line → t ≡ u
  Says-same t u line (v, p, q) (w, x, y) = sym q ∙ ap msg_type (ok-injective (sym p ∙ x)) ∙ y

  -- The type of an idle line.
  abbrev idle_type : IdleCall → Text
  idle_type dims = t_idle_dim
  idle_type sleeps = t_idle_sleep
  idle_type active = t_active

  idle_line-Says : (c : IdleCall) → Says (idle_type c) (idle_line fl c)
  unfolding idle_line encode_idle_dim encode_idle_sleep encode_active
  idle_line-Says dims = decode-typed fl t_idle_dim
  idle_line-Says sleeps = decode-typed fl t_idle_sleep
  idle_line-Says active = decode-typed fl t_active

  mpris_line-Says-inhibit : (r : Text) → Says t_inhibit (mpris_line fl (inhibit r))
  unfolding mpris_line
  mpris_line-Says-inhibit r = let (v, p, q, s) = decode-encode_inhibit fl r in (v, p, q)

  mpris_line-Says-uninhibit : (r : Text) → Says t_uninhibit (mpris_line fl (uninhibit r))
  unfolding mpris_line
  mpris_line-Says-uninhibit r = let (v, p, q, s) = decode-encode_uninhibit fl r in (v, p, q)

  encode_ack-Says : Says t_ack (encode_ack fl)
  unfolding encode_ack
  encode_ack-Says = decode-typed fl t_ack

  idle_type-others :
      (c : IdleCall)
      → (idle_type c ≢ t_ack) × (idle_type c ≢ t_inhibit) × (idle_type c ≢ t_uninhibit)
  unfolding text_eq
  idle_type-others dims = (
    text_eq-ne t_idle_dim t_ack refl,
    text_eq-ne t_idle_dim t_inhibit refl,
    text_eq-ne t_idle_dim t_uninhibit refl,
  )
  idle_type-others sleeps = (
    text_eq-ne t_idle_sleep t_ack refl,
    text_eq-ne t_idle_sleep t_inhibit refl,
    text_eq-ne t_idle_sleep t_uninhibit refl,
  )
  idle_type-others active = (
    text_eq-ne t_active t_ack refl,
    text_eq-ne t_active t_inhibit refl,
    text_eq-ne t_active t_uninhibit refl,
  )

  -- An idle line at the head is one that its mark is right for.
  pub idle_line-mark :
      {b mark e : Bool} {line : Text} {rest : List (Bool × Text)} (c : IdleCall)
      → line ≡ idle_line fl c
      → Follows b ((mark, line) ∷ rest) e
      → mark ≡ b
  idle_line-mark c p (idles d q r h) = r
  idle_line-mark {line} c p (acks q h) = absurd (
      (idle_type-others c).0 (
        Says-same _ _ line (subst (Says (idle_type c)) (sym p) (idle_line-Says c))
          (subst (Says t_ack) (sym q) encode_ack-Says)))
  idle_line-mark {line} c p (takes q h) = absurd (
      (idle_type-others c).1 (
        Says-same _ _ line (subst (Says (idle_type c)) (sym p) (idle_line-Says c))
          (subst (Says t_inhibit) (sym q) (mpris_line-Says-inhibit inhibit_reason))))
  idle_line-mark {line} c p (gives q h) = absurd (
      (idle_type-others c).2 (
        Says-same _ _ line (subst (Says (idle_type c)) (sym p) (idle_line-Says c))
          (subst (Says t_uninhibit) (sym q) (mpris_line-Says-uninhibit inhibit_reason))))
