-- ===== src/Wayland/Reports.antt =====
-- The calls of src/agent/wayland_idle_monitor.cpp in a time of idleness, and what the daemon of
-- src/daemon/daemon.cpp makes of the two that end it.
use draind.Base.{
  ℕ, true, false, Bool-cases, Option-cases, ◌≡◌, ◌≢◌, refl, sym, ap, ◌∙◌, inl, inr, some, [], ◌∷◌,
  ◌++◌, append_assoc, ◌==◌, ==_iff, arith, done, Outcome-cases, subst, left,
}
use draind.Power
use draind.Idle.{dims, sleeps, active}
use draind.Wayland.{
  WaylandIdle, idled, resumed, poll, on_notification_idled, on_notification_resumed, call, is_notif,
}
use draind.Daemon.State.{Daemon, is_active_agent, profile}
use draind.Daemon.Handlers.{on_active, undim_by}

-- The user is idle until both times have passed, and comes back: the compositor ends each of the two
-- notifications, and the monitor reports the dimming, the sleep, and the end of the idleness twice.
pub idle_phase_calls :
    (m : WaylandIdle) (d s : ℕ)
    → m.notif_dim ≡ some d
    → m.notif_sleep ≡ some s
    → d ≢ s
    → poll m (idled d ∷ idled s ∷ resumed d ∷ resumed s ∷ [])
      ≡ record m { calls = m.calls ++ dims ∷ sleeps ∷ active ∷ active ∷ [] }
unfolding poll on_notification_idled on_notification_resumed call is_notif
idle_phase_calls m d s e f n =
    let dd : (d == d) ≡ true = (==_iff d d).1 refl in
    let ss : (s == s) ≡ true = (==_iff s s).1 refl in
    let sd : (s == d) ≡ false = ground arith in
    rw (e, f, dd, sd, ss)
      (ap (λ cs. record m { notif_dim = some d; notif_sleep = some s; calls = cs })
        (ap (λ cs. (cs ++ active ∷ []) ++ active ∷ []) (append_assoc m.calls _ _)
          ∙ ap (λ cs. cs ++ active ∷ []) (append_assoc m.calls _ _)
          ∙ append_assoc m.calls _ _))

-- A report of activity that returns has been carried out: the same report again changes nothing.
pub on_active_twice : (d e : Daemon) (fd : ℕ) → on_active d fd ≡ done e → on_active e fd ≡ done e
unfolding on_active undim_by
on_active_twice d e fd h = elim (Bool-cases (is_active_agent d fd)) [
  | inr x ↦ unchanged (ground (arith, x))
  | inl x ↦ elim (Bool-cases d.dimmed) [
    | inr y ↦ unchanged (ground (arith, x, y))
    | inl y ↦ elim (Option-cases (profile d)) [
      | inl z ↦ unchanged (ground (arith, x, y, z))
      | inr (p, z) ↦ elim (Outcome-cases (Power.undim d.power p)) [
        | inl (w, k) ↦
            settled (record d { power = w; dimmed = false }) refl (ground (arith, x, y, z, k))
        | inr (t, w, k) ↦ absurd (ground (arith, h, x, y, z, k))
      ]
    ]
  ]
]
  where
    here :
        (z : Daemon) → on_active d fd ≡ done z → on_active z fd ≡ done z → on_active e fd ≡ done e
    here z p q = subst (λ v. on_active v fd ≡ done v) (ap left (sym p ∙ h)) q

    unchanged : on_active d fd ≡ done d → on_active e fd ≡ done e
    unchanged p = here d p p

    settled : (z : Daemon) → z.dimmed ≡ false → on_active d fd ≡ done z → on_active e fd ≡ done e
    settled z b p = here z p (ground (arith, b))
