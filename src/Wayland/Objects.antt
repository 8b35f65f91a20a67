-- ===== src/Wayland/Objects.antt =====
-- The notifications that src/agent/wayland_idle_monitor.cpp holds are those that the compositor has.
use draind.Base.{
  ℕ, Bool-cases, ◌≡◌, refl, sym, ap, ◌∙◌, inl, inr, Option, none, some, List, [], ◌∷◌, ◌++◌,
  append-nil, ℤ, pos, ltb_ℤ, ◌==◌, ==_iff, if◌then◌else◌, arith,
}
use draind.Wayland.{
  WaylandIdle, Request, created, destroyed, Answers, destroy_sleep, destroy_dim,
  destroy_notifications, create_dim, create_sleep, create_notifications, set_timeouts,
}

-- The list without the first occurrence.
unfoldable pub without : ℕ → List ℕ → List ℕ
without n [] = []
without n (k ∷ ks) = let rest = without n ks in if n == k then ks else k ∷ rest

-- The notifications that live behind some requests, where these lived before.
unfoldable pub live : List ℕ → List Request → List ℕ
live ns [] = ns
live ns (created n ms ∷ rs) = live (ns ++ n ∷ []) rs
live ns (destroyed n ∷ rs) = live (without n ns) rs

abbrev pub listed : Option ℕ → List ℕ
listed none = []
listed (some n) = n ∷ []

-- What lives in the compositor is what the monitor holds: the dim notification, then that for sleep.
unfoldable pub IsTidy : WaylandIdle → Type 0
IsTidy m = live [] m.requests ≡ listed m.notif_dim ++ listed m.notif_sleep

live-append : (ns : List ℕ) (rs qs : List Request) → live ns (rs ++ qs) ≡ live (live ns rs) qs
unfolding live
live-append ns [] qs = refl
live-append ns (created n ms ∷ rs) qs = live-append (ns ++ n ∷ []) rs qs
live-append ns (destroyed n ∷ rs) qs = live-append (without n ns) rs qs

-- One request more.
after_request :
    (m : WaylandIdle) (r : Request) (ns : List ℕ)
    → live [] m.requests ≡ ns
    → live [] (m.requests ++ r ∷ []) ≡ live ns (r ∷ [])
after_request m r ns h = live-append [] m.requests (r ∷ []) ∙ ap (λ k. live k (r ∷ [])) h

without-last : (d s : ℕ) → without s (d ∷ s ∷ []) ≡ d ∷ []
unfolding without
without-last d s = ground (arith, ==_iff s d, ==_iff s s)

without_self : (n : ℕ) → without n (n ∷ []) ≡ []
unfolding without
without_self n = ground (arith, ==_iff n n)

-- A monitor that holds nothing, in front of which nothing lives.
abbrev pub IsBare : WaylandIdle → Type 0
IsBare m = (live [] m.requests ≡ []) × (m.notif_dim ≡ none) × (m.notif_sleep ≡ none)

destroy-held :
    (m : WaylandIdle) (dim sleep : Option ℕ)
    → m.notif_dim ≡ dim
    → m.notif_sleep ≡ sleep
    → live [] m.requests ≡ listed dim ++ listed sleep
    → IsBare (destroy_notifications m)
unfolding destroy_notifications destroy_sleep destroy_dim live
destroy-held m none none e f h = rw (f, e) (h, refl, refl)
destroy-held m none (some n) e f h =
    rw (f, e) (after_request m (destroyed n) (n ∷ []) h ∙ without_self n, refl, refl)
destroy-held m (some k) none e f h =
    rw (f, e) (after_request m (destroyed k) (k ∷ []) h ∙ without_self k, refl, refl)
destroy-held m (some k) (some n) e f h =
    let m' = destroy_sleep m (some n) in
    let one = after_request m (destroyed n) (k ∷ n ∷ []) h ∙ without-last k n in
    rw (f, e) (after_request m' (destroyed k) (k ∷ []) one ∙ without_self k, refl, refl)

-- Destroying leaves nothing alive and nothing held.
destroy-IsBare : (m : WaylandIdle) → IsTidy m → IsBare (destroy_notifications m)
unfolding IsTidy
destroy-IsBare m h = destroy-held m m.notif_dim m.notif_sleep refl refl h

-- A monitor that holds a notification for dim at most, and what lives is that.
abbrev HasDim : WaylandIdle → Type 0
HasDim m = (live [] m.requests ≡ listed m.notif_dim) × (m.notif_sleep ≡ none)

create_dim-HasDim :
    (m : WaylandIdle) (dim_ms : ℤ) (a : Option ℕ) → IsBare m → HasDim (create_dim m dim_ms a).1
unfolding create_dim live
create_dim-HasDim m dim_ms none (h, e, f) = (rw e h, f)
create_dim-HasDim m dim_ms (some n) (h, e, f) = elim (Bool-cases (ltb_ℤ (pos 0) dim_ms)) [
  | inl x ↦ rw x (after_request m (created n _) [] h, f)
  | inr x ↦ rw x (rw e h, f)
]

HasDim-IsTidy : (m : WaylandIdle) → HasDim m → IsTidy m
unfolding IsTidy
HasDim-IsTidy m (h, f) = rw f (h ∙ sym (append-nil (listed m.notif_dim)))

create_sleep-IsTidy :
    (m : WaylandIdle) (sleep_ms : ℤ) (b : Option ℕ)
    → HasDim m
    → IsTidy (create_sleep m sleep_ms b).1
unfolding create_sleep live IsTidy
create_sleep-IsTidy m sleep_ms none h = HasDim-IsTidy m h
create_sleep-IsTidy m sleep_ms (some n) (h, f) = elim (Bool-cases (ltb_ℤ (pos 0) sleep_ms)) [
  | inl x ↦ rw x (after_request m (created n _) (listed m.notif_dim) h)
  | inr x ↦ rw x (HasDim-IsTidy m (h, f))
]

-- Whatever the times and the answers of the compositor are, the refusals included, the compositor
-- has the notifications that the monitor holds and no others, if it had no others before: none is
-- left behind by a change of the timeouts.
pub set_timeouts-IsTidy :
    (m : WaylandIdle) (dim_ms sleep_ms : ℤ) (answers : Answers)
    → IsTidy m
    → IsTidy (set_timeouts m dim_ms sleep_ms answers)
unfolding set_timeouts create_notifications
set_timeouts-IsTidy m dim_ms sleep_ms (a, b) h =
    let made = create_dim (destroy_notifications m) dim_ms a in
    let one : HasDim made.1 =
      create_dim-HasDim (destroy_notifications m) dim_ms a (destroy-IsBare m h) in
    elim (Bool-cases made.0) [
      | inl x ↦ rw (set_timeouts, x) (create_sleep-IsTidy made.1 sleep_ms b one)
      | inr x ↦ rw (set_timeouts, x) (HasDim-IsTidy made.1 one)
    ]
