-- ===== src/Idle/Timer.antt =====
-- When src/agent/input_idle_monitor.cpp reports that the user is idle.
use native.Mathlib.Nat.{mod-eq_of_lt, add-mod_right}
use draind.Base.{
  ℕ, ◌+◌, ◌-◌, ◌%◌, ◌^◌, ◌<◌, ◌≤◌, true, false, Bool-cases, inl, inr, ◌||◌, ◌≡◌, refl, sym, ap, ◌∙◌,
  subst, none, some, List, [], ◌∷◌, ◌++◌, pos, to_int, to_int_id, if◌then◌else◌, arith, int_half,
}
use draind.Idle.{
  set_timeouts, InputIdle, IdleCall, dims, sleeps, active, arm_first, reset_idle_timer, elapsed_ms,
  arm_sleep, timed_out, on_timeout, on_input, on_timer,
}

-- The time since the last input, as long as it fits into an `int`.
elapsed_from :
    (s t : ℕ)
    → s + t < 2 ^ 64
    → t < int_half
    → to_int (pos ((s + t + (2 ^ 64 - s)) % 2 ^ 64)) ≡ pos t
elapsed_from s t h k =
    let sum : s + t + (2 ^ 64 - s) ≡ t + 2 ^ 64 = omega arith in
    let wrapped : (s + t + (2 ^ 64 - s)) % 2 ^ 64 ≡ t =
      ap (λ n. n % 2 ^ 64) sum ∙ add-mod_right t (2 ^ 64) ∙ mod-eq_of_lt (omega arith) in
    ap (λ n. to_int (pos n)) wrapped ∙ to_int_id (pos t) (k, omega arith)

-- The state with these times, which are positive or zero.
unfoldable pub with_times : InputIdle → ℕ → ℕ → InputIdle
with_times m d l = record m { dim_ms = pos d; sleep_ms = pos l }

-- The state behind an input at `s`, and the calls that were made by then.
abbrev fresh_at : ℕ → ℕ → ℕ → List IdleCall → InputIdle
fresh_at s d l calls = record {
  dim_ms = pos d;
  sleep_ms = pos l;
  dimmed = false;
  sleeping = false;
  last_event_ms = s;
  timer = some (s + d);
  calls = calls;
}

abbrev pub calls_behind_input : InputIdle → List IdleCall
calls_behind_input m = if m.dimmed || m.sleeping then m.calls ++ active ∷ [] else m.calls

on_input_lem :
    (m : InputIdle) (now d l : ℕ)
    → 0 < d
    → on_input (with_times m d l) now ≡ fresh_at now d l (calls_behind_input m)
unfolding on_input reset_idle_timer arm_first with_times
on_input_lem m now d l h = elim (Bool-cases (m.dimmed || m.sleeping)) [
  | inl e ↦ ground (arith, e)
  | inr e ↦ ground (arith, e)
]

timed_out-early :
    (s d l t now : ℕ) (calls : List IdleCall)
    → t < d
    → t < l
    → timed_out (record (fresh_at s d l calls) { timer = none }) now (pos t)
      ≡ record (fresh_at s d l calls) { timer = none }
unfolding timed_out
timed_out-early s d l t now calls h k = ground arith

timed_out-dims :
    (s d l t : ℕ) (calls : List IdleCall)
    → 0 < d
    → d ≤ t
    → t < l
    → timed_out (record (fresh_at s d l calls) { timer = none }) (s + t) (pos t)
      ≡ record (fresh_at s d l (calls ++ dims ∷ [])) { timer = some (s + l); dimmed = true }
unfolding timed_out arm_sleep
timed_out-dims s d l t calls h k n = ground arith

timed_out-sleeps :
    (s d l u now : ℕ) (calls : List IdleCall)
    → 0 < l
    → l ≤ u
    → timed_out (record (fresh_at s d l calls) { timer = none; dimmed = true }) now (pos u)
      ≡ record (fresh_at s d l (calls ++ sleeps ∷ [])) {
        timer = none;
        dimmed = true;
        sleeping = true;
      }
unfolding timed_out
timed_out-sleeps s d l u now calls h k = ground arith

-- The timer fires at `s + t`, where the last input came at `s`.
on_timer_lem :
    (m : InputIdle) (s t : ℕ)
    → m.last_event_ms ≡ s
    → s + t < 2 ^ 64
    → t < int_half
    → on_timer m (s + t) ≡ timed_out (record m { timer = none }) (s + t) (pos t)
unfolding on_timer on_timeout elapsed_ms
on_timer_lem m s t e h k = ap (timed_out (record m { timer = none }) (s + t)) (
    subst (λ n. to_int (pos ((s + t + (2 ^ 64 - n)) % 2 ^ 64)) ≡ pos t) (sym e)
      (elapsed_from s t h k))

-- With a time to dim and a longer one to sleep, an input sets the timer to the first. When it
-- fires, before the second has passed, the dimming is reported and the timer is set to exactly the
-- second; when it fires then, or later, the sleep is reported. The clock stays below 2 ^ 64 and
-- the time since the input within the range of `int`.
pub dims_then_sleeps :
    (m : InputIdle) (s d l t u : ℕ)
    → 0 < d
    → d ≤ t
    → t < l
    → l ≤ u
    → s + u < 2 ^ 64
    → u < int_half
    → let start = on_input (with_times m d l) s in
      let dimmed = on_timer start (s + t) in
      let asleep = on_timer dimmed (s + u) in
      (start.timer ≡ some (s + d))
      × (dimmed.calls ≡ calls_behind_input m ++ dims ∷ [])
      × (dimmed.timer ≡ some (s + l))
      × (asleep.calls ≡ (calls_behind_input m ++ dims ∷ []) ++ sleeps ∷ [])
dims_then_sleeps m s d l t u h₁ h₂ h₃ h₄ h₅ h₆ =
    let calls = calls_behind_input m in
    let start = fresh_at s d l calls in
    let e₁ = on_input_lem m s d l h₁ in
    let e₂ =
      on_timer_lem start s t refl (omega arith) (omega arith)
      ∙ timed_out-dims s d l t calls h₁ h₂ h₃ in
    let dimmed = record (fresh_at s d l (calls ++ dims ∷ [])) {
      timer = some (s + l);
      dimmed = true;
    } in
    let e₃ =
      on_timer_lem dimmed s u refl h₅ h₆
      ∙ timed_out-sleeps s d l u (s + u) (calls ++ dims ∷ []) (omega arith) h₄ in
    let behind : on_timer (on_input (with_times m d l) s) (s + t) ≡ dimmed =
      ap (λ n. on_timer n (s + t)) e₁ ∙ e₂ in
    (
      ap (λ n. n.timer) e₁,
      ap (λ n. n.calls) behind,
      ap (λ n. n.timer) behind,
      ap (λ n. n.calls) (ap (λ n. on_timer n (s + u)) behind ∙ e₃),
    )

-- A timer that fires before either time has passed reports nothing, while the clock stays below 2
-- ^ 64 and the time since the input within the range of `int`.
pub never_early :
    (m : InputIdle) (s d l t : ℕ)
    → t < d
    → t < l
    → s + t < 2 ^ 64
    → t < int_half
    → (on_timer (on_input (with_times m d l) s) (s + t)).calls ≡ calls_behind_input m
never_early m s d l t h₁ h₂ h₃ h₄ =
    let calls = calls_behind_input m in
    let start = fresh_at s d l calls in
    let e = on_timer_lem start s t refl h₃ h₄ ∙ timed_out-early s d l t (s + t) calls h₁ h₂ in
    ap (λ n. n.calls) (ap (λ n. on_timer n (s + t)) (on_input_lem m s d l (omega arith)) ∙ e)

timed_out-short :
    (s d l t now : ℕ) (calls : List IdleCall)
    → 0 < l
    → l ≤ t
    → timed_out (record (fresh_at s d l calls) { timer = none }) now (pos t)
      ≡ record (fresh_at s d l (calls ++ sleeps ∷ [])) { timer = none; sleeping = true }
unfolding timed_out
timed_out-short s d l t now calls h k = ground arith

-- A time to sleep that is shorter than the time to dim is not kept: the timer is set to the longer
-- one, and when that has passed the sleep is reported. The clock stays below 2 ^ 64 and the longer
-- time within the range of `int`.
pub short_sleep_waits :
    (m : InputIdle) (s d l : ℕ)
    → 0 < l
    → l < d
    → s + d < 2 ^ 64
    → d < int_half
    → let start = on_input (with_times m d l) s in
      (start.timer ≡ some (s + d))
      × (start.calls ≡ calls_behind_input m)
      × ((on_timer start (s + d)).calls ≡ calls_behind_input m ++ sleeps ∷ [])
short_sleep_waits m s d l h₁ h₂ h₃ h₄ =
    let calls = calls_behind_input m in
    let start = fresh_at s d l calls in
    let e₁ = on_input_lem m s d l (omega arith) in
    let e₂ =
      on_timer_lem start s d refl h₃ h₄ ∙ timed_out-short s d l d (s + d) calls h₁ (omega arith) in
    (
      ap (λ n. n.timer) e₁,
      ap (λ n. n.calls) e₁,
      ap (λ n. n.calls) (ap (λ n. on_timer n (s + d)) e₁ ∙ e₂),
    )

set_timeouts_lem :
    (m : InputIdle) (now d l : ℕ)
    → 0 < d
    → set_timeouts m now (pos d) (pos l)
      ≡ with_times (record m { dimmed = false; sleeping = false; timer = some (now + d) }) d l
unfolding set_timeouts reset_idle_timer arm_first with_times
set_timeouts_lem m now d l h = ground arith

-- New times, of which the one to dim is positive, make the monitor forget that it reported a
-- dimming or a sleep: the next input is not reported.
pub set_timeouts_forgets :
    (m : InputIdle) (now s d l : ℕ)
    → 0 < d
    → (on_input (set_timeouts m now (pos d) (pos l)) s).calls ≡ m.calls
set_timeouts_forgets m now s d l h =
    let forgotten = record m { dimmed = false; sleeping = false; timer = some (now + d) } in
    ap (λ n. (on_input n s).calls) (set_timeouts_lem m now d l h)
    ∙ ap (λ n. n.calls) (on_input_lem forgotten s d l h)
