-- ===== src/Power/Brightness.antt =====
-- The dimming of src/daemon/power_manager.cpp and its end: what the backlight holds then.
use Prim.Native.Nat.{◌≤◌}
use native.Mathlib.Nat.{div-mul-le_self, mul-div-le, lt-div-mul-add}
use draind.Base.{
  ℕ, zero, suc, ◌+◌, ◌*◌, ◌/◌, ◌<◌, true, false, ◌≡◌, refl, ap, ◌∙◌, some, [], ◌∷◌, ◌++◌, Text,
  codes, is_empty, text_eq, text_eq_refl, arith, ℤ, pos, negsuc, to_int, to_int_id, int_half, ◌*ℤ◌,
  done,
}
use draind.Json.Number.{to_string}
use draind.Config.{Profile}
use draind.Power.{
  Power, update, write_file, read_file, stripped, find_backlight_path, get_brightness_percent,
  set_brightness_percent, write_target, percent_of, target_brightness, dim, dim_from, undim,
  saved_brightness, forget_brightness, stoi,
}

-- `100 * c / m` per cent of `m`.
unfoldable pub restored : ℕ → ℕ → ℕ
restored m c = m * (c * 100 / m) / 100

-- What two divisions lose.
restored_bounds : (m c : ℕ) → 0 < m → (restored m c ≤ c) × (c * 100 < restored m c * 100 + 100 + m)
unfolding restored
restored_bounds m c h =
    let hundred : 0 < 100 = omega arith in
    let a = div-mul-le_self (c * 100) m in
    let b = lt-div-mul-add {a = c * 100} h in
    let x = div-mul-le_self (m * (c * 100 / m)) 100 in
    let y = lt-div-mul-add {a = m * (c * 100 / m)} hundred in
    (omega (arith, a, b, x, y), omega (arith, a, b, x, y))

text_eq-prefix : (s t u : Text) → text_eq (s ++ t) (s ++ u) ≡ text_eq t u
unfolding text_eq
text_eq-prefix [] t u = refl
text_eq-prefix (c ∷ s) t u = ground (arith, text_eq-prefix s t u)

mul_pos : (a b : ℕ) → pos a *ℤ pos b ≡ pos (a * b)
mul_pos a b = ground arith

to_int_pos : (n : ℕ) → n < int_half → to_int (pos n) ≡ pos n
to_int_pos n h = to_int_id (pos n) (h, omega arith)

stoi-nonempty : (s : Text) (z : ℤ) → stoi s ≡ some z → is_empty s ≡ false
unfolding stoi
stoi-nonempty [] z h = cc
stoi-nonempty (c ∷ s) z h = refl

unfoldable pub brightness_file : Power → Text
brightness_file p = find_backlight_path p ++ codes "/brightness"

unfoldable pub max_file : Power → Text
max_file p = find_backlight_path p ++ codes "/max_brightness"

files_differ : (p : Power) → text_eq (brightness_file p) (max_file p) ≡ false
unfolding brightness_file max_file
files_differ p =
    text_eq-prefix (find_backlight_path p) (codes "/brightness") (codes "/max_brightness")
    ∙ (unfold text_eq in refl)

get_brightness_lem :
    (p : Power) (m c : ℕ)
    → is_empty (find_backlight_path p) ≡ false
    → stoi (read_file p (max_file p)) ≡ some (pos m)
    → stoi (read_file p (brightness_file p)) ≡ some (pos c)
    → 0 < m
    → c * 100 < int_half
    → get_brightness_percent p ≡ some (pos (c * 100 / m))
unfolding get_brightness_percent percent_of brightness_file max_file
get_brightness_lem p zero c hb hm hc h b = absurd (ground arith)
get_brightness_lem p (suc m) c hb hm hc h b =
    let base = find_backlight_path p in
    let e₁ = stoi-nonempty (read_file p (base ++ codes "/max_brightness")) (pos (suc m)) hm in
    let e₂ = stoi-nonempty (read_file p (base ++ codes "/brightness")) (pos c) hc in
    rw (hb, e₁, e₂, hm, hc, mul_pos c 100, to_int_pos (c * 100) b) refl

set_brightness_lem :
    (p : Power) (m : ℤ) (pct : ℤ)
    → is_empty (find_backlight_path p) ≡ false
    → stoi (read_file p (max_file p)) ≡ some m
    → set_brightness_percent p pct
      ≡ done (write_file p (brightness_file p) (to_string (target_brightness m pct))).0
unfolding set_brightness_percent write_target brightness_file max_file
set_brightness_lem p m pct hb hm =
    let e₁ = stoi-nonempty (read_file p (find_backlight_path p ++ codes "/max_brightness")) m hm in
    rw (hb, e₁, hm) refl

-- A power state whose backlight takes everything that is written to it.
unfoldable pub TakesBrightness : Power → Type 0
TakesBrightness p = (v : Text) → p.accepts (brightness_file p) v ≡ true

unfoldable written : Power → ℤ → ℤ → Power
unfolding update
written p m pct = record p {
  files = update p.files (brightness_file p) (to_string (target_brightness m pct));
}

written_lem :
    (p : Power) (m pct : ℤ)
    → is_empty (find_backlight_path p) ≡ false
    → stoi (read_file p (max_file p)) ≡ some m
    → TakesBrightness p
    → set_brightness_percent p pct ≡ done (written p m pct)
unfolding TakesBrightness written write_file update
written_lem p m pct hb hm t =
    set_brightness_lem p m pct hb hm ∙ rw (t (to_string (target_brightness m pct))) refl

written-max :
    (p : Power) (m pct : ℤ) → read_file (written p m pct) (max_file p) ≡ read_file p (max_file p)
unfolding written read_file stripped update
written-max p m pct = rw (files_differ p) refl

target_brightness_lem :
    (m pct : ℕ) → m * pct < int_half → target_brightness (pos m) (pos pct) ≡ pos (m * pct / 100)
unfolding target_brightness
target_brightness_lem m pct h = rw (mul_pos m pct, to_int_pos (m * pct) h) refl

saved_pos : (prof : Profile) (q : ℕ) → saved_brightness prof (pos q) ≡ pos q
unfolding saved_brightness
saved_pos prof q = ground arith

-- The state with the brightness that `dim` saves.
unfoldable saving : Power → ℕ → Power
saving p q = record p { user_brightness = pos q }

saving-written :
    (p : Power) (q : ℕ) (m pct : ℤ)
    → is_empty (find_backlight_path p) ≡ false
    → stoi (read_file p (max_file p)) ≡ some m
    → TakesBrightness p
    → set_brightness_percent (saving p q) pct ≡ done (written (saving p q) m pct)
unfolding saving find_backlight_path read_file max_file brightness_file TakesBrightness
saving-written p q m pct hb hm t = written_lem (saving p q) m pct hb hm t

dim_lem :
    (p : Power) (m c : ℕ) (prof : Profile)
    → is_empty (find_backlight_path p) ≡ false
    → stoi (read_file p (max_file p)) ≡ some (pos m)
    → stoi (read_file p (brightness_file p)) ≡ some (pos c)
    → TakesBrightness p
    → 0 < m
    → c * 100 < int_half
    → dim p prof ≡ done (written (saving p (c * 100 / m)) (pos m) prof.dim_brightness_percent)
unfolding dim dim_from saving
dim_lem p m c prof hb hm hc t h b =
    rw (get_brightness_lem p m c hb hm hc h b, saved_pos prof (c * 100 / m))
      (unfold saving in saving-written p (c * 100 / m) (pos m) prof.dim_brightness_percent hb hm t)

rewritten_lem :
    (p : Power) (q : ℕ) (m low pct : ℤ)
    → is_empty (find_backlight_path p) ≡ false
    → stoi (read_file p (max_file p)) ≡ some m
    → TakesBrightness p
    → set_brightness_percent (written (saving p q) m low) pct
      ≡ done (written (written (saving p q) m low) m pct)
unfolding saving written find_backlight_path brightness_file TakesBrightness max_file read_file
rewritten_lem p q m low pct hb hm t =
    written_lem (written (saving p q) m low) m pct hb
      (ap stoi (written-max (saving p q) m low) ∙ hm) t

written-brightness :
    (p : Power) (q : ℕ) (m low back : ℤ)
    → (written (written (saving p q) m low) m back).files (brightness_file p)
      ≡ some (to_string (target_brightness m back))
unfolding saving written update brightness_file find_backlight_path
written-brightness p q m low back = rw (text_eq_refl (brightness_file p)) refl

undim_lem :
    (p : Power) (q : ℕ) (m low : ℤ) (prof : Profile)
    → is_empty (find_backlight_path p) ≡ false
    → stoi (read_file p (max_file p)) ≡ some m
    → TakesBrightness p
    → undim (written (saving p q) m low) prof
      ≡ done
          (record (written (written (saving p q) m low) m (pos q)) { user_brightness = negsuc 0 })
unfolding undim forget_brightness saved_brightness saving written
undim_lem p q m low prof hb hm t =
    rw (saved_pos prof q, rewritten_lem p q m low (pos q) hb hm t) refl

-- A backlight that takes what is written and stands at `c` of a positive maximum `m`, where 100 *
-- `c` is in the range of `int`, is dimmed and then undimmed, by whatever profiles, and ends at `v`
-- of `m`, where `v` is at most `c` and below it by less than a hundredth of `m` and one.
pub undim_after_dim :
    (p : Power) (m c : ℕ) (prof prof' : Profile)
    → is_empty (find_backlight_path p) ≡ false
    → stoi (read_file p (max_file p)) ≡ some (pos m)
    → stoi (read_file p (brightness_file p)) ≡ some (pos c)
    → TakesBrightness p
    → 0 < m
    → c * 100 < int_half
    → (w : Power) × (u : Power) × (v : ℕ) × (dim p prof ≡ done w)
      × (undim w prof' ≡ done u)
      × (u.files (brightness_file p) ≡ some (to_string (pos v)))
      × (u.user_brightness ≡ negsuc 0)
      × (v ≤ c)
      × (c * 100 < v * 100 + 100 + m)
undim_after_dim p m c prof prof' hb hm hc t h b =
    let q = c * 100 / m in
    let w = written (saving p q) (pos m) prof.dim_brightness_percent in
    let u = written w (pos m) (pos q) in
    let low = prof.dim_brightness_percent in
    let small : m * q < int_half = omega (arith, b, mul-div-le (c * 100) m) in
    let value = ap (λ z. some (to_string z)) (target_brightness_lem m q small) in
    (
      w,
      record u { user_brightness = negsuc 0 },
      restored m c,
      dim_lem p m c prof hb hm hc t h b,
      undim_lem p q (pos m) low prof' hb hm t,
      written-brightness p q (pos m) low (pos q) ∙ (unfold restored in value),
      refl,
      (restored_bounds m c h).0,
      (restored_bounds m c h).1,
    )
