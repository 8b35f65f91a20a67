-- ===== src/Power/Saved.antt =====
-- The brightness that `PowerManager::dim` of src/daemon/power_manager.cpp saves: what leaves it alone,
-- and what takes it up.
use draind.Base.{
  ℕ, ◌≡◌, refl, ap, sym, ◌∙◌, Bool-cases, ◌||◌, inl, inr, some, none, Option, List, [], ◌∷◌, ◌++◌,
  Text, codes, is_empty, text_eq, done, pos, negsuc, ℤ, ltb_ℤ, arith, left, if◌then◌else◌,
}
use draind.Config.{Profile}
use draind.Power
use draind.Power.{
  Power, write_file, read_file, set_nodes, set_cpu_governor, set_cpu_epp, set_brightness_percent,
  write_target, forget_brightness, find_backlight_path, stoi, cpu_policy_paths,
}

write_file-user :
    (q : Power) (path value : Text)
    → (write_file q path value).0.user_brightness ≡ q.user_brightness
unfolding write_file
write_file-user q path value = elim (Bool-cases (q.accepts path value)) [
  | inl e ↦ rw e refl
  | inr e ↦ rw e refl
]

set_nodes-user :
    (q : Power) (paths : List Text) (file value : Text)
    → (set_nodes q paths file value).user_brightness ≡ q.user_brightness
unfolding set_nodes
set_nodes-user q [] file value = refl
set_nodes-user q (path ∷ paths) file value =
    elim (Bool-cases (text_eq (read_file q (path ++ file)) value)) [
      | inl e ↦ rw (set_nodes, e) (set_nodes-user q paths file value)
      | inr e ↦
          rw (set_nodes, e)
            (set_nodes-user (write_file q (path ++ file) value).0 paths file value
              ∙ write_file-user q (path ++ file) value)
    ]

set_cpu_governor-user :
    (q : Power) (gov : Text) → (set_cpu_governor q gov).user_brightness ≡ q.user_brightness
unfolding set_cpu_governor
set_cpu_governor-user q gov = elim (Bool-cases (is_empty gov)) [
  | inl e ↦ rw e refl
  | inr e ↦ rw e (set_nodes-user q (cpu_policy_paths q) (codes "/scaling_governor") gov)
]

set_cpu_epp-user :
    (q : Power) (epp : Text) → (set_cpu_epp q epp).user_brightness ≡ q.user_brightness
unfolding set_cpu_epp
set_cpu_epp-user q epp = elim (Bool-cases (is_empty epp)) [
  | inl e ↦ rw e refl
  | inr e ↦
      rw e (set_nodes-user q (cpu_policy_paths q) (codes "/energy_performance_preference") epp)
]

write_target-user :
    (q : Power) (base : Text) (pct : ℤ) (o : Option ℤ)
    → (left (write_target q base pct o)).user_brightness ≡ q.user_brightness
unfolding write_target
write_target-user q base pct none = refl
write_target-user q base pct (some max_val) = write_file-user q _ _

set_brightness_percent-user :
    (q : Power) (pct : ℤ)
    → (left (set_brightness_percent q pct)).user_brightness ≡ q.user_brightness
unfolding set_brightness_percent
set_brightness_percent-user q pct =
    let base = find_backlight_path q in
    let max_s = read_file q (base ++ codes "/max_brightness") in
    elim (Bool-cases (is_empty base || is_empty max_s)) [
      | inl e ↦ rw e refl
      | inr e ↦ rw e (write_target-user q base pct (stoi max_s))
    ]

-- A profile that is applied leaves the saved brightness alone.
pub apply-user :
    (q w : Power) (p : Profile) → Power.apply q p ≡ done w → w.user_brightness ≡ q.user_brightness
unfolding Power.apply
apply-user q w p h =
    let governed = set_cpu_governor q p.cpu_governor in
    ap (λ o. (left {S = Power} o).user_brightness) (sym h)
    ∙ set_brightness_percent-user (set_cpu_epp governed p.cpu_epp) p.brightness_percent
    ∙ set_cpu_epp-user governed p.cpu_epp
    ∙ set_cpu_governor-user q p.cpu_governor

pub undim-saved :
    (q v : Power) (p : Profile) (u : ℕ)
    → q.user_brightness ≡ pos u
    → set_brightness_percent q (pos u) ≡ done v
    → Power.undim q p ≡ done (record v { user_brightness = negsuc 0 })
unfolding Power.undim forget_brightness
undim-saved q v p u b k =
    let chosen : (if ltb_ℤ q.user_brightness (pos 0)
          then p.brightness_percent
          else q.user_brightness)
        ≡ pos u =
      rw b (ground arith) in
    ap (λ n. forget_brightness (set_brightness_percent q n)) chosen ∙ ap forget_brightness k
