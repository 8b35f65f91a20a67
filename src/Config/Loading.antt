-- ===== src/Config/Loading.antt =====
-- What a configuration that `load_config` of src/shared/config.cpp accepted looks like.
use mathlib.Core.List.{cons-ne-nil}
use draind.Base.{
  false, Bool-cases, inl, inr, ◌≡◌, ◌≢◌, Option, none, some, List, [], ◌∷◌, Text, All, codes,
  is_empty, text_eq_iff, ok, >>=-eq-ok, ok-injective, subst, arith,
}
use draind.Json.Value.{Items, Floats, nil, cons, get_array, index}
use draind.Json.Parser.{parse}
use draind.Config.{
  Profile, Config, find_profile, read_profile, read_profiles, finish_config, load_config,
}

-- A profile of that name is found, and no other.
pub find_profile-name :
    (name : Text) (ps : List Profile) (p : Profile) → find_profile name ps ≡ some p → p.name ≡ name
unfolding find_profile
find_profile-name name [] p e = cc
find_profile-name name (q ∷ qs) p e =
    ground (arith, text_eq_iff q.name name, find_profile-name name qs p)

-- The configuration names a profile as the active one, holds a profile at least, and each has a
-- name.
pub record IsLoaded (c : Config) : Type 0 where
  pub active : is_empty c.active_profile ≡ false
  pub some_profile : c.profiles ≢ []
  pub named : All (λ p. is_empty p.name ≡ false) c.profiles

abbrev AreNamed : List Profile → Type 0
AreNamed = All (λ p. is_empty p.name ≡ false)

read_profiles-AreNamed :
    (fl : Floats) (vs : Items) (ps : List Profile) → read_profiles fl vs ≡ ok ps → AreNamed ps
unfolding read_profiles
read_profiles-AreNamed fl nil ps e = subst AreNamed (ok-injective e) tt
read_profiles-AreNamed fl (cons v vs) ps e = elim (Bool-cases (is_empty (read_profile fl v).name)) [
  | inl x ↦ cc (rw x at e)
  | inr x ↦
      let (qs, e₁, e₂) = >>=-eq-ok (read_profiles fl vs) _ (rw x at e) in
      subst AreNamed (ok-injective e₂) (x, read_profiles-AreNamed fl vs qs e₁)
]

finish_config-IsLoaded :
    (active : Text) (ps : List Profile) (c : Config)
    → AreNamed ps
    → finish_config active ps ≡ ok c
    → IsLoaded c
unfolding finish_config
finish_config-IsLoaded active [] c h e = cc
finish_config-IsLoaded active (p ∷ ps) c h e = subst IsLoaded (ok-injective e) (record {
  active = elim (Bool-cases (is_empty active)) [ inl x ↦ rw x h.0 | inr x ↦ rw x x ];
  some_profile = cons-ne-nil p ps;
  named = h;
})

-- A file that loads names an active profile, and holds a profile at least, each with a name.
pub load_config-IsLoaded :
    (fl : Floats) (path : Text) (file : Option Text) (c : Config)
    → load_config fl path file ≡ ok c
    → IsLoaded c
unfolding load_config
load_config-IsLoaded fl path none c e = cc
load_config-IsLoaded fl path (some text) c e =
    let (root, e₁, e₂) = >>=-eq-ok (parse fl text) _ e in
    let vs = get_array (index root (codes "profiles")) in
    let (ps, e₃, e₄) = >>=-eq-ok (read_profiles fl vs) _ e₂ in
    finish_config-IsLoaded _ ps c (read_profiles-AreNamed fl vs ps e₃) e₄
