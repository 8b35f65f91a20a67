-- ===== src/Manager/Persist.antt =====
-- What src/daemon/config_manager.cpp writes into its file, and what a reload finds there.
use draind.Base.{
  Result, out_of_fuel, err, Option, none, ◌≡◌, refl, ap, subst, true, false, Bool-cases, inl, inr,
  some, some-injective, List, [], ◌∷◌, All, Text, codes, text_eq, text_ltb, is_empty, ok, >>=-eq-ok,
  ok-injective,
}
use draind.Json.Value.{
  Value, Fields, Floats, string, object, end, field, insert, get_object, assign, index, get_array,
}
use draind.Json.Assign.{index-assign, str-assign}
use draind.Json.Parser.{parse}
use draind.Json.Printer.{dump_pretty}
use draind.Json.Exact.{IsExact}
use draind.Json.WellFormed.{
  IsWellFormed, FieldsWellFormed, parse-IsWellFormed, insert-FieldsWellFormed,
}
use draind.Json.NoFloat.{HasNoFloat, FieldsHaveNoFloat, IsWellFormed-IsExact}
use draind.Json.Pretty.{parse-dump_pretty}
use draind.Config
use draind.Config.{Profile, Config, find_profile, load_config, read_profiles, finish_config}
use draind.Config.Loading.{load_config-IsLoaded, find_profile-name}
use draind.Manager.{ConfigManager, active_profile, set_active, persist_active, reload}

insert-HaveNoFloat :
    (k : Text) (v : Value) (fs : Fields)
    → HasNoFloat v
    → FieldsHaveNoFloat fs
    → FieldsHaveNoFloat (insert k v fs)
unfolding insert
insert-HaveNoFloat k v end h n = (h, tt)
insert-HaveNoFloat k v (field j w fs) h (n, ns) = elim (Bool-cases (text_eq k j)) [
  | inl e ↦ rw e (h, ns)
  | inr e ↦ elim (Bool-cases (text_ltb k j)) [
    | inl b ↦ rw (e, b) (h, (n, ns))
    | inr b ↦ rw (e, b) (n, insert-HaveNoFloat k v fs h ns)
  ]
]

get_object-WellFormed : (v : Value) → IsWellFormed v → FieldsWellFormed (get_object v)
unfolding get_object
get_object-WellFormed Value.null h = tt
get_object-WellFormed (Value.bool b) h = tt
get_object-WellFormed (Value.int n) h = tt
get_object-WellFormed (Value.double x) h = tt
get_object-WellFormed (string s) h = tt
get_object-WellFormed (Value.array xs) h = tt
get_object-WellFormed (object fs) h = h

get_object-NoFloat : (v : Value) → HasNoFloat v → FieldsHaveNoFloat (get_object v)
unfolding get_object
get_object-NoFloat Value.null h = tt
get_object-NoFloat (Value.bool b) h = tt
get_object-NoFloat (Value.int n) h = tt
get_object-NoFloat (Value.double x) h = tt
get_object-NoFloat (string s) h = tt
get_object-NoFloat (Value.array xs) h = tt
get_object-NoFloat (object fs) h = h

-- A text assigned to a key of a value that was parsed and has no float is printed without loss.
assign-IsExact :
    (k t : Text) (v : Value) → IsWellFormed v → HasNoFloat v → IsExact (assign v k (string t))
unfolding assign
assign-IsExact k t v h n =
    IsWellFormed-IsExact (object (insert k (string t) (get_object v)))
      (insert-FieldsWellFormed k (string t) (get_object v) tt (get_object-WellFormed v h))
      (insert-HaveNoFloat k (string t) (get_object v) tt (get_object-NoFloat v n))

-- A profile that is found among named ones has a name.
find_profile-named :
    (name : Text) (ps : List Profile) (p : Profile)
    → All (λ q. is_empty q.name ≡ false) ps
    → find_profile name ps ≡ some p
    → is_empty p.name ≡ false
unfolding find_profile
find_profile-named name [] p h e = cc
find_profile-named name (q ∷ qs) p (h, hs) e = elim (Bool-cases (text_eq q.name name)) [
  | inl x ↦ subst (λ z. is_empty z.name ≡ false) (some-injective _ _ (rw x at e)) h
  | inr x ↦ find_profile-named name qs p hs (rw x at e)
]

-- The same profiles with another active one.
abbrev pub renamed : Config → Text → Config
renamed c name = record c { active_profile = name }

finish_config-renamed :
    (active name : Text) (ps : List Profile) (c : Config)
    → is_empty name ≡ false
    → finish_config active ps ≡ ok c
    → finish_config name ps ≡ ok (renamed c name)
unfolding finish_config
finish_config-renamed active name [] c h e = cc
finish_config-renamed active name (p ∷ ps) c h e =
    rw h (ap (λ r. ok (renamed r name)) (ok-injective e))

keys_differ : text_eq (codes "profiles") (codes "active_profile") ≡ false
unfolding text_eq
keys_differ = refl

module _ (fl : Floats) where
  rewritten-keeps :
      (m : ConfigManager) (r : Result Value)
      → ((draind.Manager.rewritten fl m r).active ≡ m.active)
        × ((draind.Manager.rewritten fl m r).config ≡ m.config)
  unfolding draind.Manager.rewritten
  rewritten-keeps m (ok root) = elim (Bool-cases m.writable) [
    | inl e ↦ (rw e refl, rw e refl)
    | inr e ↦ (rw e refl, rw e refl)
  ]
  rewritten-keeps m (err e) = (refl, refl)
  rewritten-keeps m out_of_fuel = (refl, refl)

  persist_file-keeps :
      (m : ConfigManager) (o : Option Text)
      → ((draind.Manager.persist_file fl m o).active ≡ m.active)
        × ((draind.Manager.persist_file fl m o).config ≡ m.config)
  unfolding draind.Manager.persist_file
  persist_file-keeps m none = (refl, refl)
  persist_file-keeps m (some text) = rewritten-keeps m (parse fl text)

  -- What is written changes neither the profile in force nor the configuration.
  pub persist_active-keeps :
      (m : ConfigManager)
      → ((persist_active fl m).active ≡ m.active) × ((persist_active fl m).config ≡ m.config)
  unfolding persist_active
  persist_active-keeps m = persist_file-keeps m m.file

  -- A file with another active profile in it loads as the same profiles.
  load_config-rewritten :
      (path text name : Text) (root : Value) (c : Config)
      → parse fl text ≡ ok root
      → HasNoFloat root
      → is_empty name ≡ false
      → load_config fl path (some text) ≡ ok c
      → load_config fl path
          (some (dump_pretty fl 2 (assign root (codes "active_profile") (string name))))
        ≡ ok (renamed c name)
  unfolding load_config
  load_config-rewritten path text name root c e n h l =
      let exact =
        assign-IsExact (codes "active_profile") name root (parse-IsWellFormed fl text root e) n in
      let (ps, reads, finishes) =
        >>=-eq-ok (read_profiles fl (get_array (index root (codes "profiles")))) _ (rw e at l) in
      rw
        (
          parse-dump_pretty fl 2 (assign root (codes "active_profile") (string name)) exact,
          index-assign (codes "active_profile") (codes "profiles") name root keys_differ,
          reads,
          str-assign (codes "active_profile") name [] root,
        )
        (finish_config-renamed _ name ps c h finishes)

  -- The manager with the rewritten file.
  abbrev with_file : ConfigManager → Text → Value → ConfigManager
  with_file m name root = record m {
    file = some (dump_pretty fl 2 (assign root (codes "active_profile") (string name)));
    active = name;
  }

  persist_active-writes :
      (m : ConfigManager) (text name : Text) (root : Value)
      → m.file ≡ some text
      → m.writable ≡ true
      → parse fl text ≡ ok root
      → persist_active fl (record m { active = name }) ≡ with_file m name root
  unfolding persist_active draind.Manager.persist_file draind.Manager.rewritten
  persist_active-writes m text name root f w e = rw (f, e, w) refl

  -- Where the file of the manager can be written, is the one that its configuration was loaded from,
  -- and holds no float: when `set_active` has set a profile that the configuration names, a reload of
  -- the file finds the same profiles with that one active, as a restart would, and it is the profile
  -- in force before and after.
  pub reload-set_active :
      (m : ConfigManager) (text name : Text) (root : Value) (p : Profile)
      → m.file ≡ some text
      → m.writable ≡ true
      → parse fl text ≡ ok root
      → HasNoFloat root
      → load_config fl m.path (some text) ≡ ok m.config
      → Config.find m.config name ≡ some p
      → (w : ConfigManager) × (u : ConfigManager) × (set_active fl m name ≡ some w)
        × (reload fl w ≡ ok u)
        × (u.config.profiles ≡ m.config.profiles)
        × (u.config.active_profile ≡ name)
        × (active_profile w ≡ some p)
        × (active_profile u ≡ some p)
  unfolding set_active reload active_profile
  reload-set_active m text name root p f w e n l q =
      let listed : find_profile name m.config.profiles ≡ some p = unfold Config.find in q in
      let loaded = load_config-IsLoaded fl m.path (some text) m.config l in
      let same_name : p.name ≡ name = find_profile-name name m.config.profiles p listed in
      let has_name : is_empty name ≡ false =
        subst (λ t. is_empty t ≡ false) same_name
          (find_profile-named name m.config.profiles p loaded.named listed) in
      let written = persist_active-writes m text name root f w e in
      let again = load_config-rewritten m.path text name root m.config e n has_name l in
      (
        with_file m name root,
        record (with_file m name root) { config = renamed m.config name; active = name },
        rw (set_active, q, written) refl,
        rw (reload, again) refl,
        refl,
        refl,
        q,
        unfold Config.find in listed,
      )
