-- ===== src/Power/Cpu.antt =====
-- The governors and the energy preferences of src/daemon/power_manager.cpp.
use draind.Base.{
  Bool, true, false, Bool-cases, ◌&&◌, ◌≡◌, ◌≢◌, refl, sym, ◌∙◌, subst, inl, inr, some, List, [],
  ◌∷◌, ◌++◌, Text, codes, is_empty, text_eq, text_eq_iff, text_eq_refl, if◌then◌else◌, All, arith,
  ◌⊎◌,
}
use draind.Power.{
  Power, update, write_file, rstrip, read_file, cpu_policy_paths, set_nodes, set_cpu_governor,
  stripped,
}

-- A value that reads back as it was written.
abbrev pub IsStripped : Text → Type 0
IsStripped value = rstrip value ≡ value

-- The state after one node of the loop.
unfoldable set_node : Power → Text → Text → Power
set_node p path value = if text_eq (read_file p path) value then p else (write_file p path value).0

pub write_file-files :
    (p : Power) (path value other : Text)
    → (write_file p path value).0.files other
      ≡ (if p.accepts path value && text_eq path other then some value else p.files other)
unfolding write_file update
write_file-files p path value other = elim (Bool-cases (p.accepts path value)) [
  | inl e ↦ rw e refl
  | inr e ↦ rw e refl
]

pub write_file-accepts :
    (p : Power) (path value : Text) → (write_file p path value).0.accepts ≡ p.accepts
unfolding write_file
write_file-accepts p path value = elim (Bool-cases (p.accepts path value)) [
  | inl e ↦ rw e refl
  | inr e ↦ rw e refl
]

set_node-accepts : (p : Power) (path value : Text) → (set_node p path value).accepts ≡ p.accepts
unfolding set_node
set_node-accepts p path value = elim (Bool-cases (text_eq (read_file p path) value)) [
  | inl e ↦ rw e refl
  | inr e ↦ rw e (write_file-accepts p path value)
]

-- What a file holds after a node: what it held, or the value.
set_node-cases :
    (p : Power) (path value other : Text)
    → ((set_node p path value).files other ≡ p.files other)
      ⊎ ((path ≡ other) × ((set_node p path value).files other ≡ some value))
unfolding set_node
set_node-cases p path value other = elim (Bool-cases (text_eq (read_file p path) value)) [
  | inl e ↦ inl (rw e refl)
  | inr e ↦ elim (Bool-cases (p.accepts path value && text_eq path other)) [
    | inl a ↦ inr (
      ground (arith, a, text_eq_iff path other),
      rw (e, write_file-files p path value other, a) refl,
    )
    | inr a ↦ inl (rw (e, write_file-files p path value other, a) refl)
  ]
]

set_node-keeps :
    (p : Power) (path other value : Text)
    → IsStripped value
    → read_file p other ≡ value
    → read_file (set_node p path value) other ≡ value
unfolding read_file stripped
set_node-keeps p path other value k h = elim (set_node-cases p path value other) [
  | inl e ↦ rw e h
  | inr (x, e) ↦ rw e k
]

set_node-sets :
    (p : Power) (path value : Text)
    → IsStripped value
    → p.accepts path value ≡ true
    → read_file (set_node p path value) path ≡ value
unfolding set_node read_file stripped
set_node-sets p path value k h = elim (Bool-cases (text_eq (read_file p path) value)) [
  | inl e ↦ rw e ((text_eq_iff (read_file p path) value).0 e)
  | inr e ↦ rw (e, write_file-files p path value path, h, text_eq_refl path) k
]

set_nodes-keeps :
    (p : Power) (paths : List Text) (file value other : Text)
    → IsStripped value
    → read_file p other ≡ value
    → read_file (set_nodes p paths file value) other ≡ value
unfolding set_nodes set_node
set_nodes-keeps p [] file value other k h = h
set_nodes-keeps p (path ∷ paths) file value other k h =
    set_nodes-keeps (set_node p (path ++ file) value) paths file value other k
      (set_node-keeps p (path ++ file) other value k h)

-- The kernel takes the value at every one of these nodes.
abbrev pub TakesAll : Power → List Text → Text → Text → Type 0
TakesAll p paths file value = All (λ path. p.accepts (path ++ file) value ≡ true) paths

-- Behind the loop each node reads back as the value, whether it was written or held it before.
set_nodes-sets :
    (p : Power) (paths : List Text) (file value : Text)
    → IsStripped value
    → TakesAll p paths file value
    → All (λ path. read_file (set_nodes p paths file value) (path ++ file) ≡ value) paths
unfolding set_nodes set_node
set_nodes-sets p [] file value k h = tt
set_nodes-sets p (path ∷ paths) file value k (h, hs) =
    let q = set_node p (path ++ file) value in
    let same : q.accepts ≡ p.accepts = set_node-accepts p (path ++ file) value in
    (
      set_nodes-keeps q paths file value (path ++ file) k
          (set_node-sets p (path ++ file) value k h),
      set_nodes-sets q paths file value k (
          subst (λ (f : Text → Text → Bool). All (λ path. f (path ++ file) value ≡ true) paths)
            (sym same) hs),
    )

-- A file that is none of the nodes is not touched.
set_nodes-other :
    (p : Power) (paths : List Text) (file value other : Text)
    → All (λ path. path ++ file ≢ other) paths
    → (set_nodes p paths file value).files other ≡ p.files other
unfolding set_nodes set_node
set_nodes-other p [] file value other h = refl
set_nodes-other p (path ∷ paths) file value other (h, hs) =
    let q = set_node p (path ++ file) value in
    let rest = set_nodes-other q paths file value other hs in
    elim (set_node-cases p (path ++ file) value other) [
      | inl e ↦ rest ∙ e
      | inr (x, e) ↦ absurd (h x)
    ]

-- Setting a governor that is not empty, ends in no white space and is taken by the kernel leaves it in force at every policy of the CPU, and
-- changes no file but the governors of these policies.
pub set_cpu_governor_lem :
    (p : Power) (gov other : Text)
    → is_empty gov ≡ false
    → IsStripped gov
    → TakesAll p (cpu_policy_paths p) (codes "/scaling_governor") gov
    → All (λ path. path ++ codes "/scaling_governor" ≢ other) (cpu_policy_paths p)
    → let q = set_cpu_governor p gov in
      All (λ path. read_file q (path ++ codes "/scaling_governor") ≡ gov) (cpu_policy_paths p)
      × (q.files other ≡ p.files other)
unfolding set_cpu_governor
set_cpu_governor_lem p gov other h k t away =
    let paths = cpu_policy_paths p in
    let file = codes "/scaling_governor" in
    (rw h (set_nodes-sets p paths file gov k t), rw h (set_nodes-other p paths file gov other away))
