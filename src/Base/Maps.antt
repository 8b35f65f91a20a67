-- ===== src/Base/Maps.antt =====
-- A map from descriptors, and a `std::set` of texts in the order of its elements.
use Prim.Native.Nat.{ℕ}
use mathlib.Core.Path.{◌≡◌, refl, subst}
use mathlib.Core.Logic.{inl, inr}
use mathlib.Core.Bool.{Bool, false, ◌||◌}
use mathlib.Core.Option.{Option, none, some, some-injective}
use mathlib.Core.List.{List, [], ◌∷◌}
use native.Mathlib.Omega.{arith}
use draind.Base.Tests.{◌==◌, if◌then◌else◌, Bool-cases}
use draind.Base.Lists.{All}
use draind.Base.Strings.{Text, text_eq, text_ltb, text_eq_iff}

module _ {ℓ} {A : Type ℓ} where
  unfoldable pub lookup : ℕ → List (ℕ × A) → Option A
  lookup k [] = none
  lookup k ((j, a) ∷ m) = if k == j then some a else lookup k m

  -- `m[k] = a`: an entry that is there keeps its place.
  unfoldable pub insert : ℕ → A → List (ℕ × A) → List (ℕ × A)
  insert k a [] = (k, a) ∷ []
  insert k a ((j, b) ∷ m) = if k == j then (k, a) ∷ m else (j, b) ∷ insert k a m

  unfoldable pub erase : ℕ → List (ℕ × A) → List (ℕ × A)
  erase k [] = []
  erase k ((j, b) ∷ m) = let rest = erase k m in if k == j then rest else (j, b) ∷ rest

  pub lookup-insert :
      (k j : ℕ) (a : A) (m : List (ℕ × A))
      → lookup j (insert k a m) ≡ (if k == j then some a else lookup j m)
  unfolding lookup insert
  lookup-insert k j a [] = ground arith
  lookup-insert k j a ((i, b) ∷ m) = ground (arith, lookup-insert k j a m)

  pub lookup-insert_same : (k : ℕ) (a : A) (m : List (ℕ × A)) → lookup k (insert k a m) ≡ some a
  lookup-insert_same k a m = ground (arith, lookup-insert k k a m)

  pub lookup-erase :
      (k j : ℕ) (m : List (ℕ × A)) → lookup j (erase k m) ≡ (if k == j then none else lookup j m)
  unfolding lookup erase
  lookup-erase k j [] = ground arith
  lookup-erase k j ((i, b) ∷ m) = ground (arith, lookup-erase k j m)

-- `std::set::insert`, `erase` and the membership test.
unfoldable pub set_insert : Text → List Text → List Text
set_insert x [] = x ∷ []
set_insert x (y ∷ ys) =
    if text_eq x y then y ∷ ys else if text_ltb x y then x ∷ y ∷ ys else y ∷ set_insert x ys

unfoldable pub set_erase : Text → List Text → List Text
set_erase x [] = []
set_erase x (y ∷ ys) = let rest = set_erase x ys in if text_eq x y then rest else y ∷ rest

unfoldable pub has_text : Text → List Text → Bool
has_text x [] = false
has_text x (y ∷ ys) = text_eq x y || has_text x ys

pub has_text-set_insert :
    (x y : Text) (ys : List Text) → has_text y (set_insert x ys) ≡ (text_eq y x || has_text y ys)
unfolding has_text set_insert
has_text-set_insert x y [] = refl
has_text-set_insert x y (z ∷ zs) =
    ground (arith, text_eq_iff x z, text_eq_iff y x, text_eq_iff y z, has_text-set_insert x y zs)

pub has_text-set_erase :
    (x y : Text) (ys : List Text)
    → has_text y (set_erase x ys) ≡ (if text_eq x y then false else has_text y ys)
unfolding has_text set_erase
has_text-set_erase x y [] = ground arith
has_text-set_erase x y (z ∷ zs) =
    ground (arith, text_eq_iff x z, text_eq_iff x y, text_eq_iff y z, has_text-set_erase x y zs)

-- Each key stands in the map once.
abbrev pub Distinct {ℓ} : {A : Type ℓ} → List (ℕ × A) → Type ℓ
Distinct [] = Unit
Distinct ((k, a) ∷ m) = (lookup k m ≡ none) × Distinct m

module _ {ℓ} {A : Type ℓ} where
  -- What holds of every entry holds after a change of one.
  pub insert-All {κ} :
      (P : A → Type κ) (k : ℕ) (a : A) (m : List (ℕ × A))
      → P a
      → All (λ (j, b). P b) m
      → All (λ (j, b). P b) (insert k a m)
  unfolding insert
  insert-All P k a [] p h = (p, tt)
  insert-All P k a ((j, b) ∷ m) p (h, hs) = elim (Bool-cases (k == j)) [
    | inl e ↦ rw e (p, hs)
    | inr e ↦ rw e (h, insert-All P k a m p hs)
  ]

  pub erase-All {κ} :
      (P : A → Type κ) (k : ℕ) (m : List (ℕ × A))
      → All (λ (j, b). P b) m
      → All (λ (j, b). P b) (erase k m)
  unfolding erase
  erase-All P k [] h = tt
  erase-All P k ((j, b) ∷ m) (h, hs) = elim (Bool-cases (k == j)) [
    | inl e ↦ rw e (erase-All P k m hs)
    | inr e ↦ rw e (h, erase-All P k m hs)
  ]

  pub lookup-All {κ} :
      (P : A → Type κ) (k : ℕ) (a : A) (m : List (ℕ × A))
      → All (λ (j, b). P b) m
      → lookup k m ≡ some a
      → P a
  unfolding lookup
  lookup-All P k a [] h e = cc
  lookup-All P k a ((j, b) ∷ m) (h, hs) e = elim (Bool-cases (k == j)) [
    | inl x ↦ subst P (some-injective b a (rw x at e)) h
    | inr x ↦ lookup-All P k a m hs (rw x at e)
  ]
