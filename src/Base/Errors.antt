-- ===== src/Base/Errors.antt =====
-- A computation that may throw a `std::runtime_error` with a text, or run out of the model's fuel.
use draind.Base.Strings.{Text}
use mathlib.Core.Path.{◌≡◌, refl}
use mathlib.Core.Logic.{◌⊎◌, inl, inr, ◌≢◌}

pub data Result {ℓ} (A : Type ℓ) : Type ℓ where
  ok : A → Result A
  err : Text → Result A
  out_of_fuel : Result A

-- What follows a computation that may fail.
module _ {ℓ κ} {A : Type ℓ} {B : Type κ} where
  infixl 5 ◌>>=◌
  abbrev pub ◌>>=◌ : Result A → (A → Result B) → Result B
  out_of_fuel >>= next = out_of_fuel
  err what >>= next = err what
  ok value >>= next = next value

  -- Inversion of a chain that returned.
  pub >>=-eq-ok :
      (r : Result A) (next : A → Result B) {y : B}
      → (r >>= next) ≡ ok y
      → (x : A) × (r ≡ ok x) × (next x ≡ ok y)
  >>=-eq-ok out_of_fuel next e = cc
  >>=-eq-ok (err what) next e = cc
  >>=-eq-ok (ok x) next e = (x, refl, e)

pub ok-injective {ℓ} : {A : Type ℓ} {a b : A} → ok a ≡ ok b → a ≡ b
ok-injective e = cc

pub Result-cases {ℓ} :
    {A : Type ℓ} (r : Result A)
    → ((a : A) × (r ≡ ok a)) ⊎ (((e : Text) × (r ≡ err e)) ⊎ (r ≡ out_of_fuel))
Result-cases (ok a) = inl (a, refl)
Result-cases (err e) = inr (inl (e, refl))
Result-cases out_of_fuel = inr (inr refl)

pub err-ne-ok {ℓ} : {A : Type ℓ} {e : Text} {a : A} → err e ≢ ok a
err-ne-ok h = cc

-- A call that changes a state: it returns, or it throws and leaves what it had changed by then.
pub data Outcome {ℓ} (S : Type ℓ) : Type ℓ where
  done : S → Outcome S
  throws : Text → S → Outcome S

module _ {ℓ} {S : Type ℓ} where
  abbrev pub and_then {κ} : {T : Type κ} → Outcome S → (S → Outcome T) → (S → T) → Outcome T
  and_then (done s) f g = f s
  and_then (throws e s) f g = throws e (g s)

  -- The state that a call leaves, whether it returned or threw.
  abbrev pub left : Outcome S → S
  left (done s) = s
  left (throws e s) = s

  pub Outcome-cases :
      (r : Outcome S) → ((s : S) × (r ≡ done s)) ⊎ ((e : Text) × (s : S) × (r ≡ throws e s))
  Outcome-cases (done s) = inl (s, refl)
  Outcome-cases (throws e s) = inr (e, s, refl)
