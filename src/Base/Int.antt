-- ===== src/Base/Int.antt =====
-- Signed integers, and the machine widths of the program: `int` and `int64_t` in two's complement.
use Prim.Native.Nat.{ℕ, zero, suc, ◌+◌, ◌-◌, ◌*◌, ◌/◌, ◌%◌, ◌^◌, ◌≤◌, ◌<◌}
use mathlib.Core.Path.{◌≡◌}
use mathlib.Core.Bool.{Bool}
use native.Mathlib.Nat.{mod-eq_of_lt}
use native.Mathlib.Omega.{arith}
use draind.Base.Tests.{ltb, leb, if◌then◌else◌}

-- `negsuc n` is -(n + 1).
pub data ℤ : Type 0 where
  pos : ℕ → ℤ
  negsuc : ℕ → ℤ

abbrev pub pos_part : ℤ → ℕ
pos_part (pos n) = n
pos_part (negsuc n) = 0

abbrev pub neg_part : ℤ → ℕ
neg_part (pos n) = 0
neg_part (negsuc n) = suc n

-- a - b, as an integer.
abbrev pub sub_ℕ : ℕ → ℕ → ℤ
sub_ℕ a b = if leb b a then pos (a - b) else negsuc (b - a - 1)

-- -n.
abbrev pub neg : ℕ → ℤ
neg zero = pos 0
neg (suc n) = negsuc n

abbrev pub ltb_ℤ : ℤ → ℤ → Bool
ltb_ℤ a b = ltb (pos_part a + neg_part b) (pos_part b + neg_part a)

abbrev pub leb_ℤ : ℤ → ℤ → Bool
leb_ℤ a b = leb (pos_part a + neg_part b) (pos_part b + neg_part a)

infixl 65 ◌-ℤ◌
infixl 70 ◌*ℤ◌ ◌/ℤ◌ ◌%ℤ◌
abbrev pub ◌-ℤ◌ : ℤ → ℤ → ℤ
a -ℤ b = sub_ℕ (pos_part a + neg_part b) (neg_part a + pos_part b)

abbrev pub ◌*ℤ◌ : ℤ → ℤ → ℤ
a *ℤ b =
    sub_ℕ (pos_part a * pos_part b + neg_part a * neg_part b)
      (pos_part a * neg_part b + neg_part a * pos_part b)

-- Division by a positive number, which rounds towards zero.
abbrev pub ◌/ℤ◌ : ℤ → ℕ → ℤ
pos n /ℤ d = pos (n / d)
negsuc n /ℤ d = neg (suc n / d)

-- The remainder of that division has the sign of the dividend.
abbrev pub ◌%ℤ◌ : ℤ → ℕ → ℤ
pos n %ℤ d = pos (n % d)
negsuc n %ℤ d = neg (suc n % d)

-- The cast to an unsigned type of `m` values: the residue modulo `m`.
unfoldable pub wrap_unsigned : ℕ → ℤ → ℕ
wrap_unsigned m (pos n) = n % m
wrap_unsigned m (negsuc n) = m - 1 - n % m

-- The cast to a signed type of `2 * h` values.
unfoldable pub wrap_signed : ℕ → ℤ → ℤ
unfolding wrap_unsigned
wrap_signed h z =
    let u = wrap_unsigned (2 * h) z in if ltb u h then pos u else negsuc (2 * h - 1 - u)

abbrev pub int_half : ℕ
int_half = 2 ^ 31

abbrev pub int64_half : ℕ
int64_half = 2 ^ 63

-- `(int)z`, `(uint32_t)z` and the result of `int64_t` arithmetic.
unfoldable pub to_int : ℤ → ℤ
unfolding wrap_signed
to_int z = wrap_signed int_half z

unfoldable pub to_uint32 : ℤ → ℕ
unfolding wrap_unsigned
to_uint32 z = wrap_unsigned (2 ^ 32) z

unfoldable pub to_int64 : ℤ → ℤ
unfolding wrap_signed
to_int64 z = wrap_signed int64_half z

-- -h ≤ z < h.
abbrev pub InSigned : ℕ → ℤ → Type 0
InSigned h z = (pos_part z < h) × (neg_part z ≤ h)

pub wrap_signed_id : (h : ℕ) (z : ℤ) → InSigned h z → wrap_signed h z ≡ z
unfolding wrap_signed
wrap_signed_id h (pos n) r = let m : n % (2 * h) ≡ n = mod-eq_of_lt (omega arith) in ground arith
wrap_signed_id h (negsuc n) r = let m : n % (2 * h) ≡ n = mod-eq_of_lt (omega arith) in ground arith

pub to_int_id : (z : ℤ) → InSigned int_half z → to_int z ≡ z
unfolding to_int
to_int_id z r = wrap_signed_id int_half z r
