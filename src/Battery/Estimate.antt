-- ===== src/Battery/Estimate.antt =====
-- What `read` of src/shared/battery.hpp finds: the battery of the lowest number, and a time that
-- is the charge over the rate.
use native.Mathlib.Nat.{div-lt_iff_lt-mul}
use draind.Base.{
  if◌then◌else◌, ◌==◌, ==_iff, ◌*ℤ◌, ◌-ℤ◌, ℕ, zero, suc, ◌+◌, ◌-◌, ◌*◌, ◌/◌, ◌<◌, ◌≤◌, ◌^◌, ◌≡◌,
  refl, Bool, true, false, Bool-cases, inl, inr, Option, none, some, Text, codes, ◌++◌, pos,
  to_int64, to_int_id, int64_half, arith, wrap_signed_id,
}
use draind.Battery.{Status, discharging, charging, full, unknown, not_charging, absent}
use draind.Battery.Reading.{
  Reading, read, read_from, has_supply, read_supply, supply_name, minutes, to_empty, to_full,
  read_reading,
}

module _ (files : Text → Option Text) where
  read_from-first :
      (n i k : ℕ)
      → i ≤ k
      → k < i + n
      → has_supply files k ≡ true
      → ((j : ℕ) → i ≤ j → j < k → has_supply files j ≡ false)
      → read_from files n i ≡ read_supply files (supply_name files k)
  unfolding read_from
  read_from-first zero i k l h e none_before = absurd (omega arith)
  read_from-first (suc n) i k l h e none_before = elim (Bool-cases (i == k)) [
    | inl x ↦ rw ((==_iff i k).0 x, e) refl
    | inr x ↦
        let below : i < k = ground arith in
        rw (none_before i (omega arith) below) (
          read_from-first n (suc i) k below (omega arith) e
            (λ j a b. none_before j (omega arith) b))
  ]

  -- The battery that is read is the one of the lowest number below 10.
  pub read-first :
      (i : ℕ)
      → i < 10
      → has_supply files i ≡ true
      → ((j : ℕ) → j < i → has_supply files j ≡ false)
      → read files ≡ read_supply files (supply_name files i)
  unfolding read
  read-first i h e none_before =
      read_from-first 10 0 i (omega arith) (omega arith) e (λ j a b. none_before j b)

abbrev pub is_discharging : Status → Bool
is_discharging discharging = true
is_discharging _ = false

abbrev pub is_charging : Status → Bool
is_charging charging = true
is_charging _ = false

module _ (remaining total rate : ℕ) (p : 0 < rate) (q : 0 < remaining) (l : remaining < total)
    (h : total * 60 < 2 ^ 63) (b : total * 60 / rate < 2 ^ 31) where
  -- The readings of the three files.
  abbrev pub readings : Reading
  readings = record { remaining = pos remaining; total = pos total; rate = pos rate }

  minutes-exact : (n : ℕ) → n ≤ total → minutes (pos n) (pos rate) ≡ pos (n * 60 / rate)
  unfolding minutes to_int64
  minutes-exact n k =
      let product : pos n *ℤ pos 60 ≡ pos (n * 60) = ground arith in
      let most : total * 60 < 2 ^ 31 * rate = (div-lt_iff_lt-mul p).0 b in
      let small : n * 60 / rate < 2 ^ 31 = (div-lt_iff_lt-mul p).1 (omega arith) in
      rw (product, wrap_signed_id int64_half (pos (n * 60)) (omega arith, omega arith))
        (to_int_id (pos (n * 60 / rate)) (small, omega arith))

  to_empty-readings :
      (s : Status)
      → to_empty s (some readings)
        ≡ (if is_discharging s then some (pos (remaining * 60 / rate)) else none)
  unfolding to_empty
  to_empty-readings discharging = ground (arith, minutes-exact remaining (omega arith))
  to_empty-readings charging = refl
  to_empty-readings full = refl
  to_empty-readings unknown = refl
  to_empty-readings not_charging = refl
  to_empty-readings absent = refl

  to_full-readings :
      (s : Status)
      → to_full s (some readings)
        ≡ (if is_charging s then some (pos ((total - remaining) * 60 / rate)) else none)
  unfolding to_full to_int64
  to_full-readings charging =
      let missing : pos total -ℤ pos remaining ≡ pos (total - remaining) = ground arith in
      let same : to_int64 (pos total -ℤ pos remaining) ≡ pos (total - remaining) =
        rw missing
          (wrap_signed_id int64_half (pos (total - remaining)) (omega arith, omega arith)) in
      ground (arith, same, minutes-exact (total - remaining) (omega arith))
  to_full-readings discharging = refl
  to_full-readings full = refl
  to_full-readings unknown = refl
  to_full-readings not_charging = refl
  to_full-readings absent = refl

  -- Where the charge, the full charge and the rate of a supply can be read, are positive, the
  -- charge is below the full one, and the products and the quotients are in the range of
  -- `int64_t` and `int`: the time to empty is there exactly when the battery discharges, the time
  -- to full exactly when it charges, and it is the whole number of minutes that the charge, or
  -- what is missing of it, takes at the rate.
  pub read_supply-estimate :
      (files : Text → Option Text) (name : Text)
      → read_reading files (codes "/sys/class/power_supply/" ++ name) ≡ some readings
      → ((read_supply files name).time_to_empty_min ≡ (
          if is_discharging (read_supply files name).status
          then some (pos (remaining * 60 / rate))
          else none))
        × ((read_supply files name).time_to_full_min ≡ (
            if is_charging (read_supply files name).status
            then some (pos ((total - remaining) * 60 / rate))
            else none))
  unfolding read_supply
  read_supply-estimate files name e = (rw e (to_empty-readings _), rw e (to_full-readings _))
