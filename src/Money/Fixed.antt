-- ===== src/Money/Fixed.antt =====
-- Decimals with four digits after the point, for tests: products are cut off.
use rich_aim_acct_inv.Prelude.{ℕ, zero, suc, ◌+◌, ◌*◌, ◌/◌, ◌≡◌, ◌≤◌, refl, arith}
use rich_aim_acct_inv.Prelude.Int.{ℤ, pos, negsuc, pos_part, neg_part, ◌+ℤ◌, ◌-ℤ◌, ◌≤ℤ◌, ◌<ℤ◌}
use rich_aim_acct_inv.Money.{Decimal, Division, Rates}

pub data Fixed : Type 0 where
  units : ℤ → Fixed

abbrev pub units_of : Fixed → ℤ
units_of (units z) = z

minus : ℕ → ℤ
minus zero = pos 0
minus (suc n) = negsuc n

share : ℕ → ℕ → ℕ
share m n = m * n / 10000

unfoldable pub scaled : ℤ → ℤ → ℤ
unfolding minus share
scaled (pos m) (pos n) = pos (share m n)
scaled (pos m) (negsuc n) = minus (share m (suc n))
scaled (negsuc m) (pos n) = minus (share (suc m) n)
scaled (negsuc m) (negsuc n) = pos (share (suc m) (suc n))

share_one : (n : ℕ) → share 10000 n ≡ n
unfolding share
share_one n = omega arith

share_zero : (n : ℕ) → share 0 n ≡ 0
unfolding share
share_zero n = omega arith

share_mono : (m m' n : ℕ) → m ≤ m' → share m n ≤ share m' n
unfolding share
share_mono m m' n h = let more : m * n ≤ m' * n = grind arith in omega (arith, more)

minus_parts : (n : ℕ) → (pos_part (minus n) ≡ 0) × (neg_part (minus n) ≡ n)
unfolding minus
minus_parts zero = (refl, refl)
minus_parts (suc n) = (refl, refl)

pub one_scaled : (a : ℤ) → scaled (pos 10000) a ≡ a
unfolding scaled minus
one_scaled (pos n) = rw (share_one n) refl
one_scaled (negsuc n) = rw (share_one (suc n)) refl

pub neg_one_scaled : (a : ℤ) → scaled (negsuc 9999) a ≡ pos 0 -ℤ a
unfolding scaled ◌-ℤ◌ minus
neg_one_scaled (pos zero) = ground (arith, share_one 0)
neg_one_scaled (pos (suc n)) = ground (arith, share_one (suc n))
neg_one_scaled (negsuc n) = ground (arith, share_one (suc n))

pub zero_scaled : (a r : ℤ) → a ≡ pos 0 → scaled a r ≡ pos 0
unfolding scaled minus
zero_scaled a (pos n) h = rw (h, share_zero n) refl
zero_scaled a (negsuc n) h = rw (h, share_zero (suc n)) refl

pub scaled_mono : (a b r : ℤ) → a ≤ℤ b → pos 0 ≤ℤ r → scaled a r ≤ℤ scaled b r
unfolding scaled share
scaled_mono a b (negsuc r) h p = absurd (omega arith)
scaled_mono (pos m) (pos n) (pos r) h p = omega (arith, share_mono m n r (omega arith))
scaled_mono (pos m) (negsuc n) (pos r) h p = absurd (omega arith)
scaled_mono (negsuc m) (pos n) (pos r) h p = omega (arith, minus_parts (share (suc m) r))
scaled_mono (negsuc m) (negsuc n) (pos r) h p = omega (
  arith,
  minus_parts (share (suc m) r),
  minus_parts (share (suc n) r),
  share_mono (suc n) (suc m) r (omega arith),
)

-- n * 10^-s, cut off after four digits.
unfoldable pub literal_units : ℕ → ℕ → ℕ
literal_units n zero = n * 10000
literal_units n (suc s) = literal_units n s / 10

pub abs_neg :
    (a : Fixed)
    → units_of a <ℤ pos 0
    → pos (pos_part (units_of a) + neg_part (units_of a)) ≡ pos 0 -ℤ units_of a
unfolding ◌-ℤ◌
abs_neg a h = ground arith

instance abbrev pub fixed_decimal : Decimal Fixed
fixed_decimal = record {
  value = units_of;
  dec_0 = units (pos 0);
  dec_1 = units (pos 10000);
  dec_neg_1 = units (negsuc 9999);
  add = λ a b. units (units_of a +ℤ units_of b);
  sub = λ a b. units (units_of a -ℤ units_of b);
  mul = λ a b. units (scaled (units_of a) (units_of b));
  value-dec_0 = refl;
  value-add = λ a b. refl;
  value-sub = λ a b. refl;
  value-mul_1 = λ a. one_scaled (units_of a);
  value-mul_neg_1 = λ a. neg_one_scaled (units_of a);
}

instance abbrev pub fixed_division : Division Fixed
fixed_division = record {
  div = λ a b. units (pos (pos_part (units_of a) * 10000 / pos_part (units_of b)));
  from = λ n. units (pos (n * 10000));
  abs = λ a. units (pos (pos_part (units_of a) + neg_part (units_of a)));
  neg = λ a. units (pos 0 -ℤ units_of a);
  value-abs_neg = abs_neg;
  value-neg = λ a. refl;
}

instance abbrev pub fixed_rates : Rates Fixed
fixed_rates = record {
  literal = λ n s. units (pos (literal_units n s));
  literal_nonneg = λ n s. omega arith;
  value-mul_zero = λ a r h. zero_scaled (units_of a) (units_of r) h;
  mul_mono = λ a b r h p. scaled_mono (units_of a) (units_of b) (units_of r) h p;
}
