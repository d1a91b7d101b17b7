-- ===== src/Money.antt =====
-- `rust_decimal::Decimal`, which the program takes from a library: its values, the operations that
-- the program calls, and the documented behaviour that the proofs rest on.
pub mod Fixed
use rich_aim_acct_inv.Prelude.{◌+◌, ◌≡◌, refl, Bool, true, false, List, [], ◌∷◌, arith, ℕ}
use rich_aim_acct_inv.Prelude.Int.{
  ℤ, pos, negsuc, pos_part, neg_part, ◌+ℤ◌, ◌-ℤ◌, ◌*ℤ◌, leb_ℤ, ltb_ℤ, eqb_ℤ, ◌≤ℤ◌, ◌<ℤ◌, +ℤ_parts,
  -ℤ_parts, int_laws,
}

-- `value` is the number that a decimal denotes, in units of 10^-28 (the finest scale there is).
-- Sums and differences are exact as long as they fit the 96 bits of a decimal.
pub record Decimal (M : Type 0) : Type 0 where
  pub value : M → ℤ
  pub dec_0 : M
  pub dec_1 : M
  pub dec_neg_1 : M
  pub add : M → M → M
  pub sub : M → M → M
  pub mul : M → M → M
  pub value-dec_0 : value dec_0 ≡ pos 0
  pub value-add : (a b : M) → value (add a b) ≡ value a +ℤ value b
  pub value-sub : (a b : M) → value (sub a b) ≡ value a -ℤ value b
  pub value-mul_1 : (a : M) → value (mul dec_1 a) ≡ value a
  pub value-mul_neg_1 : (a : M) → value (mul dec_neg_1 a) ≡ pos 0 -ℤ value a

-- What else the program uses of decimals: quotients, which are rounded and so without a law, whole
-- numbers, absolute values and negation.
pub record Division (M : Type 0) ⦃d : Decimal M⦄ : Type 0 where
  pub div : M → M → M
  pub from : ℕ → M
  pub abs : M → M
  pub neg : M → M
  pub value-abs_neg : (a : M) → d.value a <ℤ pos 0 → d.value (abs a) ≡ pos 0 -ℤ d.value a
  pub value-neg : (a : M) → d.value (neg a) ≡ pos 0 -ℤ d.value a

-- Products by a rate. A product is rounded to 28 digits; rounding keeps zero and the order of
-- products by a rate that is not negative. `literal n s` is the constant n * 10^-s.
pub record Rates (M : Type 0) ⦃d : Decimal M⦄ : Type 0 where
  pub literal : ℕ → ℕ → M
  pub literal_nonneg : (n s : ℕ) → pos 0 ≤ℤ d.value (literal n s)
  pub value-mul_zero : (a r : M) → d.value a ≡ pos 0 → d.value (d.mul a r) ≡ pos 0
  pub mul_mono :
      (a b r : M)
      → d.value a ≤ℤ d.value b
      → pos 0 ≤ℤ d.value r
      → d.value (d.mul a r) ≤ℤ d.value (d.mul b r)

module _ {M : Type 0} ⦃d : Decimal M⦄ where
  open d use {value, add, sub, mul, dec_0, dec_1, dec_neg_1}

  -- Comparison is of the numbers denoted: 1.0 == 1.00.
  abbrev pub dec_le : M → M → Bool
  dec_le a b = leb_ℤ (value a) (value b)

  abbrev pub dec_lt : M → M → Bool
  dec_lt a b = ltb_ℤ (value a) (value b)

  abbrev pub dec_eq : M → M → Bool
  dec_eq a b = eqb_ℤ (value a) (value b)

  sum_from : M → List M → M
  sum_from acc [] = acc
  sum_from acc (a ∷ rest) = sum_from (add acc a) rest

  -- `iter().sum()`
  unfoldable pub sum : List M → M
  unfolding sum_from
  sum = sum_from dec_0

  -- The number that a sum denotes.
  abbrev pub total : List M → ℤ
  total [] = pos 0
  total (a ∷ rest) = value a +ℤ total rest

  pub add_parts :
      (a b : M)
      → pos_part (value (add a b)) + neg_part (value a) + neg_part (value b)
        ≡ neg_part (value (add a b)) + pos_part (value a) + pos_part (value b)
  add_parts a b = rw (d.value-add a b) (+ℤ_parts (value a) (value b))

  pub sub_parts :
      (a b : M)
      → pos_part (value (sub a b)) + neg_part (value a) + pos_part (value b)
        ≡ neg_part (value (sub a b)) + pos_part (value a) + neg_part (value b)
  sub_parts a b = rw (d.value-sub a b) (-ℤ_parts (value a) (value b))

pub zero_parts :
    {M : Type 0} (d : Decimal M) → pos_part (d.value d.dec_0) + neg_part (d.value d.dec_0) ≡ 0
zero_parts d = rw d.value-dec_0 (omega arith)

module _ {M : Type 0} ⦃d : Decimal M⦄ where
  open d use {value, dec_0}

  value-sum_from : (acc : M) (as' : List M) → value (sum_from acc as') ≡ value acc +ℤ total as'
  unfolding sum_from
  value-sum_from acc [] = omega int_laws
  value-sum_from acc (a ∷ rest) =
      rw (value-sum_from (d.add acc a) rest) (omega (int_laws, add_parts acc a))

  pub value-sum : (as' : List M) → value (sum as') ≡ total as'
  unfolding sum
  value-sum as' = rw (value-sum_from dec_0 as') (omega (int_laws, zero_parts d))

pub one_mul : (a : ℤ) → pos 1 *ℤ a ≡ a
unfolding ◌*ℤ◌
one_mul a = ground arith

pub neg_one_mul : (a : ℤ) → negsuc 0 *ℤ a ≡ pos 0 -ℤ a
unfolding ◌*ℤ◌ ◌-ℤ◌
neg_one_mul a = ground arith

-- Integers as a decimal type, for tests.
instance abbrev pub int_decimal : Decimal ℤ
int_decimal = record {
  value = λ a. a;
  dec_0 = pos 0;
  dec_1 = pos 1;
  dec_neg_1 = negsuc 0;
  add = ◌+ℤ◌;
  sub = ◌-ℤ◌;
  mul = ◌*ℤ◌;
  value-dec_0 = refl;
  value-add = λ a b. refl;
  value-sub = λ a b. refl;
  value-mul_1 = one_mul;
  value-mul_neg_1 = neg_one_mul;
}

-- The tests as orders, for `omega`.
module _ {M : Type 0} ⦃d : Decimal M⦄ (a b : M) where
  pub dec_le-true : dec_le a b ≡ true → d.value a ≤ℤ d.value b
  dec_le-true h = ground arith

  pub dec_le-false : dec_le a b ≡ false → d.value b <ℤ d.value a
  dec_le-false h = ground arith

  pub dec_lt-true : dec_lt a b ≡ true → d.value a <ℤ d.value b
  dec_lt-true h = ground arith

  pub dec_lt-false : dec_lt a b ≡ false → d.value b ≤ℤ d.value a
  dec_lt-false h = ground arith
