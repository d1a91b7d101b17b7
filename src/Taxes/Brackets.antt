-- ===== src/Taxes/Brackets.antt =====
-- The progressive tax against the sum over its brackets
-- (RichdaleAccounting/nexus-core/src/accounting/tax.rs).
use rich_aim_acct_inv.Prelude.{
  ◌≡◌, ◌∙◌, true, false, Option, none, some, List, [], ◌∷◌, All, map, arith, Bool-cases, inl, inr,
  if◌then◌else◌, ap, Option-cases, refl, sym,
}
use rich_aim_acct_inv.Prelude.Int.{pos, ◌+ℤ◌, ◌≤ℤ◌, ◌<ℤ◌, int_laws, parts_of}
use rich_aim_acct_inv.Money.{Decimal, Rates, dec_le, dec_lt, total, sub_parts, zero_parts}
use rich_aim_acct_inv.Taxes.{TaxBracket, bracket_income, tax_from, calculate_progressive_tax}

module _ {M : Type 0} ⦃d : Decimal M⦄ where
  open d use {value, sub, mul, dec_0}

  abbrev pub min_with : Option M → M → M
  min_with none amount = amount
  min_with (some upper) amount = if dec_lt upper amount then upper else amount

  abbrev pub max : M → M → M
  max a b = if dec_lt a b then b else a

  -- An amount, cut off at the bounds of a bracket.
  abbrev pub within : M → Option M → M → M
  within low up amount = max low (min_with up amount)

  -- How much of an amount lies between the bounds of a bracket.
  abbrev pub share : M → TaxBracket M → M
  share amount b = sub (within b.lower_bound b.upper_bound amount) b.lower_bound

  abbrev pub bracket_tax : M → TaxBracket M → M
  bracket_tax amount b = mul (share amount b) b.rate

  abbrev pub Above : M → Option M → Type 0
  Above low none = Unit
  Above low (some upper) = value low <ℤ value upper

  -- The lower bound of a bracket is below the upper one, and its rate is not negative.
  pub record InOrder (b : TaxBracket M) : Type 0 where
    pub bounds : Above b.lower_bound b.upper_bound
    pub rate_nonneg : pos 0 ≤ℤ value b.rate

  within_below :
      (low : M) (up : Option M) (amount : M) → dec_le amount low ≡ true → within low up amount ≡ low
  within_below low none amount h = ground arith
  within_below low (some upper) amount h = ground arith

  within-Above :
      (low : M) (up : Option M) (amount : M)
      → Above low up
      → dec_le amount low ≡ false
      → within low up amount ≡ min_with up amount
  within-Above low none amount v h = ground arith
  within-Above low (some upper) amount v h = ground arith

  value-within_mono :
      (low : M) (up : Option M) (a a' : M)
      → value a ≤ℤ value a'
      → value (within low up a) ≤ℤ value (within low up a')
  value-within_mono low none a a' h = ground arith
  value-within_mono low (some upper) a a' h = ground arith

  bracket_income_lem :
      (b : TaxBracket M) (amount : M)
      → bracket_income b amount ≡ sub (min_with b.upper_bound amount) b.lower_bound
  bracket_income_lem b amount = elim (Option-cases b.upper_bound) [
    | inl e ↦ rw e refl
    | inr (upper, e) ↦ elim (Bool-cases (dec_lt upper amount)) [
      | inl over ↦ rw (e, over) refl
      | inr under ↦ rw (e, under) refl
    ]
  ]

  module _ ⦃r : Rates M⦄ where
    -- What one round of the loop adds.
    value-step :
        (acc amount : M) (b : TaxBracket M)
        → InOrder b
        → value (
            if dec_le amount b.lower_bound
            then acc
            else d.add acc (mul (bracket_income b amount) b.rate))
          ≡ value acc +ℤ value (bracket_tax amount b)
    value-step acc amount b v = elim (Bool-cases (dec_le amount b.lower_bound)) [
      | inl out ↦
          let none_in : value (share amount b) ≡ pos 0 =
            ap (λ w. value (sub w b.lower_bound))
              (within_below b.lower_bound b.upper_bound amount out)
            ∙ d.value-sub _ _
            ∙ omega int_laws in
          rw out (omega (int_laws, parts_of (r.value-mul_zero (share amount b) b.rate none_in)))
      | inr into ↦
          rw (into, bracket_income_lem b amount)
            (d.value-add _ _
              ∙ ap (λ w. value acc +ℤ value (mul (sub w b.lower_bound) b.rate))
                  (sym (within-Above b.lower_bound b.upper_bound amount v.bounds into)))
    ]

    value-tax_from :
        (bs : List (TaxBracket M)) (acc amount : M)
        → All InOrder bs
        → value (tax_from acc bs amount) ≡ value acc +ℤ total (map (bracket_tax amount) bs)
    unfolding tax_from
    value-tax_from [] acc amount v = omega int_laws
    value-tax_from (b ∷ bs) acc amount v =
        value-tax_from bs _ amount v.1
        ∙ ap (λ z. z +ℤ total (map (bracket_tax amount) bs)) (value-step acc amount b v.0)
        ∙ omega int_laws

    -- If each bracket's lower bound is below its upper one and no rate is negative, the progressive
    -- tax on an amount is the sum over the brackets of the rate times the part of the amount that
    -- lies between the bracket's bounds.
    pub calculate_progressive_tax_lem :
        (bs : List (TaxBracket M)) (amount : M)
        → All InOrder bs
        → value (calculate_progressive_tax bs amount) ≡ total (map (bracket_tax amount) bs)
    unfolding calculate_progressive_tax
    calculate_progressive_tax_lem bs amount v =
        value-tax_from bs dec_0 amount v ∙ omega (int_laws, zero_parts d)

    total-bracket_tax_mono :
        (bs : List (TaxBracket M)) (a a' : M)
        → All InOrder bs
        → value a ≤ℤ value a'
        → total (map (bracket_tax a) bs) ≤ℤ total (map (bracket_tax a') bs)
    total-bracket_tax_mono [] a a' v h = omega arith
    total-bracket_tax_mono (b ∷ bs) a a' v h =
        let more : value (share a b) ≤ℤ value (share a' b) = omega (
          arith,
          value-within_mono b.lower_bound b.upper_bound a a' h,
          sub_parts (within b.lower_bound b.upper_bound a) b.lower_bound,
          sub_parts (within b.lower_bound b.upper_bound a') b.lower_bound,
        ) in
        omega (
          int_laws,
          total-bracket_tax_mono bs a a' v.1 h,
          r.mul_mono (share a b) (share a' b) b.rate more v.0.rate_nonneg,
        )

    -- If each bracket's lower bound is below its upper one and no rate is negative, a larger amount
    -- is never taxed less.
    calculate_progressive_tax_mono :
        (bs : List (TaxBracket M)) (a a' : M)
        → All InOrder bs
        → value a ≤ℤ value a'
        → value (calculate_progressive_tax bs a) ≤ℤ value (calculate_progressive_tax bs a')
    calculate_progressive_tax_mono bs a a' v h = omega (
      arith,
      total-bracket_tax_mono bs a a' v h,
      parts_of (calculate_progressive_tax_lem bs a v),
      parts_of (calculate_progressive_tax_lem bs a' v),
    )
