-- ===== src/Payroll/Slips.antt =====
-- What a pay slip adds up to, and the bounds of what is withheld
-- (RichdaleAccounting/nexus-core/src/accounting/payroll.rs).
use mathlib.Core.Path.{subst}
use rich_aim_acct_inv.Prelude.{◌≡◌, ok, arith, Bool-cases, Option-cases, inl, inr}
use rich_aim_acct_inv.Prelude.Int.{pos, ◌+ℤ◌, ◌≤ℤ◌, int_laws, parts_of}
use rich_aim_acct_inv.Prelude.OrdMap.{get?}
use rich_aim_acct_inv.Money.{
  Decimal, Division, Rates, add_parts, sub_parts, zero_parts, dec_le, dec_le-true,
}
use rich_aim_acct_inv.Financial.{Uuid}
use rich_aim_acct_inv.Payroll.{
  Employee, PayrollCalculation, PayrollProcessor, get_employee, get_time_entries, hours_from,
  pay_slip, calculate_payroll, calculate_social_security, wage_base_limit, social_security_rate,
}

module _ {M : Type 0} ⦃d : Decimal M⦄ where
  open d use {value, mul, dec_0}

  -- The gross pay is what is paid out and what is withheld, and the total cost is the gross pay and
  -- what the employer adds: social security, medicare and retirement once more.
  pub record AddsUp (c : PayrollCalculation M) : Type 0 where
    pub parts_of_gross : value c.gross_pay ≡ value c.regular_pay +ℤ value c.overtime_pay
    pub uses_of_gross :
        value c.gross_pay
        ≡ value c.net_pay
          +ℤ (value c.federal_tax
              +ℤ (value c.state_tax
                  +ℤ (value c.local_tax
                      +ℤ (value c.social_security +ℤ (value c.medicare +ℤ value c.retirement)))))
    pub cost :
        value c.total_employer_cost
        ≡ value c.gross_pay +ℤ (value c.social_security +ℤ (value c.medicare +ℤ value c.retirement))

  withheld_adds_up :
      (g f s l t m r : M)
      → let withheld : M = d.add (d.add (d.add (d.add (d.add f s) l) t) m) r in
        value g
        ≡ value (d.sub g withheld)
          +ℤ (value f +ℤ (value s +ℤ (value l +ℤ (value t +ℤ (value m +ℤ value r)))))
  withheld_adds_up g f s l t m r = omega (
    int_laws,
    sub_parts g (d.add (d.add (d.add (d.add (d.add f s) l) t) m) r),
    add_parts (d.add (d.add (d.add (d.add f s) l) t) m) r,
    add_parts (d.add (d.add (d.add f s) l) t) m,
    add_parts (d.add (d.add f s) l) t,
    add_parts (d.add f s) l,
    add_parts f s,
  )

  cost_adds_up :
      (g t m r : M)
      → value (d.add g (d.add (d.add t m) r)) ≡ value g +ℤ (value t +ℤ (value m +ℤ value r))
  cost_adds_up g t m r =
      omega (int_laws, add_parts g (d.add (d.add t m) r), add_parts (d.add t m) r, add_parts t m)

  module _ ⦃q : Division M⦄ ⦃r : Rates M⦄ where
    pay_slip-AddsUp : (e : Employee M) (i j : Uuid) (h : M × M) → AddsUp (pay_slip e i j h)
    unfolding pay_slip
    pay_slip-AddsUp e i j (regular, overtime) = record {
      parts_of_gross = d.value-add _ _;
      uses_of_gross = withheld_adds_up _ _ _ _ _ _ _;
      cost = cost_adds_up _ _ _ _;
    }

    -- Whenever a pay slip is calculated, its gross pay is its regular and its overtime pay, and is
    -- also the net pay and the six amounts withheld; and the total employer cost is the gross pay
    -- with the social security, the medicare and the retirement amounts once more.
    pub calculate_payroll-AddsUp :
        (employee_id pay_period_id : Uuid) (p : PayrollProcessor M) (c : PayrollCalculation M)
        → calculate_payroll employee_id pay_period_id p ≡ ok c
        → AddsUp c
    unfolding calculate_payroll
    calculate_payroll-AddsUp i j p c h = elim (Option-cases (get_employee i p)) [
      | inl missing ↦ let no_slip : ⊥ = ground arith in absurd no_slip
      | inr (e, there) ↦ elim (Option-cases (get? j p.pay_periods)) [
        | inl missing ↦ let no_slip : ⊥ = ground arith in absurd no_slip
        | inr (period, found) ↦
            let made : pay_slip e i j
                  (hours_from dec_0 dec_0 (get_time_entries i period.start_date period.end_date p))
                ≡ c =
              ground arith in
            subst AddsUp made (pay_slip-AddsUp e i j _)
      ]
    ]

    -- The social security tax on a gross pay that is not negative is not negative, and is at most
    -- the tax on the wage base limit.
    calculate_social_security_bounds :
        (gross_pay : M)
        → pos 0 ≤ℤ value gross_pay
        → (pos 0 ≤ℤ value (calculate_social_security gross_pay))
          × (value (calculate_social_security gross_pay)
              ≤ℤ value (mul wage_base_limit social_security_rate))
    unfolding calculate_social_security
    calculate_social_security_bounds g h =
        let rate : pos 0 ≤ℤ value social_security_rate = r.literal_nonneg 62 3 in
        let none_of : value (mul dec_0 social_security_rate) ≡ pos 0 =
          r.value-mul_zero dec_0 social_security_rate d.value-dec_0 in
        elim (Bool-cases (dec_le g wage_base_limit)) [
          | inl below ↦
              rw (below, calculate_social_security)
                (
                  omega (
                    arith,
                    parts_of none_of,
                    r.mul_mono dec_0 g social_security_rate (omega (arith, zero_parts d)) rate,
                  ),
                  r.mul_mono g wage_base_limit social_security_rate
                      (dec_le-true g wage_base_limit below) rate,
                )
          | inr above ↦
              rw (above, calculate_social_security)
                (
                  omega (
                    arith,
                    parts_of none_of,
                    r.mul_mono dec_0 wage_base_limit social_security_rate
                        (omega (arith, zero_parts d, r.literal_nonneg 160200 0)) rate,
                  ),
                  omega arith,
                )
        ]
