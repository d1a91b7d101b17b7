-- ===== src/Payroll/Tests.antt =====
-- The payroll of a small staff (RichdaleAccounting/nexus-core/src/accounting/payroll.rs).
use rich_aim_acct_inv.Prelude.{
  ℕ, ◌≡◌, ◌+◌, ◌*◌, ◌↔◌, refl, some, none, List, [], ◌∷◌, All, arith, ok,
}
use rich_aim_acct_inv.Prelude.Int.{pos, negsuc, ◌+ℤ◌, ◌-ℤ◌}
use rich_aim_acct_inv.Prelude.OrdMap.{get?, values}
use rich_aim_acct_inv.Money.Fixed.{
  Fixed, units, scaled, literal_units, fixed_decimal, fixed_rates, fixed_division,
}
use rich_aim_acct_inv.Ledger.{Outside}
use rich_aim_acct_inv.Payroll.{
  Employee, EmploymentStatus, EmploymentType, PayFrequency, FilingStatus, PayPeriod,
  PayPeriodStatus, PayrollCalculation, PayrollProcessor, TimeEntry, calculate_payroll,
  process_payroll, pay_slip, active_employees, generate_payroll_transactions, list_employees,
}
use rich_aim_acct_inv.Payroll.Slips.{AddsUp, calculate_payroll-AddsUp}
use rich_aim_acct_inv.Payroll.Balanced.{Balances, NoneNegative, generate_payroll_transactions_iff}
use rich_aim_acct_inv.Payroll.Processing.{Found, SlipsOf, OnlyProcessed, process_payroll_succeeds}

abbrev outside : Outside
outside = record { now = 9; fresh = λ i. 50 + i; date_naive = λ t. t }

abbrev whole : ℕ → Fixed
whole n = units (pos (n * 10000))

-- Paid 20 an hour, with two federal allowances.
abbrev clerk : Employee Fixed
clerk = record {
  id = 3;
  number = "E-3";
  first_name = "Ada";
  last_name = "Clerk";
  email = "";
  hire_date = 1;
  termination_date = none;
  status = EmploymentStatus.active;
  employment_type = EmploymentType.full_time;
  pay_rate = whole 20;
  pay_frequency = PayFrequency.bi_weekly;
  currency = "USD";
  tax_info = record {
    ssn = "";
    federal_filing_status = FilingStatus.single;
    federal_allowances = 2;
    state_filing_status = FilingStatus.single;
    state_allowances = 0;
    local_filing_status = FilingStatus.single;
    local_allowances = 0;
    exemptions = [];
  };
  direct_deposit = none;
  pre_tax_deductions = [];
  ytd_gross = whole 0;
  ytd_federal_tax = whole 0;
  ytd_ss_wages = whole 0;
  ytd_ss_tax = whole 0;
  ytd_medicare_wages = whole 0;
  ytd_medicare_tax = whole 0;
  ytd_retirement = whole 0;
  created_at = 1;
  updated_at = 1;
}

abbrev fortnight : PayPeriod
fortnight = record {
  id = 8;
  start_date = 10;
  end_date = 24;
  pay_date = 29;
  period_number = 1;
  year = pos 2024;
  status = PayPeriodStatus.open_period;
}

abbrev worked : ℕ → TimeEntry Fixed
worked hours = record {
  id = 5;
  employee_id = 3;
  date = 12;
  hours = whole hours;
  regular_hours = whole hours;
  overtime_hours = whole 0;
  pay_rate_override = none;
  notes = "";
}

abbrev office : ℕ → PayrollProcessor Fixed
office hours = record {
  employees = (3, clerk) ∷ [];
  pay_periods = (8, fortnight) ∷ [];
  time_entries = (5, worked hours) ∷ [];
  current_pay_period = some fortnight;
  ledger = none;
}

abbrev slip : ℕ → PayrollCalculation Fixed
slip hours = pay_slip clerk 3 8 (whole hours, whole 0)

net_for_40 : (slip 40).net_pay ≡ units (pos 5608000)
unfolding pay_slip scaled literal_units ◌+ℤ◌ ◌-ℤ◌
net_for_40 = refl

-- Five hours are worth less than the allowances: a negative tax is withheld.
federal_for_5 : (slip 5).federal_tax ≡ units (negsuc 149999)
unfolding pay_slip scaled literal_units ◌+ℤ◌ ◌-ℤ◌
federal_for_5 = refl

made_40 : calculate_payroll 3 8 (office 40) ≡ ok (slip 40)
unfolding calculate_payroll get? ◌+ℤ◌
made_40 = refl

made_5 : calculate_payroll 3 8 (office 5) ≡ ok (slip 5)
unfolding calculate_payroll get? ◌+ℤ◌
made_5 = refl

calculate_payroll-AddsUp_example : AddsUp (slip 40)
calculate_payroll-AddsUp_example = calculate_payroll-AddsUp 3 8 (office 40) (slip 40) made_40

-- The slip for five hours, whose federal tax is negative: its transaction does not balance.
generate_payroll_transactions_iff_example :
    All Balances
      (generate_payroll_transactions (λ id. "") outside 8 (slip 5 ∷ slip 40 ∷ []) (office 5))
    ↔ All NoneNegative (slip 5 ∷ slip 40 ∷ [])
generate_payroll_transactions_iff_example =
    generate_payroll_transactions_iff (λ id. "") outside 8 (slip 5 ∷ slip 40 ∷ []) (office 5)
      (
        calculate_payroll-AddsUp 3 8 (office 5) (slip 5) made_5,
        (calculate_payroll-AddsUp 3 8 (office 40) (slip 40) made_40, tt),
      )

clerk-Found : All (Found (office 40)) (values (office 40).employees)
unfolding get?
clerk-Found = (λ h. ground arith, tt)

fortnight_stored : get? 8 (office 40).pay_periods ≡ some fortnight
unfolding get?
fortnight_stored = refl

process_payroll_succeeds_example :
    (cs : List (PayrollCalculation Fixed)) × (p' : PayrollProcessor Fixed) × (process_payroll 8
        (office 40)
      ≡ (ok cs, p'))
    × SlipsOf 8 (values (office 40).employees) cs
    × OnlyProcessed 8 fortnight (office 40) p'
process_payroll_succeeds_example =
    process_payroll_succeeds 8 (office 40) fortnight clerk-Found fortnight_stored

no_period : get? 9 (office 40).pay_periods ≡ none
unfolding get?
no_period = refl

clerk_active : active_employees (office 40) ≡ clerk ∷ []
unfolding list_employees
clerk_active = refl
