-- ===== src/Payroll/Pay.antt =====
-- What an employee is paid and what is withheld
-- (RichdaleAccounting/nexus-core/src/accounting/payroll.rs).
use rich_aim_acct_inv.Prelude.{if◌then◌else◌, none, some, List, [], ◌∷◌, Result, ok, err, filter}
use rich_aim_acct_inv.Prelude.OrdMap.{get?, modify}
use rich_aim_acct_inv.Money.{Decimal, Division, Rates, dec_le, dec_lt}
use rich_aim_acct_inv.Financial.{Uuid}
use rich_aim_acct_inv.Payroll.Defs.{
  Employee, FilingStatus, PayPeriod, PayPeriodStatus, PayrollCalculation, PayrollError,
  PayrollProcessor, TimeEntry, Method, is_active_status,
}
use rich_aim_acct_inv.Payroll.Staff.{get_employee, list_employees, get_time_entries}

abbrev pub as_processed : PayPeriod → PayPeriod
as_processed period = record period { status = PayPeriodStatus.processed }

module _ {M : Type 0} ⦃d : Decimal M⦄ where
  open d use {dec_0, add, sub, mul}

  -- The loop over the time entries: regular and overtime hours.
  unfoldable pub hours_from : M → M → List (TimeEntry M) → M × M
  hours_from regular overtime [] = (regular, overtime)
  hours_from regular overtime (t ∷ ts) =
      hours_from (add regular t.regular_hours) (add overtime t.overtime_hours) ts

  module _ ⦃q : Division M⦄ ⦃r : Rates M⦄ where
    open q use {from}
    open r use {literal}

    abbrev pub federal_rate : FilingStatus → M
    federal_rate FilingStatus.single = literal 15 2
    federal_rate FilingStatus.married_jointly = literal 12 2
    federal_rate FilingStatus.married_separately = literal 15 2
    federal_rate FilingStatus.head_of_household = literal 13 2
    federal_rate FilingStatus.qualifying_widow = literal 12 2

    unfoldable pub calculate_federal_tax : Employee M → M → M
    calculate_federal_tax e gross_pay =
        mul (sub gross_pay (mul (literal 100 0) (from e.tax_info.federal_allowances)))
          (federal_rate e.tax_info.federal_filing_status)

    abbrev pub state_rate : FilingStatus → M
    state_rate FilingStatus.single = literal 5 2
    state_rate FilingStatus.married_jointly = literal 4 2
    state_rate FilingStatus.married_separately = literal 5 2
    state_rate FilingStatus.head_of_household = literal 45 3
    state_rate FilingStatus.qualifying_widow = literal 4 2

    unfoldable pub calculate_state_tax : Employee M → M → M
    calculate_state_tax e gross_pay =
        mul (sub gross_pay (mul (literal 50 0) (from e.tax_info.state_allowances)))
          (state_rate e.tax_info.state_filing_status)

    abbrev pub local_rate : FilingStatus → M
    local_rate FilingStatus.single = literal 1 2
    local_rate FilingStatus.married_jointly = literal 8 3
    local_rate FilingStatus.married_separately = literal 1 2
    local_rate FilingStatus.head_of_household = literal 9 3
    local_rate FilingStatus.qualifying_widow = literal 8 3

    unfoldable pub calculate_local_tax : Employee M → M → M
    calculate_local_tax e gross_pay = mul gross_pay (local_rate e.tax_info.local_filing_status)

    abbrev pub wage_base_limit : M
    wage_base_limit = literal 160200 0

    abbrev pub social_security_rate : M
    social_security_rate = literal 62 3

    -- `gross_pay.min(WAGE_BASE_LIMIT) * RATE`
    unfoldable pub calculate_social_security : M → M
    calculate_social_security gross_pay =
        mul (if dec_le gross_pay wage_base_limit then gross_pay else wage_base_limit)
          social_security_rate

    abbrev pub additional_threshold : M
    additional_threshold = literal 200000 0

    unfoldable pub calculate_medicare : M → M
    calculate_medicare gross_pay =
        let tax : M = mul gross_pay (literal 145 4) in
        if dec_lt additional_threshold gross_pay
        then add tax (mul (sub gross_pay additional_threshold) (literal 9 3))
        else tax

    -- The pay slip for some hours.
    unfoldable pub pay_slip : Employee M → Uuid → Uuid → M × M → PayrollCalculation M
    unfolding calculate_federal_tax calculate_state_tax calculate_local_tax
        calculate_social_security calculate_medicare
    pay_slip e employee_id pay_period_id (regular_hours, overtime_hours) =
        let regular_pay : M = mul regular_hours e.pay_rate in
        let overtime_pay : M = mul overtime_hours (mul e.pay_rate (literal 15 1)) in
        let gross_pay : M = add regular_pay overtime_pay in
        let federal_tax : M = calculate_federal_tax e gross_pay in
        let state_tax : M = calculate_state_tax e gross_pay in
        let local_tax : M = calculate_local_tax e gross_pay in
        let social_security : M = calculate_social_security gross_pay in
        let medicare : M = calculate_medicare gross_pay in
        let retirement : M = mul gross_pay (literal 5 2) in
        let total_deductions : M =
          add (add (add (add (add federal_tax state_tax) local_tax) social_security) medicare)
            retirement in
        let employer_contributions : M = add (add social_security medicare) retirement in
        record {
          employee_id = employee_id;
          pay_period_id = pay_period_id;
          regular_pay = regular_pay;
          overtime_pay = overtime_pay;
          gross_pay = gross_pay;
          federal_tax = federal_tax;
          state_tax = state_tax;
          local_tax = local_tax;
          social_security = social_security;
          medicare = medicare;
          retirement = retirement;
          other_deductions = dec_0;
          total_deductions = total_deductions;
          net_pay = sub gross_pay total_deductions;
          employer_contributions = employer_contributions;
          total_employer_cost = add gross_pay employer_contributions;
        }

    unfoldable pub calculate_payroll :
        Uuid → Uuid → PayrollProcessor M → Result PayrollError (PayrollCalculation M)
    unfolding get_employee get_time_entries hours_from pay_slip
    calculate_payroll employee_id pay_period_id p = elim (get_employee employee_id p) [
      | none ↦ err (PayrollError.employee_not_found employee_id)
      | some e ↦ elim (get? pay_period_id p.pay_periods) [
        | none ↦ err (PayrollError.invalid_pay_period pay_period_id)
        | some period ↦ ok (
            pay_slip e employee_id pay_period_id (
              hours_from dec_0 dec_0
                (get_time_entries employee_id period.start_date period.end_date p)))
      ]
    ]

    -- The loop over the active employees, which stops at the first error.
    unfoldable pub calculate_all :
        Uuid
        → PayrollProcessor M
        → List (Employee M)
        → Result PayrollError (List (PayrollCalculation M))
    calculate_all pay_period_id p [] = ok []
    calculate_all pay_period_id p (e ∷ es) =
        let rest = calculate_all pay_period_id p es in
        elim (calculate_payroll e.id pay_period_id p) [
          | err x ↦ err x
          | ok c ↦ elim rest [ err x ↦ err x | ok cs ↦ ok (c ∷ cs) ]
        ]

    abbrev pub active_employees : PayrollProcessor M → List (Employee M)
    active_employees p = filter (λ e. is_active_status e.status) (list_employees p)

    unfoldable pub process_payroll : Uuid → Method M (List (PayrollCalculation M))
    unfolding list_employees
    process_payroll pay_period_id p = elim (calculate_all pay_period_id p (active_employees p)) [
      | err x ↦ (err x, p)
      | ok cs ↦ (ok cs, record p { pay_periods = modify pay_period_id as_processed p.pay_periods })
    ]
