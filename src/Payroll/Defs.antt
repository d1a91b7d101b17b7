-- ===== src/Payroll/Defs.antt =====
-- Employees, their time, pay periods and pay slips
-- (RichdaleAccounting/nexus-core/src/accounting/payroll.rs).
use rich_aim_acct_inv.Prelude.{ℕ, Bool, true, false, Option, none, List, [], String}
use rich_aim_acct_inv.Prelude.Int.{ℤ}
use rich_aim_acct_inv.Prelude.OrdMap.{OrdMap}
use rich_aim_acct_inv.Prelude.State.{Action}
use rich_aim_acct_inv.Financial.{Uuid, DateTime, NaiveDate}
use rich_aim_acct_inv.Ledger.{Ledger, LedgerError}

-- An id stands for the text that the message prints of it. `ledger_error` is `Other` with the text
-- of a ledger's error, and `account_refused` with the number that it prints too.
pub data PayrollError : Type 0 where
  employee_not_found invalid_pay_period : Uuid → PayrollError
  calculation_error processing_error tax_calculation_error : String → PayrollError
  database_error other : String → PayrollError
  account_refused : String → LedgerError → PayrollError

pub data EmploymentStatus : Type 0 where
  active on_leave terminated retired : EmploymentStatus

abbrev pub is_active_status : EmploymentStatus → Bool
is_active_status EmploymentStatus.active = true
is_active_status _ = false

pub data EmploymentType : Type 0 where
  full_time part_time contractor intern temporary : EmploymentType

pub data PayFrequency : Type 0 where
  weekly bi_weekly semi_monthly monthly annual : PayFrequency

pub data FilingStatus : Type 0 where
  single married_jointly married_separately head_of_household qualifying_widow : FilingStatus

pub record TaxInformation : Type 0 where
  pub ssn : String
  pub federal_filing_status : FilingStatus
  pub federal_allowances : ℕ
  pub state_filing_status : FilingStatus
  pub state_allowances : ℕ
  pub local_filing_status : FilingStatus
  pub local_allowances : ℕ
  pub exemptions : List String

pub data DeductionType : Type 0 where
  health_insurance dental_insurance vision_insurance : DeductionType
  traditional401k hsa fsa dependent_care commuter : DeductionType
  other : String → DeductionType

pub record PreTaxDeduction (M : Type 0) : Type 0 where
  pub deduction_type : DeductionType
  pub amount : M
  pub annual_limit : Option M
  pub ytd_amount : M

pub record DirectDeposit : Type 0 where
  pub bank_name : String
  pub account_number : String
  pub routing_number : String
  pub account_type : String

pub record Employee (M : Type 0) : Type 0 where
  pub id : Uuid
  pub number : String
  pub first_name : String
  pub last_name : String
  pub email : String
  pub hire_date : NaiveDate
  pub termination_date : Option NaiveDate
  pub status : EmploymentStatus
  pub employment_type : EmploymentType
  pub pay_rate : M
  pub pay_frequency : PayFrequency
  pub currency : String
  pub tax_info : TaxInformation
  pub direct_deposit : Option DirectDeposit
  pub pre_tax_deductions : List (PreTaxDeduction M)
  pub ytd_gross : M
  pub ytd_federal_tax : M
  pub ytd_ss_wages : M
  pub ytd_ss_tax : M
  pub ytd_medicare_wages : M
  pub ytd_medicare_tax : M
  pub ytd_retirement : M
  pub created_at : DateTime
  pub updated_at : DateTime

pub data PayPeriodStatus : Type 0 where
  open_period closed processed paid cancelled : PayPeriodStatus

pub record PayPeriod : Type 0 where
  pub id : Uuid
  pub start_date : NaiveDate
  pub end_date : NaiveDate
  pub pay_date : NaiveDate
  pub period_number : ℕ
  pub year : ℤ
  pub status : PayPeriodStatus

pub record TimeEntry (M : Type 0) : Type 0 where
  pub id : Uuid
  pub employee_id : Uuid
  pub date : NaiveDate
  pub hours : M
  pub regular_hours : M
  pub overtime_hours : M
  pub pay_rate_override : Option M
  pub notes : String

pub record PayrollCalculation (M : Type 0) : Type 0 where
  pub employee_id : Uuid
  pub pay_period_id : Uuid
  pub regular_pay : M
  pub overtime_pay : M
  pub gross_pay : M
  pub federal_tax : M
  pub state_tax : M
  pub local_tax : M
  pub social_security : M
  pub medicare : M
  pub retirement : M
  pub other_deductions : M
  pub total_deductions : M
  pub net_pay : M
  pub employer_contributions : M
  pub total_employer_cost : M

pub record PayrollProcessor (M : Type 0) : Type 0 where
  pub employees : OrdMap (Employee M)
  pub pay_periods : OrdMap PayPeriod
  pub time_entries : OrdMap (TimeEntry M)
  pub current_pay_period : Option PayPeriod
  pub ledger : Option (Ledger M)

abbrev pub Method : Type 0 → Type 0 → Type 0
Method M A = Action (PayrollProcessor M) PayrollError A

-- `PayrollProcessor::new`
abbrev pub new_processor : {M : Type 0} → PayrollProcessor M
new_processor = record {
  employees = [];
  pay_periods = [];
  time_entries = [];
  current_pay_period = none;
  ledger = none;
}

-- The calendar of `chrono`.
pub record Calendar : Type 0 where
  pub days_before : ℕ → NaiveDate → NaiveDate
  pub days_after : ℕ → NaiveDate → NaiveDate
  pub year_of : NaiveDate → ℤ
