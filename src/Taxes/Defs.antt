-- ===== src/Taxes/Defs.antt =====
-- Tax jurisdictions, filings and the tax on an amount
-- (RichdaleAccounting/nexus-core/src/accounting/tax.rs).
use rich_aim_acct_inv.Prelude.{str_eq, Bool, true, false, Option, none, List, [], String}
use rich_aim_acct_inv.Prelude.OrdMap.{OrdMap}
use rich_aim_acct_inv.Prelude.StrMap.{StrMap}
use rich_aim_acct_inv.Prelude.State.{Action}
use rich_aim_acct_inv.Financial.{Uuid, DateTime, NaiveDate}
use rich_aim_acct_inv.Ledger.{Outside}

pub data JurisdictionType : Type 0 where
  federal state local international : JurisdictionType

pub data TaxType : Type 0 where
  income sales payroll property vat gst : TaxType
  other : String → TaxType

-- The derived `PartialEq`.
abbrev pub same_type : TaxType → TaxType → Bool
same_type TaxType.income TaxType.income = true
same_type TaxType.sales TaxType.sales = true
same_type TaxType.payroll TaxType.payroll = true
same_type TaxType.property TaxType.property = true
same_type TaxType.vat TaxType.vat = true
same_type TaxType.gst TaxType.gst = true
same_type (TaxType.other s) (TaxType.other t) = str_eq s t
same_type _ _ = false

pub data FilingFrequency : Type 0 where
  annual quarterly monthly weekly bi_weekly : FilingFrequency

pub data FilingStatus : Type 0 where
  not_started in_progress ready_to_file filed paid cancelled overdue : FilingStatus

abbrev pub same_status : FilingStatus → FilingStatus → Bool
same_status FilingStatus.not_started FilingStatus.not_started = true
same_status FilingStatus.in_progress FilingStatus.in_progress = true
same_status FilingStatus.ready_to_file FilingStatus.ready_to_file = true
same_status FilingStatus.filed FilingStatus.filed = true
same_status FilingStatus.paid FilingStatus.paid = true
same_status FilingStatus.cancelled FilingStatus.cancelled = true
same_status FilingStatus.overdue FilingStatus.overdue = true
same_status _ _ = false

-- `rate_not_found` and `filing_not_found` are `Other` with a text that prints what they carry.
pub data TaxError : Type 0 where
  invalid_tax_rate calculation_error jurisdiction_not_found : String → TaxError
  invalid_tax_period filing_error database_error other : String → TaxError
  rate_not_found : TaxType → String → TaxError
  filing_not_found : Uuid → TaxError

-- `upper_bound` is `none` where the bracket is unlimited.
pub record TaxBracket (M : Type 0) : Type 0 where
  pub lower_bound : M
  pub upper_bound : Option M
  pub rate : M

pub record TaxJurisdiction (M : Type 0) : Type 0 where
  pub id : Uuid
  pub name : String
  pub code : String
  pub jurisdiction_type : JurisdictionType
  pub tax_rates : List (TaxType × M)
  pub tax_brackets : List (TaxBracket M)
  pub filing_frequency : FilingFrequency
  pub effective_date : NaiveDate
  pub expiration_date : Option NaiveDate
  pub is_active : Bool
  pub created_at : DateTime
  pub updated_at : DateTime

-- `TaxJurisdiction::default`
unfoldable pub default_jurisdiction : {M : Type 0} → Outside → TaxJurisdiction M
default_jurisdiction o = record {
  id = o.fresh 0;
  name = "";
  code = "";
  jurisdiction_type = JurisdictionType.federal;
  tax_rates = [];
  tax_brackets = [];
  filing_frequency = FilingFrequency.annual;
  effective_date = o.date_naive o.now;
  expiration_date = none;
  is_active = true;
  created_at = o.now;
  updated_at = o.now;
}

pub record TaxCalculation (M : Type 0) : Type 0 where
  pub jurisdiction : TaxJurisdiction M
  pub tax_type : TaxType
  pub taxable_amount : M
  pub tax_rate : M
  pub tax_amount : M
  pub calculation_date : DateTime
  pub period_start : NaiveDate
  pub period_end : NaiveDate

pub record TaxFiling (M : Type 0) : Type 0 where
  pub id : Uuid
  pub jurisdiction_id : Uuid
  pub tax_type : TaxType
  pub period_start : NaiveDate
  pub period_end : NaiveDate
  pub taxable_amount : M
  pub tax_amount : M
  pub status : FilingStatus
  pub filing_date : Option DateTime
  pub due_date : Option DateTime
  pub payment_date : Option DateTime
  pub payment_amount : Option M
  pub confirmation_number : Option String
  pub notes : String
  pub created_at : DateTime
  pub updated_at : DateTime

pub record TaxCalculator (M : Type 0) : Type 0 where
  pub jurisdictions : OrdMap (TaxJurisdiction M)
  pub jurisdictions_by_code : StrMap Uuid
  pub filings : OrdMap (TaxFiling M)

abbrev pub Method : Type 0 → Type 0 → Type 0
Method M A = Action (TaxCalculator M) TaxError A

-- `TaxCalculator::new`
abbrev pub new_calculator : {M : Type 0} → TaxCalculator M
new_calculator = record { jurisdictions = []; jurisdictions_by_code = []; filings = [] }
