-- ===== src/Budgets/Defs.antt =====
-- Budgets and the report on their variances (RichdaleAccounting/nexus-core/src/accounting/budget.rs).
use rich_aim_acct_inv.Prelude.{
  ◌==◌, Bool, ◌&&◌, not, Option, none, some, List, [], ◌∷◌, ◌++◌, find, String, leb, if◌then◌else◌,
}
use rich_aim_acct_inv.Prelude.OrdMap.{OrdMap, get?, insert}
use rich_aim_acct_inv.Money.{Decimal, Division, dec_eq}
use rich_aim_acct_inv.Financial.{
  Uuid, DateTime, NaiveDate, Account, AccountType, EntryType, TransactionEntry, Transaction,
}
use rich_aim_acct_inv.Ledger.{Ledger, list_accounts, list_transactions_by_date}

pub data BudgetPeriod : Type 0 where
  monthly quarterly annual : BudgetPeriod

pub record Budget (M : Type 0) : Type 0 where
  pub id : Uuid
  pub account_id : Uuid
  pub name : String
  pub period : BudgetPeriod
  pub period_start : NaiveDate
  pub period_end : NaiveDate
  pub budgeted_amount : M
  pub notes : Option String
  pub created_at : DateTime
  pub updated_at : DateTime

-- `Budget::new`
unfoldable pub new_budget :
    {M : Type 0}
    → Uuid
    → DateTime
    → Uuid
    → String
    → BudgetPeriod
    → NaiveDate
    → NaiveDate
    → M
    → Budget M
new_budget id now account_id name period period_start period_end budgeted_amount = record {
  id = id;
  account_id = account_id;
  name = name;
  period = period;
  period_start = period_start;
  period_end = period_end;
  budgeted_amount = budgeted_amount;
  notes = none;
  created_at = now;
  updated_at = now;
}

pub record BudgetVarianceLine (M : Type 0) : Type 0 where
  pub account_id : Uuid
  pub account_number : String
  pub account_name : String
  pub budgeted : M
  pub actual : M
  pub variance : M
  pub variance_percent : M

pub record BudgetVarianceReport (M : Type 0) : Type 0 where
  pub report_name : String
  pub lines : List (BudgetVarianceLine M)
  pub total_budgeted : M
  pub total_actual : M
  pub total_variance : M
  pub period_start : NaiveDate
  pub period_end : NaiveDate

pub record BudgetManager (M : Type 0) : Type 0 where
  pub budgets : List (Budget M)

-- `BudgetManager::add_budget`
unfoldable pub add_budget : {M : Type 0} → Budget M → BudgetManager M → Budget M × BudgetManager M
add_budget b m = (b, record m { budgets = m.budgets ++ b ∷ [] })

-- The first and the last second of a day.
pub record Days : Type 0 where
  pub day_start : NaiveDate → DateTime
  pub day_end : NaiveDate → DateTime

module _ {M : Type 0} where
  -- Two periods overlap.
  abbrev pub overlaps : NaiveDate → NaiveDate → Budget M → Bool
  overlaps period_start period_end b =
      leb b.period_start period_end && leb period_start b.period_end

  abbrev pub account_by_id : Uuid → List (Account M) → Option (Account M)
  account_by_id id accounts = find (λ a. a.id == id) accounts

  abbrev pub number_or_empty : Option (Account M) → String
  number_or_empty none = ""
  number_or_empty (some a) = a.number

module _ {M : Type 0} ⦃d : Decimal M⦄ ⦃q : Division M⦄ where
  open d use {dec_0, add, sub, mul}
  open q use {neg, div, from}

  -- An entry's amount with the sign that its account's type asks for.
  abbrev pub signed_by : AccountType → EntryType → M → M
  signed_by AccountType.expense EntryType.debit x = x
  signed_by AccountType.expense EntryType.credit x = neg x
  signed_by AccountType.revenue EntryType.credit x = x
  signed_by AccountType.revenue EntryType.debit x = neg x
  signed_by AccountType.asset _ x = x
  signed_by AccountType.liability _ x = x
  signed_by AccountType.equity _ x = x

  abbrev pub signed_amount : Option (Account M) → TransactionEntry M → M
  signed_amount none e = e.amount
  signed_amount (some a) e = signed_by a.account_type e.entry_type e.amount

  -- `actuals.get(..).copied().unwrap_or(0)`, and `entry(..).or_default()`
  abbrev pub amount_or_zero : Option M → M
  amount_or_zero none = dec_0
  amount_or_zero (some x) = x

  -- The inner loop over the entries of a transaction.
  unfoldable pub add_entries : List (Account M) → List (TransactionEntry M) → OrdMap M → OrdMap M
  add_entries accounts [] actuals = actuals
  add_entries accounts (e ∷ es) actuals = add_entries accounts es (
      insert e.account_id
        (add (amount_or_zero (get? e.account_id actuals))
          (signed_amount (account_by_id e.account_id accounts) e))
        actuals)

  unfoldable pub add_transactions : List (Account M) → List (Transaction M) → OrdMap M → OrdMap M
  unfolding add_entries
  add_transactions accounts [] actuals = actuals
  add_transactions accounts (t ∷ ts) actuals =
      add_transactions accounts ts (add_entries accounts t.entries actuals)

  abbrev pub percent : M → M → M
  percent variance budgeted =
      if not (dec_eq budgeted dec_0) then mul (div variance budgeted) (from 100) else dec_0

  abbrev pub variance_line : List (Account M) → OrdMap M → Budget M → BudgetVarianceLine M
  variance_line accounts actuals b =
      let actual : M = amount_or_zero (get? b.account_id actuals) in
      record {
        account_id = b.account_id;
        account_number = number_or_empty (account_by_id b.account_id accounts);
        account_name = b.name;
        budgeted = b.budgeted_amount;
        actual = actual;
        variance = sub actual b.budgeted_amount;
        variance_percent = percent (sub actual b.budgeted_amount) b.budgeted_amount;
      }

  -- The loop over the budgets: the lines, and the two totals.
  unfoldable pub report_lines :
      List (Account M)
      → OrdMap M
      → NaiveDate
      → NaiveDate
      → List (Budget M)
      → M
      → M
      → List (BudgetVarianceLine M) × M × M
  report_lines accounts actuals period_start period_end [] budgeted actual = ([], budgeted, actual)
  report_lines accounts actuals period_start period_end (b ∷ bs) budgeted actual =
      let line : BudgetVarianceLine M = variance_line accounts actuals b in
      let counts : Bool = overlaps period_start period_end b in
      let (lines, budgeted', actual') =
        report_lines accounts actuals period_start period_end bs
          (if counts then add budgeted line.budgeted else budgeted)
          (if counts then add actual line.actual else actual) in
      (if counts then line ∷ lines else lines, budgeted', actual')

  abbrev pub report_of :
      NaiveDate → NaiveDate → List (BudgetVarianceLine M) × M × M → BudgetVarianceReport M
  report_of period_start period_end (lines, budgeted, actual) = record {
    report_name = "Budget vs Actual";
    lines = lines;
    total_budgeted = budgeted;
    total_actual = actual;
    total_variance = sub actual budgeted;
    period_start = period_start;
    period_end = period_end;
  }

  -- `generate_variance_report`, which reads the ledger and cannot fail.
  unfoldable pub generate_variance_report :
      Days → NaiveDate → NaiveDate → Ledger M → BudgetManager M → BudgetVarianceReport M
  unfolding add_transactions report_lines
  generate_variance_report days period_start period_end l m =
      let accounts : List (Account M) = list_accounts l in
      let actuals : OrdMap M =
        add_transactions accounts
          (list_transactions_by_date (days.day_start period_start) (days.day_end period_end) l)
          [] in
      report_of period_start period_end
        (report_lines accounts actuals period_start period_end m.budgets dec_0 dec_0)
