-- ===== src/CashFlow/Defs.antt =====
-- The cash flow statement (RichdaleAccounting/nexus-core/src/accounting/cashflow.rs). The warning on a
-- difference is left out.
use rich_aim_acct_inv.Prelude.{
  ◌==◌, Bool, true, false, Option, none, some, List, [], ◌∷◌, find, String, str_eq, if◌then◌else◌,
}
use rich_aim_acct_inv.Money.{Decimal, Division, dec_lt}
use rich_aim_acct_inv.Financial.{
  Uuid, DateTime, Account, AccountType, EntryType, TransactionEntry, Transaction,
}
use rich_aim_acct_inv.Ledger.{
  Ledger, list_accounts, list_transactions_by_date, get_account_by_number,
}

pub record CashFlowLine (M : Type 0) : Type 0 where
  pub description : String
  pub amount : M

pub record CashFlowStatement (M : Type 0) : Type 0 where
  pub operating_activities : List (CashFlowLine M)
  pub investing_activities : List (CashFlowLine M)
  pub financing_activities : List (CashFlowLine M)
  pub net_cash_from_operating : M
  pub net_cash_from_investing : M
  pub net_cash_from_financing : M
  pub net_change_in_cash : M
  pub beginning_cash : M
  pub ending_cash : M
  pub period_start : DateTime
  pub period_end : DateTime

-- The variables of the loop.
pub record Changes (M : Type 0) : Type 0 where
  pub net_income : M
  pub depreciation : M
  pub ar_change : M
  pub inv_change : M
  pub ap_change : M
  pub accrual_change : M
  pub fixed_asset_purchases : M
  pub fixed_asset_sales : M
  pub loan_proceeds : M
  pub loan_payments : M
  pub owner_draws : M
  pub owner_contributions : M

abbrev pub is_increase : AccountType → EntryType → Bool
is_increase AccountType.asset EntryType.debit = true
is_increase AccountType.asset EntryType.credit = false
is_increase AccountType.expense EntryType.debit = true
is_increase AccountType.expense EntryType.credit = false
is_increase AccountType.liability EntryType.credit = true
is_increase AccountType.liability EntryType.debit = false
is_increase AccountType.equity EntryType.credit = true
is_increase AccountType.equity EntryType.debit = false
is_increase AccountType.revenue EntryType.credit = true
is_increase AccountType.revenue EntryType.debit = false

module _ {M : Type 0} where
  abbrev pub account_of : List (Account M) → Uuid → Option (Account M)
  account_of accounts id = find (λ a. a.id == id) accounts

module _ {M : Type 0} ⦃d : Decimal M⦄ where
  open d use {dec_0, add, sub}

  abbrev pub no_changes : Changes M
  no_changes = record {
    net_income = dec_0;
    depreciation = dec_0;
    ar_change = dec_0;
    inv_change = dec_0;
    ap_change = dec_0;
    accrual_change = dec_0;
    fixed_asset_purchases = dec_0;
    fixed_asset_sales = dec_0;
    loan_proceeds = dec_0;
    loan_payments = dec_0;
    owner_draws = dec_0;
    owner_contributions = dec_0;
  }

  abbrev pub net_operating : Changes M → M
  net_operating t =
      add (add (add (add (add t.net_income t.ar_change) t.inv_change) t.ap_change) t.accrual_change)
        t.depreciation

  abbrev pub net_investing : Changes M → M
  net_investing t = sub t.fixed_asset_sales t.fixed_asset_purchases

  abbrev pub net_financing : Changes M → M
  net_financing t =
      sub (add (sub t.loan_proceeds t.loan_payments) t.owner_contributions) t.owner_draws

  abbrev pub net_change : Changes M → M
  net_change t = add (add (net_operating t) (net_investing t)) (net_financing t)

  abbrev pub balance_or_zero : Option (Account M) → M
  balance_or_zero none = dec_0
  balance_or_zero (some a) = a.balance

  module _ ⦃q : Division M⦄ where
    open q use {neg}

    -- The arms of the `match` that name an account's number.
    unfoldable pub by_number : String → M → Changes M → Changes M
    by_number number amount t =
        if str_eq number "1020"
        then record t { ar_change = sub t.ar_change amount }
        else if str_eq number "1030"
        then record t { inv_change = sub t.inv_change amount }
        else if str_eq number "2000"
        then record t { ap_change = add t.ap_change amount }
        else if str_eq number "2010"
        then if dec_lt dec_0 amount
          then record t { loan_proceeds = add t.loan_proceeds amount }
          else record t { loan_payments = add t.loan_payments (neg amount) }
        else if str_eq number "2020"
        then record t { accrual_change = add t.accrual_change amount }
        else if str_eq number "1050"
        then record t { depreciation = add t.depreciation amount }
        else if str_eq number "1040"
        then if dec_lt dec_0 amount
          then record t { fixed_asset_purchases = add t.fixed_asset_purchases amount }
          else record t { fixed_asset_sales = add t.fixed_asset_sales (neg amount) }
        else if str_eq number "3000"
        then if dec_lt dec_0 amount
          then record t { owner_contributions = add t.owner_contributions amount }
          else record t { owner_draws = add t.owner_draws (neg amount) }
        else t

    abbrev pub add_amount : AccountType → String → M → Changes M → Changes M
    add_amount AccountType.revenue number amount t = record t {
      net_income = add t.net_income amount;
    }
    add_amount AccountType.expense number amount t = record t {
      net_income = sub t.net_income amount;
    }
    add_amount AccountType.asset number amount t = by_number number amount t
    add_amount AccountType.liability number amount t = by_number number amount t
    add_amount AccountType.equity number amount t = by_number number amount t

    abbrev pub signed : AccountType → EntryType → M → M
    signed ty en amount = if is_increase ty en then amount else neg amount

    abbrev pub add_entry : Option (Account M) → TransactionEntry M → Changes M → Changes M
    add_entry none e t = t
    add_entry (some a) e t =
        add_amount a.account_type a.number (signed a.account_type e.entry_type e.amount) t

    unfoldable pub add_entries :
        List (Account M) → List (TransactionEntry M) → Changes M → Changes M
    unfolding by_number
    add_entries accounts [] t = t
    add_entries accounts (e ∷ es) t =
        add_entries accounts es (add_entry (account_of accounts e.account_id) e t)

    unfoldable pub add_transactions :
        List (Account M) → List (Transaction M) → Changes M → Changes M
    unfolding add_entries
    add_transactions accounts [] t = t
    add_transactions accounts (x ∷ xs) t =
        add_transactions accounts xs (add_entries accounts x.entries t)

    abbrev pub line : String → M → CashFlowLine M
    line description amount = record { description = description; amount = amount }

    abbrev pub statement : DateTime → DateTime → M → Changes M → CashFlowStatement M
    statement start end ending_cash_actual t =
        let change : M = net_change t in
        let begin_balance : M = sub ending_cash_actual change in
        record {
          operating_activities =
              line "Net Income" t.net_income
              ∷ line "Adjust: AR change" t.ar_change
              ∷ line "Adjust: Inventory change" t.inv_change
              ∷ line "Adjust: AP change" t.ap_change
              ∷ line "Adjust: Accruals" t.accrual_change
              ∷ line "Adjust: Depreciation" t.depreciation
              ∷ [];
          investing_activities =
              line "Fixed Asset Purchases" (neg t.fixed_asset_purchases)
              ∷ line "Fixed Asset Sales" t.fixed_asset_sales
              ∷ [];
          financing_activities =
              line "Loan Proceeds" t.loan_proceeds
              ∷ line "Loan Repayments" (neg t.loan_payments)
              ∷ line "Owner Contributions" t.owner_contributions
              ∷ line "Owner Draws" (neg t.owner_draws)
              ∷ [];
          net_cash_from_operating = net_operating t;
          net_cash_from_investing = net_investing t;
          net_cash_from_financing = net_financing t;
          net_change_in_cash = change;
          beginning_cash = begin_balance;
          ending_cash = add begin_balance change;
          period_start = start;
          period_end = end;
        }

    -- It reads the ledger and cannot fail.
    unfoldable pub generate_cash_flow_statement :
        Ledger M → DateTime → DateTime → CashFlowStatement M
    unfolding add_transactions get_account_by_number list_accounts list_transactions_by_date
    generate_cash_flow_statement l start end =
        statement start end (balance_or_zero (get_account_by_number "1000" l))
          (add_transactions (list_accounts l) (list_transactions_by_date start end l) no_changes)
