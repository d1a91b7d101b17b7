-- ===== src/Ledger/Reports.antt =====
-- The queries and statements of the ledger (RichdaleAccounting/nexus-core/src/accounting/ledger.rs).
use rich_aim_acct_inv.Prelude.{
  Bool, ◌&&◌, Option, none, some, List, [], ◌∷◌, map, filter, leb, Result, ok, err, if◌then◌else◌,
}
use rich_aim_acct_inv.Prelude.OrdMap.{OrdMap, get?, values}
use rich_aim_acct_inv.Money.{Decimal}
use rich_aim_acct_inv.Financial.{
  Uuid, DateTime, Account, AccountType, TransactionEntry, Transaction,
}
use rich_aim_acct_inv.Ledger.Defs.{Ledger, LedgerError, account_not_found}
use rich_aim_acct_inv.Ledger.Chart.{get_account}

module _ {M : Type 0} where
  unfoldable pub get_transaction : Uuid → Ledger M → Option (Transaction M)
  get_transaction id l = get? id l.transactions

  unfoldable pub list_transactions : Ledger M → List (Transaction M)
  list_transactions l = values l.transactions

  abbrev pub in_range : DateTime → DateTime → Transaction M → Bool
  in_range start end t = leb start t.date && leb t.date end

  unfoldable pub list_transactions_by_date : DateTime → DateTime → Ledger M → List (Transaction M)
  list_transactions_by_date start end l = filter (in_range start end) (values l.transactions)

  unfoldable pub get_account_balance : Uuid → Ledger M → Result LedgerError M
  get_account_balance id l = elim (get? id l.accounts) [
    | none ↦ err (account_not_found id)
    | some a ↦ ok a.balance
  ]

  unfoldable pub get_trial_balance : Ledger M → OrdMap M
  get_trial_balance l = map (λ e. (e.0, e.1.balance)) l.accounts

pub record BalanceSheet (M : Type 0) : Type 0 where
  pub assets : M
  pub liabilities : M
  pub equity : M
  pub total_assets : M
  pub total_liabilities_plus_equity : M

pub record IncomeStatement (M : Type 0) : Type 0 where
  pub revenue : M
  pub expenses : M
  pub net_income : M

module _ {M : Type 0} ⦃d : Decimal M⦄ where
  open d use {dec_0, add, sub}

  -- The `match` of the loop of `get_balance_sheet`, on (assets, liabilities, equity).
  abbrev pub sheet_step : AccountType → M → M × M × M → M × M × M
  sheet_step AccountType.asset b (x, y, z) = (add x b, y, z)
  sheet_step AccountType.liability b (x, y, z) = (x, add y b, z)
  sheet_step AccountType.equity b (x, y, z) = (x, y, add z b)
  sheet_step AccountType.revenue b sums = sums
  sheet_step AccountType.expense b sums = sums

  unfoldable pub sheet_loop : List (Account M) → M × M × M → M × M × M
  sheet_loop [] sums = sums
  sheet_loop (a ∷ rest) sums = sheet_loop rest (sheet_step a.account_type a.balance sums)

  unfoldable pub get_balance_sheet : Ledger M → BalanceSheet M
  unfolding sheet_loop
  get_balance_sheet l =
      let (assets, liabilities, equity) = sheet_loop (values l.accounts) (dec_0, dec_0, dec_0) in
      record {
        assets = assets;
        liabilities = liabilities;
        equity = equity;
        total_assets = assets;
        total_liabilities_plus_equity = add liabilities equity;
      }

  -- The `match` of the inner loop of `get_income_statement`, on (revenue, expenses).
  abbrev pub income_step : Option (Account M) → M → M × M → M × M
  income_step none amount sums = sums
  income_step (some a) amount (revenue, expenses) = elim a.account_type [
    | AccountType.revenue ↦ (add revenue amount, expenses)
    | AccountType.expense ↦ (revenue, add expenses amount)
    | _ ↦ (revenue, expenses)
  ]

  unfoldable pub income_entries : Ledger M → List (TransactionEntry M) → M × M → M × M
  income_entries l [] sums = sums
  income_entries l (e ∷ es) sums =
      income_entries l es (income_step (get_account e.account_id l) e.amount sums)

  unfoldable pub income_loop : DateTime → DateTime → Ledger M → List (Transaction M) → M × M → M × M
  unfolding income_entries
  income_loop start end l [] sums = sums
  income_loop start end l (t ∷ ts) sums =
      income_loop start end l ts
        (if in_range start end t then income_entries l t.entries sums else sums)

  unfoldable pub get_income_statement : DateTime → DateTime → Ledger M → IncomeStatement M
  unfolding income_loop
  get_income_statement start end l =
      let (revenue, expenses) = income_loop start end l (values l.transactions) (dec_0, dec_0) in
      record { revenue = revenue; expenses = expenses; net_income = sub revenue expenses }
