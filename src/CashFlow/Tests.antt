-- ===== src/CashFlow/Tests.antt =====
-- The cash flow of a small book (RichdaleAccounting/nexus-core/src/accounting/cashflow.rs).
use rich_aim_acct_inv.Prelude.{◌≡◌, refl, [], ◌∷◌}
use rich_aim_acct_inv.Prelude.Int.{ℤ, pos, ◌+ℤ◌, ◌-ℤ◌}
use rich_aim_acct_inv.Money.{int_decimal}
use rich_aim_acct_inv.Money.Fixed.{Fixed, units, units_of, fixed_decimal, fixed_division}
use rich_aim_acct_inv.Financial.{
  Account, new_account, AccountType, EntryType, Transaction, new_transaction, new_entry,
}
use rich_aim_acct_inv.Ledger.{
  get_account_by_number, list_transactions_by_date, Ledger, list_accounts,
}
use rich_aim_acct_inv.CashFlow.{generate_cash_flow_statement, balance_or_zero}
use rich_aim_acct_inv.CashFlow.Effects.{Covered}
use rich_aim_acct_inv.CashFlow.Totals.{Plain, moved_within, generate_cash_flow_statement_lem}

abbrev whole : ℤ → Fixed
whole n = units n

abbrev cash : Account Fixed
unfolding new_account
cash = record (new_account 1 0 "1000" "Cash" AccountType.asset) { balance = whole (pos 100) }

abbrev depreciation : Account Fixed
unfolding new_account
depreciation = new_account 2 0 "1050" "Accumulated Depreciation" AccountType.asset

abbrev sales : Account Fixed
unfolding new_account
sales = new_account 3 0 "4000" "Sales Revenue" AccountType.revenue

abbrev expense : Account Fixed
unfolding new_account
expense = new_account 4 0 "5050" "Depreciation Expense" AccountType.expense

-- A sale for cash, and a month's depreciation.
abbrev sale : Transaction Fixed
unfolding new_transaction new_entry
sale = new_transaction 9 1 "Sale" 5 (
    new_entry 20 1 EntryType.debit (whole (pos 100)) "cash"
    ∷ new_entry 21 3 EntryType.credit (whole (pos 100)) "sale"
    ∷ [])

abbrev month : Transaction Fixed
unfolding new_transaction new_entry
month = new_transaction 10 1 "Depreciation" 6 (
    new_entry 22 4 EntryType.debit (whole (pos 30)) "expense"
    ∷ new_entry 23 2 EntryType.credit (whole (pos 30)) "accumulated"
    ∷ [])

abbrev book : Ledger Fixed
book = record {
  accounts = (1, cash) ∷ (2, depreciation) ∷ (3, sales) ∷ (4, expense) ∷ [];
  transactions = (9, sale) ∷ (10, month) ∷ [];
  journal_entries = [];
  current_journal_number = 1;
  current_transaction_number = 1;
}

-- Cash has grown by 100, and the statement says 40.
change_of_book : units_of (generate_cash_flow_statement book 0 9).net_change_in_cash ≡ pos 40
unfolding generate_cash_flow_statement ◌+ℤ◌ ◌-ℤ◌ new_account new_transaction new_entry
change_of_book = refl

sale-Plain : Plain (list_accounts book) sale
unfolding list_accounts new_account new_transaction new_entry ◌+ℤ◌
sale-Plain = record {
  known = ((cash, refl, Covered.cash), ((sales, refl, Covered.revenue refl refl), tt));
  balanced = refl;
}

month-Plain : Plain (list_accounts book) month
unfolding list_accounts new_account new_transaction new_entry ◌+ℤ◌
month-Plain = record {
  known =
      ((expense, refl, Covered.expense refl refl), ((depreciation, refl, Covered.accumulated), tt));
  balanced = refl;
}

generate_cash_flow_statement_lem_example :
    let s = generate_cash_flow_statement book 0 9 in
    (units_of s.net_change_in_cash
      ≡ moved_within book 0 9 "1000"
        +ℤ (moved_within book 0 9 "1050" +ℤ moved_within book 0 9 "1050"))
    × (units_of s.ending_cash -ℤ units_of s.beginning_cash ≡ units_of s.net_change_in_cash)
    × (units_of s.ending_cash ≡ units_of (balance_or_zero (get_account_by_number "1000" book)))
unfolding list_transactions_by_date sale
generate_cash_flow_statement_lem_example =
    generate_cash_flow_statement_lem book 0 9 (sale-Plain, (month-Plain, tt))
