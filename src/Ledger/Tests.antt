-- ===== src/Ledger/Tests.antt =====
-- The theorems on the ledger at concrete books, over integers as amounts.
use rich_aim_acct_inv.Prelude.{◌+◌, ◌/◌, ◌≡◌, refl, some, [], ◌∷◌, ok, err, arith, ◌⊎◌}
use rich_aim_acct_inv.Prelude.Int.{ℤ, pos, ◌+ℤ◌, ◌*ℤ◌}
use rich_aim_acct_inv.Prelude.OrdMap.{get?, modify}
use rich_aim_acct_inv.Money.{int_decimal}
use rich_aim_acct_inv.Financial.{
  Account, AccountType, new_account, EntryType, new_entry, Transaction, new_transaction,
  balance_loop, transaction_is_balanced, update_balance, journal_is_balanced, JournalEntry,
  new_journal_entry, post,
}
use rich_aim_acct_inv.Ledger.{
  Outside, Ledger, LedgerError, new_ledger, validate_transaction, get_account_by_number,
  record_transaction, initialize, number_is_taken,
}
use rich_aim_acct_inv.Ledger.Outcome.{Acceptable, recorded, after_posting, record_transaction_lem}
use rich_aim_acct_inv.Ledger.Equation.{net, net-record_transaction}
use rich_aim_acct_inv.Ledger.Balances.{movement, MovedBy, record_transaction-balances}
use rich_aim_acct_inv.Ledger.Numbers.{UniqueNumbers}
use rich_aim_acct_inv.Ledger.Reachable.{Sound, Reachable-Sound, initialize-Reachable}

abbrev pub outside : Outside
outside = record { now = 7; fresh = λ i. 100 + i; date_naive = λ t. t / 86400 }

abbrev cash : Account ℤ
cash = new_account 1 0 "1000" "Cash" AccountType.asset

abbrev sales : Account ℤ
sales = new_account 2 0 "4000" "Sales Revenue" AccountType.revenue

abbrev book : Ledger ℤ
book = record {
  accounts = (1, cash) ∷ (2, sales) ∷ [];
  transactions = [];
  journal_entries = [];
  current_journal_number = 1;
  current_transaction_number = 1;
}

-- A sale of 50 in cash.
abbrev sale : Transaction ℤ
sale =
    new_transaction 9 0 "Sale" 86400 (
      new_entry 10 1 EntryType.debit (pos 50) "" ∷ new_entry 11 2 EntryType.credit (pos 50) "" ∷ [])

sale_acceptable : Acceptable outside sale book
unfolding new_account new_entry new_transaction get? ◌+ℤ◌
sale_acceptable = (refl, ((cash, refl, refl), ((sales, refl, refl), tt)))

record_sale :
    get_account_by_number "1000" (record_transaction outside sale book).1
    ≡ some (record cash { balance = pos 50; updated_at = 7 })
unfolding record_transaction validate_transaction new_account new_entry new_transaction get?
    get_account_by_number balance_loop transaction_is_balanced update_balance modify ◌+ℤ◌ ◌*ℤ◌
    journal_is_balanced new_journal_entry post
record_sale = refl

record_transaction_lem_example :
    (Acceptable outside sale book
      × (record_transaction outside sale book
          ≡ (ok (recorded outside sale book), after_posting outside sale book)))
    ⊎ (¬ Acceptable outside sale book
        × ((x : LedgerError) × (record_transaction outside sale book ≡ (err x, book))))
record_transaction_lem_example = record_transaction_lem outside sale book

net-record_transaction_example :
    net (record_transaction outside sale book).1.accounts ≡ net book.accounts
net-record_transaction_example = net-record_transaction outside sale book

record_transaction-balances_example :
    (b : Account ℤ) × (get? 2 (record_transaction outside sale book).1.accounts ≡ some b)
    × MovedBy sales (movement sales.account_type 2 sale.entries) b
unfolding get?
record_transaction-balances_example =
    record_transaction-balances outside sale book 2 sales sale_acceptable refl

sold : Ledger ℤ
sold = (record_transaction outside sale book).1

book-UniqueNumbers : UniqueNumbers book.accounts
unfolding new_account number_is_taken
book-UniqueNumbers = (refl, (refl, tt))

Reachable-Sound_example : Sound {M = ℤ} (initialize outside new_ledger).1
Reachable-Sound_example = Reachable-Sound (initialize-Reachable outside (λ i j e. omega (arith, e)))

abbrev sale_journal : JournalEntry ℤ
sale_journal = record (new_journal_entry 12 0 "Sale" 1) { entries = sale.entries }
