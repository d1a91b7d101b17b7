-- ===== src/Budgets/Tests.antt =====
-- A variance report on a small book (RichdaleAccounting/nexus-core/src/accounting/budget.rs).
use rich_aim_acct_inv.Prelude.{◌/◌, ◌+◌, ◌≡◌, refl, some, [], ◌∷◌, arith}
use rich_aim_acct_inv.Prelude.Int.{ℤ, pos, pos_part, neg_part, ◌-ℤ◌, ◌<ℤ◌, ◌+ℤ◌}
use rich_aim_acct_inv.Prelude.OrdMap.{get?, insert}
use rich_aim_acct_inv.Money.{Division, int_decimal}
use rich_aim_acct_inv.Financial.{
  Account, new_account, AccountType, EntryType, Transaction, new_transaction, new_entry,
}
use rich_aim_acct_inv.Ledger.{Ledger}
use rich_aim_acct_inv.Budgets.{
  BudgetPeriod, BudgetManager, Days, new_budget, account_by_id, amount_or_zero, add_transactions,
}
use rich_aim_acct_inv.Budgets.Actuals.{moved, actual-moved, OfIncome}

abs_neg : (a : ℤ) → a <ℤ pos 0 → pos (pos_part a + neg_part a) ≡ pos 0 -ℤ a
unfolding ◌-ℤ◌
abs_neg a h = ground arith

instance abbrev int_division : Division ℤ
int_division = record {
  div = λ a b. pos (pos_part a / pos_part b);
  from = λ n. pos n;
  abs = λ a. pos (pos_part a + neg_part a);
  neg = λ a. pos 0 -ℤ a;
  value-abs_neg = abs_neg;
  value-neg = λ a. refl;
}

abbrev rent : Account ℤ
rent = new_account 3 0 "5020" "Rent Expense" AccountType.expense

-- Rent of 100, of which 30 are given back.
abbrev paid : Transaction ℤ
paid = new_transaction 9 1 "Rent" 5 (
    new_entry 20 3 EntryType.debit (pos 100) "rent"
    ∷ new_entry 21 3 EntryType.credit (pos 30) "refund"
    ∷ [])

abbrev book : Ledger ℤ
book = record {
  accounts = (3, rent) ∷ [];
  transactions = (9, paid) ∷ [];
  journal_entries = [];
  current_journal_number = 1;
  current_transaction_number = 1;
}

abbrev days : Days
days = record { day_start = λ x. x; day_end = λ x. x }

abbrev manager : BudgetManager ℤ
manager = record {
  budgets =
      new_budget 40 1 3 "Rent" BudgetPeriod.monthly 1 9 (pos 60)
      ∷ new_budget 41 1 3 "Rent next month" BudgetPeriod.monthly 10 19 (pos 60)
      ∷ [];
}

rent_found : account_by_id 3 (rent ∷ []) ≡ some rent
unfolding new_account
rent_found = refl

rent_is_expense : OfIncome rent.account_type
unfolding new_account
rent_is_expense = tt

actual-moved_example :
    amount_or_zero (get? 3 (add_transactions (rent ∷ []) (paid ∷ []) []))
    ≡ moved rent.account_type 3 (paid ∷ [])
actual-moved_example = actual-moved (rent ∷ []) 3 rent rent_found rent_is_expense (paid ∷ [])

actual_rent : amount_or_zero (get? 3 (add_transactions (rent ∷ []) (paid ∷ []) [])) ≡ pos 70
unfolding add_transactions get? insert new_transaction new_entry new_account ◌+ℤ◌ ◌-ℤ◌
actual_rent = refl
