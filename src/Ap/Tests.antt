-- ===== src/Ap/Tests.antt =====
-- The theorems on accounts payable at concrete books, over integers as amounts.
use rich_aim_acct_inv.Prelude.{◌+◌, some, [], ◌∷◌, arith}
use rich_aim_acct_inv.Prelude.Int.{ℤ, pos}
use rich_aim_acct_inv.Money.{int_decimal}
use rich_aim_acct_inv.Financial.{Account, AccountType, new_account}
use rich_aim_acct_inv.Ledger.{Outside, Ledger}
use rich_aim_acct_inv.Ap.{ApBill, ApBillStatus, ApProcessor, new_bill, find_bill, pay_bill_partial}
use rich_aim_acct_inv.Ap.Calls.{pays_part, call}
use rich_aim_acct_inv.Ap.Invariant.{IsValid, AllValid, call-AllValid}
use rich_aim_acct_inv.Ap.Outstanding.{LowersBy, pay_bill_partial-outstanding}

abbrev outside : Outside
outside = record { now = 7; fresh = λ i. 100 + i; date_naive = λ t. t }

abbrev payable : Account ℤ
payable = new_account 1 0 "2000" "Accounts Payable" AccountType.liability

abbrev cash : Account ℤ
cash = new_account 2 0 "1000" "Cash" AccountType.asset

abbrev rent : Account ℤ
rent = new_account 3 0 "5020" "Rent Expense" AccountType.expense

abbrev book : Ledger ℤ
book = record {
  accounts = (1, payable) ∷ (2, cash) ∷ (3, rent) ∷ [];
  transactions = [];
  journal_entries = [];
  current_journal_number = 1;
  current_transaction_number = 1;
}

-- A bill of 100, of which 40 have been paid.
abbrev bill : ApBill ℤ
bill = record (new_bill outside "a1" 50 "Rent" (pos 100) 3 9) {
  id = 60;
  paid_amount = pos 40;
  status = ApBillStatus.approved;
  transaction_id = some 70;
}

abbrev office : ApProcessor ℤ
office = record {
  vendors = [];
  bills = bill ∷ [];
  ledger = some book;
  ap_account_id = 1;
  cash_account_id = 2;
}

bill-IsValid : IsValid bill
unfolding new_bill
bill-IsValid = record { nonneg = omega arith; within = omega arith; settled_up = λ e. cc }

call-AllValid_example : AllValid (call (pays_part outside "60" 60 (pos 60)) office)
call-AllValid_example =
    call-AllValid (pays_part outside "60" 60 (pos 60)) office tt (bill-IsValid, tt)

pay_bill_partial-outstanding_example :
    LowersBy office (pos 60) (pay_bill_partial outside "60" 60 (pos 60) office)
unfolding find_bill
pay_bill_partial-outstanding_example =
    pay_bill_partial-outstanding outside "60" 60 (pos 60) office (λ b e. ground arith)
