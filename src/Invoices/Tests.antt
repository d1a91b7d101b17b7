-- ===== src/Invoices/Tests.antt =====
-- Runs of the invoice calls on a small book (RichdaleAccounting/nexus-core/src/accounting/invoice.rs).
use rich_aim_acct_inv.Prelude.{◌+◌, ◌≡◌, refl, none, some, [], ◌∷◌, arith, map}
use rich_aim_acct_inv.Prelude.Int.{ℤ, pos, ◌+ℤ◌, ◌-ℤ◌, ◌*ℤ◌, ◌≤ℤ◌}
use rich_aim_acct_inv.Prelude.OrdMap.{get?}
use rich_aim_acct_inv.Money.{int_decimal, sum}
use rich_aim_acct_inv.Financial.{Account, new_account, AccountType}
use rich_aim_acct_inv.Ledger.{Ledger, Outside, new_ledger, get_account_by_number, initialize}
use rich_aim_acct_inv.Ledger.Validity.{Usable}
use rich_aim_acct_inv.Ledger.Reachable.{initialize-Reachable}
use rich_aim_acct_inv.Invoices.{
  Invoice, InvoiceItem, InvoiceStatus, InvoiceProcessor, new_item, apply_payment, written,
  cancel_invoice, cancelled_at, tax_on,
}
use rich_aim_acct_inv.Invoices.Cases.{takes, outcome}
use rich_aim_acct_inv.Invoices.Invariant.{IsValid, Healthy, outcome-Healthy}
use rich_aim_acct_inv.Invoices.Stored.{Stored, outcome-Stored}
use rich_aim_acct_inv.Invoices.Postings.{cancel_invoice_taxed}

abbrev outside : Outside
outside = record { now = 7; fresh = λ i. 100 + i; date_naive = λ t. t }

abbrev cash : Account ℤ
cash = new_account 1 0 "1000" "Cash" AccountType.asset

abbrev receivable : Account ℤ
receivable = new_account 2 0 "1020" "Accounts Receivable" AccountType.asset

abbrev deposits : Account ℤ
deposits = new_account 3 0 "2010" "Loans Payable" AccountType.liability

abbrev accrued : Account ℤ
accrued = new_account 4 0 "2020" "Accrued Expenses" AccountType.liability

abbrev sales : Account ℤ
sales = new_account 5 0 "4000" "Sales Revenue" AccountType.revenue

abbrev book : Ledger ℤ
book = record {
  accounts = (1, cash) ∷ (2, receivable) ∷ (3, deposits) ∷ (4, accrued) ∷ (5, sales) ∷ [];
  transactions = [];
  journal_entries = [];
  current_journal_number = 1;
  current_transaction_number = 1;
}

cash-Usable : Usable book "1000" cash
unfolding get_account_by_number get? new_account
cash-Usable = record { found = refl; stored = refl; active = refl }

receivable-Usable : Usable book "1020" receivable
unfolding get_account_by_number get? new_account
receivable-Usable = record { found = refl; stored = refl; active = refl }

deposits-Usable : Usable book "2010" deposits
unfolding get_account_by_number get? new_account
deposits-Usable = record { found = refl; stored = refl; active = refl }

accrued-Usable : Usable book "2020" accrued
unfolding get_account_by_number get? new_account
accrued-Usable = record { found = refl; stored = refl; active = refl }

sales-Usable : Usable book "4000" sales
unfolding get_account_by_number get? new_account
sales-Usable = record { found = refl; stored = refl; active = refl }

abbrev item : InvoiceItem ℤ
item = new_item 8 "Audit" (pos 10) (pos 10)

-- An invoice of 107, of which 50 have been paid.
abbrev invoice : Invoice ℤ
invoice = record {
  id = 60;
  invoice_number = "INV-00000001";
  customer_name = "Rich";
  customer_email = "rich@example.org";
  issue_date = 1;
  due_date = 30;
  items = item ∷ [];
  subtotal = pos 100;
  tax_amount = pos 7;
  total = pos 107;
  amount_paid = pos 50;
  status = InvoiceStatus.partially_paid;
  notes = "";
  transaction_id = none;
  created_at = 1;
  updated_at = 1;
}

abbrev untaxed : Invoice ℤ
untaxed = record invoice { tax_amount = pos 0; total = pos 100 }

abbrev office : InvoiceProcessor ℤ
office = record { invoices = (60, invoice) ∷ []; current_invoice_number = 2; ledger = some book }

abbrev plain_office : InvoiceProcessor ℤ
plain_office = record office { invoices = (60, untaxed) ∷ [] }

invoice-IsValid : IsValid invoice
unfolding ◌+ℤ◌
invoice-IsValid = record {
  adds_up = refl;
  nonneg = omega arith;
  within = omega arith;
  settled_up = λ e. ground arith;
}

abbrev opened : InvoiceProcessor ℤ
opened = record office { ledger = some (initialize outside new_ledger).1 }

opened-Healthy : Healthy opened
opened-Healthy = ((invoice-IsValid, tt), initialize-Reachable outside (λ i j e. omega (arith, e)))

outcome-Healthy_example : Healthy (outcome (takes outside 60 (pos 80) 9 "wire") opened).1
outcome-Healthy_example =
    outcome-Healthy (takes outside 60 (pos 80) 9 "wire") opened tt opened-Healthy

outcome-Stored_example : Stored 60 office (outcome (takes outside 60 (pos 80) 9 "wire") office)
outcome-Stored_example = outcome-Stored (takes outside 60 (pos 80) 9 "wire") office

found_invoice : get? 60 office.invoices ≡ some invoice
unfolding get?
found_invoice = refl

found_untaxed : get? 60 plain_office.invoices ≡ some untaxed
unfolding get?
found_untaxed = refl

-- The payment of 80 pays the 57 that are due.
overpaid : (apply_payment 7 (pos 80) invoice).status ≡ InvoiceStatus.paid
unfolding ◌+ℤ◌ ◌-ℤ◌
overpaid = refl

cancel_invoice_taxed_example :
    cancel_invoice outside 60 office ≡ written 60 (cancelled_at 7 invoice, some book) office
cancel_invoice_taxed_example =
    cancel_invoice_taxed outside 60 office invoice found_invoice refl invoice-IsValid.adds_up
      (λ e. ground arith)

tax_on_item : pos 0 ≤ℤ tax_on (sum (map (λ i. i.amount) (item ∷ []))) (some (pos 2))
unfolding sum new_item ◌*ℤ◌ ◌+ℤ◌
tax_on_item = omega arith
