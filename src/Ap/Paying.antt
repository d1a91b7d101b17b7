-- ===== src/Ap/Paying.antt =====
-- Paying bills, in full and in part (RichdaleAccounting/nexus-core/src/accounting/ap.rs).
use Prim.Native.String.{◌++◌ as concat}
use rich_aim_acct_inv.Prelude.{
  none, some, List, [], ◌∷◌, String, Result, ok, err, modify_first, if◌then◌else◌,
}
use rich_aim_acct_inv.Money.{Decimal, dec_le, dec_lt}
use rich_aim_acct_inv.Financial.{
  Uuid, DateTime, EntryType, TransactionEntry, new_entry, Transaction,
}
use rich_aim_acct_inv.Ledger.{Ledger, LedgerError, Outside, after_draws, record_transaction}
use rich_aim_acct_inv.Ap.Defs.{
  ApBill, ApBillStatus, ApProcessor, AccountsPayableError, bill_not_found, invalid_state, other,
  ledger_message, ledger_error, Method, status_eq, has_id, find_bill, remaining_balance,
}
use rich_aim_acct_inv.Ap.Entering.{ap_transaction}

module _ {M : Type 0} where
  -- Accounts payable is debited and cash credited.
  abbrev pub payment_entries :
      Outside → ApProcessor M → M → String → String → List (TransactionEntry M)
  payment_entries o p amount reduce out =
      new_entry (o.fresh 0) p.ap_account_id EntryType.debit amount reduce
      ∷ new_entry (o.fresh 1) p.cash_account_id EntryType.credit amount out
      ∷ []

  -- The transaction of `pay_bill`.
  unfoldable pub payment_transaction : Outside → ApBill M → ApProcessor M → Transaction M
  payment_transaction o b p =
      ap_transaction (o.fresh 2) o.now (concat "AP-PMT-" b.bill_number)
        (concat "Payment for AP Bill: " b.bill_number)
        (payment_entries o p b.amount
          (concat "Payment of bill " (concat b.bill_number " — reduce AP"))
          (concat "Payment of bill " (concat b.bill_number " — cash out")))

  -- The transaction of `pay_bill_partial`; `shown` is the amount's text in the description.
  unfoldable pub partial_transaction :
      Outside → String → ApBill M → M → ApProcessor M → Transaction M
  partial_transaction o shown b amount p =
      ap_transaction (o.fresh 2) o.now (concat "AP-PMT-PARTIAL-" b.bill_number)
        (concat "Partial payment for AP Bill: "
          (concat b.bill_number (concat " ($" (concat shown ")"))))
        (payment_entries o p amount
          (concat "Partial payment of bill " (concat b.bill_number " — reduce AP"))
          (concat "Partial payment of bill " (concat b.bill_number " — cash out")))

  -- What the ledger answered, with the change of the bill on success.
  abbrev pub settled :
      Uuid
      → ApProcessor M
      → (Transaction M → ApBill M)
      → Result LedgerError (Transaction M) × Ledger M
      → Result AccountsPayableError (ApBill M) × ApProcessor M
  settled bill_id p change (ok recorded, l) = (
    ok (change recorded),
    record p {
      bills = modify_first (has_id bill_id) (λ _. change recorded) p.bills;
      ledger = some l;
    },
  )
  settled bill_id p change (err x, l) = (err (ledger_error x), record p { ledger = some l })

module _ {M : Type 0} ⦃d : Decimal M⦄ where
  open d use {dec_0, add}

  -- The bill after `pay_bill`.
  abbrev pub paid_in_full : DateTime → ApBill M → Transaction M → ApBill M
  paid_in_full now b recorded = record b {
    paid_amount = b.amount;
    status = ApBillStatus.paid;
    payment_transaction_id = some recorded.id;
    updated_at = now;
  }

  unfoldable pub pay_bill : Outside → Uuid → Method M (ApBill M)
  pay_bill o bill_id p = elim p.ledger [
    | none ↦ (err (ledger_message "No ledger configured"), p)
    | some l ↦ elim (find_bill bill_id p) [
      | none ↦ (err (bill_not_found bill_id), p)
      | some b ↦
          if status_eq b.status ApBillStatus.paid
          then (err (invalid_state "already paid"), p)
          else if status_eq b.status ApBillStatus.void
          then (err (invalid_state "void"), p)
          else settled bill_id p (paid_in_full o.now b)
              (record_transaction (after_draws 3 o) (payment_transaction o b p) l)
    ]
  ]

  -- The bill after `pay_bill_partial`.
  abbrev pub paid_in_part : DateTime → ApBill M → M → Transaction M → ApBill M
  paid_in_part now b amount recorded = record b {
    paid_amount = add b.paid_amount amount;
    status = if dec_le b.amount (add b.paid_amount amount) then ApBillStatus.paid else b.status;
    payment_transaction_id = some recorded.id;
    updated_at = now;
  }

  unfoldable pub pay_bill_partial : Outside → String → Uuid → M → Method M (ApBill M)
  pay_bill_partial o shown bill_id amount p = elim p.ledger [
    | none ↦ (err (ledger_message "No ledger configured"), p)
    | some l ↦ elim (find_bill bill_id p) [
      | none ↦ (err (bill_not_found bill_id), p)
      | some b ↦
          if status_eq b.status ApBillStatus.paid
          then (err (invalid_state "already paid"), p)
          else if status_eq b.status ApBillStatus.void
          then (err (invalid_state "void"), p)
          else if dec_le amount dec_0
          then (err (other "Payment amount must be positive"), p)
          else if dec_lt (remaining_balance b) amount
          then (err (invalid_state "Payment exceeds remaining balance"), p)
          else settled bill_id p (paid_in_part o.now b amount)
              (record_transaction (after_draws 3 o) (partial_transaction o shown b amount p) l)
    ]
  ]
