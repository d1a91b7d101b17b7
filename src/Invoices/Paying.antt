-- ===== src/Invoices/Paying.antt =====
-- Payments for invoices, and cancelling them (RichdaleAccounting/nexus-core/src/accounting/invoice.rs).
use Prim.Native.String.{◌++◌ as concat}
use rich_aim_acct_inv.Prelude.{
  Option, none, some, List, [], ◌∷◌, String, Result, ok, err, if◌then◌else◌,
}
use rich_aim_acct_inv.Prelude.OrdMap.{get?, modify}
use rich_aim_acct_inv.Money.{Decimal, dec_le, dec_lt}
use rich_aim_acct_inv.Financial.{
  Uuid, DateTime, EntryType, TransactionEntry, new_entry, Transaction, TransactionType, Account,
}
use rich_aim_acct_inv.Ledger.{Ledger, LedgerError, Outside, get_account_by_number}
use rich_aim_acct_inv.Invoices.Defs.{
  Invoice, InvoiceStatus, InvoiceProcessor, InvoiceError, Method, both, is_closed,
  invoice_not_found, invalid_state, payment_error,
}
use rich_aim_acct_inv.Invoices.Creating.{typed_transaction, hand_in}

module _ {M : Type 0} ⦃d : Decimal M⦄ where
  open d use {dec_0, add, sub}

  -- What of a payment goes to the invoice, and what is left over.
  abbrev pub applied_amount : Invoice M → M → M
  applied_amount i amount =
      let remaining : M = sub i.total i.amount_paid in
      if dec_le amount remaining then amount else remaining

  abbrev pub overage : Invoice M → M → M
  overage i amount = sub amount (applied_amount i amount)

  -- The invoice with the payment applied.
  abbrev pub apply_payment : DateTime → M → Invoice M → Invoice M
  apply_payment now amount i = record i {
    amount_paid = add i.amount_paid (applied_amount i amount);
    status =
        if dec_le i.total (add i.amount_paid (applied_amount i amount))
        then InvoiceStatus.paid
        else InvoiceStatus.partially_paid;
    updated_at = now;
  }

  abbrev pub deposit_entry : Uuid → Invoice M → M → Option (Account M) → List (TransactionEntry M)
  deposit_entry id i amount none = []
  deposit_entry id i amount (some deposits) =
      new_entry id deposits.id EntryType.credit (overage i amount)
        (concat "Overpayment credit for invoice " i.invoice_number)
      ∷ []

  -- Cash is debited; accounts receivable and, for an overpayment, account 2010 are credited.
  unfoldable pub payment_entries :
      Outside
      → String
      → Invoice M
      → M
      → Account M
      → Account M
      → Option (Account M)
      → List (TransactionEntry M)
  payment_entries o reference i amount ar cash deposits =
      new_entry (o.fresh 0) cash.id EntryType.debit amount
        (concat "Payment for invoice " (concat i.invoice_number (concat " - " reference)))
      ∷ new_entry (o.fresh 1) ar.id EntryType.credit (applied_amount i amount)
          (concat "Payment applied to " i.invoice_number)
      ∷ (if dec_lt dec_0 (overage i amount)
          then deposit_entry (o.fresh 2) i amount deposits
          else [])

  unfoldable pub payment_transaction :
      Outside → DateTime → String → Invoice M → M → Account M → Account M → Ledger M → Transaction M
  unfolding payment_entries
  payment_transaction o payment_date reference i amount ar cash l =
      typed_transaction o TransactionType.payment (concat "Payment for invoice " i.invoice_number)
        payment_date (payment_entries o reference i amount ar cash (get_account_by_number "2010" l))

  -- The invoice after the ledger answered; a refusal is only logged.
  abbrev pub linked_if_recorded :
      Invoice M → Result LedgerError (Transaction M) × Ledger M → Invoice M × Option (Ledger M)
  linked_if_recorded i (ok recorded, l) = (record i { transaction_id = some recorded.id }, some l)
  linked_if_recorded i (err x, l) = (i, some l)

  unfoldable pub enter_payment :
      Outside
      → DateTime
      → String
      → Invoice M
      → M
      → Option (Ledger M)
      → Invoice M × Option (Ledger M)
  unfolding payment_transaction
  enter_payment o payment_date reference i amount none = (apply_payment o.now amount i, none)
  enter_payment o payment_date reference i amount (some l) =
      elim (both (get_account_by_number "1020" l) (get_account_by_number "1000" l)) [
        | none ↦ (apply_payment o.now amount i, some l)
        | some (ar, cash) ↦
            linked_if_recorded (apply_payment o.now amount i)
              (hand_in o (payment_transaction o payment_date reference i amount ar cash l) l)
      ]

  -- The invoice and the ledger are written back.
  abbrev pub written :
      Uuid
      → Invoice M × Option (Ledger M)
      → InvoiceProcessor M
      → Result InvoiceError (Invoice M) × InvoiceProcessor M
  written id (i, l) p = (ok i, record p { invoices = modify id (λ _. i) p.invoices; ledger = l })

  -- `payment_date` is the payment's date at midnight.
  unfoldable pub process_payment : Outside → Uuid → M → DateTime → String → Method M (Invoice M)
  unfolding enter_payment
  process_payment o invoice_id amount payment_date reference p = elim (get? invoice_id p.invoices) [
    | none ↦ (err (invoice_not_found invoice_id), p)
    | some i ↦
        if is_closed i.status
        then (err (invalid_state "Cannot process payment for invoice" i.status), p)
        else if dec_le amount dec_0
        then (err (payment_error "Payment amount must be positive"), p)
        else written invoice_id (enter_payment o payment_date reference i amount p.ledger) p
  ]

  -- The reversal of `cancel_invoice`: revenue is debited and accounts receivable credited.
  unfoldable pub cancel_entries :
      Outside → Invoice M → Account M → Account M → List (TransactionEntry M)
  cancel_entries o i ar revenue =
      new_entry (o.fresh 0) revenue.id EntryType.debit i.subtotal
        (concat "Cancel invoice " i.invoice_number)
      ∷ new_entry (o.fresh 1) ar.id EntryType.credit i.total
          (concat "Cancel invoice " i.invoice_number)
      ∷ []

  unfoldable pub cancel_transaction : Outside → Invoice M → Account M → Account M → Transaction M
  unfolding cancel_entries
  cancel_transaction o i ar revenue =
      typed_transaction o TransactionType.adjustment (concat "Cancel invoice " i.invoice_number)
        o.now (cancel_entries o i ar revenue)

  unfoldable pub enter_cancellation : Outside → Invoice M → Option (Ledger M) → Option (Ledger M)
  unfolding cancel_transaction
  enter_cancellation o i none = none
  enter_cancellation o i (some l) =
      elim (both (get_account_by_number "1020" l) (get_account_by_number "4000" l)) [
        | none ↦ some l
        | some (ar, revenue) ↦ some ((hand_in o (cancel_transaction o i ar revenue) l).1)
      ]

  abbrev pub cancelled_at : DateTime → Invoice M → Invoice M
  cancelled_at now i = record i { status = InvoiceStatus.cancelled; updated_at = now }

  unfoldable pub cancel_invoice : Outside → Uuid → Method M (Invoice M)
  unfolding enter_cancellation
  cancel_invoice o invoice_id p = elim (get? invoice_id p.invoices) [
    | none ↦ (err (invoice_not_found invoice_id), p)
    | some i ↦
        if is_closed i.status
        then (err (invalid_state "Cannot cancel invoice" i.status), p)
        else written invoice_id (cancelled_at o.now i, enter_cancellation o i p.ledger) p
  ]
