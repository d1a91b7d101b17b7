-- ===== src/Ap/Entering.antt =====
-- Setting the processor up and entering bills (RichdaleAccounting/nexus-core/src/accounting/ap.rs).
use Prim.Native.String.{◌++◌ as concat}
use rich_aim_acct_inv.Prelude.{
  ℕ, suc, ◌+◌, ◌||◌, not, Option, none, some, List, [], ◌∷◌, ◌++◌, String, length, Result, ok, err,
  modify_first, if◌then◌else◌,
}
use rich_aim_acct_inv.Money.{Decimal, dec_le}
use rich_aim_acct_inv.Financial.{
  Uuid, DateTime, NaiveDate, EntryType, TransactionEntry, new_entry, Transaction, TransactionType,
  TransactionStatus, Account,
}
use rich_aim_acct_inv.Ledger.{
  Ledger, LedgerError, Outside, after_draws, get_account_by_number, record_transaction,
}
use rich_aim_acct_inv.Ap.Defs.{
  ApBill, ApBillLine, ApBillStatus, ApProcessor, AccountsPayableError, bill_not_found,
  invalid_state, other, ledger_message, ledger_error, Method, status_eq, has_id, find_bill,
}

module _ {M : Type 0} where
  -- The two lookups of `initialize`, the second with the first already written.
  abbrev pub set_cash : Option (Account M) → Method M (Unit {0})
  set_cash none p = (err (ledger_message "Cash account (1000) not found in chart of accounts"), p)
  set_cash (some cash) p = (ok tt, record p { cash_account_id = cash.id })

  abbrev pub set_accounts : Option (Account M) → Option (Account M) → Method M (Unit {0})
  set_accounts none cash p =
      (err (ledger_message "AP account (2000) not found in chart of accounts"), p)
  set_accounts (some ap) cash p = set_cash cash (record p { ap_account_id = ap.id })

  -- `ApProcessor::initialize`
  unfoldable pub initialize : Method M (Unit {0})
  initialize p = elim p.ledger [
    | none ↦ (ok tt, p)
    | some l ↦ set_accounts (get_account_by_number "2000" l) (get_account_by_number "1000" l) p
  ]

  -- One debit for each line of the bill.
  unfoldable pub line_entries :
      Outside → ℕ → String → List (ApBillLine M) → List (TransactionEntry M)
  line_entries o i bill_number [] = []
  line_entries o i bill_number (line ∷ lines) =
      new_entry (o.fresh i) line.account_id EntryType.debit line.amount
        (concat "Bill " (concat bill_number (concat " — " line.description)))
      ∷ line_entries o (suc i) bill_number lines

  -- What all transactions of this module share.
  abbrev pub ap_transaction :
      Uuid → DateTime → String → String → List (TransactionEntry M) → Transaction M
  ap_transaction id now number description entries = record {
    id = id;
    number = number;
    description = description;
    date = now;
    transaction_type = TransactionType.journal_entry;
    status = TransactionStatus.pending;
    entries = entries;
    journal_entry_id = none;
    document_ids = [];
    created_at = now;
    updated_at = now;
  }

  -- The transaction of `enter_bill`: the lines are debited and accounts payable credited.
  unfoldable pub bill_transaction : Outside → ApBill M → ApProcessor M → Transaction M
  unfolding line_entries
  bill_transaction o bill p =
      ap_transaction (o.fresh (length bill.lines + 1)) o.now (concat "AP-" bill.bill_number)
        (concat "AP Bill: " (concat bill.bill_number (concat " — " bill.description)))
        (line_entries o 0 bill.bill_number bill.lines
          ++ new_entry (o.fresh (length bill.lines)) p.ap_account_id EntryType.credit bill.amount
              (concat "Bill " (concat bill.bill_number " — AP liability"))
            ∷ [])

  -- The bill and the processor after `schedule_payment`.
  abbrev pub scheduled_for : DateTime → NaiveDate → ApBill M → ApBill M
  scheduled_for now payment_date b = record b {
    scheduled_payment_date = some payment_date;
    status = ApBillStatus.scheduled;
    updated_at = now;
  }

  abbrev pub after_schedule : DateTime → Uuid → NaiveDate → ApBill M → ApProcessor M → ApProcessor M
  after_schedule now bill_id payment_date b p = record p {
    bills = modify_first (has_id bill_id) (λ _. scheduled_for now payment_date b) p.bills;
  }

  unfoldable pub schedule_payment : DateTime → Uuid → NaiveDate → Method M (ApBill M)
  schedule_payment now bill_id payment_date p = elim (find_bill bill_id p) [
    | none ↦ (err (bill_not_found bill_id), p)
    | some b ↦
        if not
          (status_eq b.status ApBillStatus.approved || status_eq b.status ApBillStatus.scheduled)
        then (err (invalid_state "must be Approved or Scheduled to schedule payment"), p)
        else (ok (scheduled_for now payment_date b), after_schedule now bill_id payment_date b p)
  ]

module _ {M : Type 0} ⦃d : Decimal M⦄ where
  open d use {dec_0}

  -- The end of `enter_bill`, on what the ledger answered.
  abbrev pub entered :
      DateTime
      → ApBill M
      → ApProcessor M
      → Result LedgerError (Transaction M) × Ledger M
      → Result AccountsPayableError (ApBill M) × ApProcessor M
  entered now bill p (ok recorded, l) =
      let bill' : ApBill M = record bill {
        transaction_id = some recorded.id;
        status = ApBillStatus.approved;
        updated_at = now;
      } in
      (ok bill', record p { bills = p.bills ++ bill' ∷ []; ledger = some l })
  entered now bill p (err x, l) = (err (ledger_error x), record p { ledger = some l })

  unfoldable pub enter_bill : Outside → ApBill M → Method M (ApBill M)
  enter_bill o bill p = elim p.ledger [
    | none ↦ (err (ledger_message "No ledger configured"), p)
    | some l ↦
        if dec_le bill.amount dec_0
        then (err (other "Bill amount must be positive"), p)
        else entered o.now bill p (
            record_transaction (after_draws (length bill.lines + 2) o) (bill_transaction o bill p)
              l)
  ]
