-- ===== src/Invoices/Creating.antt =====
-- Creating invoices (RichdaleAccounting/nexus-core/src/accounting/invoice.rs). The ids that a call
-- draws are numbered in the order of the draws.
use Prim.Native.String.{◌++◌ as concat}
use rich_aim_acct_inv.Prelude.{
  ℕ, ◌+◌, Option, none, some, List, [], ◌∷◌, map, String, length, Result, ok, err, if◌then◌else◌,
}
use rich_aim_acct_inv.Prelude.OrdMap.{insert}
use rich_aim_acct_inv.Prelude.Text.{format_08}
use rich_aim_acct_inv.Money.{Decimal, sum, dec_lt}
use rich_aim_acct_inv.Financial.{
  Uuid, DateTime, NaiveDate, EntryType, TransactionEntry, new_entry, Transaction, new_transaction,
  TransactionType, Account,
}
use rich_aim_acct_inv.Ledger.{
  Ledger, LedgerError, Outside, after_draws, get_account_by_number, record_transaction,
}
use rich_aim_acct_inv.Invoices.Defs.{
  Invoice, InvoiceItem, InvoiceStatus, InvoiceProcessor, InvoiceError, Method, both,
}

module _ {M : Type 0} where
  -- `Transaction { transaction_type, ..Transaction::new(..) }`; its id is drawn after those of the
  -- entries.
  abbrev pub typed_transaction :
      Outside → TransactionType → String → DateTime → List (TransactionEntry M) → Transaction M
  typed_transaction o ty description date entries =
      record (new_transaction (o.fresh (length entries)) o.now description date entries) {
        transaction_type = ty;
      }

  -- Handing it to the ledger, which draws its ids later.
  abbrev pub hand_in :
      ⦃d : Decimal M⦄
      → Outside
      → Transaction M
      → Ledger M
      → Result LedgerError (Transaction M) × Ledger M
  hand_in o t l = record_transaction (after_draws (length t.entries + 1) o) t l

  -- The invoice after the ledger answered: it is sent if its transaction has been recorded.
  abbrev pub sent_if_recorded :
      Invoice M → Result LedgerError (Transaction M) × Ledger M → Invoice M × Option (Ledger M)
  sent_if_recorded i (ok recorded, l) =
      (record i { transaction_id = some recorded.id; status = InvoiceStatus.sent }, some l)
  sent_if_recorded i (err x, l) = (i, some l)

module _ {M : Type 0} ⦃d : Decimal M⦄ where
  open d use {dec_0, add, mul}

  abbrev pub tax_on : M → Option M → M
  tax_on subtotal none = dec_0
  tax_on subtotal (some rate) = if dec_lt dec_0 rate then mul subtotal rate else dec_0

  -- The invoice before its transaction is recorded.
  unfoldable pub new_invoice :
      Outside
      → ℕ
      → String
      → String
      → NaiveDate
      → List (InvoiceItem M)
      → String
      → Option M
      → Invoice M
  new_invoice o number customer_name customer_email due_date items notes tax_rate =
      let subtotal : M = sum (map (λ i. i.amount) items) in
      record {
        id = o.fresh 0;
        invoice_number = concat "INV-" (format_08 number);
        customer_name = customer_name;
        customer_email = customer_email;
        issue_date = o.date_naive o.now;
        due_date = due_date;
        items = items;
        subtotal = subtotal;
        tax_amount = tax_on subtotal tax_rate;
        total = add subtotal (tax_on subtotal tax_rate);
        amount_paid = dec_0;
        status = InvoiceStatus.draft;
        notes = notes;
        transaction_id = none;
        created_at = o.now;
        updated_at = o.now;
      }

  abbrev pub tax_entry : Uuid → Invoice M → Option (Account M) → List (TransactionEntry M)
  tax_entry id i none = []
  tax_entry id i (some tp) =
      new_entry id tp.id EntryType.credit i.tax_amount
        (concat "Sales tax for invoice " i.invoice_number)
      ∷ []

  -- Accounts receivable is debited; revenue and, if there is tax, account 2020 are credited.
  unfoldable pub invoice_entries :
      Outside → Invoice M → Account M → Account M → Option (Account M) → List (TransactionEntry M)
  invoice_entries o i ar revenue tax_payable =
      new_entry (o.fresh 0) ar.id EntryType.debit i.total
        (concat "Invoice " (concat i.invoice_number (concat " — " i.customer_name)))
      ∷ new_entry (o.fresh 1) revenue.id EntryType.credit i.subtotal
          (concat "Revenue for invoice " i.invoice_number)
      ∷ (if dec_lt dec_0 i.tax_amount then tax_entry (o.fresh 2) i tax_payable else [])

  unfoldable pub invoice_transaction :
      Outside → Invoice M → Account M → Account M → Ledger M → Transaction M
  unfolding invoice_entries
  invoice_transaction o i ar revenue l =
      typed_transaction o TransactionType.invoice (concat "Invoice " i.invoice_number) o.now
        (invoice_entries o i ar revenue (get_account_by_number "2020" l))

  -- The invoice is entered in the ledger, if there is one with the two accounts.
  unfoldable pub enter_invoice :
      Outside → Invoice M → Option (Ledger M) → Invoice M × Option (Ledger M)
  unfolding invoice_transaction
  enter_invoice o i none = (i, none)
  enter_invoice o i (some l) =
      elim (both (get_account_by_number "1020" l) (get_account_by_number "4000" l)) [
        | none ↦ (i, some l)
        | some (ar, revenue) ↦
            sent_if_recorded i (hand_in o (invoice_transaction o i ar revenue l) l)
      ]

  abbrev pub created :
      Invoice M × Option (Ledger M)
      → InvoiceProcessor M
      → Result InvoiceError (Invoice M) × InvoiceProcessor M
  created (i, l) p = (
    ok i,
    record p {
      invoices = insert i.id i p.invoices;
      current_invoice_number = p.current_invoice_number + 1;
      ledger = l;
    },
  )

  unfoldable pub create_invoice :
      Outside
      → String
      → String
      → NaiveDate
      → List (InvoiceItem M)
      → String
      → Option M
      → Method M (Invoice M)
  unfolding new_invoice enter_invoice
  create_invoice o customer_name customer_email due_date items notes tax_rate p =
      created
        (enter_invoice (after_draws 1 o)
          (new_invoice o p.current_invoice_number customer_name customer_email due_date items notes
            tax_rate)
          p.ledger)
        p
