-- ===== src/Invoices/Postings.antt =====
-- What the calls on invoices post to the ledger (RichdaleAccounting/nexus-core/src/accounting/invoice.rs).
use rich_aim_acct_inv.Prelude.{
  ◌+◌, ◌≡◌, ◌≢◌, refl, ap, ◌∙◌, inl, inr, false, Option, none, some, length, Bool-cases,
  Option-cases, String, All,
}
use rich_aim_acct_inv.Prelude.Int.{pos, ◌+ℤ◌, int_laws, parts_of, eq_of_parts}
use rich_aim_acct_inv.Prelude.OrdMap.{get?}
use rich_aim_acct_inv.Money.{Decimal, dec_le, dec_lt, dec_lt-false, sub_parts, zero_parts}
use rich_aim_acct_inv.Financial.{Uuid, DateTime, Account, new_entry, Transaction, new_transaction}
use rich_aim_acct_inv.Ledger.{Ledger, Outside, after_draws, get_account_by_number}
use rich_aim_acct_inv.Ledger.Validity.{Usable, Postable, debits, credits}
use rich_aim_acct_inv.Ledger.Outcome.{Acceptable, after_posting, record_transaction_outcome}
use rich_aim_acct_inv.Invoices.{
  Invoice, InvoiceProcessor, both, applied_amount, overage, apply_payment, payment_entries,
  payment_transaction, enter_payment, written, process_payment, cancel_entries, cancel_transaction,
  enter_cancellation, cancelled_at, cancel_invoice, is_closed,
}
use rich_aim_acct_inv.Invoices.Invariant.{IsValid, Applied, amount-Applied}

module _ {M : Type 0} ⦃d : Decimal M⦄ where
  open d use {value, dec_0}

  -- With account 2010, a payment's entries balance at the amount paid.
  payment_entries-balanced :
      (o : Outside) (reference : String) (i : Invoice M) (amount : M) (ar cash deposits : Account M)
      → Applied i amount
      → debits (payment_entries o reference i amount ar cash (some deposits))
        ≡ credits (payment_entries o reference i amount ar cash (some deposits))
  unfolding payment_entries new_entry
  payment_entries-balanced o reference i amount ar cash deposits h =
      elim (Bool-cases (dec_lt dec_0 (overage i amount))) [
        | inl more ↦ rw more (omega (int_laws, sub_parts amount (applied_amount i amount)))
        | inr exact ↦ rw exact (
            omega (
              int_laws,
              sub_parts amount (applied_amount i amount),
              h.at_most_amount,
              dec_lt-false dec_0 (overage i amount) exact,
              zero_parts d,
            ))
      ]

  payment_entries-Postable :
      (o : Outside) (reference : String) (i : Invoice M) (amount : M) (l : Ledger M)
      (ar cash deposits : Account M)
      → Usable l "1020" ar
      → Usable l "1000" cash
      → Usable l "2010" deposits
      → All (Postable l.accounts) (payment_entries o reference i amount ar cash (some deposits))
  unfolding payment_entries new_entry
  payment_entries-Postable o reference i amount l ar cash deposits a c e =
      elim (Bool-cases (dec_lt dec_0 (overage i amount))) [
        | inl more ↦ rw more (
          (cash, c.stored, c.active),
          ((ar, a.stored, a.active), ((deposits, e.stored, e.active), tt)),
        )
        | inr exact ↦ rw exact ((cash, c.stored, c.active), ((ar, a.stored, a.active), tt))
      ]

  payment-Acceptable :
      (o : Outside) (date : DateTime) (reference : String) (i : Invoice M) (amount : M)
      (l : Ledger M) (ar cash deposits : Account M)
      → Applied i amount
      → Usable l "1020" ar
      → Usable l "1000" cash
      → Usable l "2010" deposits
      → (o' : Outside) → Acceptable o' (payment_transaction o date reference i amount ar cash l) l
  unfolding payment_transaction new_transaction
  payment-Acceptable o date reference i amount l ar cash deposits h a c e o' = rw e.found (
    payment_entries-balanced o reference i amount ar cash deposits h,
    payment_entries-Postable o reference i amount l ar cash deposits a c e,
  )

  enter_payment_posts :
      (o : Outside) (date : DateTime) (reference : String) (i : Invoice M) (amount : M)
      (l : Ledger M) (ar cash : Account M)
      → get_account_by_number "1020" l ≡ some ar
      → get_account_by_number "1000" l ≡ some cash
      → ((o' : Outside) → Acceptable o' (payment_transaction o date reference i amount ar cash l) l)
      → (let t : Transaction M = payment_transaction o date reference i amount ar cash l in
          enter_payment o date reference i amount (some l) ≡ (
            record (apply_payment o.now amount i) { transaction_id = some t.id },
            some (after_posting (after_draws (length t.entries + 1) o) t l),
          ))
  unfolding enter_payment
  enter_payment_posts o date reference i amount l ar cash a c accepted =
      let t : Transaction M = payment_transaction o date reference i amount ar cash l in
      let o' = after_draws (length t.entries + 1) o in
      let done = (record_transaction_outcome o' t l).0 (accepted o') in
      rw (a, c, done, enter_payment) refl

  process_payment_open :
      (o : Outside) (id : Uuid) (amount : M) (date : DateTime) (reference : String)
      (p : InvoiceProcessor M) (i : Invoice M)
      → get? id p.invoices ≡ some i
      → is_closed i.status ≡ false
      → dec_le amount dec_0 ≡ false
      → process_payment o id amount date reference p
        ≡ written id (enter_payment o date reference i amount p.ledger) p
  unfolding process_payment
  process_payment_open o id amount date reference p i found is_open positive =
      rw (found, is_open, positive, process_payment) refl

  -- A positive payment on an open invoice, over a ledger that has the accounts 1020, 1000 and 2010,
  -- active: the payment's transaction is recorded in full, with its overpayment if there is one, and
  -- the invoice is returned and stored with the payment applied and the transaction's id.
  pub process_payment_posts :
      (o : Outside) (id : Uuid) (amount : M) (date : DateTime) (reference : String)
      (p : InvoiceProcessor M) (l : Ledger M) (i : Invoice M) (ar cash deposits : Account M)
      → p.ledger ≡ some l
      → get? id p.invoices ≡ some i
      → is_closed i.status ≡ false
      → dec_le amount dec_0 ≡ false
      → IsValid i
      → Usable l "1020" ar
      → Usable l "1000" cash
      → Usable l "2010" deposits
      → (let t : Transaction M = payment_transaction o date reference i amount ar cash l in
          process_payment o id amount date reference p
          ≡ written id
              (
                record (apply_payment o.now amount i) { transaction_id = some t.id },
                some (after_posting (after_draws (length t.entries + 1) o) t l),
              )
              p)
  process_payment_posts o id amount date reference p l i ar cash deposits e found is_open positive v
        a c f =
      let t : Transaction M = payment_transaction o date reference i amount ar cash l in
      let h = amount-Applied amount i positive v.within in
      let posts =
        enter_payment_posts o date reference i amount l ar cash a.found c.found
          (payment-Acceptable o date reference i amount l ar cash deposits h a c f) in
      process_payment_open o id amount date reference p i found is_open positive
      ∙ ap (λ x. written id x p) (ap (enter_payment o date reference i amount) e ∙ posts)

  cancel_unbalanced :
      (o : Outside) (i : Invoice M) (ar revenue : Account M)
      → value i.total ≡ value i.subtotal +ℤ value i.tax_amount
      → value i.tax_amount ≢ pos 0
      → debits (cancel_entries o i ar revenue) ≢ credits (cancel_entries o i ar revenue)
  unfolding cancel_entries new_entry
  cancel_unbalanced o i ar revenue adds taxed h =
      taxed (eq_of_parts (value i.tax_amount) (pos 0) (omega (int_laws, parts_of adds, parts_of h)))

  enter_cancellation_taxed :
      (o : Outside) (i : Invoice M) (l : Option (Ledger M))
      → value i.total ≡ value i.subtotal +ℤ value i.tax_amount
      → value i.tax_amount ≢ pos 0
      → enter_cancellation o i l ≡ l
  unfolding enter_cancellation cancel_transaction new_transaction
  enter_cancellation_taxed o i none adds taxed = refl
  enter_cancellation_taxed o i (some l) adds taxed =
      elim (Option-cases (both (get_account_by_number "1020" l) (get_account_by_number "4000" l))) [
        | inl e ↦ rw (e, enter_cancellation) refl
        | inr ((ar, revenue), e) ↦
            let t : Transaction M = cancel_transaction o i ar revenue in
            let o' = after_draws (length t.entries + 1) o in
            let refused =
              (record_transaction_outcome o' t l).1
                (λ h. cancel_unbalanced o i ar revenue adds taxed h.0) in
            rw (e, enter_cancellation, refused.1) refl
      ]

  pub cancel_invoice_open :
      (o : Outside) (id : Uuid) (p : InvoiceProcessor M) (i : Invoice M)
      → get? id p.invoices ≡ some i
      → is_closed i.status ≡ false
      → cancel_invoice o id p ≡ written id (cancelled_at o.now i, enter_cancellation o i p.ledger) p
  unfolding cancel_invoice
  cancel_invoice_open o id p i found is_open = rw (found, is_open, cancel_invoice) refl

  -- Cancelling an open invoice that bears tax, whatever the ledger: the reversal does not balance, so the
  -- ledger is left as it was, while the invoice is returned and stored as cancelled.
  pub cancel_invoice_taxed :
      (o : Outside) (id : Uuid) (p : InvoiceProcessor M) (i : Invoice M)
      → get? id p.invoices ≡ some i
      → is_closed i.status ≡ false
      → value i.total ≡ value i.subtotal +ℤ value i.tax_amount
      → value i.tax_amount ≢ pos 0
      → cancel_invoice o id p ≡ written id (cancelled_at o.now i, p.ledger) p
  cancel_invoice_taxed o id p i found is_open adds taxed =
      cancel_invoice_open o id p i found is_open
      ∙ ap (λ l. written id (cancelled_at o.now i, l) p)
          (enter_cancellation_taxed o i p.ledger adds taxed)
