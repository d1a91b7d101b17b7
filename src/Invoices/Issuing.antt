-- ===== src/Invoices/Issuing.antt =====
-- What creating and cancelling invoices posts to the ledger
-- (RichdaleAccounting/nexus-core/src/accounting/invoice.rs).
use rich_aim_acct_inv.Prelude.{
  ℕ, ◌+◌, ◌≡◌, refl, ap, ◌∙◌, inl, inr, false, Option, some, List, map, length, Bool-cases, All,
  String,
}
use rich_aim_acct_inv.Prelude.Int.{pos, ◌+ℤ◌, ◌≤ℤ◌, int_laws, parts_of}
use rich_aim_acct_inv.Prelude.OrdMap.{get?}
use rich_aim_acct_inv.Money.{Decimal, dec_lt, dec_lt-false, zero_parts, sum}
use rich_aim_acct_inv.Financial.{Uuid, NaiveDate, Account, new_entry, Transaction, new_transaction}
use rich_aim_acct_inv.Ledger.{Ledger, Outside, after_draws}
use rich_aim_acct_inv.Ledger.Validity.{Usable, Postable, debits, credits}
use rich_aim_acct_inv.Ledger.Outcome.{Acceptable, after_posting, record_transaction_outcome}
use rich_aim_acct_inv.Invoices.{
  Invoice, InvoiceItem, InvoiceStatus, InvoiceProcessor, new_invoice, tax_on, invoice_entries,
  invoice_transaction, enter_invoice, created, create_invoice, cancel_entries, cancel_transaction,
  enter_cancellation, cancelled_at, cancel_invoice, is_closed, written,
}
use rich_aim_acct_inv.Invoices.Postings.{cancel_invoice_open}

module _ {M : Type 0} ⦃d : Decimal M⦄ where
  open d use {value, dec_0}

  -- The amounts of an invoice that add up, with a tax that is not negative.
  pub record AddsUp (i : Invoice M) : Type 0 where
    pub adds_up : value i.total ≡ value i.subtotal +ℤ value i.tax_amount
    pub tax_nonneg : pos 0 ≤ℤ value i.tax_amount

  invoice_entries-Acceptable :
      (o : Outside) (i : Invoice M) (l : Ledger M) (ar revenue tax : Account M)
      → AddsUp i
      → Usable l "1020" ar
      → Usable l "4000" revenue
      → Usable l "2020" tax
      → (debits (invoice_entries o i ar revenue (some tax))
          ≡ credits (invoice_entries o i ar revenue (some tax)))
        × All (Postable l.accounts) (invoice_entries o i ar revenue (some tax))
  unfolding invoice_entries new_entry
  invoice_entries-Acceptable o i l ar revenue tax h a r t =
      elim (Bool-cases (dec_lt dec_0 i.tax_amount)) [
        | inl taxed ↦ rw taxed (
          omega (int_laws, parts_of h.adds_up),
          (
            (ar, a.stored, a.active),
            ((revenue, r.stored, r.active), ((tax, t.stored, t.active), tt)),
          ),
        )
        | inr untaxed ↦ rw untaxed (
          omega (
            int_laws,
            parts_of h.adds_up,
            h.tax_nonneg,
            dec_lt-false dec_0 i.tax_amount untaxed,
            zero_parts d,
          ),
          ((ar, a.stored, a.active), ((revenue, r.stored, r.active), tt)),
        )
      ]

  invoice-Acceptable :
      (o o' : Outside) (i : Invoice M) (l : Ledger M) (ar revenue tax : Account M)
      → AddsUp i
      → Usable l "1020" ar
      → Usable l "4000" revenue
      → Usable l "2020" tax
      → Acceptable o' (invoice_transaction o i ar revenue l) l
  unfolding invoice_transaction new_transaction
  invoice-Acceptable o o' i l ar revenue tax h a r t =
      rw t.found (invoice_entries-Acceptable o i l ar revenue tax h a r t)

  -- Entering an invoice whose tax is not negative, over a ledger that has the accounts 1020, 4000 and
  -- 2020, active: its transaction is recorded in full, and the invoice is sent and has its id.
  pub enter_invoice_posts :
      (o : Outside) (i : Invoice M) (l : Ledger M) (ar revenue tax : Account M)
      → AddsUp i
      → Usable l "1020" ar
      → Usable l "4000" revenue
      → Usable l "2020" tax
      → (let t : Transaction M = invoice_transaction o i ar revenue l in
          enter_invoice o i (some l) ≡ (
            record i { transaction_id = some t.id; status = InvoiceStatus.sent },
            some (after_posting (after_draws (length t.entries + 1) o) t l),
          ))
  unfolding enter_invoice
  enter_invoice_posts o i l ar revenue tax h a r x =
      let t : Transaction M = invoice_transaction o i ar revenue l in
      let o' = after_draws (length t.entries + 1) o in
      let done =
        (record_transaction_outcome o' t l).0
          (invoice-Acceptable o o' i l ar revenue tax h a r x) in
      rw (a.found, r.found, done, enter_invoice) refl

  new_invoice-AddsUp :
      (o : Outside) (n : ℕ) (name email : String) (due : NaiveDate) (items : List (InvoiceItem M))
      (notes : String) (rate : Option M)
      → pos 0 ≤ℤ value (tax_on (sum (map (λ i. i.amount) items)) rate)
      → AddsUp (new_invoice o n name email due items notes rate)
  unfolding new_invoice
  new_invoice-AddsUp o n name email due items notes rate h = record {
    adds_up =
        d.value-add (sum (map (λ i. i.amount) items))
          (tax_on (sum (map (λ i. i.amount) items)) rate);
    tax_nonneg = h;
  }

  -- Creating an invoice whose tax is not negative, with a ledger that has the accounts 1020, 4000 and
  -- 2020, active: the receivable, the revenue and the tax are recorded as one transaction, and the
  -- invoice is returned and stored as sent, with the transaction's id; its number is used up.
  pub create_invoice_posts :
      (o : Outside) (name email : String) (due : NaiveDate) (items : List (InvoiceItem M))
      (notes : String) (rate : Option M) (p : InvoiceProcessor M) (l : Ledger M)
      (ar revenue tax : Account M)
      → p.ledger ≡ some l
      → pos 0 ≤ℤ value (tax_on (sum (map (λ i. i.amount) items)) rate)
      → Usable l "1020" ar
      → Usable l "4000" revenue
      → Usable l "2020" tax
      → (let i : Invoice M =
            new_invoice o p.current_invoice_number name email due items notes rate in
          let t : Transaction M = invoice_transaction (after_draws 1 o) i ar revenue l in
          create_invoice o name email due items notes rate p
          ≡ created
              (
                record i { transaction_id = some t.id; status = InvoiceStatus.sent },
                some (after_posting (after_draws (length t.entries + 1) (after_draws 1 o)) t l),
              )
              p)
  unfolding create_invoice
  create_invoice_posts o name email due items notes rate p l ar revenue tax e h a r x =
      let i = new_invoice o p.current_invoice_number name email due items notes rate in
      ap (λ y. created y p)
        (ap (enter_invoice (after_draws 1 o) i) e
          ∙ enter_invoice_posts (after_draws 1 o) i l ar revenue tax
              (new_invoice-AddsUp o p.current_invoice_number name email due items notes rate h) a r
              x)

  cancel-Acceptable :
      (o o' : Outside) (i : Invoice M) (l : Ledger M) (ar revenue : Account M)
      → value i.total ≡ value i.subtotal
      → Usable l "1020" ar
      → Usable l "4000" revenue
      → Acceptable o' (cancel_transaction o i ar revenue) l
  unfolding cancel_transaction cancel_entries new_entry new_transaction
  cancel-Acceptable o o' i l ar revenue h a r = (
    omega (int_laws, parts_of h),
    ((revenue, r.stored, r.active), ((ar, a.stored, a.active), tt)),
  )

  enter_cancellation_posts :
      (o : Outside) (i : Invoice M) (l : Ledger M) (ar revenue : Account M)
      → value i.total ≡ value i.subtotal
      → Usable l "1020" ar
      → Usable l "4000" revenue
      → (let t : Transaction M = cancel_transaction o i ar revenue in
          enter_cancellation o i (some l)
          ≡ some (after_posting (after_draws (length t.entries + 1) o) t l))
  unfolding enter_cancellation
  enter_cancellation_posts o i l ar revenue h a r =
      let t : Transaction M = cancel_transaction o i ar revenue in
      let o' = after_draws (length t.entries + 1) o in
      let done =
        (record_transaction_outcome o' t l).0 (cancel-Acceptable o o' i l ar revenue h a r) in
      rw (a.found, r.found, done, enter_cancellation) refl

  -- Cancelling an open invoice without tax, with a ledger that has the accounts 1020 and 4000, active:
  -- the reversal of the whole total is recorded, also of what has been paid already, and the invoice is
  -- returned and stored as cancelled.
  cancel_invoice_untaxed :
      (o : Outside) (id : Uuid) (p : InvoiceProcessor M) (l : Ledger M) (i : Invoice M)
      (ar revenue : Account M)
      → p.ledger ≡ some l
      → get? id p.invoices ≡ some i
      → is_closed i.status ≡ false
      → value i.total ≡ value i.subtotal
      → Usable l "1020" ar
      → Usable l "4000" revenue
      → (let t : Transaction M = cancel_transaction o i ar revenue in
          cancel_invoice o id p
          ≡ written id
              (
                cancelled_at o.now i,
                some (after_posting (after_draws (length t.entries + 1) o) t l),
              )
              p)
  cancel_invoice_untaxed o id p l i ar revenue e found is_open h a r =
      cancel_invoice_open o id p i found is_open
      ∙ ap (λ k. written id (cancelled_at o.now i, k) p)
          (ap (enter_cancellation o i) e ∙ enter_cancellation_posts o i l ar revenue h a r)
