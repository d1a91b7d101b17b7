-- ===== src/Invoices/Cases.antt =====
-- How each call on the processor can leave it: as it was, or with the invoice written back and the
-- ledger's answer (RichdaleAccounting/nexus-core/src/accounting/invoice.rs).
use rich_aim_acct_inv.Prelude.{
  ◌≡◌, inl, inr, false, Option, none, some, List, String, Bool-cases, Option-cases, Result, ok, err,
}
use rich_aim_acct_inv.Prelude.OrdMap.{get?}
use rich_aim_acct_inv.Money.{Decimal, dec_le}
use rich_aim_acct_inv.Financial.{Uuid, DateTime, NaiveDate, Transaction}
use rich_aim_acct_inv.Ledger.{
  Ledger, LedgerError, Outside, record_transaction, get_account_by_number,
}
use rich_aim_acct_inv.Invoices.{
  Invoice, InvoiceItem, InvoiceError, InvoiceProcessor, InvoiceStatus, is_closed, both,
  sent_if_recorded, enter_invoice, linked_if_recorded, apply_payment, enter_payment, written,
  process_payment, enter_cancellation, cancelled_at, cancel_invoice, create_invoice,
}

-- Every way to use the processor.
pub data Call (M : Type 0) : Type 0 where
  creates :
      Outside → String → String → NaiveDate → List (InvoiceItem M) → String → Option M → Call M
  takes : Outside → Uuid → M → DateTime → String → Call M
  cancels : Outside → Uuid → Call M

abbrev pub outcome :
    {M : Type 0} ⦃d : Decimal M⦄
    → Call M
    → InvoiceProcessor M
    → Result InvoiceError (Invoice M) × InvoiceProcessor M
outcome (creates o name email due items notes rate) p =
    create_invoice o name email due items notes rate p
outcome (takes o id amount date reference) p = process_payment o id amount date reference p
outcome (cancels o id) p = cancel_invoice o id p

-- The ledger as a call can leave it: one transaction has been handed in, at most.
pub data Handed (M : Type 0) ⦃d : Decimal M⦄ : Option (Ledger M) → Option (Ledger M) → Type 0 where
  kept : {l : Option (Ledger M)} → Handed M l l
  handed :
      {l : Ledger M} (o : Outside) (t : Transaction M)
      → Handed M (some l) (some (record_transaction o t l).1)

module _ {M : Type 0} ⦃d : Decimal M⦄ where
  linked_cases :
      (Q : Invoice M → Option (Ledger M) → Type 0) (i : Invoice M)
      (r : Result LedgerError (Transaction M) × Ledger M)
      → ((n : Option Uuid) → Q (record i { transaction_id = n }) (some r.1))
      → Q (linked_if_recorded i r).0 (linked_if_recorded i r).1
  linked_cases Q i (ok t, l) k = k (some t.id)
  linked_cases Q i (err x, l) k = k i.transaction_id

  pub enter_payment_cases :
      (Q : Invoice M → Option (Ledger M) → Type 0) (o : Outside) (date : DateTime)
      (reference : String) (i : Invoice M) (amount : M) (l : Option (Ledger M))
      → ((n : Option Uuid) (l' : Option (Ledger M))
          → Handed M l l'
          → Q (record (apply_payment o.now amount i) { transaction_id = n }) l')
      → Q
          (enter_payment o date reference i amount l).0
          (enter_payment o date reference i amount l).1
  unfolding enter_payment
  enter_payment_cases Q o date reference i amount none k = k i.transaction_id none Handed.kept
  enter_payment_cases Q o date reference i amount (some l) k =
      elim (Option-cases (both (get_account_by_number "1020" l) (get_account_by_number "1000" l))) [
        | inl e ↦ rw (e, enter_payment) (k i.transaction_id (some l) Handed.kept)
        | inr (_, e) ↦
            rw (e, enter_payment)
              (linked_cases Q (apply_payment o.now amount i) _ (λ n. k n _ (Handed.handed _ _)))
      ]

  sent_cases :
      (Q : Invoice M → Option (Ledger M) → Type 0) (i : Invoice M)
      (r : Result LedgerError (Transaction M) × Ledger M)
      → Q i (some r.1)
      → ((n : Option Uuid)
          → Q (record i { transaction_id = n; status = InvoiceStatus.sent }) (some r.1))
      → Q (sent_if_recorded i r).0 (sent_if_recorded i r).1
  sent_cases Q i (ok t, l) h k = k (some t.id)
  sent_cases Q i (err x, l) h k = h

  pub enter_invoice_cases :
      (Q : Invoice M → Option (Ledger M) → Type 0) (o : Outside) (i : Invoice M)
      (l : Option (Ledger M))
      → ((l' : Option (Ledger M)) → Handed M l l' → Q i l')
      → ((n : Option Uuid) (l' : Option (Ledger M))
          → Handed M l l'
          → Q (record i { transaction_id = n; status = InvoiceStatus.sent }) l')
      → Q (enter_invoice o i l).0 (enter_invoice o i l).1
  unfolding enter_invoice
  enter_invoice_cases Q o i none h k = h none Handed.kept
  enter_invoice_cases Q o i (some l) h k =
      elim (Option-cases (both (get_account_by_number "1020" l) (get_account_by_number "4000" l))) [
        | inl e ↦ rw (e, enter_invoice) (h (some l) Handed.kept)
        | inr (_, e) ↦
            rw (e, enter_invoice)
              (sent_cases Q i _ (h _ (Handed.handed _ _)) (λ n. k n _ (Handed.handed _ _)))
      ]

  pub enter_cancellation-Handed :
      (o : Outside) (i : Invoice M) (l : Option (Ledger M)) → Handed M l (enter_cancellation o i l)
  unfolding enter_cancellation
  enter_cancellation-Handed o i none = Handed.kept
  enter_cancellation-Handed o i (some l) =
      elim (Option-cases (both (get_account_by_number "1020" l) (get_account_by_number "4000" l))) [
        | inl e ↦ rw (e, enter_cancellation) Handed.kept
        | inr (_, e) ↦ rw (e, enter_cancellation) (Handed.handed _ _)
      ]

module _ {M : Type 0} ⦃d : Decimal M⦄
    (Q : Result InvoiceError (Invoice M) × InvoiceProcessor M → Type 0)
    (p : InvoiceProcessor M) where
  open d use {dec_0}

  pub process_payment_cases :
      (o : Outside) (id : Uuid) (amount : M) (date : DateTime) (reference : String)
      → ((x : InvoiceError) → Q (err x, p))
      → ((i : Invoice M)
          → get? id p.invoices ≡ some i
          → is_closed i.status ≡ false
          → dec_le amount dec_0 ≡ false
          → Q (written id (enter_payment o date reference i amount p.ledger) p))
      → Q (process_payment o id amount date reference p)
  unfolding process_payment
  process_payment_cases o id amount date reference same done =
      elim (Option-cases (get? id p.invoices)) [
        | inl e ↦ rw (e, process_payment) (same _)
        | inr (i, e) ↦ elim (Bool-cases (is_closed i.status)) [
          | inl closed ↦ rw (e, process_payment, closed) (same _)
          | inr is_open ↦ elim (Bool-cases (dec_le amount dec_0)) [
            | inl bad ↦ rw (e, process_payment, is_open, bad) (same _)
            | inr good ↦ rw (e, process_payment, is_open, good) (done i e is_open good)
          ]
        ]
      ]

  pub cancel_invoice_cases :
      (o : Outside) (id : Uuid)
      → ((x : InvoiceError) → Q (err x, p))
      → ((i : Invoice M)
          → get? id p.invoices ≡ some i
          → is_closed i.status ≡ false
          → Q (written id (cancelled_at o.now i, enter_cancellation o i p.ledger) p))
      → Q (cancel_invoice o id p)
  unfolding cancel_invoice
  cancel_invoice_cases o id same done = elim (Option-cases (get? id p.invoices)) [
    | inl e ↦ rw (e, cancel_invoice) (same _)
    | inr (i, e) ↦ elim (Bool-cases (is_closed i.status)) [
      | inl closed ↦ rw (e, cancel_invoice, closed) (same _)
      | inr is_open ↦ rw (e, cancel_invoice, is_open) (done i e is_open)
    ]
  ]
