-- ===== src/Invoices/Stored.antt =====
-- What a call returns is what it stores (RichdaleAccounting/nexus-core/src/accounting/invoice.rs).
use rich_aim_acct_inv.Prelude.{
  ℕ, ◌≡◌, ◌==◌, sym, ap, refl, ◌∙◌, Option, some, Result, ok, err, arith, if◌then◌else◌, Bool-cases,
  inl, inr, String, List,
}
use rich_aim_acct_inv.Prelude.OrdMap.{get?, get?-insert, get?-modify}
use rich_aim_acct_inv.Money.{Decimal}
use rich_aim_acct_inv.Financial.{Uuid, NaiveDate}
use rich_aim_acct_inv.Ledger.{Outside, after_draws, Ledger}
use rich_aim_acct_inv.Invoices.{
  Invoice, InvoiceError, InvoiceProcessor, new_invoice, enter_invoice, written, created,
  create_invoice, InvoiceItem, enter_payment, enter_cancellation, cancelled_at,
}
use rich_aim_acct_inv.Invoices.Cases.{
  Call, creates, takes, cancels, outcome, enter_invoice_cases, process_payment_cases,
  cancel_invoice_cases,
}

module _ {M : Type 0} ⦃d : Decimal M⦄ where
  -- The id of the invoice that a call is about.
  abbrev pub subject : Call M → Uuid
  subject (creates o _ _ _ _ _ _) = o.fresh 0
  subject (takes _ id _ _ _) = id
  subject (cancels _ id) = id

  -- On an error nothing at all has changed. On success the invoice that is returned is the one stored
  -- under the call's id, and what is stored under any other id is what was there.
  abbrev pub Stored :
      Uuid → InvoiceProcessor M → Result InvoiceError (Invoice M) × InvoiceProcessor M → Type 0
  Stored id p (err _, p') = p' ≡ p
  Stored id p (ok i, p') =
      (j : Uuid) → get? j p'.invoices ≡ (if id == j then some i else get? j p.invoices)

  written-Stored :
      (id : Uuid) (i old : Invoice M) (l : Option (Ledger M)) (p : InvoiceProcessor M)
      → get? id p.invoices ≡ some old
      → Stored id p (written id (i, l) p)
  written-Stored id i old l p e j = elim (Bool-cases (id == j)) [
    | inl same ↦
        let s : id ≡ j = ground arith in
        let e' : get? j p.invoices ≡ some old = ap (λ n. get? n p.invoices) (sym s) ∙ e in
        get?-modify j id (λ _. i) p.invoices ∙ ground (arith, e')
    | inr other ↦ get?-modify j id (λ _. i) p.invoices ∙ rw other refl
  ]

  enter_invoice-id :
      (o : Outside) (i : Invoice M) (l : Option (Ledger M)) → (enter_invoice o i l).0.id ≡ i.id
  enter_invoice-id o i l =
      enter_invoice_cases (λ i' _. i'.id ≡ i.id) o i l (λ _ _. refl) (λ _ _ _. refl)

  created-Stored :
      (id : Uuid) (i : Invoice M) (l : Option (Ledger M)) (p : InvoiceProcessor M)
      → i.id ≡ id
      → Stored id p (created (i, l) p)
  created-Stored id i l p e j = get?-insert j i.id i p.invoices ∙ rw e refl

  new_invoice-id :
      (o : Outside) (n : ℕ) (name email : String) (due : NaiveDate) (items : List (InvoiceItem M))
      (notes : String) (rate : Option M)
      → (new_invoice o n name email due items notes rate).id ≡ o.fresh 0
  unfolding new_invoice
  new_invoice-id o n name email due items notes rate = refl

  -- A call that returns an error has changed nothing. One that succeeds returns the invoice that it has
  -- stored under the call's id, and leaves what is stored under any other id.
  pub outcome-Stored : (c : Call M) (p : InvoiceProcessor M) → Stored (subject c) p (outcome c p)
  unfolding create_invoice
  outcome-Stored (creates o name email due items notes rate) p =
      let i = new_invoice o p.current_invoice_number name email due items notes rate in
      let made = enter_invoice (after_draws 1 o) i p.ledger in
      created-Stored (o.fresh 0) made.0 made.1 p (
        enter_invoice-id (after_draws 1 o) i p.ledger
        ∙ new_invoice-id o p.current_invoice_number name email due items notes rate)
  outcome-Stored (takes o id amount date reference) p =
      process_payment_cases (Stored id p) p o id amount date reference (λ _. refl)
        (λ i e _ _.
          let made = enter_payment o date reference i amount p.ledger in
          written-Stored id made.0 i made.1 p e)
  outcome-Stored (cancels o id) p =
      cancel_invoice_cases (Stored id p) p o id (λ _. refl)
        (λ i e _. written-Stored id (cancelled_at o.now i) i (enter_cancellation o i p.ledger) p e)
