-- ===== src/Invoices/Invariant.antt =====
-- What holds of every invoice, under every call (RichdaleAccounting/nexus-core/src/accounting/invoice.rs).
use rich_aim_acct_inv.Prelude.{
  ℕ, ◌≡◌, inl, inr, false, Option, none, some, List, map, arith, Bool-cases, String,
}
use rich_aim_acct_inv.Prelude.Int.{pos, ◌+ℤ◌, ◌≤ℤ◌, eq_of_parts}
use rich_aim_acct_inv.Prelude.OrdMap.{Every, Every-insert, Every-modify, Every-get?}
use rich_aim_acct_inv.Money.{
  Decimal, dec_le, dec_le-true, dec_le-false, add_parts, sub_parts, zero_parts, sum,
}
use rich_aim_acct_inv.Financial.{Uuid, DateTime, NaiveDate}
use rich_aim_acct_inv.Ledger.{Ledger, Outside, after_draws}
use rich_aim_acct_inv.Ledger.Reachable.{Reachable, next, records}
use rich_aim_acct_inv.Invoices.{
  Invoice, InvoiceItem, InvoiceStatus, InvoiceProcessor, new_invoice, tax_on, applied_amount,
  apply_payment, written, cancelled_at, created, create_invoice,
}
use rich_aim_acct_inv.Invoices.Cases.{
  Call, creates, takes, cancels, outcome, Handed, kept, handed, enter_payment_cases,
  enter_invoice_cases, enter_cancellation-Handed, process_payment_cases, cancel_invoice_cases,
}

module _ {M : Type 0} ⦃d : Decimal M⦄ where
  open d use {value, dec_0, add}

  -- The total is the subtotal and the tax; something between nothing and the total has been paid, and
  -- all of it once the invoice is `Paid`.
  pub record IsValid (i : Invoice M) : Type 0 where
    pub adds_up : value i.total ≡ value i.subtotal +ℤ value i.tax_amount
    pub nonneg : pos 0 ≤ℤ value i.amount_paid
    pub within : value i.amount_paid ≤ℤ value i.total
    pub settled_up : i.status ≡ InvoiceStatus.paid → value i.amount_paid ≡ value i.total

  abbrev pub AllValid : InvoiceProcessor M → Type 0
  AllValid p = Every IsValid p.invoices

  -- An invoice that is created has a total that is not negative.
  abbrev pub Acceptable : Call M → Type 0
  Acceptable (creates o name email due items notes rate) =
      let subtotal : M = sum (map (λ i. i.amount) items) in
      pos 0 ≤ℤ value (add subtotal (tax_on subtotal rate))
  Acceptable (takes _ _ _ _ _) = Unit
  Acceptable (cancels _ _) = Unit

  new_invoice-IsValid :
      (o : Outside) (n : ℕ) (name email : String) (due : NaiveDate) (items : List (InvoiceItem M))
      (notes : String) (rate : Option M)
      → Acceptable (creates o name email due items notes rate)
      → IsValid (new_invoice o n name email due items notes rate)
  unfolding new_invoice
  new_invoice-IsValid o n name email due items notes rate h = record {
    adds_up =
        d.value-add (sum (map (λ i. i.amount) items))
          (tax_on (sum (map (λ i. i.amount) items)) rate);
    nonneg = omega (arith, zero_parts d);
    within = omega (arith, zero_parts d, h);
    settled_up = λ e. ground arith;
  }

  -- What of a positive payment goes to the invoice: something, and at most what remains.
  pub record Applied (i : Invoice M) (amount : M) : Type 0 where
    pub positive_part : pos 0 ≤ℤ value (applied_amount i amount)
    pub at_most_amount : value (applied_amount i amount) ≤ℤ value amount
    pub up_to_total : value (add i.amount_paid (applied_amount i amount)) ≤ℤ value i.total

  pub amount-Applied :
      (amount : M) (i : Invoice M)
      → dec_le amount dec_0 ≡ false
      → value i.amount_paid ≤ℤ value i.total
      → Applied i amount
  amount-Applied amount i positive within =
      let remaining : M = d.sub i.total i.amount_paid in
      let more = dec_le-false amount dec_0 positive in
      elim (Bool-cases (dec_le amount remaining)) [
        | inl fits ↦
            let small = dec_le-true amount remaining fits in
            record {
              positive_part = rw fits (omega (arith, more, zero_parts d));
              at_most_amount = rw fits (omega arith);
              up_to_total = rw fits (
                  omega (
                    arith,
                    small,
                    sub_parts i.total i.amount_paid,
                    add_parts i.amount_paid amount,
                  ));
            }
        | inr over ↦
            let large = dec_le-false amount remaining over in
            record {
              positive_part = rw over (omega (arith, within, sub_parts i.total i.amount_paid));
              at_most_amount = rw over (omega (arith, large));
              up_to_total = rw over (
                  omega
                    (arith, sub_parts i.total i.amount_paid, add_parts i.amount_paid remaining));
            }
      ]

  -- A positive payment: the amount paid grows up to the total, and not further.
  apply_payment-IsValid :
      (now : DateTime) (amount : M) (i : Invoice M) (n : Option Uuid)
      → dec_le amount dec_0 ≡ false
      → IsValid i
      → IsValid (record (apply_payment now amount i) { transaction_id = n })
  apply_payment-IsValid now amount i n positive v =
      let a = amount-Applied amount i positive v.within in
      let paid : M = add i.amount_paid (applied_amount i amount) in
      record {
        adds_up = v.adds_up;
        nonneg =
            omega
              (arith, v.nonneg, a.positive_part, add_parts i.amount_paid (applied_amount i amount));
        within = a.up_to_total;
        settled_up = λ e. elim (Bool-cases (dec_le i.total paid)) [
          | inl full ↦
              eq_of_parts (value paid) (value i.total)
                (omega (arith, a.up_to_total, dec_le-true i.total paid full))
          | inr part ↦ ground arith
        ];
      }

  sent-IsValid :
      (i : Invoice M) (n : Option Uuid)
      → IsValid i
      → IsValid (record i { transaction_id = n; status = InvoiceStatus.sent })
  sent-IsValid i n v = record {
    adds_up = v.adds_up;
    nonneg = v.nonneg;
    within = v.within;
    settled_up = λ e. ground arith;
  }

  cancelled-IsValid : (now : DateTime) (i : Invoice M) → IsValid i → IsValid (cancelled_at now i)
  cancelled-IsValid now i v = record {
    adds_up = v.adds_up;
    nonneg = v.nonneg;
    within = v.within;
    settled_up = λ e. ground arith;
  }

  abbrev LedgerReachable : Option (Ledger M) → Type 0
  LedgerReachable none = Unit
  LedgerReachable (some l) = Reachable l

  Handed-LedgerReachable :
      (l l' : Option (Ledger M)) → Handed M l l' → LedgerReachable l → LedgerReachable l'
  Handed-LedgerReachable l _ kept h = h
  Handed-LedgerReachable (some l) _ (handed o t) h = next h (records o t)

  -- Every invoice is valid, and the ledger is one that ledger calls produce.
  abbrev pub Healthy : InvoiceProcessor M → Type 0
  Healthy p = AllValid p × LedgerReachable p.ledger

  written-Healthy :
      (id : Uuid) (i : Invoice M) (l : Option (Ledger M)) (p : InvoiceProcessor M)
      → IsValid i
      → LedgerReachable l
      → Healthy p
      → Healthy (written id (i, l) p).1
  written-Healthy id i l p v r h = (Every-modify IsValid id (λ _. i) p.invoices (λ _ _. v) h.0, r)

  created-Healthy :
      (i : Invoice M) (l : Option (Ledger M)) (p : InvoiceProcessor M)
      → IsValid i
      → LedgerReachable l
      → Healthy p
      → Healthy (created (i, l) p).1
  created-Healthy i l p v r h = (Every-insert IsValid i.id i p.invoices v h.0, r)

  -- Whatever call is made, and however it ends, every invoice stays valid: its total is its subtotal and
  -- its tax, between nothing and the total has been paid, and all of it when its status is `Paid`. The
  -- ledger, if there is one, stays one that ledger calls produce. This asks that an invoice be created
  -- with a total that is not negative.
  pub outcome-Healthy :
      (c : Call M) (p : InvoiceProcessor M) → Acceptable c → Healthy p → Healthy (outcome c p).1
  unfolding create_invoice
  outcome-Healthy (creates o name email due items notes rate) p ok_total h =
      let i = new_invoice o p.current_invoice_number name email due items notes rate in
      let v =
        new_invoice-IsValid o p.current_invoice_number name email due items notes rate ok_total in
      enter_invoice_cases (λ i' l'. Healthy (created (i', l') p).1) (after_draws 1 o) i p.ledger
        (λ l' r. created-Healthy i l' p v (Handed-LedgerReachable p.ledger l' r h.1) h)
        (λ n l' r.
          created-Healthy _ l' p (sent-IsValid i n v) (Handed-LedgerReachable p.ledger l' r h.1) h)
  outcome-Healthy (takes o id amount date reference) p _ h =
      process_payment_cases (λ r. Healthy r.1) p o id amount date reference (λ _. h)
        (λ i e is_open positive.
          let v = Every-get? IsValid id p.invoices i h.0 e in
          enter_payment_cases (λ i' l'. Healthy (written id (i', l') p).1) o date reference i amount
            p.ledger
            (λ n l' r.
              written-Healthy id _ l' p (apply_payment-IsValid o.now amount i n positive v)
                (Handed-LedgerReachable p.ledger l' r h.1) h))
  outcome-Healthy (cancels o id) p _ h =
      cancel_invoice_cases (λ r. Healthy r.1) p o id (λ _. h)
        (λ i e is_open.
          written-Healthy id (cancelled_at o.now i) _ p
            (cancelled-IsValid o.now i (Every-get? IsValid id p.invoices i h.0 e))
            (Handed-LedgerReachable p.ledger _ (enter_cancellation-Handed o i p.ledger) h.1) h)
