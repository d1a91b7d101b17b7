-- ===== src/Ap/Invariant.antt =====
-- What holds of every bill, and how its status moves (RichdaleAccounting/nexus-core/src/accounting/ap.rs).
use rich_aim_acct_inv.Prelude.{
  ◌+◌, ◌≡◌, ◌≢◌, Option, refl, inl, inr, false, some, All, All-append, All-find, All-modify_first,
  arith, Bool-cases, Result, ok, err,
}
use rich_aim_acct_inv.Prelude.Int.{pos, pos_part, neg_part, ◌≤ℤ◌, eq_of_parts}
use rich_aim_acct_inv.Money.{
  Decimal, dec_le, dec_lt, dec_le-true, dec_le-false, dec_lt-false, add_parts, sub_parts,
  zero_parts,
}
use rich_aim_acct_inv.Financial.{Uuid, DateTime, NaiveDate, Transaction}
use rich_aim_acct_inv.Ledger.{Ledger, LedgerError}
use rich_aim_acct_inv.Ap.{
  ApBill, ApBillStatus, ApProcessor, status_eq, has_id, find_bill, remaining_balance, entered,
  settled, paid_in_full, paid_in_part,
}
use rich_aim_acct_inv.Ap.Calls.{Call, enters, schedules, pays, pays_part, voids, call}
use rich_aim_acct_inv.Ap.Cases.{
  enter_bill_cases, pay_bill_cases, pay_bill_partial_cases, void_bill_cases, schedule_payment_cases,
}

module _ {M : Type 0} ⦃d : Decimal M⦄ where
  open d use {value, dec_0, add}

  -- A bill has been paid something between nothing and its amount, and all of it once it is `Paid`.
  pub record IsValid (b : ApBill M) : Type 0 where
    pub nonneg : pos 0 ≤ℤ value b.paid_amount
    pub within : value b.paid_amount ≤ℤ value b.amount
    pub settled_up : b.status ≡ ApBillStatus.paid → value b.paid_amount ≡ value b.amount

  abbrev pub AllValid : ApProcessor M → Type 0
  AllValid p = All IsValid p.bills

  settled-AllValid :
      (bill_id : Uuid) (p : ApProcessor M) (change : Transaction M → ApBill M)
      (r : Result LedgerError (Transaction M) × Ledger M)
      → AllValid p
      → ((t : Transaction M) → IsValid (change t))
      → AllValid (settled bill_id p change r).1
  settled-AllValid bill_id p change (ok t, l) h k =
      All-modify_first IsValid (has_id bill_id) (λ _. change t) p.bills h (λ _ _. k t)
  settled-AllValid bill_id p change (err x, l) h k = h

  paid_in_full-IsValid :
      (now : DateTime) (b : ApBill M) (t : Transaction M)
      → IsValid b
      → IsValid (paid_in_full now b t)
  paid_in_full-IsValid now b t v = record {
    nonneg = omega (arith, v.nonneg, v.within);
    within = omega arith;
    settled_up = λ _. refl;
  }

  paid_in_part-IsValid :
      (now : DateTime) (b : ApBill M) (amount : M) (t : Transaction M)
      → dec_le amount dec_0 ≡ false
      → dec_lt (remaining_balance b) amount ≡ false
      → status_eq b.status ApBillStatus.paid ≡ false
      → IsValid b
      → IsValid (paid_in_part now b amount t)
  paid_in_part-IsValid now b amount t positive fits unpaid v = record {
    nonneg = omega (arith, v.nonneg, sum_parts, zero_parts d, dec_le-false amount dec_0 positive);
    within = within;
    settled_up = λ e. elim (Bool-cases (dec_le b.amount (add b.paid_amount amount))) [
      | inl full ↦
          eq_of_parts _ _
            (omega (arith, within, dec_le-true b.amount (add b.paid_amount amount) full))
      | inr part ↦ let same : b.status ≡ ApBillStatus.paid = ground arith in absurd (ground arith)
    ];
  }
    where
      sum_parts :
          pos_part (value (add b.paid_amount amount))
            + neg_part (value b.paid_amount)
            + neg_part (value amount)
          ≡ neg_part (value (add b.paid_amount amount))
            + pos_part (value b.paid_amount)
            + pos_part (value amount)
      sum_parts = add_parts b.paid_amount amount

      within : value (add b.paid_amount amount) ≤ℤ value b.amount
      within = omega (
        arith,
        v.within,
        sum_parts,
        sub_parts b.amount b.paid_amount,
        dec_lt-false (remaining_balance b) amount fits,
      )

  unpaid-IsValid :
      (b : ApBill M) (s : ApBillStatus) (now : DateTime) (date : Option NaiveDate)
      → s ≢ ApBillStatus.paid
      → IsValid b
      → IsValid (record b { status = s; updated_at = now; scheduled_payment_date = date })
  unpaid-IsValid b s now date ne v = record {
    nonneg = v.nonneg;
    within = v.within;
    settled_up = λ e. absurd (ne e);
  }

  found-IsValid :
      (bill_id : Uuid) (p : ApProcessor M) (b : ApBill M)
      → AllValid p
      → find_bill bill_id p ≡ some b
      → IsValid b
  unfolding find_bill
  found-IsValid bill_id p b h e = All-find IsValid (has_id bill_id) p.bills b h e

  -- A bill that is entered comes with a payment between nothing and its amount, as the constructors
  -- make it.
  abbrev pub Admits : Call M → Type 0
  Admits (enters o bill) =
      (pos 0 ≤ℤ value bill.paid_amount) × (value bill.paid_amount ≤ℤ value bill.amount)
  Admits (schedules now bill_id date) = Unit
  Admits (pays o bill_id) = Unit
  Admits (pays_part o shown bill_id amount) = Unit
  Admits (voids o bill_id) = Unit

  entered-AllValid :
      (now : DateTime) (bill : ApBill M) (p : ApProcessor M)
      (r : Result LedgerError (Transaction M) × Ledger M)
      → AllValid p
      → (pos 0 ≤ℤ value bill.paid_amount) × (value bill.paid_amount ≤ℤ value bill.amount)
      → AllValid (entered now bill p r).1
  entered-AllValid now bill p (ok t, l) h k =
      All-append IsValid p.bills _ h
        (record { nonneg = k.0; within = k.1; settled_up = λ e. cc }, tt)
  entered-AllValid now bill p (err x, l) h k = h

  -- Whatever call is made on the processor, and however it ends, every bill stays valid: what has
  -- been paid lies between nothing and the bill's amount, and a `Paid` bill has been paid in full.
  -- This asks that a bill be entered with a paid amount between nothing and its amount.
  pub call-AllValid : (c : Call M) (p : ApProcessor M) → Admits c → AllValid p → AllValid (call c p)
  call-AllValid (enters o bill) p ok_c h =
      enter_bill_cases (λ r. AllValid r.1) p o bill (λ _. h)
        (λ l e pos. entered-AllValid o.now bill p _ h ok_c)
  call-AllValid (schedules now bill_id date) p ok_c h =
      schedule_payment_cases (λ r. AllValid r.1) p now bill_id date (λ _. h)
        (λ b e is_open. All-modify_first IsValid (has_id bill_id) _ p.bills h (λ _ _.
          unpaid-IsValid b ApBillStatus.scheduled now (some date) (λ e. cc)
            (found-IsValid bill_id p b h e)))
  call-AllValid (pays o bill_id) p ok_c h =
      pay_bill_cases (λ r. AllValid r.1) p o bill_id (λ _. h)
        (λ l b e found.
          settled-AllValid bill_id p _ _ h
            (λ t. paid_in_full-IsValid o.now b t (found-IsValid bill_id p b h found)))
  call-AllValid (pays_part o shown bill_id amount) p ok_c h =
      pay_bill_partial_cases (λ r. AllValid r.1) p o shown bill_id amount (λ _. h)
        (λ l b e found unpaid positive fits. settled-AllValid bill_id p _ _ h (λ t.
          paid_in_part-IsValid o.now b amount t positive fits unpaid
            (found-IsValid bill_id p b h found)))
  call-AllValid (voids o bill_id) p ok_c h =
      void_bill_cases (λ r. AllValid r.1) p o bill_id (λ _. h)
        (λ b found unpaid. All-modify_first IsValid (has_id bill_id) _ p.bills h (λ _ _.
          unpaid-IsValid b ApBillStatus.void o.now b.scheduled_payment_date (λ e. cc)
            (found-IsValid bill_id p b h found)))
