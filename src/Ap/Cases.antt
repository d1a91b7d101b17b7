-- ===== src/Ap/Cases.antt =====
-- How each call on the processor can leave it: as it was, or with the ledger's answer written
-- (RichdaleAccounting/nexus-core/src/accounting/ap.rs). Every proof about the calls goes by these cases.
use rich_aim_acct_inv.Prelude.{
  ◌+◌, ◌≡◌, inl, inr, true, false, some, length, Bool-cases, Result, ok, err, Option-cases, String,
}
use rich_aim_acct_inv.Money.{Decimal, dec_le, dec_lt}
use rich_aim_acct_inv.Financial.{Uuid, DateTime, NaiveDate}
use rich_aim_acct_inv.Ledger.{Ledger, Outside, after_draws, record_transaction}
use rich_aim_acct_inv.Ap.{
  AccountsPayableError, ApBill, ApBillStatus, ApProcessor, status_eq, find_bill, remaining_balance,
  is_open, bill_transaction, entered, enter_bill, schedule_payment, payment_transaction,
  partial_transaction, settled, paid_in_full, paid_in_part, pay_bill, pay_bill_partial, voided,
  after_void, scheduled_for, after_schedule, void_bill,
}

module _ {M : Type 0} ⦃d : Decimal M⦄
    (P : Result AccountsPayableError (ApBill M) × ApProcessor M → Type 0) (p : ApProcessor M) where
  open d use {dec_0}

  pub enter_bill_cases :
      (o : Outside) (bill : ApBill M)
      → ((x : AccountsPayableError) → P (err x, p))
      → ((l : Ledger M)
          → p.ledger ≡ some l
          → dec_le bill.amount dec_0 ≡ false
          → P (
              entered o.now bill p (
                record_transaction
                  (after_draws (length bill.lines + 2) o)
                  (bill_transaction o bill p)
                  l)))
      → P (enter_bill o bill p)
  unfolding enter_bill
  enter_bill_cases o bill same done = elim (Option-cases p.ledger) [
    | inl e ↦ rw (e, enter_bill) (same _)
    | inr (l, e) ↦ elim (Bool-cases (dec_le bill.amount dec_0)) [
      | inl bad ↦ rw (e, enter_bill, bad) (same _)
      | inr good ↦ rw (e, enter_bill, good) (done l e good)
    ]
  ]

  pub pay_bill_cases :
      (o : Outside) (bill_id : Uuid)
      → ((x : AccountsPayableError) → P (err x, p))
      → ((l : Ledger M) (b : ApBill M)
          → p.ledger ≡ some l
          → find_bill bill_id p ≡ some b
          → P (
              settled bill_id p
                (paid_in_full o.now b)
                (record_transaction (after_draws 3 o) (payment_transaction o b p) l)))
      → P (pay_bill o bill_id p)
  unfolding pay_bill
  pay_bill_cases o bill_id same done = elim (Option-cases p.ledger) [
    | inl e ↦ rw (e, pay_bill) (same _)
    | inr (l, e) ↦ elim (Option-cases (find_bill bill_id p)) [
      | inl missing ↦ rw (e, missing, pay_bill) (same _)
      | inr (b, found) ↦ elim (Bool-cases (status_eq b.status ApBillStatus.paid)) [
        | inl bad ↦ rw (e, found, pay_bill, bad) (same _)
        | inr unpaid ↦ elim (Bool-cases (status_eq b.status ApBillStatus.void)) [
          | inl bad ↦ rw (e, found, pay_bill, unpaid, bad) (same _)
          | inr valid ↦ rw (e, found, pay_bill, unpaid, valid) (done l b e found)
        ]
      ]
    ]
  ]

  pub pay_bill_partial_cases :
      (o : Outside) (shown : String) (bill_id : Uuid) (amount : M)
      → ((x : AccountsPayableError) → P (err x, p))
      → ((l : Ledger M) (b : ApBill M)
          → p.ledger ≡ some l
          → find_bill bill_id p ≡ some b
          → status_eq b.status ApBillStatus.paid ≡ false
          → dec_le amount dec_0 ≡ false
          → dec_lt (remaining_balance b) amount ≡ false
          → P (
              settled bill_id p
                (paid_in_part o.now b amount)
                (record_transaction (after_draws 3 o) (partial_transaction o shown b amount p) l)))
      → P (pay_bill_partial o shown bill_id amount p)
  unfolding pay_bill_partial
  pay_bill_partial_cases o shown bill_id amount same done = elim (Option-cases p.ledger) [
    | inl e ↦ rw (e, pay_bill_partial) (same _)
    | inr (l, e) ↦ elim (Option-cases (find_bill bill_id p)) [
      | inl missing ↦ rw (e, missing, pay_bill_partial) (same _)
      | inr (b, found) ↦ elim (Bool-cases (status_eq b.status ApBillStatus.paid)) [
        | inl bad ↦ rw (e, found, pay_bill_partial, bad) (same _)
        | inr unpaid ↦ elim (Bool-cases (status_eq b.status ApBillStatus.void)) [
          | inl bad ↦ rw (e, found, pay_bill_partial, unpaid, bad) (same _)
          | inr valid ↦ elim (Bool-cases (dec_le amount dec_0)) [
            | inl bad ↦ rw (e, found, pay_bill_partial, unpaid, valid, bad) (same _)
            | inr positive ↦ elim (Bool-cases (dec_lt (remaining_balance b) amount)) [
              | inl bad ↦ rw (e, found, pay_bill_partial, unpaid, valid, positive, bad) (same _)
              | inr within ↦
                  rw (e, found, pay_bill_partial, unpaid, valid, positive, within)
                    (done l b e found unpaid positive within)
            ]
          ]
        ]
      ]
    ]
  ]

  pub void_bill_cases :
      (o : Outside) (bill_id : Uuid)
      → ((x : AccountsPayableError) → P (err x, p))
      → ((b : ApBill M)
          → find_bill bill_id p ≡ some b
          → status_eq b.status ApBillStatus.paid ≡ false
          → P (ok (voided o.now b), after_void o bill_id b p))
      → P (void_bill o bill_id p)
  unfolding void_bill
  void_bill_cases o bill_id same done = elim (Option-cases (find_bill bill_id p)) [
    | inl missing ↦ rw (missing, void_bill) (same _)
    | inr (b, found) ↦ elim (Bool-cases (status_eq b.status ApBillStatus.paid)) [
      | inl bad ↦ rw (found, void_bill, bad) (same _)
      | inr unpaid ↦ rw (found, void_bill, unpaid) (done b found unpaid)
    ]
  ]

module _ {M : Type 0} (P : Result AccountsPayableError (ApBill M) × ApProcessor M → Type 0)
    (p : ApProcessor M) where
  pub schedule_payment_cases :
      (now : DateTime) (bill_id : Uuid) (date : NaiveDate)
      → ((x : AccountsPayableError) → P (err x, p))
      → ((b : ApBill M)
          → find_bill bill_id p ≡ some b
          → is_open b ≡ true
          → P (ok (scheduled_for now date b), after_schedule now bill_id date b p))
      → P (schedule_payment now bill_id date p)
  unfolding schedule_payment
  schedule_payment_cases now bill_id date same done = elim (Option-cases (find_bill bill_id p)) [
    | inl missing ↦ rw (missing, schedule_payment) (same _)
    | inr (b, found) ↦ elim (Bool-cases (is_open b)) [
      | inl yes_open ↦ rw (found, schedule_payment, yes_open) (done b found yes_open)
      | inr shut ↦ rw (found, schedule_payment, shut) (same _)
    ]
  ]
