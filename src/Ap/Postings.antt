-- ===== src/Ap/Postings.antt =====
-- What the calls on bills post to the ledger (RichdaleAccounting/nexus-core/src/accounting/ap.rs).
use rich_aim_acct_inv.Prelude.{
  ℕ, ◌≡◌, ◌≢◌, refl, sym, inl, inr, false, Option, none, some, List, [], ◌∷◌, All, arith,
  Bool-cases, eq_self, eq_ne,
}
use rich_aim_acct_inv.Prelude.Int.{pos, ◌-ℤ◌, int_laws, parts_of}
use rich_aim_acct_inv.Prelude.OrdMap.{OrdMap, get?, modify, get?-modify}
use rich_aim_acct_inv.Money.{Decimal}
use rich_aim_acct_inv.Financial.{
  Uuid, Account, AccountType, AccountStatus, TransactionEntry, new_entry, Transaction,
  update_balance,
}
use rich_aim_acct_inv.Ledger.{Ledger, Outside, after_draws, record_transaction, apply_entries}
use rich_aim_acct_inv.Ledger.Outcome.{
  Acceptable, record_transaction_outcome, record_transaction_cases,
}
use rich_aim_acct_inv.Ledger.Balances.{movement, record_transaction-balances}
use rich_aim_acct_inv.Ap.{
  ApBill, ApBillStatus, ApProcessor, status_eq, find_bill, payment_transaction, paid_in_full,
  settled, pay_bill, reversal, void_bill, is_open, reverse_entry,
}
use rich_aim_acct_inv.Ap.Cases.{void_bill_cases}

module _ {M : Type 0} ⦃d : Decimal M⦄ where
  open d use {value, dec_0}

  -- The processor's two accounts are in the ledger, apart and active, and cash is an asset.
  pub record CanPay (p : ApProcessor M) (l : Ledger M) (payable cash : Account M) : Type 0 where
    pub apart : p.ap_account_id ≢ p.cash_account_id
    pub payable_found : get? p.ap_account_id l.accounts ≡ some payable
    pub payable_active : payable.status ≡ AccountStatus.active
    pub cash_found : get? p.cash_account_id l.accounts ≡ some cash
    pub cash_active : cash.status ≡ AccountStatus.active
    pub cash_is_asset : cash.account_type ≡ AccountType.asset

  pay_bill_valid :
      (o : Outside) (bill_id : Uuid) (p : ApProcessor M) (l : Ledger M) (b : ApBill M)
      → p.ledger ≡ some l
      → find_bill bill_id p ≡ some b
      → status_eq b.status ApBillStatus.paid ≡ false
      → status_eq b.status ApBillStatus.void ≡ false
      → pay_bill o bill_id p
        ≡ settled bill_id p
            (paid_in_full o.now b)
            (record_transaction (after_draws 3 o) (payment_transaction o b p) l)
  unfolding pay_bill
  pay_bill_valid o bill_id p l b e found unpaid valid = ground arith

  module _ (p : ApProcessor M) (l : Ledger M) (payable cash : Account M)
      (c : CanPay p l payable cash) where
    payment-Acceptable :
        (o : Outside) (b : ApBill M) → Acceptable (after_draws 3 o) (payment_transaction o b p) l
    unfolding payment_transaction new_entry
    payment-Acceptable o b = (
      omega int_laws,
      ((payable, c.payable_found, c.payable_active), ((cash, c.cash_found, c.cash_active), tt)),
    )

    movement-cash :
        (o : Outside) (b : ApBill M)
        → movement cash.account_type p.cash_account_id (payment_transaction o b p).entries
          ≡ pos 0 -ℤ value b.amount
    unfolding payment_transaction new_entry
    movement-cash o b =
        rw
          (
            c.cash_is_asset,
            eq_ne p.ap_account_id p.cash_account_id c.apart,
            eq_self p.cash_account_id,
          )
          (omega int_laws)

    -- Paying a bill that is neither paid nor void, over a ledger that has the processor's two accounts,
    -- apart and active, with cash an asset, takes the bill's whole amount out of cash, whatever has been
    -- paid on the bill before.
    pay_bill_takes_all :
        (o : Outside) (bill_id : Uuid) (b : ApBill M)
        → p.ledger ≡ some l
        → find_bill bill_id p ≡ some b
        → status_eq b.status ApBillStatus.paid ≡ false
        → status_eq b.status ApBillStatus.void ≡ false
        → (l' : Ledger M) × (cash' : Account M) × ((pay_bill o bill_id p).1.ledger ≡ some l')
          × (get? p.cash_account_id l'.accounts ≡ some cash')
          × (value cash'.balance ≡ value cash.balance -ℤ value b.amount)
    pay_bill_takes_all o bill_id b e found unpaid valid =
        let t = payment_transaction o b p in
        let accepted = payment-Acceptable o b in
        let (cash', there, (same, moved)) =
          record_transaction-balances (after_draws 3 o) t l p.cash_account_id cash accepted
            c.cash_found in
        (
          (record_transaction (after_draws 3 o) t l).1,
          cash',
          rw (
            pay_bill_valid o bill_id p l b e found unpaid valid,
            (record_transaction_outcome (after_draws 3 o) t l).0 accepted,
          ),
          there,
          rw moved (omega (int_laws, parts_of (movement-cash o b))),
        )

  -- An account that no entry names is left as it is.
  abbrev Elsewhere : Uuid → TransactionEntry M → Type 0
  Elsewhere k e = e.account_id ≢ k

  apply_entries-other :
      (now k : ℕ) (es : List (TransactionEntry M)) (m : OrdMap (Account M))
      → All (Elsewhere k) es
      → get? k (apply_entries now es m) ≡ get? k m
  unfolding apply_entries
  apply_entries-other now k [] m h = refl
  apply_entries-other now k (e ∷ es) m h = rw (
    apply_entries-other now k es (modify e.account_id (update_balance now e.amount e.entry_type) m)
        h.1,
    get?-modify k e.account_id (update_balance now e.amount e.entry_type) m,
    eq_ne e.account_id k h.0,
  )

  record_transaction-other :
      (o : Outside) (t : Transaction M) (l : Ledger M) (k : Uuid)
      → All (Elsewhere k) t.entries
      → get? k (record_transaction o t l).1.accounts ≡ get? k l.accounts
  record_transaction-other o t l k h = elim (record_transaction_cases o t l) [
    | inl (ok_t, done) ↦ rw done (apply_entries-other o.now k t.entries l.accounts h)
    | inr (x, refused) ↦ rw refused
  ]

  abbrev pub account_in : Uuid → Option (Ledger M) → Option (Account M)
  account_in k none = none
  account_in k (some l) = get? k l.accounts

  -- Voiding a bill changes no account but accounts payable and the bill's single expense account, so
  -- also none of the accounts of its other lines.
  void_bill_leaves_lines :
      (o : Outside) (bill_id : Uuid) (p : ApProcessor M) (k : Uuid)
      → k ≢ p.ap_account_id
      → ((b : ApBill M) → find_bill bill_id p ≡ some b → k ≢ b.expense_account_id)
      → account_in k (void_bill o bill_id p).1.ledger ≡ account_in k p.ledger
  unfolding reversal new_entry
  void_bill_leaves_lines o bill_id p k not_ap not_expense =
      void_bill_cases (λ r. account_in k r.1.ledger ≡ account_in k p.ledger) p o bill_id (λ _. refl)
        (λ b found unpaid. elim (Bool-cases (is_open b)) [
          | inl open_bill ↦
              rw open_bill (reversed b (not_expense b found) b.transaction_id p.ledger)
          | inr shut ↦ rw shut
        ])
    where
      reversed :
          (b : ApBill M)
          → k ≢ b.expense_account_id
          → (t : Option Uuid) (l : Option (Ledger M))
          → account_in k (reverse_entry o b p t l) ≡ account_in k l
      reversed b ne none l = refl
      reversed b ne (some t) none = refl
      reversed b ne (some t) (some l) =
          record_transaction-other (after_draws 3 o) (reversal o b p) l k
            ((λ e. not_ap (sym e)), ((λ e. ne (sym e)), tt))
