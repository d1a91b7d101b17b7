-- ===== src/Ap/Voiding.antt =====
-- Voiding bills (RichdaleAccounting/nexus-core/src/accounting/ap.rs).
use Prim.Native.String.{◌++◌ as concat}
use rich_aim_acct_inv.Prelude.{Option, none, some, [], ◌∷◌, ok, err, modify_first, if◌then◌else◌}
use rich_aim_acct_inv.Money.{Decimal}
use rich_aim_acct_inv.Financial.{Uuid, DateTime, EntryType, new_entry, Transaction}
use rich_aim_acct_inv.Ledger.{Ledger, Outside, after_draws, record_transaction}
use rich_aim_acct_inv.Ap.Defs.{
  ApBill, ApBillStatus, ApProcessor, bill_not_found, invalid_state, Method, status_eq, has_id,
  find_bill, is_open,
}
use rich_aim_acct_inv.Ap.Entering.{ap_transaction}

-- The reversal of `void_bill`: accounts payable is debited and the bill's expense account credited.
unfoldable pub reversal : {M : Type 0} → Outside → ApBill M → ApProcessor M → Transaction M
reversal o b p =
    ap_transaction (o.fresh 2) o.now (concat "AP-REV-" b.bill_number)
      (concat "Reversal of AP Bill: " b.bill_number)
      (new_entry (o.fresh 0) p.ap_account_id EntryType.debit b.amount
          (concat "Reverse bill " (concat b.bill_number " — remove AP"))
        ∷ new_entry (o.fresh 1) b.expense_account_id EntryType.credit b.amount
            (concat "Reverse bill " (concat b.bill_number " — remove expense"))
        ∷ [])

module _ {M : Type 0} ⦃d : Decimal M⦄ where
  -- `let _ = ledger.record_transaction(reversal).await`, where the bill has a transaction.
  abbrev pub reverse_entry :
      Outside → ApBill M → ApProcessor M → Option Uuid → Option (Ledger M) → Option (Ledger M)
  reverse_entry o b p none l = l
  reverse_entry o b p (some txn_id) none = none
  reverse_entry o b p (some txn_id) (some l) =
      some (record_transaction (after_draws 3 o) (reversal o b p) l).1

  abbrev pub voided : DateTime → ApBill M → ApBill M
  voided now b = record b { status = ApBillStatus.void; updated_at = now }

  abbrev pub after_void : Outside → Uuid → ApBill M → ApProcessor M → ApProcessor M
  after_void o bill_id b p = record p {
    bills = modify_first (has_id bill_id) (λ _. voided o.now b) p.bills;
    ledger = if is_open b then reverse_entry o b p b.transaction_id p.ledger else p.ledger;
  }

  unfoldable pub void_bill : Outside → Uuid → Method M (ApBill M)
  void_bill o bill_id p = elim (find_bill bill_id p) [
    | none ↦ (err (bill_not_found bill_id), p)
    | some b ↦
        if status_eq b.status ApBillStatus.paid
        then (err (invalid_state "Cannot void a paid bill"), p)
        else (ok (voided o.now b), after_void o bill_id b p)
  ]
