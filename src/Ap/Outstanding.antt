-- ===== src/Ap/Outstanding.antt =====
-- The outstanding total (RichdaleAccounting/nexus-core/src/accounting/ap.rs, `outstanding_total`).
use rich_aim_acct_inv.Prelude.{
  ℕ, ◌≡◌, refl, ◌∙◌, inl, inr, Bool, true, false, some, List, [], ◌∷◌, map, filter, find, arith,
  Bool-cases, Result, ok, err, String, modify_first, if◌then◌else◌,
}
use rich_aim_acct_inv.Prelude.Int.{ℤ, pos, ◌+ℤ◌, ◌-ℤ◌, int_laws, parts_of, eq_of_parts, zero_+ℤ}
use rich_aim_acct_inv.Money.{
  Decimal, dec_le, dec_lt, dec_le-true, dec_lt-false, add_parts, sub_parts, total, value-sum,
}
use rich_aim_acct_inv.Financial.{Uuid, Transaction}
use rich_aim_acct_inv.Ledger.{Ledger, LedgerError, Outside}
use rich_aim_acct_inv.Ap.{
  AccountsPayableError, ApBill, ApProcessor, has_id, find_bill, remaining_balance, is_open, settled,
  paid_in_part, pay_bill_partial, outstanding_total,
}
use rich_aim_acct_inv.Ap.Cases.{pay_bill_partial_cases}

module _ {M : Type 0} ⦃d : Decimal M⦄ where
  open d use {value, add, sub}

  -- What is still owed on a bill: nothing unless it is approved or scheduled.
  abbrev owed : ApBill M → ℤ
  owed b = if is_open b then value (sub b.amount b.paid_amount) else pos 0

  abbrev owed_all : List (ApBill M) → ℤ
  owed_all [] = pos 0
  owed_all (b ∷ bs) = owed b +ℤ owed_all bs

  total-filter :
      (bs : List (ApBill M)) → total (map remaining_balance (filter is_open bs)) ≡ owed_all bs
  total-filter [] = refl
  total-filter (b ∷ bs) = elim (Bool-cases (is_open b)) [
    | inl open_bill ↦ rw (open_bill, total-filter bs)
    | inr shut ↦ rw (shut, total-filter bs, zero_+ℤ (owed_all bs))
  ]

  value-outstanding_total : (p : ApProcessor M) → value (outstanding_total p) ≡ owed_all p.bills
  unfolding outstanding_total
  value-outstanding_total p = value-sum _ ∙ total-filter p.bills

  owed_all-modify_first :
      (k : ApBill M → Bool) (b' : ApBill M) (bs : List (ApBill M)) (b : ApBill M)
      → find k bs ≡ some b
      → owed_all (modify_first k (λ _. b') bs) +ℤ owed b ≡ owed_all bs +ℤ owed b'
  owed_all-modify_first k b' [] b e = cc
  owed_all-modify_first k b' (c ∷ bs) b e = elim (Bool-cases (k c)) [
    | inl hit ↦ let same : c ≡ b = ground arith in rw (hit, ← same) (omega int_laws)
    | inr miss ↦
        rw miss (omega (int_laws, parts_of (owed_all-modify_first k b' bs b (ground arith))))
  ]

  owed-paid_in_part :
      (now : ℕ) (b : ApBill M) (amount : M) (t : Transaction M)
      → is_open b ≡ true
      → dec_lt (remaining_balance b) amount ≡ false
      → owed (paid_in_part now b amount t) ≡ owed b -ℤ value amount
  owed-paid_in_part now b amount t open_bill fits =
      elim (Bool-cases (dec_le b.amount (add b.paid_amount amount))) [
        | inl full ↦
            rw (open_bill, full)
              (eq_of_parts _ _ (
                omega (
                  int_laws,
                  add_parts b.paid_amount amount,
                  dec_le-true b.amount (add b.paid_amount amount) full,
                  dec_lt-false (remaining_balance b) amount fits,
                  sub_parts b.amount b.paid_amount,
                )))
        | inr part ↦
            rw (open_bill, part, open_bill)
              (eq_of_parts _ _ (
                omega (
                  int_laws,
                  add_parts b.paid_amount amount,
                  sub_parts b.amount (add b.paid_amount amount),
                  sub_parts b.amount b.paid_amount,
                )))
      ]

  -- What a call that began at `p` has done to the total, by how it ended.
  abbrev pub LowersBy :
      ApProcessor M → M → Result AccountsPayableError (ApBill M) × ApProcessor M → Type 0
  LowersBy p amount (ok _, q) =
      value (outstanding_total q) ≡ value (outstanding_total p) -ℤ value amount
  LowersBy p amount (err _, q) = q.bills ≡ p.bills

  settled-LowersBy :
      (bill_id : Uuid) (p : ApProcessor M) (b : ApBill M) (amount : M)
      (change : Transaction M → ApBill M) (r : Result LedgerError (Transaction M) × Ledger M)
      → find_bill bill_id p ≡ some b
      → ((t : Transaction M) → owed (change t) ≡ owed b -ℤ value amount)
      → LowersBy p amount (settled bill_id p change r)
  unfolding find_bill
  settled-LowersBy bill_id p b amount change (ok t, l) found h =
      rw (value-outstanding_total p, value-outstanding_total (settled bill_id p change (ok t, l)).1)
        (omega (
          int_laws,
          parts_of (h t),
          parts_of (owed_all-modify_first (has_id bill_id) (change t) p.bills b found),
        ))
  settled-LowersBy bill_id p b amount change (err x, l) found h = refl

  -- A partial payment of an approved or scheduled bill lowers the outstanding total by exactly the
  -- amount paid, also when it completes the bill; one that fails changes no bill.
  pub pay_bill_partial-outstanding :
      (o : Outside) (shown : String) (bill_id : Uuid) (amount : M) (p : ApProcessor M)
      → ((b : ApBill M) → find_bill bill_id p ≡ some b → is_open b ≡ true)
      → LowersBy p amount (pay_bill_partial o shown bill_id amount p)
  pay_bill_partial-outstanding o shown bill_id amount p opened =
      pay_bill_partial_cases (LowersBy p amount) p o shown bill_id amount (λ x. refl)
        (λ l b e found unpaid positive fits.
          settled-LowersBy bill_id p b amount _ _ found
            (λ t. owed-paid_in_part o.now b amount t (opened b found) fits))
