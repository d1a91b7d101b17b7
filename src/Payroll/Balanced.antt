-- ===== src/Payroll/Balanced.antt =====
-- When the transactions of pay slips balance
-- (RichdaleAccounting/nexus-core/src/accounting/payroll.rs).
use rich_aim_acct_inv.Prelude.{
  ◌≡◌, ◌∙◌, ◌↔◌, List, [], ◌∷◌, ◌++◌, All, arith, Bool-cases, inl, inr, String, refl, sym, ap,
}
use rich_aim_acct_inv.Prelude.Int.{
  ℤ, pos, pos_part, ◌+ℤ◌, ◌≤ℤ◌, int_laws, parts_of, ◌<ℤ◌, zero_+ℤ, +ℤ_zero, neg_part, negsuc,
}
use rich_aim_acct_inv.Money.{Decimal, zero_parts, dec_lt, dec_lt-true, dec_lt-false}
use rich_aim_acct_inv.Financial.{Uuid, TransactionEntry, Transaction, new_entry, new_transaction}
use rich_aim_acct_inv.Ledger.{Outside, after_draws}
use rich_aim_acct_inv.Ledger.Validity.{debits, credits}
use rich_aim_acct_inv.Payroll.{
  PayrollAccounts, PayrollCalculation, PayrollProcessor, payroll_entries, payroll_transaction,
  payroll_transactions, generate_payroll_transactions, withheld,
}
use rich_aim_acct_inv.Payroll.Slips.{AddsUp}

positive_lem : (z : ℤ) → pos 0 <ℤ z → z ≡ pos (pos_part z)
positive_lem (pos n) h = refl
positive_lem (negsuc n) h = absurd (omega arith)

not_negative_lem : (z : ℤ) → pos 0 ≤ℤ z → neg_part z ≡ 0
not_negative_lem (pos n) h = refl
not_negative_lem (negsuc n) h = absurd (omega arith)

not_positive_lem : (z : ℤ) → z ≤ℤ pos 0 → pos_part z ≡ 0
not_positive_lem (pos n) h = omega arith
not_positive_lem (negsuc n) h = refl

module _ {M : Type 0} ⦃d : Decimal M⦄ where
  open d use {value, dec_0}

  -- None of the amounts withheld is negative.
  pub record NoneNegative (c : PayrollCalculation M) : Type 0 where
    pub federal : pos 0 ≤ℤ value c.federal_tax
    pub state : pos 0 ≤ℤ value c.state_tax
    pub local : pos 0 ≤ℤ value c.local_tax
    pub social : pos 0 ≤ℤ value c.social_security
    pub medical : pos 0 ≤ℤ value c.medicare
    pub retired : pos 0 ≤ℤ value c.retirement

  abbrev pub Balances : Transaction M → Type 0
  Balances t = debits t.entries ≡ credits t.entries

  debits-withheld :
      (i k : Uuid) (x : M) (s : String) (es : List (TransactionEntry M))
      → debits (withheld i k x s ++ es) ≡ debits es
  unfolding withheld new_entry
  debits-withheld i k x s es = elim (Bool-cases (dec_lt dec_0 x)) [
    | inl credited ↦ rw credited (zero_+ℤ (debits es))
    | inr left_out ↦ rw left_out refl
  ]

  credits-withheld :
      (i k : Uuid) (x : M) (s : String) (es : List (TransactionEntry M))
      → credits (withheld i k x s ++ es) ≡ pos (pos_part (value x)) +ℤ credits es
  unfolding withheld new_entry
  credits-withheld i k x s es = elim (Bool-cases (dec_lt dec_0 x)) [
    | inl credited ↦ rw credited (
        ap (λ z. z +ℤ credits es)
          (positive_lem (value x) (omega (arith, dec_lt-true dec_0 x credited, zero_parts d))))
    | inr left_out ↦
        rw
          (
            left_out,
            not_positive_lem (value x) (omega (arith, dec_lt-false dec_0 x left_out, zero_parts d)),
          )
          (sym (zero_+ℤ (credits es)))
  ]

  module _ (shown : Uuid → String) (o : Outside) (a : PayrollAccounts)
      (c : PayrollCalculation M) where
    debits-payroll_entries : debits (payroll_entries shown o a c) ≡ value c.gross_pay
    unfolding payroll_entries new_entry
    debits-payroll_entries = simp (debits-withheld, +ℤ_zero)

    -- What is credited: the positive amounts withheld, and the net pay.
    credits-payroll_entries :
        credits (payroll_entries shown o a c)
        ≡ pos (pos_part (value c.federal_tax))
          +ℤ (pos (pos_part (value c.state_tax))
              +ℤ (pos (pos_part (value c.local_tax))
                  +ℤ (pos (pos_part (value c.social_security))
                      +ℤ (pos (pos_part (value c.medicare))
                          +ℤ (pos (pos_part (value c.retirement)) +ℤ value c.net_pay)))))
    unfolding payroll_entries new_entry
    credits-payroll_entries = simp (credits-withheld, +ℤ_zero, zero_+ℤ)

    -- The debits fall short of the credits by the negative amounts withheld.
    payroll_entries_iff :
        AddsUp c
        → (debits (payroll_entries shown o a c) ≡ credits (payroll_entries shown o a c))
          ↔ NoneNegative c
    payroll_entries_iff v = (
      λ h. omega (
        int_laws,
        parts_of h,
        parts_of debits-payroll_entries,
        parts_of credits-payroll_entries,
        parts_of v.uses_of_gross,
      ),
      λ n.
          debits-payroll_entries
          ∙ omega (
            int_laws,
            parts_of v.uses_of_gross,
            not_negative_lem (value c.federal_tax) n.federal,
            not_negative_lem (value c.state_tax) n.state,
            not_negative_lem (value c.local_tax) n.local,
            not_negative_lem (value c.social_security) n.social,
            not_negative_lem (value c.medicare) n.medical,
            not_negative_lem (value c.retirement) n.retired,
          )
          ∙ sym credits-payroll_entries,
    )

  module _ (shown : Uuid → String) (a : PayrollAccounts) (pay_period_id : Uuid) where
    payroll_transactions_iff :
        (cs : List (PayrollCalculation M)) (o : Outside)
        → All AddsUp cs
        → All Balances (payroll_transactions shown o a pay_period_id cs) ↔ All NoneNegative cs
    unfolding payroll_transactions payroll_transaction new_transaction
    payroll_transactions_iff [] o v = (λ h. tt, λ h. tt)
    payroll_transactions_iff (c ∷ cs) o v =
        let first = payroll_entries_iff shown o a c v.0 in
        let rest = payroll_transactions_iff cs (after_draws 9 o) v.1 in
        (λ h. (first.0 h.0, rest.0 h.1), λ n. (first.1 n.0, rest.1 n.1))

  -- For pay slips that add up, all transactions generated balance exactly when no amount withheld
  -- on any slip is negative.
  pub generate_payroll_transactions_iff :
      (shown : Uuid → String) (o : Outside) (pay_period_id : Uuid)
      (cs : List (PayrollCalculation M)) (p : PayrollProcessor M)
      → All AddsUp cs
      → All Balances (generate_payroll_transactions shown o pay_period_id cs p)
        ↔ All NoneNegative cs
  unfolding generate_payroll_transactions
  generate_payroll_transactions_iff shown o pay_period_id cs p v =
      payroll_transactions_iff shown _ pay_period_id cs _ v
