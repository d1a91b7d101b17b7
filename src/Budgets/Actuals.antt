-- ===== src/Budgets/Actuals.antt =====
-- The actual amounts of a variance report against what the ledger's postings move
-- (RichdaleAccounting/nexus-core/src/accounting/budget.rs).
use rich_aim_acct_inv.Prelude.{
  ◌≡◌, ◌==◌, refl, ap, ◌∙◌, inl, inr, some, List, [], ◌∷◌, arith, Bool-cases, if◌then◌else◌,
}
use rich_aim_acct_inv.Prelude.OrdMap.{OrdMap, get?, insert, get?-insert}
use rich_aim_acct_inv.Prelude.Int.{ℤ, pos, ◌+ℤ◌, int_laws, parts_of}
use rich_aim_acct_inv.Money.{Decimal, Division, zero_parts}
use rich_aim_acct_inv.Financial.{
  Uuid, Account, AccountType, EntryType, TransactionEntry, Transaction, type_normal_balance,
}
use rich_aim_acct_inv.Ledger.Balances.{movement, posting}
use rich_aim_acct_inv.Budgets.{
  signed_by, signed_amount, amount_or_zero, account_by_id, add_entries, add_transactions,
}

-- The accounts of the income statement.
abbrev pub OfIncome : AccountType → Type 0
OfIncome AccountType.asset = ⊥
OfIncome AccountType.liability = ⊥
OfIncome AccountType.equity = ⊥
OfIncome AccountType.revenue = Unit
OfIncome AccountType.expense = Unit

module _ {M : Type 0} ⦃d : Decimal M⦄ where
  open d use {value}

  -- The movement of an account over several transactions.
  abbrev pub moved : AccountType → Uuid → List (Transaction M) → ℤ
  moved ty k [] = pos 0
  moved ty k (t ∷ ts) = movement ty k t.entries +ℤ moved ty k ts

  module _ ⦃q : Division M⦄ where
    value-signed_by :
        (ty : AccountType) (en : EntryType) (x : M)
        → OfIncome ty
        → value (signed_by ty en x) ≡ posting (type_normal_balance ty) en x
    value-signed_by AccountType.asset en x h = elim h [ ]
    value-signed_by AccountType.liability en x h = elim h [ ]
    value-signed_by AccountType.equity en x h = elim h [ ]
    value-signed_by AccountType.expense EntryType.debit x h = refl
    value-signed_by AccountType.expense EntryType.credit x h = q.value-neg x
    value-signed_by AccountType.revenue EntryType.debit x h = q.value-neg x
    value-signed_by AccountType.revenue EntryType.credit x h = refl

    abbrev amount_of : Uuid → OrdMap M → ℤ
    amount_of k actuals = value (amount_or_zero (get? k actuals))

    module _ (accounts : List (Account M)) (k : Uuid) (a : Account M)
        (found : account_by_id k accounts ≡ some a) (income : OfIncome a.account_type) where
      amount_of-insert :
          (j : Uuid) (x : M) (actuals : OrdMap M)
          → amount_of k (insert j x actuals) ≡ (if j == k then value x else amount_of k actuals)
      amount_of-insert j x actuals =
          ap (λ o. value (amount_or_zero o)) (get?-insert k j x actuals) ∙ ground arith

      -- The new amount of an account that an entry names.
      abbrev increased : TransactionEntry M → OrdMap M → M
      increased e actuals =
          d.add (amount_or_zero (get? e.account_id actuals))
            (signed_amount (account_by_id e.account_id accounts) e)

      value-increased :
          (e : TransactionEntry M) (actuals : OrdMap M)
          → e.account_id ≡ k
          → value (increased e actuals)
            ≡ amount_of k actuals
              +ℤ posting (type_normal_balance a.account_type) e.entry_type e.amount
      value-increased e actuals same =
          d.value-add _ _
          ∙ ap (λ j. amount_of j actuals +ℤ value (signed_amount (account_by_id j accounts) e)) same
          ∙ ap (λ o. amount_of k actuals +ℤ value (signed_amount o e)) found
          ∙ ap (λ v. amount_of k actuals +ℤ v)
              (value-signed_by a.account_type e.entry_type e.amount income)

      amount_of-add_entries :
          (es : List (TransactionEntry M)) (actuals : OrdMap M)
          → amount_of k (add_entries accounts es actuals)
            ≡ amount_of k actuals +ℤ movement a.account_type k es
      unfolding add_entries
      amount_of-add_entries [] actuals = omega int_laws
      amount_of-add_entries (e ∷ es) actuals =
          let ih =
            parts_of
              (amount_of-add_entries es (insert e.account_id (increased e actuals) actuals)) in
          let new = amount_of-insert e.account_id (increased e actuals) actuals in
          elim (Bool-cases (e.account_id == k)) [
            | inl hit ↦
                let grown : amount_of k (insert e.account_id (increased e actuals) actuals)
                    ≡ amount_of k actuals
                      +ℤ posting (type_normal_balance a.account_type) e.entry_type e.amount =
                  new ∙ rw hit (value-increased e actuals (ground arith)) in
                rw hit (omega (int_laws, ih, parts_of grown))
            | inr miss ↦
                let same : amount_of k (insert e.account_id (increased e actuals) actuals)
                    ≡ amount_of k actuals =
                  new ∙ rw miss refl in
                rw miss (omega (int_laws, ih, parts_of same))
          ]

      amount_of-add_transactions :
          (ts : List (Transaction M)) (actuals : OrdMap M)
          → amount_of k (add_transactions accounts ts actuals)
            ≡ amount_of k actuals +ℤ moved a.account_type k ts
      unfolding add_transactions
      amount_of-add_transactions [] actuals = omega int_laws
      amount_of-add_transactions (t ∷ ts) actuals = omega (
        int_laws,
        parts_of (amount_of-add_entries t.entries actuals),
        parts_of (amount_of-add_transactions ts (add_entries accounts t.entries actuals)),
      )

      -- The actual amount of a revenue or expense account over some transactions is what posting their
      -- entries moves the account's balance by.
      pub actual-moved :
          (ts : List (Transaction M))
          → value (amount_or_zero (get? k (add_transactions accounts ts [])))
            ≡ moved a.account_type k ts
      unfolding get?
      actual-moved ts = omega (int_laws, parts_of (amount_of-add_transactions ts []), zero_parts d)
