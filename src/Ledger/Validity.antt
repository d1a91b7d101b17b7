-- ===== src/Ledger/Validity.antt =====
-- When `validate_transaction` lets a transaction through (RichdaleAccounting/nexus-core/src/accounting/ledger.rs).
use rich_aim_acct_inv.Prelude.{
  ◌≡◌, refl, sym, ◌∙◌, ◌↔◌, inl, inr, true, some, List, map, filter, ◌≢◌, err, [], ◌∷◌, ok, All,
  arith, Bool-cases, Option-cases, if◌then◌else◌, String, ◌⊎◌,
}
use rich_aim_acct_inv.Prelude.Int.{
  ℤ, pos, ◌+ℤ◌, eqb_ℤ, +ℤ_assoc, +ℤ_zero, zero_+ℤ, eqb_ℤ→eq, eqb_ℤ_refl,
}
use rich_aim_acct_inv.Prelude.OrdMap.{OrdMap, get?}
use rich_aim_acct_inv.Money.{total, value-sum, Decimal}
use rich_aim_acct_inv.Financial.{
  DateTime, JournalEntry, is_debit, is_credit, total_debits, total_credits, post,
  journal_is_balanced, Account, AccountStatus, TransactionEntry, Transaction,
  transaction_is_balanced, balance_loop, entry_type_is_debit, status_is_active,
}
use rich_aim_acct_inv.Ledger.{
  Ledger, check_account, check_accounts, validate_transaction, get_account_by_number,
}

active_status : (s : AccountStatus) → status_is_active s ≡ true → s ≡ AccountStatus.active
active_status AccountStatus.active h = refl
active_status AccountStatus.inactive h = cc
active_status AccountStatus.frozen h = cc
active_status AccountStatus.closed h = cc

module _ {M : Type 0} ⦃d : Decimal M⦄ where
  open d use {value, dec_0, add}

  -- The sums of the debit and of the credit entries, as numbers.
  abbrev pub debits : List (TransactionEntry M) → ℤ
  debits [] = pos 0
  debits (e ∷ es) =
      (if entry_type_is_debit e.entry_type then value e.amount else pos 0) +ℤ debits es

  abbrev pub credits : List (TransactionEntry M) → ℤ
  credits [] = pos 0
  credits (e ∷ es) =
      (if entry_type_is_debit e.entry_type then pos 0 else value e.amount) +ℤ credits es

  balance_loop-eq :
      (es : List (TransactionEntry M)) (x y : M)
      → balance_loop es x y ≡ eqb_ℤ (value x +ℤ debits es) (value y +ℤ credits es)
  unfolding balance_loop
  balance_loop-eq [] x y = rw (+ℤ_zero (value x), +ℤ_zero (value y))
  balance_loop-eq (e ∷ es) x y = elim (Bool-cases (entry_type_is_debit e.entry_type)) [
    | inl is_debit ↦ rw (
      is_debit,
      balance_loop-eq es (add x e.amount) y,
      d.value-add x e.amount,
      +ℤ_assoc (value x) (value e.amount) (debits es),
      zero_+ℤ (credits es),
    )
    | inr is_credit ↦ rw (
      is_credit,
      balance_loop-eq es x (add y e.amount),
      d.value-add y e.amount,
      +ℤ_assoc (value y) (value e.amount) (credits es),
      zero_+ℤ (debits es),
    )
  ]

  -- The loop of `is_balanced` compares the two sums.
  pub balanced_iff :
      (es : List (TransactionEntry M))
      → (balance_loop es dec_0 dec_0 ≡ true) ↔ (debits es ≡ credits es)
  balanced_iff es =
      (λ h. eqb_ℤ→eq _ _ (sym compared ∙ h), λ h. compared ∙ rw h (eqb_ℤ_refl (credits es)))
    where
      compared : balance_loop es dec_0 dec_0 ≡ eqb_ℤ (debits es) (credits es)
      compared =
          rw (
            balance_loop-eq es dec_0 dec_0,
            d.value-dec_0,
            zero_+ℤ (debits es),
            zero_+ℤ (credits es),
          )

  -- An entry that `validate_transaction` lets through: its account exists and is active.
  abbrev pub Postable : OrdMap (Account M) → TransactionEntry M → Type 0
  Postable m e =
      (a : Account M) × (get? e.account_id m ≡ some a) × (a.status ≡ AccountStatus.active)

  check_account-Postable :
      (e : TransactionEntry M) (m : OrdMap (Account M))
      → check_account e (get? e.account_id m) ≡ ok tt
      → Postable m e
  check_account-Postable e m h = elim (Option-cases (get? e.account_id m)) [
    | inl missing ↦ ground arith
    | inr (a, found) ↦ (a, found, active_status a.status (ground arith))
  ]

  check_accounts-All :
      (es : List (TransactionEntry M)) (m : OrdMap (Account M))
      → check_accounts es m ≡ ok tt
      → All (Postable m) es
  unfolding check_accounts
  check_accounts-All [] m h = tt
  check_accounts-All (e ∷ es) m h =
      (check_account-Postable e m (ground arith), check_accounts-All es m (ground arith))

  All-check_accounts :
      (es : List (TransactionEntry M)) (m : OrdMap (Account M))
      → All (Postable m) es
      → check_accounts es m ≡ ok tt
  unfolding check_accounts
  All-check_accounts [] m h = refl
  All-check_accounts (e ∷ es) m ((a, found, active), rest) =
      ground (arith, All-check_accounts es m rest)

  -- A transaction passes validation exactly when its debits equal its credits and each of its
  -- entries names an account of the ledger that is active.
  pub validate_transaction_iff :
      (t : Transaction M) (l : Ledger M)
      → (validate_transaction t l ≡ ok tt)
        ↔ ((debits t.entries ≡ credits t.entries) × All (Postable l.accounts) t.entries)
  unfolding validate_transaction transaction_is_balanced
  validate_transaction_iff t l = (
    λ h. (
      (balanced_iff t.entries).0 (ground arith),
      check_accounts-All t.entries l.accounts (ground arith),
    ),
    λ h. rw ((balanced_iff t.entries).1 h.0) (All-check_accounts t.entries l.accounts h.1),
  )

  -- The journal's totals.
  total-filter_debit :
      (es : List (TransactionEntry M))
      → total (map (λ e. e.amount) (filter is_debit es)) ≡ debits es
  total-filter_debit [] = refl
  total-filter_debit (e ∷ es) = elim (Bool-cases (entry_type_is_debit e.entry_type)) [
    | inl debit ↦ rw (debit, total-filter_debit es)
    | inr credit ↦ rw (credit, total-filter_debit es, zero_+ℤ (debits es))
  ]

  total-filter_credit :
      (es : List (TransactionEntry M))
      → total (map (λ e. e.amount) (filter is_credit es)) ≡ credits es
  total-filter_credit [] = refl
  total-filter_credit (e ∷ es) = elim (Bool-cases (entry_type_is_debit e.entry_type)) [
    | inl debit ↦ rw (debit, total-filter_credit es, zero_+ℤ (credits es))
    | inr credit ↦ rw (credit, total-filter_credit es)
  ]

  -- The two answers, each under its condition.
  post_iff :
      (now : DateTime) (j : JournalEntry M)
      → ((value (total_debits j) ≡ value (total_credits j))
          ↔ (post now j ≡ ok (record j { is_posted = true; posted_at = some now })))
        × (value (total_debits j) ≢ value (total_credits j)
            → post now j ≡ err "Journal entry is not balanced")
  unfolding post journal_is_balanced total_debits total_credits
  post_iff now j =
      rw
        (
          value-sum (map (λ e. e.amount) (filter is_debit j.entries)),
          value-sum (map (λ e. e.amount) (filter is_credit j.entries)),
          total-filter_debit j.entries,
          total-filter_credit j.entries,
        )
        (
          (λ h. rw ((balanced_iff j.entries).1 h), λ h. (balanced_iff j.entries).0 (ground arith)),
          λ h. elim (Bool-cases (balance_loop j.entries dec_0 dec_0)) [
            | inl even ↦ absurd (h ((balanced_iff j.entries).0 even))
            | inr odd ↦ rw odd
          ],
        )

  -- Posting a journal entry whose two totals denote the same number marks it as posted, at the time
  -- given, and changes nothing else; posting any other is refused.
  post_lem :
      (now : DateTime) (j : JournalEntry M)
      → ((value (total_debits j) ≡ value (total_credits j))
          × (post now j ≡ ok (record j { is_posted = true; posted_at = some now })))
        ⊎ ((value (total_debits j) ≢ value (total_credits j))
            × (post now j ≡ err "Journal entry is not balanced"))
  post_lem now j = elim (Bool-cases (eqb_ℤ (value (total_debits j)) (value (total_credits j)))) [
    | inl same ↦ let e = eqb_ℤ→eq _ _ same in inl (e, (post_iff now j).0.0 e)
    | inr apart ↦
        let ne : value (total_debits j) ≢ value (total_credits j) = λ e. ground arith in
        inr (ne, (post_iff now j).1 ne)
  ]

module _ {M : Type 0} where
  -- An account of a ledger that is found by its number, kept under its id and active.
  pub record Usable (l : Ledger M) (number : String) (a : Account M) : Type 0 where
    pub found : get_account_by_number number l ≡ some a
    pub stored : get? a.id l.accounts ≡ some a
    pub active : a.status ≡ AccountStatus.active
