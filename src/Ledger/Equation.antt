-- ===== src/Ledger/Equation.antt =====
-- The accounting equation, and what an account's balance becomes
-- (RichdaleAccounting/nexus-core/src/accounting/ledger.rs and src/database/financial.rs).
use rich_aim_acct_inv.Prelude.{
  ℕ, ◌==◌, ◌≡◌, refl, ◌∙◌, inl, inr, some, List, [], ◌∷◌, All, arith, Bool-cases, if◌then◌else◌,
}
use rich_aim_acct_inv.Prelude.Int.{ℤ, pos, ◌+ℤ◌, ◌-ℤ◌, int_laws, parts_of}
use rich_aim_acct_inv.Prelude.OrdMap.{OrdMap, get?, modify, get?-modify}
use rich_aim_acct_inv.Money.{Decimal}
use rich_aim_acct_inv.Financial.{
  DateTime, AccountType, Account, EntryType, type_normal_balance, multiplier, update_balance,
  TransactionEntry, Transaction, entry_type_is_debit,
}
use rich_aim_acct_inv.Ledger.{Outside, Ledger, apply_entries, record_transaction}
use rich_aim_acct_inv.Ledger.Validity.{debits, credits, Postable}
use rich_aim_acct_inv.Ledger.Outcome.{record_transaction_cases}

-- A balance with the sign of its side: debit-normal accounts count up, the others down.
abbrev pub side : AccountType → ℤ → ℤ
side AccountType.asset v = v
side AccountType.expense v = v
side AccountType.liability v = pos 0 -ℤ v
side AccountType.equity v = pos 0 -ℤ v
side AccountType.revenue v = pos 0 -ℤ v

cancel : (a b c : ℤ) → a +ℤ c ≡ b +ℤ c → a ≡ b
cancel a b c h = omega (int_laws, parts_of h)

combine :
    (n n0 n1 s c c0 b b0 : ℤ)
    → n +ℤ c0 ≡ n1 +ℤ b0
    → n1 ≡ n0 +ℤ s
    → s +ℤ c ≡ b
    → n +ℤ (c +ℤ c0) ≡ n0 +ℤ (b +ℤ b0)
combine n n0 n1 s c c0 b b0 p q r = omega (int_laws, parts_of p, parts_of q, parts_of r)

module _ {M : Type 0} ⦃d : Decimal M⦄ where
  open d use {value, add, mul, dec_1, dec_neg_1}

  -- Debit-normal balances less credit-normal ones: assets + expenses - (liabilities + equity +
  -- revenue).
  abbrev pub net : OrdMap (Account M) → ℤ
  net [] = pos 0
  net ((_, a) ∷ m) = side a.account_type (value a.balance) +ℤ net m

  -- What an entry adds to the debit side.
  abbrev pub debit_side : EntryType → M → ℤ
  debit_side EntryType.debit x = value x
  debit_side EntryType.credit x = pos 0 -ℤ value x

  plus : (b x : M) → value (add b (mul dec_1 x)) ≡ value b +ℤ value x
  plus b x = rw (d.value-add b (mul dec_1 x), d.value-mul_1 x)

  minus : (b x : M) → value (add b (mul dec_neg_1 x)) ≡ value b -ℤ value x
  minus b x = rw (d.value-add b (mul dec_neg_1 x), d.value-mul_neg_1 x) (omega int_laws)

  -- A posting moves the account's side by the entry's, whatever the account's type.
  pub side-posting :
      (ty : AccountType) (en : EntryType) (b x : M)
      → side ty (value (add b (mul (multiplier (type_normal_balance ty) en) x)))
        ≡ side ty (value b) +ℤ debit_side en x
  side-posting AccountType.asset EntryType.debit b x = plus b x
  side-posting AccountType.asset EntryType.credit b x = rw (minus b x) (omega int_laws)
  side-posting AccountType.expense EntryType.debit b x = plus b x
  side-posting AccountType.expense EntryType.credit b x = rw (minus b x) (omega int_laws)
  side-posting AccountType.liability EntryType.debit b x = rw (minus b x) (omega int_laws)
  side-posting AccountType.liability EntryType.credit b x = rw (plus b x) (omega int_laws)
  side-posting AccountType.equity EntryType.debit b x = rw (minus b x) (omega int_laws)
  side-posting AccountType.equity EntryType.credit b x = rw (plus b x) (omega int_laws)
  side-posting AccountType.revenue EntryType.debit b x = rw (minus b x) (omega int_laws)
  side-posting AccountType.revenue EntryType.credit b x = rw (plus b x) (omega int_laws)

  side-update_balance :
      (now : DateTime) (x : M) (en : EntryType) (a : Account M)
      → let b = update_balance now x en a in
        side b.account_type (value b.balance)
        ≡ side a.account_type (value a.balance) +ℤ debit_side en x
  unfolding update_balance
  side-update_balance now x en a = side-posting a.account_type en a.balance x

  net-modify :
      (k now : ℕ) (x : M) (en : EntryType) (m : OrdMap (Account M)) (a : Account M)
      → get? k m ≡ some a
      → net (modify k (update_balance now x en) m) ≡ net m +ℤ debit_side en x
  unfolding get? modify
  net-modify k now x en [] a h = cc
  net-modify k now x en ((j, w) ∷ m) a h = elim (Bool-cases (k == j)) [
    | inl hit ↦ rw (hit, modify, side-update_balance now x en w) (omega int_laws)
    | inr miss ↦ rw (miss, modify, net-modify k now x en m a (ground arith)) (omega int_laws)
  ]

  -- An account that is there stays there.
  abbrev Known : OrdMap (Account M) → TransactionEntry M → Type 0
  Known m e = (a : Account M) × (get? e.account_id m ≡ some a)

  Known-modify :
      (k : ℕ) (f : Account M → Account M) (m : OrdMap (Account M)) (es : List (TransactionEntry M))
      → All (Known m) es
      → All (Known (modify k f m)) es
  Known-modify k f m [] h = tt
  Known-modify k f m (e ∷ es) ((a, found), rest) = (
    elim (Bool-cases (k == e.account_id)) [
      | inl hit ↦ (f a, rw (get?-modify e.account_id k f m, hit, found))
      | inr miss ↦ (a, rw (get?-modify e.account_id k f m, miss) found)
    ],
    Known-modify k f m es rest,
  )

  -- The debit side of an entry is what it debits less what it credits.
  debit_side-eq :
      (en : EntryType) (x : M)
      → debit_side en x +ℤ (if entry_type_is_debit en then pos 0 else value x)
        ≡ (if entry_type_is_debit en then value x else pos 0)
  debit_side-eq EntryType.debit x = omega int_laws
  debit_side-eq EntryType.credit x = omega int_laws

  net-apply_entries :
      (now : DateTime) (es : List (TransactionEntry M)) (m : OrdMap (Account M))
      → All (Known m) es
      → net (apply_entries now es m) +ℤ credits es ≡ net m +ℤ debits es
  unfolding apply_entries
  net-apply_entries now [] m h = refl
  net-apply_entries now (e ∷ es) m ((a, found), rest) =
      let m' = modify e.account_id (update_balance now e.amount e.entry_type) m in
      combine _ _ (net m') _ _ _ _ _ (net-apply_entries now es m' (Known-modify _ _ m es rest))
        (net-modify e.account_id now e.amount e.entry_type m a found)
        (debit_side-eq e.entry_type e.amount)

  Postable-Known :
      (m : OrdMap (Account M)) (es : List (TransactionEntry M))
      → All (Postable m) es
      → All (Known m) es
  Postable-Known m [] h = tt
  Postable-Known m (e ∷ es) ((a, found, _), rest) = ((a, found), Postable-Known m es rest)

  net-balanced_entries :
      (now : DateTime) (es : List (TransactionEntry M)) (m : OrdMap (Account M))
      → debits es ≡ credits es
      → All (Postable m) es
      → net (apply_entries now es m) ≡ net m
  net-balanced_entries now es m e h =
      cancel _ _ (credits es) (net-apply_entries now es m (Postable-Known m es h) ∙ rw e)

  -- Recording a transaction keeps the accounting equation: whatever the call returns, debit-normal
  -- balances less credit-normal ones add up to what they did before it.
  pub net-record_transaction :
      (o : Outside) (t : Transaction M) (l : Ledger M)
      → net (record_transaction o t l).1.accounts ≡ net l.accounts
  net-record_transaction o t l = elim (record_transaction_cases o t l) [
    | inl ((balanced, postable), done) ↦
        rw done (net-balanced_entries o.now t.entries l.accounts balanced postable)
    | inr (x, refused) ↦ rw refused
  ]
