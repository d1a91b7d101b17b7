-- ===== src/Ledger/Balances.antt =====
-- What each account's balance becomes when a transaction is recorded
-- (RichdaleAccounting/nexus-core/src/accounting/ledger.rs, `update_account_balances`).
use rich_aim_acct_inv.Prelude.{
  ℕ, ◌==◌, ◌≡◌, refl, inl, inr, some, List, [], ◌∷◌, Bool-cases, if◌then◌else◌,
}
use rich_aim_acct_inv.Prelude.Int.{ℤ, pos, ◌+ℤ◌, ◌-ℤ◌, int_laws, parts_of}
use rich_aim_acct_inv.Prelude.OrdMap.{OrdMap, get?, modify, get?-modify}
use rich_aim_acct_inv.Money.{Decimal}
use rich_aim_acct_inv.Financial.{
  Uuid, DateTime, AccountType, Account, EntryType, BalanceType, type_normal_balance, multiplier,
  update_balance, TransactionEntry, Transaction,
}
use rich_aim_acct_inv.Ledger.{Outside, Ledger, apply_entries, record_transaction}
use rich_aim_acct_inv.Ledger.Outcome.{Acceptable, record_transaction_outcome}

module _ {M : Type 0} ⦃d : Decimal M⦄ where
  open d use {value, add, mul}

  -- What an entry adds to the balance of an account: on the account's normal side it adds.
  abbrev pub posting : BalanceType → EntryType → M → ℤ
  posting BalanceType.debit EntryType.debit x = value x
  posting BalanceType.debit EntryType.credit x = pos 0 -ℤ value x
  posting BalanceType.credit EntryType.debit x = pos 0 -ℤ value x
  posting BalanceType.credit EntryType.credit x = value x

  -- The sum of the postings to one account.
  abbrev pub movement : AccountType → Uuid → List (TransactionEntry M) → ℤ
  movement ty k [] = pos 0
  movement ty k (e ∷ es) =
      (if e.account_id == k then posting (type_normal_balance ty) e.entry_type e.amount else pos 0)
      +ℤ movement ty k es

  value-multiplier :
      (nb : BalanceType) (en : EntryType) (x : M)
      → value (mul (multiplier nb en) x) ≡ posting nb en x
  value-multiplier BalanceType.debit EntryType.debit x = d.value-mul_1 x
  value-multiplier BalanceType.debit EntryType.credit x = d.value-mul_neg_1 x
  value-multiplier BalanceType.credit EntryType.debit x = d.value-mul_neg_1 x
  value-multiplier BalanceType.credit EntryType.credit x = d.value-mul_1 x

  value-update_balance :
      (now : DateTime) (x : M) (en : EntryType) (a : Account M)
      → value (update_balance now x en a).balance
        ≡ value a.balance +ℤ posting (type_normal_balance a.account_type) en x
  unfolding update_balance
  value-update_balance now x en a = rw (
    d.value-add a.balance (mul (multiplier (type_normal_balance a.account_type) en) x),
    value-multiplier (type_normal_balance a.account_type) en x,
  )

  -- `b` is the account `a` after its balance went up by `v`: all else but the time of the update is
  -- unchanged.
  abbrev pub MovedBy : Account M → ℤ → Account M → Type 0
  MovedBy a v b =
      (b ≡ record a { balance = b.balance; updated_at = b.updated_at })
      × (value b.balance ≡ value a.balance +ℤ v)

  apply_entries-MovedBy :
      (now k : ℕ) (es : List (TransactionEntry M)) (m : OrdMap (Account M)) (a : Account M)
      → get? k m ≡ some a
      → (b : Account M) × (get? k (apply_entries now es m) ≡ some b)
        × MovedBy a (movement a.account_type k es) b
  unfolding apply_entries update_balance
  apply_entries-MovedBy now k [] m a h = (a, h, (refl, omega int_laws))
  apply_entries-MovedBy now k (e ∷ es) m a h = elim (Bool-cases (e.account_id == k)) [
    | inl hit ↦
        let a' = update_balance now e.amount e.entry_type a in
        let (b, found, (same, moved)) =
          apply_entries-MovedBy now k es
            (modify e.account_id (update_balance now e.amount e.entry_type) m) a'
            (rw
              (get?-modify k e.account_id (update_balance now e.amount e.entry_type) m, hit, h)) in
        (
          b,
          found,
          (
            same,
            rw hit (
                omega (
                  int_laws,
                  parts_of moved,
                  parts_of (value-update_balance now e.amount e.entry_type a),
                )),
          ),
        )
    | inr miss ↦
        let (b, found, (same, moved)) =
          apply_entries-MovedBy now k es
            (modify e.account_id (update_balance now e.amount e.entry_type) m) a
            (rw (get?-modify k e.account_id (update_balance now e.amount e.entry_type) m, miss)
              h) in
        (b, found, (same, rw miss (omega (int_laws, parts_of moved))))
  ]

  -- When an acceptable transaction is recorded, each account's balance moves by the sum of the entries
  -- that name it, counted positive on the account's normal side, and nothing else of the account
  -- changes but its update time.
  pub record_transaction-balances :
      (o : Outside) (t : Transaction M) (l : Ledger M) (k : Uuid) (a : Account M)
      → Acceptable o t l
      → get? k l.accounts ≡ some a
      → (b : Account M) × (get? k (record_transaction o t l).1.accounts ≡ some b)
        × MovedBy a (movement a.account_type k t.entries) b
  record_transaction-balances o t l k a ok_t h =
      rw ((record_transaction_outcome o t l).0 ok_t)
        (apply_entries-MovedBy o.now k t.entries l.accounts a h)
