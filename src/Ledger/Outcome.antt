-- ===== src/Ledger/Outcome.antt =====
-- What `record_transaction` returns and leaves (RichdaleAccounting/nexus-core/src/accounting/ledger.rs): it refuses a
-- transaction before it writes anything, or it carries out every step.
use Prim.Native.String.{◌++◌ as concat}
use rich_aim_acct_inv.Prelude.{
  ◌+◌, ◌≡◌, ◌⊎◌, inl, inr, true, false, none, some, ok, err, Result-cases, All, arith, ◌≢◌, Result,
}
use rich_aim_acct_inv.Prelude.OrdMap.{insert}
use rich_aim_acct_inv.Prelude.Text.{format_08}
use rich_aim_acct_inv.Prelude.State.{◌>>=◌}
use rich_aim_acct_inv.Money.{Decimal}
use rich_aim_acct_inv.Financial.{
  Transaction, TransactionStatus, JournalEntry, new_journal_entry, journal_is_balanced, post,
}
use rich_aim_acct_inv.Ledger.{
  Outside, Ledger, LedgerError, validate_transaction, apply_entries, record_transaction,
}
use rich_aim_acct_inv.Ledger.Validity.{
  debits, credits, Postable, balanced_iff, validate_transaction_iff,
}

ok_ne_err : (u : Result LedgerError (Unit {0})) (x : LedgerError) → u ≡ ok tt → u ≢ err x
ok_ne_err u x done refused = ground arith

module _ {M : Type 0} ⦃d : Decimal M⦄ (o : Outside) (t : Transaction M) (l : Ledger M) where
  -- The transaction as it is first stored: numbered, stamped and posted.
  abbrev pub stamped : Transaction M
  stamped = record t {
    number = concat "TRX-" (format_08 l.current_transaction_number);
    created_at = o.now;
    updated_at = o.now;
    status = TransactionStatus.posted;
  }

  -- The transaction as it is returned: linked to its journal entry too.
  abbrev pub recorded : Transaction M
  recorded = record stamped { journal_entry_id = some (o.fresh 0) }

  -- Its journal entry, with the same entries, posted.
  abbrev pub journal : JournalEntry M
  journal = record {
    id = o.fresh 0;
    number = concat "JE-" (format_08 l.current_journal_number);
    date = o.date_naive t.date;
    description = concat "Journal entry for transaction " stamped.number;
    reference = none;
    entries = t.entries;
    is_posted = true;
    posted_at = some o.now;
    is_reconciled = false;
    created_at = o.now;
    updated_at = o.now;
  }

  -- The ledger after every step.
  abbrev pub after_posting : Ledger M
  after_posting = record {
    accounts = apply_entries o.now t.entries l.accounts;
    transactions = insert t.id recorded (insert t.id stamped l.transactions);
    journal_entries = insert (o.fresh 0) journal l.journal_entries;
    current_journal_number = l.current_journal_number + 1;
    current_transaction_number = l.current_transaction_number + 1;
  }

  record_transaction-valid :
      validate_transaction t l ≡ ok tt → record_transaction o t l ≡ (ok recorded, after_posting)
  unfolding record_transaction journal_is_balanced new_journal_entry post
  record_transaction-valid h =
      ground (arith, (balanced_iff t.entries).1 ((validate_transaction_iff t l).0 h).0)

  record_transaction-invalid :
      (x : LedgerError) → validate_transaction t l ≡ err x → record_transaction o t l ≡ (err x, l)
  unfolding record_transaction
  record_transaction-invalid x h = rw (h, ◌>>=◌)

  -- What makes a transaction acceptable: equal debits and credits, and accounts that are active.
  abbrev pub Acceptable : Type 0
  Acceptable = (debits t.entries ≡ credits t.entries) × All (Postable l.accounts) t.entries

  -- The two answers, each under its condition.
  pub record_transaction_outcome :
      (Acceptable → record_transaction o t l ≡ (ok recorded, after_posting))
      × (¬ Acceptable → (x : LedgerError) × (record_transaction o t l ≡ (err x, l)))
  record_transaction_outcome = (
    λ h. record_transaction-valid ((validate_transaction_iff t l).1 h),
    λ bad. elim (Result-cases (validate_transaction t l)) [
      | inl (tt, valid) ↦ absurd (bad ((validate_transaction_iff t l).0 valid))
      | inr (x, refused) ↦ (x, record_transaction-invalid x refused)
    ],
  )

  -- The two ways in which a call can end.
  pub record_transaction_cases :
      (Acceptable × (record_transaction o t l ≡ (ok recorded, after_posting)))
      ⊎ ((x : LedgerError) × (record_transaction o t l ≡ (err x, l)))
  record_transaction_cases = elim (Result-cases (validate_transaction t l)) [
    | inl (tt, valid) ↦ inl ((validate_transaction_iff t l).0 valid, record_transaction-valid valid)
    | inr (x, refused) ↦ inr (x, record_transaction-invalid x refused)
  ]

  -- A transaction whose debits equal its credits and whose accounts are all in the ledger and active
  -- is recorded, with every step done: balances, both numbers, the transaction and its posted journal
  -- entry. Any other is refused with an error and leaves the ledger as it was.
  pub record_transaction_lem :
      (Acceptable × (record_transaction o t l ≡ (ok recorded, after_posting)))
      ⊎ (¬ Acceptable × ((x : LedgerError) × (record_transaction o t l ≡ (err x, l))))
  record_transaction_lem = elim (Result-cases (validate_transaction t l)) [
    | inl (tt, valid) ↦ inl ((validate_transaction_iff t l).0 valid, record_transaction-valid valid)
    | inr (x, refused) ↦ inr (
      λ a. ok_ne_err (validate_transaction t l) x ((validate_transaction_iff t l).1 a) refused,
      (x, record_transaction-invalid x refused),
    )
  ]
