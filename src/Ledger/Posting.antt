-- ===== src/Ledger/Posting.antt =====
-- Recording a transaction (RichdaleAccounting/nexus-core/src/accounting/ledger.rs).
use Prim.Native.String.{◌++◌ as concat}
use rich_aim_acct_inv.Prelude.{
  ℕ, ◌+◌, Option, none, some, List, [], ◌∷◌, Result, ok, err, if◌then◌else◌,
}
use rich_aim_acct_inv.Prelude.OrdMap.{OrdMap, get?, insert, modify}
use rich_aim_acct_inv.Prelude.State.{◌>>=◌, ◌>>◌, pure, check}
use rich_aim_acct_inv.Prelude.Text.{format_08}
use rich_aim_acct_inv.Money.{Decimal}
use rich_aim_acct_inv.Financial.{
  DateTime, Account, update_balance, is_active, TransactionEntry, Transaction, TransactionStatus,
  transaction_is_balanced, JournalEntry, new_journal_entry, post,
}
use rich_aim_acct_inv.Ledger.Defs.{
  Outside, Ledger, LedgerError, account_not_found, unbalanced_transaction, account_inactive, other,
  Method,
}

module _ {M : Type 0} where
  -- The body of the loop of `validate_transaction`: the entry's account exists and is active.
  abbrev pub check_account : TransactionEntry M → Option (Account M) → Result LedgerError (Unit {0})
  check_account e none = err (account_not_found e.account_id)
  check_account e (some a) = if is_active a then ok tt else err (account_inactive a.number)

  -- The loop ends at the first error.
  unfoldable pub check_accounts :
      List (TransactionEntry M) → OrdMap (Account M) → Result LedgerError (Unit {0})
  check_accounts [] m = ok tt
  check_accounts (e ∷ es) m =
      let rest = check_accounts es m in
      elim (check_account e (get? e.account_id m)) [ err x ↦ err x | ok _ ↦ rest ]

  -- `let number = format!("TRX-{:08}", *counter); *counter += 1`
  unfoldable pub next_transaction_number : Method M ℕ
  next_transaction_number l = (
    ok l.current_transaction_number,
    record l { current_transaction_number = l.current_transaction_number + 1 },
  )

  unfoldable pub next_journal_number : Method M ℕ
  next_journal_number l = (
    ok l.current_journal_number,
    record l { current_journal_number = l.current_journal_number + 1 },
  )

  unfoldable pub store_transaction : Transaction M → Method M (Unit {0})
  store_transaction t l = (ok tt, record l { transactions = insert t.id t l.transactions })

  unfoldable pub store_journal_entry : JournalEntry M → Method M (Unit {0})
  store_journal_entry j l = (ok tt, record l { journal_entries = insert j.id j l.journal_entries })

module _ {M : Type 0} ⦃d : Decimal M⦄ where
  unfoldable pub validate_transaction : Transaction M → Ledger M → Result LedgerError (Unit {0})
  unfolding check_accounts
  validate_transaction t l =
      if transaction_is_balanced t
      then check_accounts t.entries l.accounts
      else err unbalanced_transaction

  -- The loop of `update_account_balances`; an entry with no account is passed over.
  unfoldable pub apply_entries :
      DateTime → List (TransactionEntry M) → OrdMap (Account M) → OrdMap (Account M)
  apply_entries now [] m = m
  apply_entries now (e ∷ es) m =
      apply_entries now es (modify e.account_id (update_balance now e.amount e.entry_type) m)

  unfoldable pub update_account_balances : DateTime → Transaction M → Method M (Unit {0})
  unfolding apply_entries
  update_account_balances now t l =
      (ok tt, record l { accounts = apply_entries now t.entries l.accounts })

  -- `journal_entry.post()?`, whose error text becomes `LedgerError::Other`.
  abbrev pub posted_or_other :
      {A : Type 0}
      → Result A (JournalEntry M)
      → (A → LedgerError)
      → Result LedgerError (JournalEntry M)
  posted_or_other (ok j) f = ok j
  posted_or_other (err x) f = err (f x)

  unfoldable pub create_journal_entry : Outside → Transaction M → Method M (JournalEntry M)
  unfolding next_journal_number store_journal_entry
  create_journal_entry o t = do
    number ← next_journal_number
    let blank : JournalEntry M =
        new_journal_entry (o.fresh 0) o.now (concat "Journal entry for transaction " t.number)
          (o.date_naive t.date)
    let filled : JournalEntry M = record blank {
      number = concat "JE-" (format_08 number);
      entries = t.entries;
    }
    posted ← check (λ _. posted_or_other (post o.now filled) other)
    let stamped : JournalEntry M = record posted { created_at = o.now; updated_at = o.now }
    store_journal_entry stamped
    pure stamped

  unfoldable pub record_transaction : Outside → Transaction M → Method M (Transaction M)
  unfolding next_transaction_number update_account_balances store_transaction create_journal_entry
  record_transaction o t = do
    check (validate_transaction t)
    number ← next_transaction_number
    let stamped : Transaction M = record t {
      number = concat "TRX-" (format_08 number);
      created_at = o.now;
      updated_at = o.now;
      status = TransactionStatus.posted;
    }
    update_account_balances o.now stamped
    store_transaction stamped
    journal ← create_journal_entry o stamped
    let linked : Transaction M = record stamped { journal_entry_id = some journal.id }
    store_transaction linked
    pure linked
