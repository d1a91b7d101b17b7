-- ===== src/Assets/Depreciating.antt =====
-- Posting a month's depreciation (RichdaleAccounting/nexus-core/src/accounting/assets.rs).
use Prim.Native.String.{◌++◌ as concat}
use rich_aim_acct_inv.Prelude.{
  ℕ, ◌+◌, Bool, false, Option, none, some, List, [], ◌∷◌, map, length, String, Result, ok, err, ltb,
  if◌then◌else◌,
}
use rich_aim_acct_inv.Money.{Division, Decimal, dec_lt}
use rich_aim_acct_inv.Financial.{
  Uuid, DateTime, NaiveDate, EntryType, TransactionEntry, new_entry, Transaction, TransactionType,
  TransactionStatus,
}
use rich_aim_acct_inv.Ledger.{
  Ledger, LedgerError, Outside, after_draws, get_account_by_number, record_transaction,
}
use rich_aim_acct_inv.Assets.Defs.{
  AssetError, FixedAsset, AssetBooks, Method, Printing, is_fully_depreciated, monthly_depreciation,
  account_not_found, ledger_error,
}

abbrev pub disposed_before : NaiveDate → Option NaiveDate → Bool
disposed_before as_of none = false
disposed_before as_of (some disposed) = ltb disposed as_of

module _ {M : Type 0} where
  -- Two entries for each asset: depreciation expense is debited and accumulated depreciation credited.
  unfoldable pub depreciation_entries :
      Outside → ℕ → String → Uuid → Uuid → List (Uuid × Uuid × M) → List (TransactionEntry M)
  depreciation_entries o i text expense accumulated [] = []
  depreciation_entries o i text expense accumulated ((_, _, amount) ∷ rest) =
      new_entry (o.fresh i) expense EntryType.debit amount text
      ∷ new_entry (o.fresh (i + 1)) accumulated EntryType.credit amount text
      ∷ depreciation_entries o (i + 2) text expense accumulated rest

  -- A transaction that is a pending journal entry.
  abbrev pub pending_transaction :
      Outside → String → String → DateTime → List (TransactionEntry M) → Transaction M
  pending_transaction o number description date entries = record {
    id = o.fresh (length entries);
    number = number;
    description = description;
    date = date;
    transaction_type = TransactionType.journal_entry;
    status = TransactionStatus.pending;
    entries = entries;
    journal_entry_id = none;
    document_ids = [];
    created_at = o.now;
    updated_at = o.now;
  }

module _ {M : Type 0} ⦃d : Decimal M⦄ ⦃q : Division M⦄ where
  open d use {dec_0, add}

  -- The three tests that pass an asset over, in the code's order.
  unfoldable pub is_due : NaiveDate → FixedAsset M → Bool
  is_due as_of a =
      if is_fully_depreciated a
      then false
      else if ltb as_of a.acquisition_date
      then false
      else if disposed_before as_of a.disposed_date
      then false
      else dec_lt dec_0 (monthly_depreciation a)

  -- `compute_monthly_depreciation`
  unfoldable pub compute_monthly_depreciation :
      NaiveDate → Uuid → Uuid → List (FixedAsset M) → List (Uuid × Uuid × M)
  unfolding is_due
  compute_monthly_depreciation as_of expense accumulated [] = []
  compute_monthly_depreciation as_of expense accumulated (a ∷ rest) =
      if is_due as_of a
      then (expense, accumulated, monthly_depreciation a)
        ∷ compute_monthly_depreciation as_of expense accumulated rest
      else compute_monthly_depreciation as_of expense accumulated rest

  -- The loop at the end of `post_depreciation`.
  unfoldable pub depreciate : DateTime → NaiveDate → FixedAsset M → FixedAsset M
  unfolding is_due
  depreciate now as_of a =
      if is_due as_of a
      then record a {
        accumulated_depreciation = add a.accumulated_depreciation (monthly_depreciation a);
        updated_at = now;
      }
      else a

  unfoldable pub depreciation_transaction :
      Outside → Printing → NaiveDate → Uuid → Uuid → List (Uuid × Uuid × M) → Transaction M
  unfolding depreciation_entries
  depreciation_transaction o pr as_of expense accumulated due =
      pending_transaction o (concat "DEP-" (pr.year_month_digits as_of))
        (concat "Depreciation expense for " (pr.month_name as_of)) (pr.noon as_of)
        (depreciation_entries o 0 (concat "Monthly depreciation — " (pr.year_month as_of)) expense
          accumulated due)

  -- The assets after the ledger answered.
  abbrev pub depreciated :
      Outside
      → NaiveDate
      → AssetBooks M
      → Result LedgerError (Transaction M) × Ledger M
      → Result AssetError (Unit {0}) × AssetBooks M
  depreciated o as_of b (ok _, l) = (
    ok tt,
    record b {
      manager = record { assets = map (depreciate o.now as_of) b.manager.assets };
      ledger = l;
    },
  )
  depreciated o as_of b (err x, l) = (err (ledger_error x), record b { ledger = l })

  unfoldable pub post_due :
      Outside → Printing → NaiveDate → Uuid → Uuid → List (Uuid × Uuid × M) → Method M (Unit {0})
  unfolding depreciation_transaction depreciate
  post_due o pr as_of expense accumulated [] b = (ok tt, b)
  post_due o pr as_of expense accumulated (x ∷ due) b =
      let t : Transaction M = depreciation_transaction o pr as_of expense accumulated (x ∷ due) in
      depreciated o as_of b (record_transaction (after_draws (length t.entries + 1) o) t b.ledger)

  unfoldable pub post_depreciation : Outside → Printing → NaiveDate → Method M (Unit {0})
  unfolding compute_monthly_depreciation post_due
  post_depreciation o pr as_of b = elim (get_account_by_number "5050" b.ledger) [
    | none ↦ (err (account_not_found "5050 (Depreciation Expense)"), b)
    | some expense ↦ elim (get_account_by_number "1050" b.ledger) [
      | none ↦ (err (account_not_found "1050 (Accumulated Depreciation)"), b)
      | some accumulated ↦
          post_due o pr as_of expense.id accumulated.id
            (compute_monthly_depreciation as_of expense.id accumulated.id b.manager.assets) b
    ]
  ]
