-- ===== src/Assets/Disposing.antt =====
-- Selling an asset (RichdaleAccounting/nexus-core/src/accounting/assets.rs).
use Prim.Native.String.{◌++◌ as concat}
use rich_aim_acct_inv.Prelude.{
  ◌+◌, ◌==◌, Bool, Option, none, some, List, [], ◌∷◌, find, modify_first, length, String, Result,
  ok, err, if◌then◌else◌,
}
use rich_aim_acct_inv.Money.{Division, Decimal, dec_lt}
use rich_aim_acct_inv.Financial.{
  Uuid, DateTime, NaiveDate, EntryType, TransactionEntry, new_entry, Transaction, Account,
}
use rich_aim_acct_inv.Ledger.{
  Ledger, LedgerError, Outside, after_draws, get_account_by_number, record_transaction,
}
use rich_aim_acct_inv.Assets.Defs.{
  AssetError, FixedAsset, AssetBooks, Method, Printing, book_value, not_found, invalid_state,
  account_not_found, ledger_error,
}
use rich_aim_acct_inv.Assets.Depreciating.{pending_transaction}

-- The account by its first number, or else by its second.
abbrev pub or_else : {A : Type 0} → Option A → Option A → Option A
or_else none b = b
or_else (some a) b = some a

module _ {M : Type 0} where
  abbrev pub has_id : Uuid → FixedAsset M → Bool
  has_id id a = a.id == id

  -- The three accounts of every disposal: cash, accumulated depreciation and fixed assets.
  abbrev pub three_accounts :
      Option (Account M)
      → Option (Account M)
      → Option (Account M)
      → Result AssetError (Uuid × Uuid × Uuid)
  three_accounts none _ _ = err (account_not_found "1000 (Cash)")
  three_accounts (some c) none _ = err (account_not_found "1050 (Accumulated Depreciation)")
  three_accounts (some c) (some a) none = err (account_not_found "1040 (Fixed Assets)")
  three_accounts (some c) (some a) (some f) = ok (c.id, a.id, f.id)

  -- One more entry, on an account that has to be there.
  abbrev pub on_account :
      String
      → Option (Account M)
      → (Uuid → List (TransactionEntry M))
      → Result AssetError (List (TransactionEntry M))
  on_account missing none f = err (account_not_found missing)
  on_account missing (some a) f = ok (f a.id)

  abbrev pub disposed_on : DateTime → NaiveDate → FixedAsset M → FixedAsset M
  disposed_on now date a = record a { disposed_date = some date; updated_at = now }

module _ {M : Type 0} ⦃d : Decimal M⦄ ⦃q : Division M⦄ where
  open d use {dec_0, sub}
  open q use {abs}

  abbrev pub gain_loss : FixedAsset M → M → M
  gain_loss a sale_price = sub sale_price (book_value a)

  -- The entry for the gain or for the loss, if there is either.
  unfoldable pub gain_or_loss_entry :
      Outside → FixedAsset M → M → Ledger M → Result AssetError (List (TransactionEntry M))
  gain_or_loss_entry o a gain l =
      if dec_lt dec_0 gain
      then on_account "Revenue account for gain on sale"
          (or_else (get_account_by_number "4090" l) (get_account_by_number "4020" l))
          (λ id.
            new_entry (o.fresh 3) id EntryType.credit gain (concat "Gain on sale of asset: " a.name)
            ∷ [])
      else if dec_lt gain dec_0
      then on_account "Expense account for loss on sale"
          (or_else (get_account_by_number "5090" l) (get_account_by_number "5040" l))
          (λ id.
            new_entry (o.fresh 3) id EntryType.debit (abs gain)
              (concat "Loss on sale of asset: " a.name)
            ∷ [])
      else ok []

  unfoldable pub disposal_entries :
      Outside
      → FixedAsset M
      → M
      → Uuid × Uuid × Uuid
      → List (TransactionEntry M)
      → List (TransactionEntry M)
  disposal_entries o a sale_price (cash, accumulated, fixed) more =
      new_entry (o.fresh 0) cash EntryType.debit sale_price (concat "Sale of asset: " a.name)
      ∷ new_entry (o.fresh 1) accumulated EntryType.debit a.accumulated_depreciation
          (concat "Remove accumulated depreciation: " a.name)
      ∷ new_entry (o.fresh 2) fixed EntryType.credit a.cost (concat "Remove asset cost: " a.name)
      ∷ more

  unfoldable pub disposal_transaction :
      Outside → Printing → NaiveDate → FixedAsset M → List (TransactionEntry M) → Transaction M
  disposal_transaction o pr date a entries =
      pending_transaction o (concat "DISP-" (pr.short_id a.id))
        (concat "Disposal of asset: " a.name) (pr.noon date) entries

  -- The books after the ledger answered.
  abbrev pub disposed :
      Outside
      → Uuid
      → NaiveDate
      → M
      → AssetBooks M
      → Result LedgerError (Transaction M) × Ledger M
      → Result AssetError M × AssetBooks M
  disposed o asset_id date gain b (ok _, l) = (
    ok gain,
    record b {
      manager = record {
        assets = modify_first (has_id asset_id) (disposed_on o.now date) b.manager.assets;
      };
      ledger = l;
    },
  )
  disposed o asset_id date gain b (err x, l) = (err (ledger_error x), record b { ledger = l })

  -- The posting, with the accounts and the last entry found.
  abbrev pub post_disposal :
      Outside
      → Printing
      → FixedAsset M
      → M
      → NaiveDate
      → Uuid × Uuid × Uuid
      → Result AssetError (List (TransactionEntry M))
      → Method M M
  post_disposal o pr a sale_price date ids (err x) b = (err x, b)
  post_disposal o pr a sale_price date ids (ok more) b =
      let t : Transaction M =
        disposal_transaction o pr date a (disposal_entries o a sale_price ids more) in
      disposed o a.id date (gain_loss a sale_price) b
        (record_transaction (after_draws (length t.entries + 1) o) t b.ledger)

  abbrev pub with_accounts :
      Outside
      → Printing
      → FixedAsset M
      → M
      → NaiveDate
      → Result AssetError (Uuid × Uuid × Uuid)
      → Method M M
  with_accounts o pr a sale_price date (err x) b = (err x, b)
  with_accounts o pr a sale_price date (ok ids) b =
      post_disposal o pr a sale_price date ids
        (gain_or_loss_entry o a (gain_loss a sale_price) b.ledger) b

  unfoldable pub dispose_asset : Outside → Printing → Uuid → M → NaiveDate → Method M M
  unfolding gain_or_loss_entry disposal_entries disposal_transaction
  dispose_asset o pr asset_id sale_price date b = elim (find (has_id asset_id) b.manager.assets) [
    | none ↦ (err (not_found asset_id), b)
    | some a ↦ elim a.disposed_date [
      | some _ ↦ (err (invalid_state (concat "Asset " (concat a.name " is already disposed"))), b)
      | none ↦
          with_accounts o pr a sale_price date
            (three_accounts (get_account_by_number "1000" b.ledger)
              (get_account_by_number "1050" b.ledger) (get_account_by_number "1040" b.ledger))
            b
    ]
  ]
