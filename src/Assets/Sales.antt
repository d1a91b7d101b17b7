-- ===== src/Assets/Sales.antt =====
-- What selling an asset posts (RichdaleAccounting/nexus-core/src/accounting/assets.rs).
use rich_aim_acct_inv.Prelude.{
  ◌+◌, ◌≡◌, refl, sym, inl, inr, Option, none, some, List, [], find, length, arith, Bool-cases, All,
  String, ok,
}
use rich_aim_acct_inv.Prelude.Int.{◌+ℤ◌, int_laws, parts_of}
use rich_aim_acct_inv.Money.{
  Division, Decimal, dec_lt, dec_lt-true, dec_lt-false, sub_parts, zero_parts,
}
use rich_aim_acct_inv.Financial.{Uuid, NaiveDate, Account, TransactionEntry, new_entry, Transaction}
use rich_aim_acct_inv.Ledger.{Ledger, Outside, after_draws}
use rich_aim_acct_inv.Ledger.Validity.{Postable, Usable, debits, credits}
use rich_aim_acct_inv.Ledger.Outcome.{
  Acceptable, recorded, after_posting, record_transaction_outcome,
}
use rich_aim_acct_inv.Assets.{
  FixedAsset, AssetBooks, Printing, book_value, gain_loss, on_account, gain_or_loss_entry,
  disposal_entries, disposal_transaction, disposed, dispose_asset, has_id,
}

module _ {M : Type 0} where
  on_account-ok :
      (missing : String) (a : Option (Account M)) (f : Uuid → List (TransactionEntry M))
      (more : List (TransactionEntry M))
      → on_account missing a f ≡ ok more
      → (id : Uuid) × (more ≡ f id)
  on_account-ok missing none f more h = ground arith
  on_account-ok missing (some a) f more h = (a.id, ground arith)

module _ {M : Type 0} ⦃d : Decimal M⦄ ⦃q : Division M⦄ where
  open d use {value, dec_0}
  open q use {abs}

  -- The last entry of a disposal makes up for the gain or the loss.
  gain_or_loss_balances :
      (o : Outside) (a : FixedAsset M) (gain : M) (l : Ledger M) (more : List (TransactionEntry M))
      → gain_or_loss_entry o a gain l ≡ ok more
      → credits more ≡ debits more +ℤ value gain
  unfolding gain_or_loss_entry new_entry
  gain_or_loss_balances o a gain l more h = elim (Bool-cases (dec_lt dec_0 gain)) [
    | inl up ↦
        let (id, e) = on_account-ok _ _ _ more (rw (up, gain_or_loss_entry) at h) in
        rw e (omega int_laws)
    | inr not_up ↦ elim (Bool-cases (dec_lt gain dec_0)) [
      | inl down ↦
          let (id, e) = on_account-ok _ _ _ more (rw (not_up, down, gain_or_loss_entry) at h) in
          let neg =
            q.value-abs_neg gain (omega (arith, dec_lt-true gain dec_0 down, zero_parts d)) in
          rw e (omega (int_laws, parts_of neg))
      | inr not_down ↦
          let e : [] ≡ more = ground (arith, h, not_up, not_down) in
          rw (sym e) (
            omega (
              int_laws,
              dec_lt-false dec_0 gain not_up,
              dec_lt-false gain dec_0 not_down,
              zero_parts d,
            ))
    ]
  ]

  disposal-Acceptable :
      (o o' : Outside) (pr : Printing) (a : FixedAsset M) (price : M) (date : NaiveDate)
      (l : Ledger M) (cash accumulated fixed : Account M) (more : List (TransactionEntry M))
      → Usable l "1000" cash
      → Usable l "1050" accumulated
      → Usable l "1040" fixed
      → gain_or_loss_entry o a (gain_loss a price) l ≡ ok more
      → All (Postable l.accounts) more
      → Acceptable o'
          (disposal_transaction o pr date a
            (disposal_entries o a price (cash.id, accumulated.id, fixed.id) more))
          l
  unfolding disposal_transaction disposal_entries new_entry
  disposal-Acceptable o o' pr a price date l cash accumulated fixed more h k f e posts =
      let made_up = parts_of (gain_or_loss_balances o a (gain_loss a price) l more e) in
      (
        omega (
          int_laws,
          made_up,
          sub_parts price (book_value a),
          sub_parts a.cost a.accumulated_depreciation,
        ),
        (
          (cash, h.stored, h.active),
          ((accumulated, k.stored, k.active), ((fixed, f.stored, f.active), posts)),
        ),
      )

  -- Selling an asset that is there and not disposed of, over a ledger with the accounts 1000, 1050 and
  -- 1040, active, and with an active account for the gain or the loss if there is one: the disposal
  -- balances and is recorded in full, the asset is stored as disposed of on that date, and the price less
  -- the book value is returned.
  pub dispose_asset_posts :
      (o : Outside) (pr : Printing) (asset_id : Uuid) (price : M) (date : NaiveDate)
      (b : AssetBooks M) (a : FixedAsset M) (cash accumulated fixed : Account M)
      (more : List (TransactionEntry M))
      → find (has_id asset_id) b.manager.assets ≡ some a
      → a.disposed_date ≡ none
      → Usable b.ledger "1000" cash
      → Usable b.ledger "1050" accumulated
      → Usable b.ledger "1040" fixed
      → gain_or_loss_entry o a (gain_loss a price) b.ledger ≡ ok more
      → All (Postable b.ledger.accounts) more
      → (let t : Transaction M =
            disposal_transaction o pr date a
              (disposal_entries o a price (cash.id, accumulated.id, fixed.id) more) in
          let o' : Outside = after_draws (length t.entries + 1) o in
          dispose_asset o pr asset_id price date b
          ≡ disposed o a.id date
              (gain_loss a price)
              b
              (ok (recorded o' t b.ledger), after_posting o' t b.ledger))
  unfolding dispose_asset
  dispose_asset_posts o pr asset_id price date b a cash accumulated fixed more found open_asset h k
        f e posts =
      let t : Transaction M =
        disposal_transaction o pr date a
          (disposal_entries o a price (cash.id, accumulated.id, fixed.id) more) in
      let o' : Outside = after_draws (length t.entries + 1) o in
      let done = (record_transaction_outcome o' t b.ledger).0 (
        disposal-Acceptable o o' pr a price date b.ledger cash accumulated fixed more h k f e
          posts) in
      rw (found, open_asset, h.found, k.found, f.found, e, done, dispose_asset) refl
