-- ===== src/Assets/Balanced.antt =====
-- What depreciation and disposals post (RichdaleAccounting/nexus-core/src/accounting/assets.rs).
use rich_aim_acct_inv.Prelude.{
  ℕ, ◌+◌, ◌≡◌, refl, sym, ap, ◌∙◌, inl, inr, List, [], ◌∷◌, map, length, Bool-cases, All, String,
  Result, ok,
}
use rich_aim_acct_inv.Prelude.Int.{ℤ, pos, ◌+ℤ◌, int_laws, parts_of}
use rich_aim_acct_inv.Money.{Division, Decimal, add_parts}
use rich_aim_acct_inv.Financial.{Uuid, DateTime, NaiveDate, Account, new_entry, Transaction}
use rich_aim_acct_inv.Ledger.{Ledger, Outside, after_draws}
use rich_aim_acct_inv.Ledger.Validity.{Postable, Usable, debits, credits}
use rich_aim_acct_inv.Ledger.Outcome.{Acceptable, after_posting, record_transaction_outcome}
use rich_aim_acct_inv.Assets.{
  FixedAsset, AssetBooks, AssetError, Printing, monthly_depreciation, is_due,
  compute_monthly_depreciation, depreciate, depreciation_entries, depreciation_transaction,
  post_due, post_depreciation,
}

module _ {M : Type 0} ⦃d : Decimal M⦄ where
  open d use {value, add}

  abbrev pub amounts : List (Uuid × Uuid × M) → ℤ
  amounts [] = pos 0
  amounts ((_, _, x) ∷ rest) = value x +ℤ amounts rest

  -- What all assets have lost so far.
  abbrev pub accumulated_total : List (FixedAsset M) → ℤ
  accumulated_total [] = pos 0
  accumulated_total (a ∷ rest) = value a.accumulated_depreciation +ℤ accumulated_total rest

  debits-depreciation_entries :
      (o : Outside) (i : ℕ) (text : String) (e c : Uuid) (due : List (Uuid × Uuid × M))
      → debits (depreciation_entries o i text e c due) ≡ amounts due
  unfolding depreciation_entries new_entry
  debits-depreciation_entries o i text e c [] = refl
  debits-depreciation_entries o i text e c (x ∷ rest) =
      omega (int_laws, parts_of (debits-depreciation_entries o (i + 2) text e c rest))

  credits-depreciation_entries :
      (o : Outside) (i : ℕ) (text : String) (e c : Uuid) (due : List (Uuid × Uuid × M))
      → credits (depreciation_entries o i text e c due) ≡ amounts due
  unfolding depreciation_entries new_entry
  credits-depreciation_entries o i text e c [] = refl
  credits-depreciation_entries o i text e c (x ∷ rest) =
      omega (int_laws, parts_of (credits-depreciation_entries o (i + 2) text e c rest))

  depreciation_entries-Postable :
      (o : Outside) (i : ℕ) (text : String) (l : Ledger M) (e c : Account M)
      (due : List (Uuid × Uuid × M))
      → Usable l "5050" e
      → Usable l "1050" c
      → All (Postable l.accounts) (depreciation_entries o i text e.id c.id due)
  unfolding depreciation_entries new_entry
  depreciation_entries-Postable o i text l e c [] h k = tt
  depreciation_entries-Postable o i text l e c (x ∷ rest) h k = (
    (e, h.stored, h.active),
    ((c, k.stored, k.active), depreciation_entries-Postable o (i + 2) text l e c rest h k),
  )

module _ {M : Type 0} ⦃d : Decimal M⦄ ⦃q : Division M⦄ where
  open d use {value}

  -- The month's amounts are what the assets lose.
  accumulated_total-depreciate :
      (now : DateTime) (as_of : NaiveDate) (e c : Uuid) (assets : List (FixedAsset M))
      → accumulated_total (map (depreciate now as_of) assets)
        ≡ accumulated_total assets +ℤ amounts (compute_monthly_depreciation as_of e c assets)
  unfolding depreciate compute_monthly_depreciation
  accumulated_total-depreciate now as_of e c [] = omega int_laws
  accumulated_total-depreciate now as_of e c (a ∷ rest) =
      let ih = parts_of (accumulated_total-depreciate now as_of e c rest) in
      elim (Bool-cases (is_due as_of a)) [
        | inl due ↦
            rw due
              (omega (int_laws, ih, add_parts a.accumulated_depreciation (monthly_depreciation a)))
        | inr not_due ↦ rw not_due (omega (int_laws, ih))
      ]

  -- The ledger with the month's transaction, if there is anything to post.
  abbrev pub posted_ledger :
      Outside → Printing → NaiveDate → Uuid → Uuid → List (Uuid × Uuid × M) → Ledger M → Ledger M
  posted_ledger o pr as_of e c [] l = l
  posted_ledger o pr as_of e c (x ∷ due) l =
      let t : Transaction M = depreciation_transaction o pr as_of e c (x ∷ due) in
      after_posting (after_draws (length t.entries + 1) o) t l

  -- A month's depreciation, over the accounts for the expense and for what has accumulated.
  pub record Posted (o : Outside) (pr : Printing) (as_of : NaiveDate) (e c : Uuid)
      (b : AssetBooks M) (r : Result AssetError (Unit {0}) × AssetBooks M) : Type 0 where
    pub succeeded : r.0 ≡ ok tt
    pub posted :
        r.1.ledger
        ≡ posted_ledger o pr as_of e c
            (compute_monthly_depreciation as_of e c b.manager.assets)
            b.ledger
    pub agrees :
        accumulated_total r.1.manager.assets
        ≡ accumulated_total b.manager.assets
          +ℤ debits
              (depreciation_transaction o pr as_of e c
                (compute_monthly_depreciation as_of e c b.manager.assets)).entries

  depreciation-Acceptable :
      (o o' : Outside) (pr : Printing) (as_of : NaiveDate) (l : Ledger M) (e c : Account M)
      (due : List (Uuid × Uuid × M))
      → Usable l "5050" e
      → Usable l "1050" c
      → Acceptable o' (depreciation_transaction o pr as_of e.id c.id due) l
  unfolding depreciation_transaction
  depreciation-Acceptable o o' pr as_of l e c due h k = (
    debits-depreciation_entries o 0 _ e.id c.id due
        ∙ sym (credits-depreciation_entries o 0 _ e.id c.id due),
    depreciation_entries-Postable o 0 _ l e c due h k,
  )

  debits-depreciation_transaction :
      (o : Outside) (pr : Printing) (as_of : NaiveDate) (e c : Uuid) (due : List (Uuid × Uuid × M))
      → debits (depreciation_transaction o pr as_of e c due).entries ≡ amounts due
  unfolding depreciation_transaction
  debits-depreciation_transaction o pr as_of e c due = debits-depreciation_entries o 0 _ e c due

  post_due-Posted :
      (o : Outside) (pr : Printing) (as_of : NaiveDate) (b : AssetBooks M) (e c : Account M)
      (due : List (Uuid × Uuid × M))
      → compute_monthly_depreciation as_of e.id c.id b.manager.assets ≡ due
      → Usable b.ledger "5050" e
      → Usable b.ledger "1050" c
      → Posted o pr as_of e.id c.id b (post_due o pr as_of e.id c.id due b)
  unfolding post_due
  post_due-Posted o pr as_of b e c [] q h k = record {
    succeeded = refl;
    posted = rw q refl;
    agrees =
        rw q (omega (int_laws, parts_of (debits-depreciation_transaction o pr as_of e.id c.id [])));
  }
  post_due-Posted o pr as_of b e c (x ∷ due) q h k =
      let t : Transaction M = depreciation_transaction o pr as_of e.id c.id (x ∷ due) in
      let o' = after_draws (length t.entries + 1) o in
      let done =
        (record_transaction_outcome o' t b.ledger).0
          (depreciation-Acceptable o o' pr as_of b.ledger e c (x ∷ due) h k) in
      let grown = accumulated_total-depreciate o.now as_of e.id c.id b.manager.assets in
      rw (done, post_due)
        (record {
          succeeded = refl;
          posted = rw q refl;
          agrees =
              grown
              ∙ ap (λ y. accumulated_total b.manager.assets +ℤ y)
                  (sym (debits-depreciation_transaction o pr as_of e.id c.id _));
        })

  -- Posting a month's depreciation to a ledger with the accounts 5050 and 1050, active, succeeds. The
  -- ledger then has one more transaction with all that is due, or is as it was if nothing is due; and the
  -- accumulated depreciation over all assets has grown by exactly what that transaction debits.
  pub post_depreciation-Posted :
      (o : Outside) (pr : Printing) (as_of : NaiveDate) (b : AssetBooks M) (e c : Account M)
      → Usable b.ledger "5050" e
      → Usable b.ledger "1050" c
      → Posted o pr as_of e.id c.id b (post_depreciation o pr as_of b)
  unfolding post_depreciation
  post_depreciation-Posted o pr as_of b e c h k =
      rw (h.found, k.found, post_depreciation) (post_due-Posted o pr as_of b e c _ refl h k)
