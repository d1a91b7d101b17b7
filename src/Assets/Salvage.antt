-- ===== src/Assets/Salvage.antt =====
-- A declining balance does not go below the salvage value
-- (RichdaleAccounting/nexus-core/src/accounting/assets.rs).
use rich_aim_acct_inv.Prelude.{
  ◌==◌, inl, inr, List, [], ◌∷◌, map, All, arith, Bool-cases, Option-cases, Result, ok, err, ◌≡◌,
  true,
}
use rich_aim_acct_inv.Prelude.Int.{◌≤ℤ◌, ◌<ℤ◌}
use rich_aim_acct_inv.Money.{
  Division, Decimal, dec_lt, dec_lt-false, sub_parts, add_parts, zero_parts,
}
use rich_aim_acct_inv.Financial.{Uuid, DateTime, NaiveDate, Transaction}
use rich_aim_acct_inv.Ledger.{Ledger, LedgerError, Outside, get_account_by_number}
use rich_aim_acct_inv.Assets.{
  DepreciationMethod, FixedAsset, AssetBooks, Printing, book_value, not_below_salvage,
  depreciation_by, monthly_depreciation, is_due, depreciate, depreciated, post_due,
  post_depreciation,
}

module _ {M : Type 0} ⦃d : Decimal M⦄ where
  open d use {value, dec_0, sub, add}

  abbrev pub AboveSalvageBy : DepreciationMethod → FixedAsset M → Type 0
  AboveSalvageBy DepreciationMethod.straight_line a = Unit
  AboveSalvageBy DepreciationMethod.double_declining a =
      value a.salvage_value ≤ℤ value (book_value a)

  -- An asset that is depreciated by a declining balance is worth its salvage value at least.
  abbrev pub AboveSalvage : FixedAsset M → Type 0
  AboveSalvage a = AboveSalvageBy a.depreciation_method a

  -- What a declining balance takes leaves the salvage value.
  not_below_salvage_lem :
      (a : FixedAsset M) (x : M)
      → value a.salvage_value
        ≤ℤ value (sub a.cost (add a.accumulated_depreciation (not_below_salvage a x)))
  not_below_salvage_lem a x = elim (Bool-cases (dec_lt (sub (book_value a) x) a.salvage_value)) [
    | inl below ↦ rw below (
        omega (
          arith,
          sub_parts a.cost (add a.accumulated_depreciation (sub (book_value a) a.salvage_value)),
          add_parts a.accumulated_depreciation (sub (book_value a) a.salvage_value),
          sub_parts (book_value a) a.salvage_value,
          sub_parts a.cost a.accumulated_depreciation,
        ))
    | inr above ↦ rw above (
        omega (
          arith,
          dec_lt-false (sub (book_value a) x) a.salvage_value above,
          sub_parts a.cost (add a.accumulated_depreciation x),
          add_parts a.accumulated_depreciation x,
          sub_parts (book_value a) x,
          sub_parts a.cost a.accumulated_depreciation,
        ))
  ]

  module _ ⦃q : Division M⦄ where
    -- The asset with a month's depreciation taken, by its method.
    depreciated-AboveSalvage :
        (m : DepreciationMethod) (now : DateTime) (a : FixedAsset M)
        → AboveSalvageBy m a
        → AboveSalvageBy m (record a {
          accumulated_depreciation = add a.accumulated_depreciation (depreciation_by m a);
          updated_at = now;
        })
    depreciated-AboveSalvage DepreciationMethod.straight_line now a h = tt
    depreciated-AboveSalvage DepreciationMethod.double_declining now a h =
        elim (Bool-cases (a.useful_life_months == 0)) [
          | inl none_left ↦ rw none_left (
              omega (
                arith,
                h,
                zero_parts d,
                sub_parts a.cost (add a.accumulated_depreciation dec_0),
                add_parts a.accumulated_depreciation dec_0,
                sub_parts a.cost a.accumulated_depreciation,
              ))
          | inr some_left ↦ rw some_left (not_below_salvage_lem a _)
        ]

    depreciate-AboveSalvage :
        (now : DateTime) (as_of : NaiveDate) (a : FixedAsset M)
        → AboveSalvage a
        → AboveSalvage (depreciate now as_of a)
    unfolding depreciate monthly_depreciation
    depreciate-AboveSalvage now as_of a h = elim (Bool-cases (is_due as_of a)) [
      | inl due ↦ rw due (depreciated-AboveSalvage a.depreciation_method now a h)
      | inr not_due ↦ rw not_due h
    ]

    All-depreciate :
        (now : DateTime) (as_of : NaiveDate) (assets : List (FixedAsset M))
        → All AboveSalvage assets
        → All AboveSalvage (map (depreciate now as_of) assets)
    All-depreciate now as_of [] h = tt
    All-depreciate now as_of (a ∷ rest) h =
        (depreciate-AboveSalvage now as_of a h.0, All-depreciate now as_of rest h.1)

    abbrev pub AllAbove : AssetBooks M → Type 0
    AllAbove b = All AboveSalvage b.manager.assets

    depreciated-AllAbove :
        (o : Outside) (as_of : NaiveDate) (b : AssetBooks M)
        (r : Result LedgerError (Transaction M) × Ledger M)
        → AllAbove b
        → AllAbove (depreciated o as_of b r).1
    depreciated-AllAbove o as_of b (ok t, l) h = All-depreciate o.now as_of b.manager.assets h
    depreciated-AllAbove o as_of b (err x, l) h = h

    post_due-AllAbove :
        (o : Outside) (pr : Printing) (as_of : NaiveDate) (e c : Uuid)
        (due : List (Uuid × Uuid × M)) (b : AssetBooks M)
        → AllAbove b
        → AllAbove (post_due o pr as_of e c due b).1
    unfolding post_due
    post_due-AllAbove o pr as_of e c [] b h = h
    post_due-AllAbove o pr as_of e c (x ∷ due) b h = depreciated-AllAbove o as_of b _ h

    -- If every asset with a declining balance is worth its salvage value at least, then it still is after
    -- a month's depreciation is posted, whatever the rates and however the call ends.
    pub post_depreciation-AllAbove :
        (o : Outside) (pr : Printing) (as_of : NaiveDate) (b : AssetBooks M)
        → AllAbove b
        → AllAbove (post_depreciation o pr as_of b).1
    unfolding post_depreciation
    post_depreciation-AllAbove o pr as_of b h =
        elim (Option-cases (get_account_by_number "5050" b.ledger)) [
          | inl e ↦ rw (e, post_depreciation) h
          | inr (expense, e) ↦ elim (Option-cases (get_account_by_number "1050" b.ledger)) [
            | inl c ↦ rw (e, c, post_depreciation) h
            | inr (accumulated, c) ↦
                rw (e, c, post_depreciation)
                  (post_due-AllAbove o pr as_of expense.id accumulated.id _ b h)
          ]
        ]

    -- A month that is due and takes more than is left of the cost less the salvage value leaves the asset
    -- below its salvage value.
    depreciate_below_salvage :
        (now : DateTime) (as_of : NaiveDate) (a : FixedAsset M)
        → is_due as_of a ≡ true
        → value (sub a.cost a.salvage_value)
          <ℤ value (add a.accumulated_depreciation (monthly_depreciation a))
        → value (book_value (depreciate now as_of a)) <ℤ value a.salvage_value
    unfolding depreciate
    depreciate_below_salvage now as_of a due more = rw due (
        omega (
          arith,
          more,
          sub_parts a.cost a.salvage_value,
          sub_parts a.cost (add a.accumulated_depreciation (monthly_depreciation a)),
        ))
