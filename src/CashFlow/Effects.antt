-- ===== src/CashFlow/Effects.antt =====
-- What one entry adds to the net change in cash
-- (RichdaleAccounting/nexus-core/src/accounting/cashflow.rs).
use rich_aim_acct_inv.Prelude.{◌≡◌, false, String, str_eq, Bool-cases, inl, inr, if◌then◌else◌}
use rich_aim_acct_inv.Prelude.Int.{ℤ, pos, ◌+ℤ◌, ◌-ℤ◌, int_laws, parts_of}
use rich_aim_acct_inv.Money.{Decimal, Division, dec_lt, add_parts, sub_parts}
use rich_aim_acct_inv.Financial.{AccountType, EntryType, entry_type_is_debit}
use rich_aim_acct_inv.CashFlow.{
  Changes, net_change, net_operating, net_investing, net_financing, by_number, add_amount, signed,
}

-- The accounts that the statement tells apart, by type and number: those of the default chart that
-- it names, cash, and all of the income statement under other numbers than cash and accumulated
-- depreciation.
pub data Covered : AccountType → String → Type 0 where
  revenue :
      {number : String}
      → str_eq number "1000" ≡ false
      → str_eq number "1050" ≡ false
      → Covered AccountType.revenue number
  expense :
      {number : String}
      → str_eq number "1000" ≡ false
      → str_eq number "1050" ≡ false
      → Covered AccountType.expense number
  cash : Covered AccountType.asset "1000"
  receivable : Covered AccountType.asset "1020"
  inventory : Covered AccountType.asset "1030"
  fixed_assets : Covered AccountType.asset "1040"
  accumulated : Covered AccountType.asset "1050"
  payable : Covered AccountType.liability "2000"
  loans : Covered AccountType.liability "2010"
  accrued : Covered AccountType.liability "2020"
  owner : Covered AccountType.equity "3000"

-- What an amount on an account's normal side adds to the net change in cash.
abbrev effect : {ty : AccountType} {number : String} → Covered ty number → ℤ → ℤ
effect (revenue _ _) v = v
effect (expense _ _) v = pos 0 -ℤ v
effect cash v = pos 0
effect receivable v = pos 0 -ℤ v
effect inventory v = pos 0 -ℤ v
effect fixed_assets v = pos 0 -ℤ v
effect accumulated v = v
effect payable v = v
effect loans v = v
effect accrued v = v
effect owner v = v

module _ {M : Type 0} ⦃d : Decimal M⦄ where
  open d use {value}

  -- The net change in cash that some changes come to.
  abbrev pub net : Changes M → ℤ
  net t =
      value t.net_income
      +ℤ (value t.ar_change
          +ℤ (value t.inv_change
              +ℤ (value t.ap_change
                  +ℤ (value t.accrual_change
                      +ℤ (value t.depreciation
                          +ℤ (value t.fixed_asset_sales
                              +ℤ (value t.loan_proceeds +ℤ value t.owner_contributions)))))))
      -ℤ (value t.fixed_asset_purchases +ℤ (value t.loan_payments +ℤ value t.owner_draws))

  pub value-net_change : (t : Changes M) → value (net_change t) ≡ net t
  value-net_change t = omega (
    int_laws,
    add_parts (d.add (net_operating t) (net_investing t)) (net_financing t),
    add_parts (net_operating t) (net_investing t),
    add_parts
        (d.add (d.add (d.add (d.add t.net_income t.ar_change) t.inv_change) t.ap_change)
          t.accrual_change)
        t.depreciation,
    add_parts (d.add (d.add (d.add t.net_income t.ar_change) t.inv_change) t.ap_change)
        t.accrual_change,
    add_parts (d.add (d.add t.net_income t.ar_change) t.inv_change) t.ap_change,
    add_parts (d.add t.net_income t.ar_change) t.inv_change,
    add_parts t.net_income t.ar_change,
    sub_parts t.fixed_asset_sales t.fixed_asset_purchases,
    sub_parts (d.add (d.sub t.loan_proceeds t.loan_payments) t.owner_contributions) t.owner_draws,
    add_parts (d.sub t.loan_proceeds t.loan_payments) t.owner_contributions,
    sub_parts t.loan_proceeds t.loan_payments,
  )

  -- An entry's amount, debits counted positive.
  abbrev pub debited : EntryType → M → ℤ
  debited EntryType.debit x = value x
  debited EntryType.credit x = pos 0 -ℤ value x

  pub debited-sides :
      (en : EntryType) (x : M)
      → debited en x
        ≡ (if entry_type_is_debit en then value x else pos 0)
          -ℤ (if entry_type_is_debit en then pos 0 else value x)
  debited-sides EntryType.debit x = omega int_laws
  debited-sides EntryType.credit x = omega int_laws

  -- The same, if the account has a number.
  abbrev pub debited_at : String → String → EntryType → M → ℤ
  debited_at which number en x = if str_eq number which then debited en x else pos 0

  module _ ⦃q : Division M⦄ where
    net-add_amount :
        {ty : AccountType} {number : String} (c : Covered ty number) (x : M) (t : Changes M)
        → net (add_amount ty number x t) ≡ net t +ℤ effect c (value x)
    unfolding by_number
    net-add_amount (revenue _ _) x t = omega (int_laws, add_parts t.net_income x)
    net-add_amount (expense _ _) x t = omega (int_laws, sub_parts t.net_income x)
    net-add_amount cash x t = omega int_laws
    net-add_amount receivable x t = omega (int_laws, sub_parts t.ar_change x)
    net-add_amount inventory x t = omega (int_laws, sub_parts t.inv_change x)
    net-add_amount accumulated x t = omega (int_laws, add_parts t.depreciation x)
    net-add_amount payable x t = omega (int_laws, add_parts t.ap_change x)
    net-add_amount accrued x t = omega (int_laws, add_parts t.accrual_change x)
    net-add_amount fixed_assets x t = elim (Bool-cases (dec_lt d.dec_0 x)) [
      | inl bought ↦ rw bought (omega (int_laws, add_parts t.fixed_asset_purchases x))
      | inr sold ↦
          rw sold
            (omega (int_laws, add_parts t.fixed_asset_sales (q.neg x), parts_of (q.value-neg x)))
    ]
    net-add_amount loans x t = elim (Bool-cases (dec_lt d.dec_0 x)) [
      | inl lent ↦ rw lent (omega (int_laws, add_parts t.loan_proceeds x))
      | inr repaid ↦
          rw repaid
            (omega (int_laws, add_parts t.loan_payments (q.neg x), parts_of (q.value-neg x)))
    ]
    net-add_amount owner x t = elim (Bool-cases (dec_lt d.dec_0 x)) [
      | inl given ↦ rw given (omega (int_laws, add_parts t.owner_contributions x))
      | inr drawn ↦
          rw drawn (omega (int_laws, add_parts t.owner_draws (q.neg x), parts_of (q.value-neg x)))
    ]

    -- An entry to an account other than cash lowers the net change by its debit, and one to
    -- accumulated depreciation raises it by its debit.
    effect-signed :
        {ty : AccountType} {number : String} (c : Covered ty number) (en : EntryType) (x : M)
        → effect c (value (signed ty en x)) +ℤ debited en x
          ≡ debited_at "1000" number en x
            +ℤ (debited_at "1050" number en x +ℤ debited_at "1050" number en x)
    effect-signed (revenue h k) EntryType.debit x =
        rw (h, k) (omega (int_laws, parts_of (q.value-neg x)))
    effect-signed (revenue h k) EntryType.credit x = rw (h, k) (omega int_laws)
    effect-signed (expense h k) EntryType.debit x = rw (h, k) (omega int_laws)
    effect-signed (expense h k) EntryType.credit x =
        rw (h, k) (omega (int_laws, parts_of (q.value-neg x)))
    effect-signed cash en x = omega int_laws
    effect-signed receivable EntryType.debit x = omega int_laws
    effect-signed receivable EntryType.credit x = omega (int_laws, parts_of (q.value-neg x))
    effect-signed inventory EntryType.debit x = omega int_laws
    effect-signed inventory EntryType.credit x = omega (int_laws, parts_of (q.value-neg x))
    effect-signed fixed_assets EntryType.debit x = omega int_laws
    effect-signed fixed_assets EntryType.credit x = omega (int_laws, parts_of (q.value-neg x))
    effect-signed accumulated EntryType.debit x = omega int_laws
    effect-signed accumulated EntryType.credit x = omega (int_laws, parts_of (q.value-neg x))
    effect-signed payable EntryType.debit x = omega (int_laws, parts_of (q.value-neg x))
    effect-signed payable EntryType.credit x = omega int_laws
    effect-signed loans EntryType.debit x = omega (int_laws, parts_of (q.value-neg x))
    effect-signed loans EntryType.credit x = omega int_laws
    effect-signed accrued EntryType.debit x = omega (int_laws, parts_of (q.value-neg x))
    effect-signed accrued EntryType.credit x = omega int_laws
    effect-signed owner EntryType.debit x = omega (int_laws, parts_of (q.value-neg x))
    effect-signed owner EntryType.credit x = omega int_laws

    -- What an entry to a covered account adds, against its debit.
    pub net-entry :
        {ty : AccountType} {number : String}
        → Covered ty number
        → (en : EntryType) (x : M) (t : Changes M)
        → net (add_amount ty number (signed ty en x) t) +ℤ debited en x
          ≡ net t
            +ℤ (debited_at "1000" number en x
                +ℤ (debited_at "1050" number en x +ℤ debited_at "1050" number en x))
    net-entry {ty} {number} c en x t =
        omega (
          int_laws,
          parts_of (net-add_amount c (signed ty en x) t),
          parts_of (effect-signed c en x),
        )
