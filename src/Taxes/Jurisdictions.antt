-- ===== src/Taxes/Jurisdictions.antt =====
-- The calls on jurisdictions, and the tax that one asks for
-- (RichdaleAccounting/nexus-core/src/accounting/tax.rs).
use Prim.Native.String.{◌++◌ as concat}
use rich_aim_acct_inv.Prelude.{
  ◌==◌, str_eq, Bool, not, if◌then◌else◌, Option, none, some, List, [], ◌∷◌, String, Result, ok,
  err, false, true,
}
use rich_aim_acct_inv.Prelude.OrdMap.{values}
use rich_aim_acct_inv.Prelude.OrdMap
use rich_aim_acct_inv.Prelude.StrMap
use rich_aim_acct_inv.Prelude.State.{◌>>◌, pure}
use rich_aim_acct_inv.Money.{Decimal, Division, Rates, dec_le, dec_lt}
use rich_aim_acct_inv.Financial.{Uuid, NaiveDate}
use rich_aim_acct_inv.Ledger.{Outside, after_draws, is_some}
use rich_aim_acct_inv.Taxes.Defs.{
  JurisdictionType, TaxType, FilingFrequency, TaxError, TaxJurisdiction, TaxBracket, TaxCalculation,
  TaxCalculator, Method, same_type, default_jurisdiction,
}

abbrev pub code_exists : String → TaxError
code_exists code = TaxError.other (concat "Jurisdiction code " (concat code " already exists"))

module _ {M : Type 0} where
  unfoldable pub create_jurisdiction : Outside → TaxJurisdiction M → Method M (TaxJurisdiction M)
  create_jurisdiction o j c =
      let j' : TaxJurisdiction M = record j { created_at = o.now; updated_at = o.now } in
      if is_some (StrMap.get? j.code c.jurisdictions_by_code)
      then (err (code_exists j.code), c)
      else (
        ok j',
        record c {
          jurisdictions = OrdMap.insert j.id j' c.jurisdictions;
          jurisdictions_by_code = StrMap.insert j.code j.id c.jurisdictions_by_code;
        },
      )

  unfoldable pub get_jurisdiction : Uuid → TaxCalculator M → Option (TaxJurisdiction M)
  get_jurisdiction id c = OrdMap.get? id c.jurisdictions

  unfoldable pub get_jurisdiction_by_code : String → TaxCalculator M → Option (TaxJurisdiction M)
  unfolding get_jurisdiction
  get_jurisdiction_by_code code c = elim (StrMap.get? code c.jurisdictions_by_code) [
    | some id ↦ get_jurisdiction id c
    | none ↦ none
  ]

  unfoldable pub list_jurisdictions : TaxCalculator M → List (TaxJurisdiction M)
  list_jurisdictions c = values c.jurisdictions

  -- The last steps of `update_jurisdiction`.
  abbrev pub store_jurisdiction : Outside → Uuid → TaxJurisdiction M → Method M (TaxJurisdiction M)
  store_jurisdiction o id j c =
      let j' : TaxJurisdiction M = record j { updated_at = o.now } in
      (ok j', record c { jurisdictions = OrdMap.insert id j' c.jurisdictions })

  -- A new code replaces the old one in the index.
  abbrev pub recode : String → String → Uuid → TaxCalculator M → TaxCalculator M
  recode old new id c = record c {
    jurisdictions_by_code = StrMap.insert new id (StrMap.remove old c.jurisdictions_by_code);
  }

  unfoldable pub update_jurisdiction :
      Outside → Uuid → TaxJurisdiction M → Method M (TaxJurisdiction M)
  update_jurisdiction o id j c =
      if not (j.id == id)
      then (err (TaxError.other "Jurisdiction ID mismatch"), c)
      else elim (OrdMap.get? id c.jurisdictions) [
        | none ↦ store_jurisdiction o id j c
        | some existing ↦
            if str_eq existing.code j.code
            then store_jurisdiction o id j c
            else if is_some (StrMap.get? j.code c.jurisdictions_by_code)
            then (err (code_exists j.code), c)
            else store_jurisdiction o id j (recode existing.code j.code id c)
      ]

  unfoldable pub delete_jurisdiction : Uuid → Method M Bool
  delete_jurisdiction id c = elim (OrdMap.get? id c.jurisdictions) [
    | none ↦ (ok false, c)
    | some j ↦ (
      ok true,
      record c {
        jurisdictions = OrdMap.remove id c.jurisdictions;
        jurisdictions_by_code = StrMap.remove j.code c.jurisdictions_by_code;
      },
    )
  ]

  -- `tax_rates.get(&tax_type)`
  abbrev pub rate_for : TaxType → List (TaxType × M) → Option M
  rate_for ty [] = none
  rate_for ty ((t, r) ∷ rates) = if same_type t ty then some r else rate_for ty rates

module _ {M : Type 0} ⦃d : Decimal M⦄ where
  open d use {dec_0, add, sub, mul}

  -- The part of an amount above the lower bound that lies in a bracket.
  abbrev pub bracket_income : TaxBracket M → M → M
  bracket_income b amount = elim b.upper_bound [
    | some upper ↦ if dec_lt upper amount then sub upper b.lower_bound else sub amount b.lower_bound
    | none ↦ sub amount b.lower_bound
  ]

  -- The loop of `calculate_progressive_tax`, which skips a bracket that the amount does not reach.
  unfoldable pub tax_from : M → List (TaxBracket M) → M → M
  tax_from total [] amount = total
  tax_from total (b ∷ bs) amount =
      tax_from
        (if dec_le amount b.lower_bound
          then total
          else add total (mul (bracket_income b amount) b.rate))
        bs amount

  unfoldable pub calculate_progressive_tax : List (TaxBracket M) → M → M
  unfolding tax_from
  calculate_progressive_tax brackets amount = tax_from dec_0 brackets amount

  module _ ⦃q : Division M⦄ where
    -- The rate and the tax: by the brackets where there are any, by the rate of the type otherwise.
    abbrev pub rate_and_tax :
        String → TaxType → M → TaxJurisdiction M → List (TaxBracket M) → Result TaxError (M × M)
    rate_and_tax code ty amount j [] = elim (rate_for ty j.tax_rates) [
      | none ↦ err (TaxError.rate_not_found ty code)
      | some rate ↦ ok (rate, mul amount rate)
    ]
    rate_and_tax code ty amount j (b ∷ bs) =
        let tax : M = calculate_progressive_tax (b ∷ bs) amount in
        ok (if dec_lt dec_0 amount then q.div tax amount else dec_0, tax)

    unfoldable pub calculate_tax :
        Outside
        → String
        → TaxType
        → M
        → NaiveDate
        → NaiveDate
        → TaxCalculator M
        → Result TaxError (TaxCalculation M)
    unfolding get_jurisdiction_by_code
    calculate_tax o code ty amount period_start period_end c =
        elim (get_jurisdiction_by_code code c) [
          | none ↦ err (TaxError.jurisdiction_not_found code)
          | some j ↦ elim (rate_and_tax code ty amount j j.tax_brackets) [
            | err e ↦ err e
            | ok (rate, tax) ↦ ok (record {
              jurisdiction = j;
              tax_type = ty;
              taxable_amount = amount;
              tax_rate = rate;
              tax_amount = tax;
              calculation_date = o.now;
              period_start = period_start;
              period_end = period_end;
            })
          ]
        ]

  module _ ⦃r : Rates M⦄ where
    open r use {literal}

    abbrev pub us_federal : Outside → TaxJurisdiction M
    us_federal o = record (default_jurisdiction o) {
      name = "United States Federal";
      code = "US-FED";
      jurisdiction_type = JurisdictionType.federal;
      tax_rates = (TaxType.income, literal 21 2) ∷ (TaxType.payroll, literal 153 3) ∷ [];
      filing_frequency = FilingFrequency.annual;
    }

    abbrev pub california : Outside → TaxJurisdiction M
    california o = record (default_jurisdiction o) {
      name = "California State";
      code = "US-CA";
      jurisdiction_type = JurisdictionType.state;
      tax_rates = (TaxType.income, literal 93 3) ∷ (TaxType.sales, literal 725 4) ∷ [];
      filing_frequency = FilingFrequency.quarterly;
    }

    abbrev pub new_york : Outside → TaxJurisdiction M
    new_york o = record (default_jurisdiction o) {
      name = "New York State";
      code = "US-NY";
      jurisdiction_type = JurisdictionType.state;
      tax_rates = (TaxType.income, literal 6 2) ∷ (TaxType.sales, literal 4 2) ∷ [];
      filing_frequency = FilingFrequency.quarterly;
    }

    -- `create_default_jurisdictions`, which `initialize` consists of.
    unfoldable pub initialize : Outside → Method M (Unit {0})
    unfolding create_jurisdiction
    initialize o = do
      create_jurisdiction o (us_federal o)
      create_jurisdiction o (california (after_draws 1 o))
      create_jurisdiction o (new_york (after_draws 2 o))
      pure tt
