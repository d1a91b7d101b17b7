-- ===== src/Taxes/Tests.antt =====
-- Taxes at concrete brackets and jurisdictions (RichdaleAccounting/nexus-core/src/accounting/tax.rs).
use rich_aim_acct_inv.Prelude.{
  ◌≡◌, ◌+◌, ◌*◌, refl, some, none, List, [], ◌∷◌, arith, map, ℕ, Result, ok, ◌≢◌, length, Option,
  err,
}
use rich_aim_acct_inv.Prelude.Int.{pos, ◌+ℤ◌, ◌-ℤ◌}
use rich_aim_acct_inv.Prelude.OrdMap
use rich_aim_acct_inv.Prelude.StrMap
use rich_aim_acct_inv.Money.{total}
use rich_aim_acct_inv.Money.Fixed.{
  Fixed, units, units_of, scaled, fixed_decimal, fixed_rates, fixed_division,
}
use rich_aim_acct_inv.Ledger.{Outside}
use rich_aim_acct_inv.Taxes.{
  TaxBracket, TaxType, TaxJurisdiction, TaxCalculator, new_calculator, default_jurisdiction,
  calculate_progressive_tax, calculate_tax, create_jurisdiction, create_filing, mark_as_paid,
  TaxError, TaxCalculation, list_filings_by_status, FilingStatus, initialize,
}
use rich_aim_acct_inv.Taxes.Brackets.{bracket_tax, calculate_progressive_tax_lem}
use rich_aim_acct_inv.Taxes.Index.{Indexed, Call, outcome, outcome-Indexed}

abbrev map_tax : Result TaxError (TaxCalculation Fixed) → Option Fixed
map_tax (ok t) = some t.tax_amount
map_tax (err e) = none

abbrev whole : ℕ → Fixed
whole n = units (pos (n * 10000))

-- 10% up to 100, 20% from there to 300, 30% above.
abbrev brackets : List (TaxBracket Fixed)
brackets =
    record { lower_bound = whole 0; upper_bound = some (whole 100); rate = units (pos 1000) }
    ∷ record { lower_bound = whole 100; upper_bound = some (whole 300); rate = units (pos 2000) }
    ∷ record { lower_bound = whole 300; upper_bound = none; rate = units (pos 3000) }
    ∷ []

tax_on_350 : calculate_progressive_tax brackets (whole 350) ≡ whole 65
unfolding calculate_progressive_tax scaled ◌+ℤ◌ ◌-ℤ◌
tax_on_350 = refl

calculate_progressive_tax_lem_example :
    units_of (calculate_progressive_tax brackets (whole 350))
    ≡ total (map (bracket_tax (whole 350)) brackets)
calculate_progressive_tax_lem_example =
    calculate_progressive_tax_lem brackets (whole 350) (omega arith)

abbrev outside : Outside
outside = record { now = 9; fresh = λ i. 50 + i; date_naive = λ t. t }

abbrev nevada : TaxJurisdiction Fixed
nevada = record (default_jurisdiction outside) {
  id = 7;
  name = "Nevada State";
  code = "US-NV";
  tax_rates = (TaxType.sales, units (pos 685)) ∷ [];
}

abbrev empty : TaxCalculator Fixed
empty = new_calculator

empty-Indexed : Indexed empty
unfolding OrdMap.get? StrMap.get?
empty-Indexed = record { found = λ code id h. ground arith; listed = λ id j h. ground arith }

abbrev with_nevada : TaxCalculator Fixed
with_nevada = (create_jurisdiction outside nevada empty).1

new_to_empty : OrdMap.get? 7 empty.jurisdictions ≡ none
unfolding OrdMap.get?
new_to_empty = refl

with_nevada-Indexed : Indexed with_nevada
with_nevada-Indexed = outcome-Indexed (Call.create outside nevada) empty new_to_empty empty-Indexed

abbrev recoded : TaxJurisdiction Fixed
recoded = record nevada { code = "US-NEV" }

stored : OrdMap.get? 7 with_nevada.jurisdictions ≢ none
unfolding create_jurisdiction OrdMap.get? OrdMap.insert StrMap.get?
stored h = ground arith

-- Nevada gets a new code.
outcome-Indexed_example : Indexed (outcome (Call.update outside 7 recoded) with_nevada)
outcome-Indexed_example =
    outcome-Indexed (Call.update outside 7 recoded) with_nevada stored with_nevada-Indexed

unused : StrMap.get? nevada.code empty.jurisdictions_by_code ≡ none
unfolding StrMap.get?
unused = refl

-- The three jurisdictions that the calculator starts with.
initialized : (initialize outside empty).0 ≡ ok tt
unfolding initialize StrMap.get? StrMap.insert default_jurisdiction
initialized = refl

sales_tax :
    map_tax (calculate_tax outside "US-NV" TaxType.sales (whole 200) 1 2 with_nevada)
    ≡ some (units (pos 137000))
unfolding calculate_tax create_jurisdiction StrMap.get? StrMap.insert OrdMap.get? OrdMap.insert
    scaled default_jurisdiction
sales_tax = refl

abbrev with_filing : TaxCalculator Fixed
with_filing = (create_filing outside 7 TaxType.sales 1 2 (whole 200) (units (pos 137000)) empty).1

paid_and_listed :
    length (
      list_filings_by_status FilingStatus.paid
        (mark_as_paid outside 50 (units (pos 137000)) with_filing).1)
    ≡ 1
unfolding create_filing mark_as_paid list_filings_by_status OrdMap.get? OrdMap.insert
paid_and_listed = refl
