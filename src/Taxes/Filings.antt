-- ===== src/Taxes/Filings.antt =====
-- The calls on filings (RichdaleAccounting/nexus-core/src/accounting/tax.rs).
use rich_aim_acct_inv.Prelude.{
  ◌==◌, Bool, ◌&&◌, not, leb, if◌then◌else◌, Option, none, some, List, String, ok, err, filter,
}
use rich_aim_acct_inv.Prelude.OrdMap.{get?, insert, remove, values}
use rich_aim_acct_inv.Prelude.State.{◌>>◌, pure}
use rich_aim_acct_inv.Financial.{Uuid, NaiveDate}
use rich_aim_acct_inv.Ledger.{Outside, is_some}
use rich_aim_acct_inv.Taxes.Defs.{
  TaxType, FilingStatus, TaxError, TaxFiling, TaxCalculator, Method, same_status,
}

module _ {M : Type 0} where
  -- A `TaxFiling` with the fields that `create_filing` is given, the rest as by `Default`.
  unfoldable pub new_filing : Outside → Uuid → TaxType → NaiveDate → NaiveDate → M → M → TaxFiling M
  new_filing o jurisdiction_id ty period_start period_end taxable_amount tax_amount = record {
    id = o.fresh 0;
    jurisdiction_id = jurisdiction_id;
    tax_type = ty;
    period_start = period_start;
    period_end = period_end;
    taxable_amount = taxable_amount;
    tax_amount = tax_amount;
    status = FilingStatus.not_started;
    filing_date = none;
    due_date = none;
    payment_date = none;
    payment_amount = none;
    confirmation_number = none;
    notes = "";
    created_at = o.now;
    updated_at = o.now;
  }

  unfoldable pub create_filing :
      Outside → Uuid → TaxType → NaiveDate → NaiveDate → M → M → Method M (TaxFiling M)
  unfolding new_filing
  create_filing o jurisdiction_id ty period_start period_end taxable_amount tax_amount c =
      let f : TaxFiling M =
        new_filing o jurisdiction_id ty period_start period_end taxable_amount tax_amount in
      (ok f, record c { filings = insert f.id f c.filings })

  unfoldable pub get_filing : Uuid → TaxCalculator M → Option (TaxFiling M)
  get_filing id c = get? id c.filings

  unfoldable pub list_filings_by_jurisdiction : Uuid → TaxCalculator M → List (TaxFiling M)
  list_filings_by_jurisdiction id c = filter (λ f. f.jurisdiction_id == id) (values c.filings)

  unfoldable pub list_filings_by_status : FilingStatus → TaxCalculator M → List (TaxFiling M)
  list_filings_by_status status c = filter (λ f. same_status f.status status) (values c.filings)

  unfoldable pub list_filings_by_date_range :
      NaiveDate → NaiveDate → TaxCalculator M → List (TaxFiling M)
  list_filings_by_date_range start end c =
      filter (λ f. leb start f.period_end && leb f.period_start end) (values c.filings)

  unfoldable pub update_filing : Outside → Uuid → TaxFiling M → Method M (TaxFiling M)
  update_filing o id f c =
      let f' : TaxFiling M = record f { updated_at = o.now } in
      if not (f.id == id)
      then (err (TaxError.other "Filing ID mismatch"), c)
      else (ok f', record c { filings = insert id f' c.filings })

  unfoldable pub delete_filing : Uuid → Method M Bool
  delete_filing id c =
      (ok (is_some (get? id c.filings)), record c { filings = remove id c.filings })

  abbrev pub as_filed : Outside → Option String → TaxFiling M → TaxFiling M
  as_filed o confirmation_number f = record f {
    status = FilingStatus.filed;
    filing_date = some o.now;
    confirmation_number = confirmation_number;
  }

  unfoldable pub mark_as_filed : Outside → Uuid → Option String → Method M (Unit {0})
  unfolding update_filing get_filing
  mark_as_filed o id confirmation_number c = elim (get_filing id c) [
    | none ↦ (err (TaxError.filing_not_found id), c)
    | some f ↦ (update_filing o id (as_filed o confirmation_number f) >> pure tt) c
  ]

  abbrev pub as_paid : Outside → M → TaxFiling M → TaxFiling M
  as_paid o payment_amount f = record f {
    status = FilingStatus.paid;
    payment_date = some o.now;
    payment_amount = some payment_amount;
  }

  -- Both branches on the database store the filing, and neither posts to the ledger.
  unfoldable pub mark_as_paid : Outside → Uuid → M → Method M (Unit {0})
  unfolding update_filing get_filing
  mark_as_paid o id payment_amount c = elim (get_filing id c) [
    | none ↦ (err (TaxError.filing_not_found id), c)
    | some f ↦ (update_filing o id (as_paid o payment_amount f) >> pure tt) c
  ]
