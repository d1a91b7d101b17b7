-- ===== src/Ap/Defs.antt =====
-- Vendors, bills and the processor's state (RichdaleAccounting/nexus-core/src/accounting/ap.rs). The
-- processor shares its ledger with other agents; here it holds the ledger as it stands at the call.
use Prim.Native.String.{◌++◌ as concat}
use rich_aim_acct_inv.Prelude.{
  ◌==◌, Bool, true, false, ◌||◌, Option, none, some, List, [], ◌∷◌, ◌++◌, map, find, filter, String,
}
use rich_aim_acct_inv.Prelude.State.{Action}
use rich_aim_acct_inv.Money.{Decimal, sum}
use rich_aim_acct_inv.Financial.{Uuid, DateTime, NaiveDate}
use rich_aim_acct_inv.Ledger.{Ledger, LedgerError, Outside}

-- An id and a ledger's error stand for the text that the message prints of them. The source's
-- `LedgerError(String)` is `ledger_message` with a fixed text, and `ledger_error` with a ledger's.
pub data AccountsPayableError : Type 0 where
  vendor_not_found bill_not_found : Uuid → AccountsPayableError
  invalid_state other : String → AccountsPayableError
  ledger_message : String → AccountsPayableError
  ledger_error : LedgerError → AccountsPayableError

pub data ApBillStatus : Type 0 where
  draft approved scheduled paid void : ApBillStatus

abbrev pub status_eq : ApBillStatus → ApBillStatus → Bool
status_eq ApBillStatus.draft ApBillStatus.draft = true
status_eq ApBillStatus.approved ApBillStatus.approved = true
status_eq ApBillStatus.scheduled ApBillStatus.scheduled = true
status_eq ApBillStatus.paid ApBillStatus.paid = true
status_eq ApBillStatus.void ApBillStatus.void = true
status_eq _ _ = false

pub record Vendor : Type 0 where
  pub id : Uuid
  pub name : String
  pub contact_name : Option String
  pub email : Option String
  pub phone : Option String
  pub address : Option String
  pub tax_id : Option String
  pub currency : String
  pub created_at : DateTime
  pub updated_at : DateTime

-- `Vendor::new`
unfoldable pub new_vendor : Uuid → DateTime → String → Vendor
new_vendor id now name = record {
  id = id;
  name = name;
  contact_name = none;
  email = none;
  phone = none;
  address = none;
  tax_id = none;
  currency = "USD";
  created_at = now;
  updated_at = now;
}

pub record ApBillLine (M : Type 0) : Type 0 where
  pub id : Uuid
  pub account_id : Uuid
  pub amount : M
  pub description : String

pub record ApBill (M : Type 0) : Type 0 where
  pub id : Uuid
  pub vendor_id : Uuid
  pub bill_number : String
  pub description : String
  pub amount : M
  pub expense_account_id : Uuid
  pub lines : List (ApBillLine M)
  pub paid_amount : M
  pub due_date : NaiveDate
  pub scheduled_payment_date : Option NaiveDate
  pub status : ApBillStatus
  pub transaction_id : Option Uuid
  pub payment_transaction_id : Option Uuid
  pub notes : Option String
  pub created_at : DateTime
  pub updated_at : DateTime

pub record ApProcessor (M : Type 0) : Type 0 where
  pub vendors : List Vendor
  pub bills : List (ApBill M)
  pub ledger : Option (Ledger M)
  pub ap_account_id : Uuid
  pub cash_account_id : Uuid

abbrev pub Method : Type 0 → Type 0 → Type 0
Method M A = Action (ApProcessor M) AccountsPayableError A

-- `Uuid::nil()`
abbrev pub nil_id : Uuid
nil_id = 0

module _ {M : Type 0} where
  -- `ApProcessor::new`
  abbrev pub new_processor : ApProcessor M
  new_processor = record {
    vendors = [];
    bills = [];
    ledger = none;
    ap_account_id = nil_id;
    cash_account_id = nil_id;
  }

  abbrev pub has_id : Uuid → ApBill M → Bool
  has_id bill_id b = b.id == bill_id

  -- `self.bills.iter().find(|b| b.id == bill_id)`
  unfoldable pub find_bill : Uuid → ApProcessor M → Option (ApBill M)
  find_bill bill_id p = find (has_id bill_id) p.bills

  abbrev pub is_open : ApBill M → Bool
  is_open b = status_eq b.status ApBillStatus.approved || status_eq b.status ApBillStatus.scheduled

  abbrev pub first_account : List (ApBillLine M) → Uuid
  first_account [] = nil_id
  first_account (line ∷ _) = line.account_id

module _ {M : Type 0} ⦃d : Decimal M⦄ where
  open d use {dec_0, sub}

  -- `ApBill::new`; the bill number is "BILL-" and the start of a fresh id's text, `tag`.
  unfoldable pub new_bill : Outside → String → Uuid → String → M → Uuid → NaiveDate → ApBill M
  new_bill o tag vendor_id description amount expense_account_id due_date = record {
    id = o.fresh 1;
    vendor_id = vendor_id;
    bill_number = concat "BILL-" tag;
    description = description;
    amount = amount;
    expense_account_id = expense_account_id;
    lines =
        record {
          id = o.fresh 0;
          account_id = expense_account_id;
          amount = amount;
          description = description;
        }
        ∷ [];
    paid_amount = dec_0;
    due_date = due_date;
    scheduled_payment_date = none;
    status = ApBillStatus.draft;
    transaction_id = none;
    payment_transaction_id = none;
    notes = none;
    created_at = o.now;
    updated_at = o.now;
  }

  -- `ApBill::new_multi_line`
  unfoldable pub new_multi_line :
      Outside → String → Uuid → String → List (ApBillLine M) → NaiveDate → ApBill M
  new_multi_line o tag vendor_id description lines due_date = record {
    id = o.fresh 0;
    vendor_id = vendor_id;
    bill_number = concat "BILL-" tag;
    description = description;
    amount = sum (map (λ line. line.amount) lines);
    expense_account_id = first_account lines;
    lines = lines;
    paid_amount = dec_0;
    due_date = due_date;
    scheduled_payment_date = none;
    status = ApBillStatus.draft;
    transaction_id = none;
    payment_transaction_id = none;
    notes = none;
    created_at = o.now;
    updated_at = o.now;
  }

  -- `ApBill::remaining_balance`
  abbrev pub remaining_balance : ApBill M → M
  remaining_balance b = sub b.amount b.paid_amount

  -- `ApProcessor::outstanding_total`
  unfoldable pub outstanding_total : ApProcessor M → M
  outstanding_total p = sum (map remaining_balance (filter is_open p.bills))

module _ {M : Type 0} where
  -- `ApProcessor::list_bills`
  unfoldable pub list_bills : Option ApBillStatus → ApProcessor M → List (ApBill M)
  list_bills none p = p.bills
  list_bills (some s) p = filter (λ b. status_eq b.status s) p.bills

  -- `ApProcessor::add_vendor`
  unfoldable pub add_vendor : Vendor → ApProcessor M → Vendor × ApProcessor M
  add_vendor v p = (v, record p { vendors = p.vendors ++ v ∷ [] })

  -- `ApProcessor::find_vendor`
  unfoldable pub find_vendor : Uuid → ApProcessor M → Option Vendor
  find_vendor id p = find (λ v. v.id == id) p.vendors
