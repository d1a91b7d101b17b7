-- ===== src/Invoices/Defs.antt =====
-- Invoices, their items and the processor's state
-- (RichdaleAccounting/nexus-core/src/accounting/invoice.rs). The processor shares its ledger with other
-- agents; here it holds the ledger as it stands at the call.
use rich_aim_acct_inv.Prelude.{
  ℕ, Bool, true, false, Option, none, some, List, String, filter, ◌||◌, [],
}
use rich_aim_acct_inv.Prelude.OrdMap.{OrdMap, get?, values}
use rich_aim_acct_inv.Prelude.State.{Action}
use rich_aim_acct_inv.Money.{Decimal}
use rich_aim_acct_inv.Financial.{Uuid, DateTime, NaiveDate}
use rich_aim_acct_inv.Ledger.{Ledger}

pub data InvoiceStatus : Type 0 where
  draft sent paid partially_paid overdue cancelled credit_issued : InvoiceStatus

abbrev pub status_eq : InvoiceStatus → InvoiceStatus → Bool
status_eq InvoiceStatus.draft InvoiceStatus.draft = true
status_eq InvoiceStatus.sent InvoiceStatus.sent = true
status_eq InvoiceStatus.paid InvoiceStatus.paid = true
status_eq InvoiceStatus.partially_paid InvoiceStatus.partially_paid = true
status_eq InvoiceStatus.overdue InvoiceStatus.overdue = true
status_eq InvoiceStatus.cancelled InvoiceStatus.cancelled = true
status_eq InvoiceStatus.credit_issued InvoiceStatus.credit_issued = true
status_eq _ _ = false

-- An id stands for the text that the message prints of it, and a status for its name in the message.
pub data InvoiceError : Type 0 where
  invoice_not_found : Uuid → InvoiceError
  invalid_state : String → InvoiceStatus → InvoiceError
  payment_error ledger_error other : String → InvoiceError

pub record InvoiceItem (M : Type 0) : Type 0 where
  pub id : Uuid
  pub description : String
  pub quantity : M
  pub unit_price : M
  pub amount : M
  pub account_id : Option Uuid

-- `InvoiceItem::new`
unfoldable pub new_item : {M : Type 0} ⦃d : Decimal M⦄ → Uuid → String → M → M → InvoiceItem M
new_item ⦃d⦄ id description quantity unit_price = record {
  id = id;
  description = description;
  quantity = quantity;
  unit_price = unit_price;
  amount = d.mul quantity unit_price;
  account_id = none;
}

pub record Invoice (M : Type 0) : Type 0 where
  pub id : Uuid
  pub invoice_number : String
  pub customer_name : String
  pub customer_email : String
  pub issue_date : NaiveDate
  pub due_date : NaiveDate
  pub items : List (InvoiceItem M)
  pub subtotal : M
  pub tax_amount : M
  pub total : M
  pub amount_paid : M
  pub status : InvoiceStatus
  pub notes : String
  pub transaction_id : Option Uuid
  pub created_at : DateTime
  pub updated_at : DateTime

pub record InvoiceProcessor (M : Type 0) : Type 0 where
  pub invoices : OrdMap (Invoice M)
  pub current_invoice_number : ℕ
  pub ledger : Option (Ledger M)

abbrev pub Method : Type 0 → Type 0 → Type 0
Method M A = Action (InvoiceProcessor M) InvoiceError A

-- `InvoiceProcessor::new`
abbrev pub new_processor : {M : Type 0} → InvoiceProcessor M
new_processor = record { invoices = []; current_invoice_number = 1; ledger = none }

-- The states in which `process_payment` and `cancel_invoice` refuse.
abbrev pub is_closed : InvoiceStatus → Bool
is_closed s = status_eq s InvoiceStatus.paid || status_eq s InvoiceStatus.cancelled

-- Two accounts that have both been found.
abbrev pub both : {A : Type 0} → Option A → Option A → Option (A × A)
both none _ = none
both (some a) none = none
both (some a) (some b) = some (a, b)

module _ {M : Type 0} where
  unfoldable pub get_invoice : Uuid → InvoiceProcessor M → Option (Invoice M)
  get_invoice id p = get? id p.invoices

  unfoldable pub list_invoices : InvoiceProcessor M → List (Invoice M)
  list_invoices p = values p.invoices

  unfoldable pub list_invoices_by_status : InvoiceStatus → InvoiceProcessor M → List (Invoice M)
  list_invoices_by_status status p = filter (λ i. status_eq i.status status) (values p.invoices)
