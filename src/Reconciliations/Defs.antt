-- ===== src/Reconciliations/Defs.antt =====
-- Bank reconciliations (RichdaleAccounting/nexus-core/src/accounting/reconciliation.rs, and the model of
-- a reconciliation in RichdaleAccounting/nexus-core/src/database/financial.rs).
use rich_aim_acct_inv.Prelude.{
  ℕ, ◌==◌, Bool, true, false, Option, List, [], ◌∷◌, String, if◌then◌else◌,
}
use rich_aim_acct_inv.Prelude.OrdMap.{OrdMap}
use rich_aim_acct_inv.Prelude.State.{Action}
use rich_aim_acct_inv.Financial.{Uuid, DateTime, NaiveDate}

pub data ReconciliationStatus : Type 0 where
  in_progress completed needs_review cancelled : ReconciliationStatus

pub record Reconciliation (M : Type 0) : Type 0 where
  pub id : Uuid
  pub account_id : Uuid
  pub statement_date : NaiveDate
  pub starting_balance : M
  pub ending_balance : M
  pub statement_ending_balance : M
  pub reconciled_transactions : List Uuid
  pub outstanding_transactions : List Uuid
  pub difference : M
  pub status : ReconciliationStatus
  pub notes : String
  pub created_at : DateTime
  pub updated_at : DateTime

-- `not_found` is `Other` with a text that prints the id.
pub data ReconciliationError : Type 0 where
  account_not_found statement_parsing_error matching_error : String → ReconciliationError
  no_statement_data reconciliation_exists : ReconciliationError
  database_error other : String → ReconciliationError
  not_found : Uuid → ReconciliationError

pub data StatementTransactionType : Type 0 where
  debit credit : StatementTransactionType

pub record StatementTransaction (M : Type 0) : Type 0 where
  pub date : NaiveDate
  pub description : String
  pub amount : M
  pub transaction_type : StatementTransactionType
  pub reference : String
  pub is_matched : Bool
  pub matched_transaction_id : Option Uuid
  pub match_score : Option ℕ

pub record ReconciliationProcessor (M : Type 0) : Type 0 where
  pub reconciliations : OrdMap (Reconciliation M)
  pub reconciliations_by_account : OrdMap (List Uuid)

abbrev pub Method : Type 0 → Type 0 → Type 0
Method M A = Action (ReconciliationProcessor M) ReconciliationError A

-- `ReconciliationProcessor::new`
abbrev pub new_processor : {M : Type 0} → ReconciliationProcessor M
new_processor = record { reconciliations = []; reconciliations_by_account = [] }

-- `contains(&id)` of a set or a vector of ids.
abbrev pub contains : List Uuid → Uuid → Bool
contains [] id = false
contains (x ∷ xs) id = if x == id then true else contains xs id
