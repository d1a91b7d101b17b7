-- ===== src/Agents/Tasks.antt =====
-- Tasks and their retries (RichdaleAccounting/nexus-core/src/agents/task.rs and agent_types.rs). The
-- payload is a parameter: the dispatch of tasks never looks into it.
use rich_aim_acct_inv.Prelude.{
  ℕ, ◌+◌, Bool, true, false, Option, none, some, List, [], ◌∷◌, ◌++◌, String, ltb,
}
use rich_aim_acct_inv.Financial.{Uuid, DateTime}

pub data AgentType : Type 0 where
  ledger_agent reconciliation_agent invoice_agent ap_agent payroll_agent : AgentType
  tax_agent receipt_agent document_agent audit_agent reporting_agent : AgentType

pub data AgentStatus : Type 0 where
  idle busy : AgentStatus
  error : String → AgentStatus
  initializing shutting_down : AgentStatus

pub data TaskType : Type 0 where
  record_transaction reconcile_account generate_invoice process_payment calculate_payroll : TaskType
  calculate_taxes process_receipt store_document retrieve_document audit_check : TaskType
  generate_report validate_data export_data import_data : TaskType

pub data TaskPriority : Type 0 where
  low normal high critical : TaskPriority

-- The discriminants, by which the derived order compares.
abbrev pub rank : TaskPriority → ℕ
rank TaskPriority.low = 1
rank TaskPriority.normal = 5
rank TaskPriority.high = 8
rank TaskPriority.critical = 10

pub data TaskStatus : Type 0 where
  pending processing completed : TaskStatus
  failed : String → TaskStatus
  cancelled : TaskStatus
  retrying : ℕ → TaskStatus

pub record TaskResult (P : Type 0) : Type 0 where
  pub success : Bool
  pub message : String
  pub result_data : Option P
  pub completed_at : DateTime
  pub warnings : List String

pub record Task (P : Type 0) : Type 0 where
  pub id : Uuid
  pub task_type : TaskType
  pub priority : TaskPriority
  pub status : TaskStatus
  pub created_at : DateTime
  pub updated_at : DateTime
  pub assigned_agent_type : Option AgentType
  pub assigned_agent_id : Option Uuid
  pub payload : P
  pub result : Option (TaskResult P)
  pub retry_count : ℕ
  pub max_retries : ℕ
  pub timeout_ms : ℕ

module _ {P : Type 0} where
  -- `Task::new`, over the fresh id, the time and the empty payload that `Default` draws.
  unfoldable pub new_task : Uuid → DateTime → P → TaskType → Task P
  new_task id now empty task_type = record {
    id = id;
    task_type = task_type;
    priority = TaskPriority.normal;
    status = TaskStatus.pending;
    created_at = now;
    updated_at = now;
    assigned_agent_type = none;
    assigned_agent_id = none;
    payload = empty;
    result = none;
    retry_count = 0;
    max_retries = 3;
    timeout_ms = 30000;
  }

  -- `Task::complete`
  unfoldable pub complete : DateTime → TaskResult P → Task P → Task P
  complete now r t = record t { status = TaskStatus.completed; result = some r; updated_at = now }

  -- `Task::fail`
  unfoldable pub fail : DateTime → String → Task P → Task P
  fail now e t = record t { status = TaskStatus.failed e; updated_at = now }

  -- `Task::can_retry`
  abbrev pub can_retry : Task P → Bool
  can_retry t = ltb t.retry_count t.max_retries

  -- `Task::increment_retry`
  abbrev pub increment_retry : DateTime → Task P → Task P
  increment_retry now t = record t { retry_count = t.retry_count + 1; updated_at = now }

  -- `TaskResult::success`, `success_with_data` and `failure`
  unfoldable pub success_of : DateTime → String → TaskResult P
  success_of now message = record {
    success = true;
    message = message;
    result_data = none;
    completed_at = now;
    warnings = [];
  }

  unfoldable pub success_with_data : DateTime → String → P → TaskResult P
  success_with_data now message p = record {
    success = true;
    message = message;
    result_data = some p;
    completed_at = now;
    warnings = [];
  }

  unfoldable pub failure_of : DateTime → String → TaskResult P
  failure_of now message = record {
    success = false;
    message = message;
    result_data = none;
    completed_at = now;
    warnings = [];
  }

  -- `TaskResult::with_warning`
  unfoldable pub with_warning : String → TaskResult P → TaskResult P
  with_warning warning r = record r { warnings = r.warnings ++ warning ∷ [] }
