-- ===== src/Agents/Orchestrator.antt =====
-- The orchestrator's state, and agents coming and going
-- (RichdaleAccounting/nexus-core/src/agents/orchestrator.rs).
use rich_aim_acct_inv.Prelude.{
  ◌==◌, Bool, true, false, Option, none, some, List, [], ◌∷◌, ◌++◌, map, filter, not, String,
  length, Result, ok, err, if◌then◌else◌,
}
use rich_aim_acct_inv.Prelude.OrdMap.{OrdMap, get?, insert, remove, values}
use rich_aim_acct_inv.Financial.{Uuid, DateTime}
use rich_aim_acct_inv.Agents.Tasks.{AgentType, AgentStatus, Task}
use rich_aim_acct_inv.Agents.Status.{
  AgentStatusInfo, new_status, SystemStatus, new_system_status, add_agent_status,
}

-- An agent behind `dyn Agent`, as the orchestrator sees it: its configuration and its own status.
pub record Agent : Type 0 where
  pub agent_type : AgentType
  pub enabled : Bool
  pub status : AgentStatus

-- The maps iterate in the order of their keys here; a `HashMap` has an order of its own. The shared
-- ledger, the memory and the configuration managers are left out.
pub record AgentOrchestrator (P : Type 0) : Type 0 where
  pub agents : OrdMap Agent
  pub agents_by_type : List (AgentType × List Uuid)
  pub task_queue : List (Task P)
  pub in_progress_tasks : OrdMap (Task P)
  pub completed_tasks : List (Task P)
  pub failed_tasks : List (Task P)
  pub agent_statuses : OrdMap AgentStatusInfo
  pub is_running : Bool
  pub dead_letter_path : Option String

abbrev pub agent_type_eq : AgentType → AgentType → Bool
agent_type_eq AgentType.ledger_agent AgentType.ledger_agent = true
agent_type_eq AgentType.reconciliation_agent AgentType.reconciliation_agent = true
agent_type_eq AgentType.invoice_agent AgentType.invoice_agent = true
agent_type_eq AgentType.ap_agent AgentType.ap_agent = true
agent_type_eq AgentType.payroll_agent AgentType.payroll_agent = true
agent_type_eq AgentType.tax_agent AgentType.tax_agent = true
agent_type_eq AgentType.receipt_agent AgentType.receipt_agent = true
agent_type_eq AgentType.document_agent AgentType.document_agent = true
agent_type_eq AgentType.audit_agent AgentType.audit_agent = true
agent_type_eq AgentType.reporting_agent AgentType.reporting_agent = true
agent_type_eq _ _ = false

-- `agents_by_type.get(agent_type)`, with no agents for a type that is not there
unfoldable pub ids_of_type : AgentType → List (AgentType × List Uuid) → List Uuid
ids_of_type ty [] = []
ids_of_type ty ((t, ids) ∷ m) = if agent_type_eq t ty then ids else ids_of_type ty m

-- `entry(agent_type).or_insert_with(Vec::new).push(agent_id)`
unfoldable pub push_id :
    AgentType → Uuid → List (AgentType × List Uuid) → List (AgentType × List Uuid)
push_id ty id [] = (ty, id ∷ []) ∷ []
push_id ty id ((t, ids) ∷ m) =
    if agent_type_eq t ty then (t, ids ++ id ∷ []) ∷ m else (t, ids) ∷ push_id ty id m

-- `for (_, agent_ids) in iter_mut() { agent_ids.retain(|&id| id != agent_id) }`
unfoldable pub retain_ids : Uuid → List (AgentType × List Uuid) → List (AgentType × List Uuid)
retain_ids id m = map (λ e. (e.0, filter (λ j. not (j == id)) e.1)) m

unfoldable pub add_statuses : List AgentStatusInfo → SystemStatus → SystemStatus
add_statuses [] sys = sys
add_statuses (i ∷ rest) sys = add_statuses rest (add_agent_status i sys)

module _ {P : Type 0} where
  -- `AgentOrchestrator::new`
  abbrev pub new_orchestrator : AgentOrchestrator P
  new_orchestrator = record {
    agents = [];
    agents_by_type = [];
    task_queue = [];
    in_progress_tasks = [];
    completed_tasks = [];
    failed_tasks = [];
    agent_statuses = [];
    is_running = false;
    dead_letter_path = none;
  }

  -- The registration in `add_agent`, of an agent that has been made.
  unfoldable pub add_agent :
      DateTime → Uuid → Agent → AgentOrchestrator P → Uuid × AgentOrchestrator P
  unfolding push_id
  add_agent now id agent s = (
    id,
    record s {
      agents = insert id agent s.agents;
      agents_by_type = push_id agent.agent_type id s.agents_by_type;
      agent_statuses = insert id (new_status now id agent.agent_type) s.agent_statuses;
    },
  )

  abbrev pub without_agent : Uuid → AgentOrchestrator P → AgentOrchestrator P
  without_agent id s = record s {
    agents = remove id s.agents;
    agents_by_type = retain_ids id s.agents_by_type;
    agent_statuses = remove id s.agent_statuses;
  }

  -- `remove_agent`; `shutdown` is what the agent's own shutdown answers.
  unfoldable pub remove_agent :
      Result String (Unit {0})
      → Uuid
      → AgentOrchestrator P
      → Result String (Unit {0}) × AgentOrchestrator P
  unfolding retain_ids
  remove_agent shutdown id s = elim (get? id s.agents) [
    | none ↦ (ok tt, without_agent id s)
    | some _ ↦ elim shutdown [
      | ok _ ↦ (ok tt, without_agent id s)
      | err e ↦ (err e, record s { agents = remove id s.agents })
    ]
  ]

  -- `submit_task`
  unfoldable pub submit_task : Task P → AgentOrchestrator P → Uuid × AgentOrchestrator P
  submit_task t s = (t.id, record s { task_queue = s.task_queue ++ t ∷ [] })

  -- `get_system_status`
  unfoldable pub get_system_status : AgentOrchestrator P → SystemStatus
  unfolding add_statuses
  get_system_status s =
      let sys : SystemStatus = add_statuses (values s.agent_statuses) new_system_status in
      record sys {
        total_tasks_in_progress = length s.in_progress_tasks;
        total_tasks_processed = length s.completed_tasks;
        total_tasks_failed = length s.failed_tasks;
      }
