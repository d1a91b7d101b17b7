-- ===== src/Agents/Tests.antt =====
-- Runs of the orchestrator on a small office (RichdaleAccounting/nexus-core/src/agents).
use rich_aim_acct_inv.Agents.Steps.{started}
use rich_aim_acct_inv.Agents.Bookkeeping.{entry_after, assign_task_to_agent-entry}
use rich_aim_acct_inv.Prelude.{
  ℕ, ◌≡◌, refl, true, false, some, none, [], ◌∷◌, String, arith, Result, ok, err, if◌then◌else◌,
  ◌==◌, List, Option, Bool,
}
use rich_aim_acct_inv.Agents.Order.{Sorted, of_rank, sort_queue_lem}
use rich_aim_acct_inv.Prelude.OrdMap.{get?, insert}
use rich_aim_acct_inv.Financial.{Uuid}
use rich_aim_acct_inv.Agents.{
  Agent, AgentOrchestrator, AgentType, AgentStatus, Task, TaskType, TaskStatus,
  find_available_agent, handle_failed_task, handle_completed_task, TaskPriority, Services,
  new_orchestrator, add_agent, process_next_task, drain, is_agent_available, new_status, sort_queue,
  assign_task_to_agent,
}
use rich_aim_acct_inv.Agents.Conservation.{Kept, process_next_task_conserves}
use rich_aim_acct_inv.Agents.Retries.{RetriesValid, process_next_task-RetriesValid}
use rich_aim_acct_inv.Agents.Draining.{Ended, drain_ends, drain_starves}

-- The agent fails the tasks with an odd payload, and no file can be written.
abbrev answer : Task ℕ → Result String (Task ℕ)
answer t = if t.payload == 1 then err "odd" else ok t

abbrev services : Services ℕ
services = record {
  now = 5;
  process_task = λ id t. answer t;
  write_file = λ path ts. err "disk full";
}

abbrev clerk : Agent
clerk = record { agent_type = AgentType.ledger_agent; enabled = true; status = AgentStatus.idle }

abbrev good_task : Task ℕ
good_task = record {
  id = 11;
  task_type = TaskType.generate_report;
  priority = TaskPriority.low;
  status = TaskStatus.pending;
  created_at = 1;
  updated_at = 1;
  assigned_agent_type = none;
  assigned_agent_id = none;
  payload = 0;
  result = none;
  retry_count = 0;
  max_retries = 3;
  timeout_ms = 30000;
}

abbrev bad_task : Task ℕ
bad_task = record good_task { id = 12; priority = TaskPriority.high; payload = 1; max_retries = 1 }

abbrev office : AgentOrchestrator ℕ
office = record new_orchestrator {
  agents = (7, clerk) ∷ [];
  agents_by_type = (AgentType.ledger_agent, 7 ∷ []) ∷ [];
  agent_statuses = (7, new_status 1 7 AgentType.ledger_agent) ∷ [];
  task_queue = good_task ∷ bad_task ∷ [];
}

added : (add_agent 1 7 clerk (new_orchestrator {P = ℕ})).1 ≡ record office { task_queue = [] }
unfolding add_agent insert
added = refl

highest_first : sort_queue office.task_queue ≡ bad_task ∷ good_task ∷ []
unfolding sort_queue
highest_first = refl

abbrev ids : List (Task ℕ) → List Uuid
ids [] = []
ids (t ∷ ts) = t.id ∷ ids ts

abbrev over : Option (Result String (Unit {0}) × AgentOrchestrator ℕ) → List Uuid × List Uuid
over none = ([], [])
over (some (_, s)) = (ids s.completed_tasks, ids s.failed_tasks)

emptied : over (drain 4 services office) ≡ (11 ∷ [], 12 ∷ [])
unfolding drain sort_queue find_available_agent is_agent_available get? assign_task_to_agent
    handle_failed_task handle_completed_task
emptied = refl

too_few_rounds : drain 3 services office ≡ none
unfolding drain sort_queue find_available_agent is_agent_available get? assign_task_to_agent
    handle_failed_task handle_completed_task
too_few_rounds = refl

keeps_ids : (id : Uuid) (t done : Task ℕ) → answer t ≡ ok done → done.id ≡ t.id
keeps_ids id t done h = ground arith

process_next_task_conserves_example : Kept 12 office (process_next_task services office).1
process_next_task_conserves_example = process_next_task_conserves 12 services office keeps_ids refl

office-RetriesValid : RetriesValid office
office-RetriesValid = ((omega arith, (omega arith, tt)), tt)

process_next_task-RetriesValid_example : RetriesValid (process_next_task services office).1
process_next_task-RetriesValid_example =
    process_next_task-RetriesValid services office office-RetriesValid

clerk_available : is_agent_available 7 office ≡ true
unfolding is_agent_available get?
clerk_available = refl

drain_ends_example : Ended (drain 7 services office)
drain_ends_example = drain_ends 7 services office 7 clerk_available (omega arith)

abbrev away : AgentOrchestrator ℕ
away = record office { agents = (7, record clerk { status = AgentStatus.busy }) ∷ [] }

nobody : (a : Uuid) → is_agent_available a away ≡ false
unfolding is_agent_available get?
nobody a = ground arith

drain_starves_example : drain 1000 services away ≡ none
drain_starves_example = drain_starves 1000 services away nobody refl

abbrev logging : AgentOrchestrator ℕ
logging = record office { dead_letter_path = some "dead.json" }

registered : get? 7 logging.agents ≡ some clerk
unfolding get?
registered = refl

has_entry : get? 7 logging.agent_statuses ≡ some (new_status 1 7 AgentType.ledger_agent)
unfolding get?
has_entry = refl

assign_task_to_agent-entry_example :
    get? 7 (assign_task_to_agent services bad_task 7 logging).1.agent_statuses ≡ (
      if 7 == 7
      then some (
          entry_after services
            (services.process_task 7 (started 7 bad_task))
            (assign_task_to_agent services bad_task 7 logging).0
            (new_status 1 7 AgentType.ledger_agent))
      else get? 7 logging.agent_statuses)
assign_task_to_agent-entry_example =
    assign_task_to_agent-entry services bad_task 7 7 clerk (new_status 1 7 AgentType.ledger_agent)
      logging registered has_entry

abbrev is_err : Result String (Unit {0}) → Bool
is_err (ok _) = false
is_err (err _) = true

disk_full : is_err (assign_task_to_agent services bad_task 7 logging).0 ≡ true
unfolding assign_task_to_agent get? handle_failed_task
disk_full = refl

sort_queue_lem_example :
    Sorted (sort_queue office.task_queue)
    × ((r : ℕ) → of_rank r (sort_queue office.task_queue) ≡ of_rank r office.task_queue)
sort_queue_lem_example = sort_queue_lem office.task_queue
