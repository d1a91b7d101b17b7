-- ===== src/Agents/Dispatch.antt =====
-- The dispatch of tasks to agents (RichdaleAccounting/nexus-core/src/agents/orchestrator.rs). One
-- call runs at a time, as the processing loop makes them.
use rich_aim_acct_inv.Prelude.{
  ℕ, zero, suc, Bool, true, false, Option, none, some, List, [], ◌∷◌, ◌++◌, String, Result, ok, err,
  ltb, if◌then◌else◌,
}
use rich_aim_acct_inv.Prelude.OrdMap.{OrdMap, get?, insert, remove, modify}
use rich_aim_acct_inv.Financial.{Uuid, DateTime}
use rich_aim_acct_inv.Agents.Tasks.{
  AgentType, AgentStatus, Task, TaskStatus, rank, can_retry, increment_retry,
}
use rich_aim_acct_inv.Agents.Status.{
  update_status, record_task_completion, record_task_failure, increment_tasks_in_progress,
  decrement_tasks_in_progress,
}
use rich_aim_acct_inv.Agents.Orchestrator.{Agent, AgentOrchestrator, ids_of_type}

-- What the dispatch calls and does not define: the agents' `process_task`, which takes the agent by a
-- shared reference, the writing of the dead letter file, and the time.
pub record Services (P : Type 0) : Type 0 where
  pub now : DateTime
  pub process_task : Uuid → Task P → Result String (Task P)
  pub write_file : String → List (Task P) → Result String (Unit {0})

abbrev pub status_is_idle : AgentStatus → Bool
status_is_idle AgentStatus.idle = true
status_is_idle AgentStatus.busy = false
status_is_idle (AgentStatus.error _) = false
status_is_idle AgentStatus.initializing = false
status_is_idle AgentStatus.shutting_down = false

abbrev pub agent_is_free : Option Agent → Bool
agent_is_free none = false
agent_is_free (some a) = if a.enabled then status_is_idle a.status else false

abbrev pub keys : OrdMap Agent → List Uuid
keys [] = []
keys ((k, _) ∷ m) = k ∷ keys m

abbrev pub assigned_ids : Option AgentType → List (AgentType × List Uuid) → List Uuid
assigned_ids none m = []
assigned_ids (some ty) m = ids_of_type ty m

module _ {P : Type 0} where
  -- `sort_by(|a, b| b.priority.cmp(&a.priority))`: highest first, and stable.
  unfoldable pub place : Task P → List (Task P) → List (Task P)
  place t [] = t ∷ []
  place t (u ∷ us) = if ltb (rank t.priority) (rank u.priority) then u ∷ place t us else t ∷ u ∷ us

  unfoldable pub sort_queue : List (Task P) → List (Task P)
  unfolding place
  sort_queue [] = []
  sort_queue (t ∷ ts) = place t (sort_queue ts)

  -- `is_agent_available`
  unfoldable pub is_agent_available : Uuid → AgentOrchestrator P → Bool
  is_agent_available id s = agent_is_free (get? id s.agents)

  unfoldable pub first_available : List Uuid → AgentOrchestrator P → Option Uuid
  first_available [] s = none
  first_available (id ∷ ids) s = if is_agent_available id s then some id else first_available ids s

  -- `find_available_agent`: an agent of the assigned type, or else any.
  unfoldable pub find_available_agent : Task P → AgentOrchestrator P → Option Uuid
  unfolding first_available
  find_available_agent t s =
      elim (first_available (assigned_ids t.assigned_agent_type s.agents_by_type) s) [
        | some id ↦ some id
        | none ↦ first_available (keys s.agents) s
      ]

  -- `handle_completed_task`
  unfoldable pub handle_completed_task :
      Services P → Task P → Uuid → AgentOrchestrator P → AgentOrchestrator P
  handle_completed_task v t id s = record s {
    in_progress_tasks = remove t.id s.in_progress_tasks;
    completed_tasks = s.completed_tasks ++ t ∷ [];
    agent_statuses =
        modify id
          (λ i.
            record_task_completion v.now
              (decrement_tasks_in_progress (update_status v.now AgentStatus.idle i)))
          s.agent_statuses;
  }

  -- A failed task goes back to the front of the queue while it has retries left.
  abbrev pub requeue : Services P → Task P → AgentOrchestrator P → AgentOrchestrator P
  requeue v t s =
      if can_retry t
      then record s { task_queue = increment_retry v.now t ∷ s.task_queue }
      else record s { failed_tasks = s.failed_tasks ++ t ∷ [] }

  -- `persist_failed_tasks`, where a path is configured
  abbrev pub persist : Services P → Option String → List (Task P) → Result String (Unit {0})
  persist v none ts = ok tt
  persist v (some path) ts = v.write_file path ts

  -- `handle_failed_task`; its `?` on the dead letter file comes before the agent's status is updated.
  unfoldable pub handle_failed_task :
      Services P
      → Task P
      → Uuid
      → String
      → AgentOrchestrator P
      → Result String (Unit {0}) × AgentOrchestrator P
  handle_failed_task v t id e s =
      let t' : Task P = record t { status = TaskStatus.failed e } in
      let s' : AgentOrchestrator P =
        requeue v t' (record s { in_progress_tasks = remove t.id s.in_progress_tasks }) in
      elim (persist v s'.dead_letter_path s'.failed_tasks) [
        | err x ↦ (err x, s')
        | ok _ ↦ (
          ok tt,
          record s' {
            agent_statuses =
                modify id
                  (λ i.
                    record_task_failure e
                      (decrement_tasks_in_progress (update_status v.now AgentStatus.idle i)))
                  s'.agent_statuses;
          },
        )
      ]

  abbrev pub busy_with : Services P → Uuid → AgentOrchestrator P → AgentOrchestrator P
  busy_with v id s = record s {
    agent_statuses =
        modify id (λ i. increment_tasks_in_progress (update_status v.now AgentStatus.busy i))
          s.agent_statuses;
  }

  -- `assign_task_to_agent`
  unfoldable pub assign_task_to_agent :
      Services P
      → Task P
      → Uuid
      → AgentOrchestrator P
      → Result String (Unit {0}) × AgentOrchestrator P
  assign_task_to_agent v t id s =
      let t' : Task P = record t { status = TaskStatus.processing; assigned_agent_id = some id } in
      let s' : AgentOrchestrator P = record s {
        in_progress_tasks = insert t.id t' s.in_progress_tasks;
      } in
      elim (get? id s.agents) [
        | none ↦ (ok tt, s')
        | some _ ↦ elim (v.process_task id t') [
          | ok done ↦ (ok tt, handle_completed_task v done id (busy_with v id s'))
          | err e ↦ handle_failed_task v t' id e (busy_with v id s')
        ]
      ]

  -- The rest of `process_next_task`, on the sorted queue.
  unfoldable pub dispatch :
      Services P
      → List (Task P)
      → AgentOrchestrator P
      → Result String (Unit {0}) × AgentOrchestrator P
  dispatch v [] s = (ok tt, record s { task_queue = [] })
  dispatch v (t ∷ rest) s =
      let popped : AgentOrchestrator P = record s { task_queue = rest } in
      elim (find_available_agent t popped) [
        | some id ↦ assign_task_to_agent v t id popped
        | none ↦ (ok tt, record popped { task_queue = t ∷ rest })
      ]

  -- `process_next_task`
  unfoldable pub process_next_task :
      Services P → AgentOrchestrator P → Result String (Unit {0}) × AgentOrchestrator P
  unfolding dispatch
  process_next_task v s = dispatch v (sort_queue s.task_queue) s

  abbrev pub queue_is_empty : List (Task P) → Bool
  queue_is_empty [] = true
  queue_is_empty (_ ∷ _) = false

  -- The inner loop of `start`; `none` means that the fuel ran out.
  unfoldable pub drain :
      ℕ → Services P → AgentOrchestrator P → Option (Result String (Unit {0}) × AgentOrchestrator P)
  unfolding process_next_task
  drain zero v s = none
  drain (suc fuel) v s = elim (queue_is_empty s.task_queue) [
    | true ↦ some (ok tt, s)
    | false ↦
        let (r, s') = process_next_task v s in
        elim r [ err x ↦ some (err x, s') | ok _ ↦ drain fuel v s' ]
  ]
