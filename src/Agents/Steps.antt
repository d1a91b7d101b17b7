-- ===== src/Agents/Steps.antt =====
-- The ways in which one `process_next_task` can go, as a step relation
-- (RichdaleAccounting/nexus-core/src/agents/orchestrator.rs).
use rich_aim_acct_inv.Prelude.{
  ◌≡◌, refl, sym, true, none, some, List, [], ◌∷◌, String, inl, inr, arith, Result, ok, err,
  Option-cases, Result-cases, ◌∙◌,
}
use rich_aim_acct_inv.Prelude.OrdMap.{get?, insert}
use rich_aim_acct_inv.Financial.{Uuid}
use mathlib.Core.Path.{subst}
use rich_aim_acct_inv.Agents.{
  Agent, AgentOrchestrator, Task, TaskStatus, Services, sort_queue, find_available_agent,
  is_agent_available, agent_is_free, handle_completed_task, handle_failed_task, busy_with,
  assign_task_to_agent, dispatch, process_next_task,
}
use rich_aim_acct_inv.Agents.Order.{Unavailable, Choice, find_available_agent_lem}

module _ {P : Type 0} where
  -- The task as it is handed to an agent, and the state at that moment.
  abbrev pub started : Uuid → Task P → Task P
  started id t = record t { status = TaskStatus.processing; assigned_agent_id = some id }

  abbrev pub at_work :
      Services P → Uuid → Task P → List (Task P) → AgentOrchestrator P → AgentOrchestrator P
  at_work v id t rest s = busy_with v id (record s {
    task_queue = rest;
    in_progress_tasks = insert t.id (started id t) s.in_progress_tasks;
  })

  pub available-registered :
      (id : Uuid) (s : AgentOrchestrator P)
      → is_agent_available id s ≡ true
      → (a : Agent) × (get? id s.agents ≡ some a)
  unfolding is_agent_available
  available-registered id s h = elim (Option-cases (get? id s.agents)) [
    | inl e ↦
        let bad : agent_is_free none ≡ true = subst (λ o. agent_is_free o ≡ true) e h in
        ground arith
    | inr found ↦ found
  ]

pub data Step (P : Type 0)
    : Services P
      → AgentOrchestrator P
      → Result String (Unit {0}) × AgentOrchestrator P
      → Type 0 where
  nothing :
      {v : Services P} {s : AgentOrchestrator P}
      → sort_queue s.task_queue ≡ []
      → Step P v s (ok tt, record s { task_queue = [] })
  waiting :
      {v : Services P} {s : AgentOrchestrator P} (t : Task P) (rest : List (Task P))
      → sort_queue s.task_queue ≡ t ∷ rest
      → ((id : Uuid) → Unavailable s id)
      → Step P v s (ok tt, record s { task_queue = t ∷ rest })
  completed :
      {v : Services P} {s : AgentOrchestrator P} (t done : Task P) (rest : List (Task P))
      (id : Uuid)
      → sort_queue s.task_queue ≡ t ∷ rest
      → is_agent_available id s ≡ true
      → v.process_task id (started id t) ≡ ok done
      → Step P v s (ok tt, handle_completed_task v done id (at_work v id t rest s))
  failed :
      {v : Services P} {s : AgentOrchestrator P} (t : Task P) (rest : List (Task P)) (id : Uuid)
      (e : String)
      → sort_queue s.task_queue ≡ t ∷ rest
      → is_agent_available id s ≡ true
      → v.process_task id (started id t) ≡ err e
      → Step P v s (handle_failed_task v (started id t) id e (at_work v id t rest s))

module _ {P : Type 0} where
  assigned-Step :
      (v : Services P) (s : AgentOrchestrator P) (t : Task P) (rest : List (Task P)) (id : Uuid)
      → sort_queue s.task_queue ≡ t ∷ rest
      → is_agent_available id s ≡ true
      → Step P v s (assign_task_to_agent v t id (record s { task_queue = rest }))
  unfolding assign_task_to_agent
  assigned-Step v s t rest id q h =
      let (a, e) = available-registered id s h in
      elim (Result-cases (v.process_task id (started id t))) [
        | inl (done, e') ↦ rw (e, e', assign_task_to_agent) (Step.completed t done rest id q h e')
        | inr (x, e') ↦ rw (e, e', assign_task_to_agent) (Step.failed t rest id x q h e')
      ]

  available_popped :
      (s : AgentOrchestrator P) (ts : List (Task P)) (id : Uuid)
      → is_agent_available id (record s { task_queue = ts }) ≡ is_agent_available id s
  unfolding is_agent_available
  available_popped s ts id = refl

  dispatch-Step :
      (v : Services P) (s : AgentOrchestrator P) (ts : List (Task P))
      → sort_queue s.task_queue ≡ ts
      → Step P v s (dispatch v ts s)
  unfolding dispatch
  dispatch-Step v s [] q = Step.nothing q
  dispatch-Step v s (t ∷ rest) q =
      let popped : AgentOrchestrator P = record s { task_queue = rest } in
      elim (Option-cases (find_available_agent t popped)) [
        | inl e ↦
            let no_one : Choice t popped none =
              subst (Choice t popped) e (find_available_agent_lem t popped) in
            rw (e, dispatch)
              (Step.waiting t rest q (λ id. sym (available_popped s rest id) ∙ no_one id))
        | inr (id, e) ↦
            let chosen : Choice t popped (some id) =
              subst (Choice t popped) e (find_available_agent_lem t popped) in
            rw (e, dispatch)
              (assigned-Step v s t rest id q (sym (available_popped s rest id) ∙ chosen.0))
      ]

  -- Every call is a step.
  pub process_next_task-Step :
      (v : Services P) (s : AgentOrchestrator P) → Step P v s (process_next_task v s)
  unfolding process_next_task
  process_next_task-Step v s = dispatch-Step v s (sort_queue s.task_queue) refl
