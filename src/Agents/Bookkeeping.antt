-- ===== src/Agents/Bookkeeping.antt =====
-- The orchestrator's entries on its agents (RichdaleAccounting/nexus-core/src/agents/orchestrator.rs
-- and status.rs).
use rich_aim_acct_inv.Prelude.{
  ℕ, ◌+◌, ◌≡◌, refl, ap, ◌∙◌, some, String, inl, inr, arith, Result, ok, err, Bool-cases, ◌==◌,
  if◌then◌else◌, Result-cases, eq_self,
}
use rich_aim_acct_inv.Prelude.OrdMap.{get?, get?-modify, OrdMap, modify}
use rich_aim_acct_inv.Financial.{Uuid}
use rich_aim_acct_inv.Agents.{
  Agent, AgentOrchestrator, AgentStatusInfo, AgentStatus, Task, Services, assign_task_to_agent,
  handle_completed_task, handle_failed_task, can_retry, busy_with, persist, record_task_failure,
  record_task_completion, update_status, decrement_tasks_in_progress, increment_tasks_in_progress,
}
use rich_aim_acct_inv.Agents.Conservation.{after_failure}
use rich_aim_acct_inv.Agents.Steps.{started}

get?_modified :
    {V : Type 0} (j k : ℕ) (f : V → V) (x : V) (m : OrdMap V)
    → get? k m ≡ some x
    → get? j (modify k f m) ≡ (if k == j then some (f x) else get? j m)
get?_modified j k f x m h = elim (Bool-cases (k == j)) [
  | inl same ↦
      let e : j ≡ k = ground arith in
      let h' : get? j m ≡ some x = ap (λ n. get? n m) e ∙ h in
      get?-modify j k f m ∙ ground (arith, h')
  | inr other ↦ get?-modify j k f m ∙ rw other refl
]

get?_modified_twice :
    {V : Type 0} (j k : ℕ) (f g : V → V) (x : V) (m : OrdMap V)
    → get? k m ≡ some x
    → get? j (modify k f (modify k g m)) ≡ (if k == j then some (f (g x)) else get? j m)
get?_modified_twice j k f g x m h =
    let once : get? k (modify k g m) ≡ some (g x) =
      get?_modified k k g x m h ∙ rw (eq_self k) refl in
    get?_modified j k f (g x) (modify k g m) once ∙ ground (arith, get?_modified j k g x m h)

module _ {P : Type 0} where
  -- An agent's entry after a task, by the agent's answer and by the result of the whole call.
  abbrev pub entry_after :
      Services P
      → Result String (Task P)
      → Result String (Unit {0})
      → AgentStatusInfo
      → AgentStatusInfo
  entry_after v (ok _) _ i = record i {
    status = AgentStatus.idle;
    last_status_change = v.now;
    tasks_processed = i.tasks_processed + 1;
    last_task_completion = some v.now;
  }
  entry_after v (err e) (ok _) i = record i {
    status = AgentStatus.idle;
    last_status_change = v.now;
    tasks_failed = i.tasks_failed + 1;
    last_error = some e;
  }
  entry_after v (err e) (err _) i = record i {
    status = AgentStatus.busy;
    last_status_change = v.now;
    tasks_in_progress = i.tasks_in_progress + 1;
  }

  completed_entry :
      (v : Services P) (done : Task P) (r : Result String (Unit {0})) (id j : Uuid)
      (i : AgentStatusInfo) (s : AgentOrchestrator P)
      → get? id s.agent_statuses ≡ some i
      → get? j (handle_completed_task v done id (busy_with v id s)).agent_statuses
        ≡ (if id == j then some (entry_after v (ok done) r i) else get? j s.agent_statuses)
  unfolding handle_completed_task
  completed_entry v done r id j i s k =
      get?_modified_twice j id
        (λ x.
          record_task_completion v.now
            (decrement_tasks_in_progress (update_status v.now AgentStatus.idle x)))
        (λ x. increment_tasks_in_progress (update_status v.now AgentStatus.busy x)) i
        s.agent_statuses k
      ∙ ground arith

  statuses_failed :
      (v : Services P) (t : Task P) (e : String) (s : AgentOrchestrator P)
      → (after_failure v t e s).agent_statuses ≡ s.agent_statuses
  statuses_failed v t e s = elim (Bool-cases (can_retry t)) [
    | inl again ↦ rw again refl
    | inr over ↦ rw over refl
  ]

  failed_entry :
      (v : Services P) (t : Task P) (e : String) (id j : Uuid) (i : AgentStatusInfo)
      (s : AgentOrchestrator P)
      → get? id s.agent_statuses ≡ some i
      → get? j (handle_failed_task v t id e (busy_with v id s)).1.agent_statuses ≡ (
          if id == j
          then some (entry_after v (err e) (handle_failed_task v t id e (busy_with v id s)).0 i)
          else get? j s.agent_statuses)
  unfolding handle_failed_task
  failed_entry v t e id j i s k =
      let s' : AgentOrchestrator P = after_failure v t e (busy_with v id s) in
      let same = statuses_failed v t e (busy_with v id s) in
      elim (Result-cases (persist v s'.dead_letter_path s'.failed_tasks)) [
        | inl (_, e') ↦
            rw (e', handle_failed_task, same)
              (get?_modified_twice j id
                  (λ x.
                    record_task_failure e
                      (decrement_tasks_in_progress (update_status v.now AgentStatus.idle x)))
                  (λ x. increment_tasks_in_progress (update_status v.now AgentStatus.busy x)) i
                  s.agent_statuses k
                ∙ ground arith)
        | inr (_, e') ↦
            rw (e', handle_failed_task, same)
              (get?_modified j id
                  (λ x. increment_tasks_in_progress (update_status v.now AgentStatus.busy x)) i
                  s.agent_statuses k
                ∙ ground arith)
      ]

  -- Handing a task to an agent that is registered and has an entry changes that entry alone. If the
  -- agent completes the task, or fails it and the call returns no error, then the entry is idle again,
  -- with the tasks in progress as before and one more task processed, or failed with the error kept. If
  -- the call returns an error (the dead letter file could not be written), the entry stays busy, with
  -- one more task in progress and no failure counted.
  pub assign_task_to_agent-entry :
      (v : Services P) (t : Task P) (id j : Uuid) (a : Agent) (i : AgentStatusInfo)
      (s : AgentOrchestrator P)
      → get? id s.agents ≡ some a
      → get? id s.agent_statuses ≡ some i
      → get? j (assign_task_to_agent v t id s).1.agent_statuses ≡ (
          if id == j
          then some
              (entry_after v (v.process_task id (started id t)) (assign_task_to_agent v t id s).0 i)
          else get? j s.agent_statuses)
  unfolding assign_task_to_agent
  assign_task_to_agent-entry v t id j a i s h k =
      elim (Result-cases (v.process_task id (started id t))) [
        | inl (done, e) ↦
            rw (h, e, assign_task_to_agent) (completed_entry v done (ok tt) id j i _ k)
        | inr (x, e) ↦ rw (h, e, assign_task_to_agent) (failed_entry v (started id t) x id j i _ k)
      ]
