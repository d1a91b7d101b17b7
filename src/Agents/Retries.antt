-- ===== src/Agents/Retries.antt =====
-- The retries of a failing task are bounded, and so is the processing loop
-- (RichdaleAccounting/nexus-core/src/agents/task.rs and orchestrator.rs).
use rich_aim_acct_inv.Prelude.{
  ◌+◌, ◌≤◌, ◌≡◌, sym, ap, List, [], ◌∷◌, String, inl, inr, arith, Result, All, All-append,
  Bool-cases,
}
use mathlib.Core.Path.{subst}
use rich_aim_acct_inv.Agents.{
  AgentOrchestrator, Task, TaskStatus, Services, sort_queue, handle_completed_task,
  process_next_task, can_retry,
}
use rich_aim_acct_inv.Agents.Order.{sort_queue-All}
use rich_aim_acct_inv.Agents.Steps.{Step, started, at_work, process_next_task-Step}
use rich_aim_acct_inv.Agents.Conservation.{after_failure, handle_failed_task-state}

module _ {P : Type 0} where
  abbrev pub WithinRetries : Task P → Type 0
  WithinRetries t = t.retry_count ≤ t.max_retries

  abbrev pub OutOfRetries : Task P → Type 0
  OutOfRetries t = t.retry_count ≡ t.max_retries

  abbrev pub RetriesValid : AgentOrchestrator P → Type 0
  RetriesValid s = All WithinRetries s.task_queue × All OutOfRetries s.failed_tasks

  failed-RetriesValid :
      (v : Services P) (t : Task P) (e : String) (s : AgentOrchestrator P)
      → WithinRetries t
      → RetriesValid s
      → RetriesValid (after_failure v t e s)
  failed-RetriesValid v t e s h k = elim (Bool-cases (can_retry t)) [
    | inl again ↦
        let lt : t.retry_count + 1 ≤ t.max_retries = ground arith in rw again ((lt, k.0), k.1)
    | inr over ↦
        let out : t.retry_count ≡ t.max_retries = ground arith in
        rw over (
          k.0,
          All-append OutOfRetries s.failed_tasks (record t { status = TaskStatus.failed e } ∷ [])
              k.1 (out, tt),
        )
  ]

  sorted-WithinRetries :
      (s : AgentOrchestrator P) (ts : List (Task P))
      → RetriesValid s
      → sort_queue s.task_queue ≡ ts
      → All WithinRetries ts
  sorted-WithinRetries s ts h q =
      subst (All WithinRetries) q (sort_queue-All WithinRetries s.task_queue h.0)

  Step-RetriesValid :
      (v : Services P) (s : AgentOrchestrator P)
      (o : Result String (Unit {0}) × AgentOrchestrator P)
      → RetriesValid s
      → Step P v s o
      → RetriesValid o.1
  unfolding handle_completed_task
  Step-RetriesValid v s _ h (Step.nothing q) = (tt, h.1)
  Step-RetriesValid v s _ h (Step.waiting t rest q k) = (sorted-WithinRetries s (t ∷ rest) h q, h.1)
  Step-RetriesValid v s _ h (Step.completed t done rest id q k e) =
      ((sorted-WithinRetries s (t ∷ rest) h q).1, h.1)
  Step-RetriesValid v s _ h (Step.failed t rest id x q k e) =
      let sorted = sorted-WithinRetries s (t ∷ rest) h q in
      let state = handle_failed_task-state v (started id t) id x (at_work v id t rest s) in
      let valid : RetriesValid (after_failure v (started id t) x (at_work v id t rest s)) =
        failed-RetriesValid v (started id t) x (at_work v id t rest s) sorted.0 (sorted.1, h.1) in
      (
        subst (All WithinRetries) (sym (ap (λ s'. s'.task_queue) state)) valid.0,
        subst (All OutOfRetries) (sym (ap (λ s'. s'.failed_tasks) state)) valid.1,
      )

  -- If no queued task has been retried more often than it may be, and the failed tasks have used up all
  -- their retries, then both still hold after the next task is processed, whatever the agents answer.
  pub process_next_task-RetriesValid :
      (v : Services P) (s : AgentOrchestrator P)
      → RetriesValid s
      → RetriesValid (process_next_task v s).1
  process_next_task-RetriesValid v s h =
      Step-RetriesValid v s (process_next_task v s) h (process_next_task-Step v s)
