-- ===== src/Agents/Conservation.antt =====
-- No task is lost or doubled by the dispatch (RichdaleAccounting/nexus-core/src/agents/orchestrator.rs).
use rich_aim_acct_inv.Prelude.{
  ℕ, ◌+◌, ◌≡◌, ◌==◌, refl, ◌∙◌, List, [], ◌∷◌, ◌++◌, String, inl, inr, arith, filter, length,
  Result-cases, sym, ok, Bool-cases, ap, eq_self, Result,
}
use rich_aim_acct_inv.Prelude.OrdMap.{remove, insert}
use rich_aim_acct_inv.Financial.{Uuid}
use rich_aim_acct_inv.Agents.Steps.{at_work, Step, started, process_next_task-Step}
use rich_aim_acct_inv.Agents.{
  AgentOrchestrator, Task, TaskStatus, Services, place, sort_queue, handle_failed_task, requeue,
  persist, handle_completed_task, can_retry, process_next_task,
}

remove-insert_nil : {V : Type 0} (k : ℕ) (x : V) → remove k (insert k x []) ≡ []
unfolding remove insert
remove-insert_nil k x = rw (eq_self k) refl

module _ {P : Type 0} where
  abbrev pub count : Uuid → List (Task P) → ℕ
  count k ts = length (filter (λ t. t.id == k) ts)

  -- How often a task's id stands in the queue and among the tasks that are over.
  abbrev pub tracked : Uuid → AgentOrchestrator P → ℕ
  tracked k s = count k s.task_queue + count k s.completed_tasks + count k s.failed_tasks

  count-place :
      (k : Uuid) (t : Task P) (ts : List (Task P)) → count k (place t ts) ≡ count k (t ∷ ts)
  unfolding place
  count-place k t [] = refl
  count-place k t (u ∷ us) = ground (arith, count-place k t us)

  count-sort_queue : (k : Uuid) (ts : List (Task P)) → count k (sort_queue ts) ≡ count k ts
  unfolding sort_queue
  count-sort_queue k [] = refl
  count-sort_queue k (t ∷ ts) =
      count-place k t (sort_queue ts) ∙ ground (arith, count-sort_queue k ts)

  count-append :
      (k : Uuid) (ts : List (Task P)) (t : Task P)
      → count k (ts ++ t ∷ []) ≡ count k ts + count k (t ∷ [])
  count-append k [] t = omega arith
  count-append k (u ∷ us) t = ground (arith, count-append k us t)

  -- A failed task's state before the dead letter file is written.
  abbrev pub after_failure :
      Services P → Task P → String → AgentOrchestrator P → AgentOrchestrator P
  after_failure v t e s =
      requeue v (record t { status = TaskStatus.failed e })
        (record s { in_progress_tasks = remove t.id s.in_progress_tasks })

  -- Whatever becomes of the dead letter file, only the agents' statuses differ.
  pub handle_failed_task-state :
      (v : Services P) (t : Task P) (id : Uuid) (e : String) (s : AgentOrchestrator P)
      → (handle_failed_task v t id e s).1 ≡ record (after_failure v t e s) {
        agent_statuses = (handle_failed_task v t id e s).1.agent_statuses;
      }
  unfolding handle_failed_task
  handle_failed_task-state v t id e s =
      let s' : AgentOrchestrator P = after_failure v t e s in
      elim (Result-cases (persist v s'.dead_letter_path s'.failed_tasks)) [
        | inl (_, e') ↦ rw (e', handle_failed_task) refl
        | inr (_, e') ↦ rw (e', handle_failed_task) refl
      ]

  abbrev pub Settled : AgentOrchestrator P → Type 0
  Settled s = s.in_progress_tasks ≡ []

  -- The agents give back the task that they got: its id, at least.
  abbrev pub KeepsIds : Services P → Type 0
  KeepsIds v = (id : Uuid) (t done : Task P) → v.process_task id t ≡ ok done → done.id ≡ t.id

  tracked-at_work :
      (k : Uuid) (v : Services P) (s : AgentOrchestrator P) (t : Task P) (rest : List (Task P))
      (id : Uuid)
      → sort_queue s.task_queue ≡ t ∷ rest
      → tracked k (at_work v id t rest s) + count k (t ∷ []) ≡ tracked k s
  tracked-at_work k v s t rest id q =
      let e : count k s.task_queue ≡ count k (t ∷ rest) =
        sym (count-sort_queue k s.task_queue) ∙ ap (count k) q in
      ground arith

  tracked_completed :
      (k : Uuid) (v : Services P) (done : Task P) (id : Uuid) (s : AgentOrchestrator P)
      → tracked k (handle_completed_task v done id s) ≡ tracked k s + count k (done ∷ [])
  unfolding handle_completed_task
  tracked_completed k v done id s = omega (arith, count-append k s.completed_tasks done)

  tracked_failed :
      (k : Uuid) (v : Services P) (t : Task P) (e : String) (s : AgentOrchestrator P)
      → tracked k (after_failure v t e s) ≡ tracked k s + count k (t ∷ [])
  tracked_failed k v t e s = elim (Bool-cases (can_retry t)) [
    | inl again ↦ ground arith
    | inr over ↦
        let c = count-append k s.failed_tasks (record t { status = TaskStatus.failed e }) in
        ground arith
  ]

  in_progress_failed :
      (v : Services P) (t : Task P) (e : String) (s : AgentOrchestrator P)
      → (after_failure v t e s).in_progress_tasks ≡ remove t.id s.in_progress_tasks
  in_progress_failed v t e s = elim (Bool-cases (can_retry t)) [
    | inl again ↦ rw again refl
    | inr over ↦ rw over refl
  ]

  abbrev pub Kept : Uuid → AgentOrchestrator P → AgentOrchestrator P → Type 0
  Kept k s s' = (tracked k s' ≡ tracked k s) × Settled s'

  Step-Kept :
      (k : Uuid) (v : Services P) (s : AgentOrchestrator P)
      (o : Result String (Unit {0}) × AgentOrchestrator P)
      → KeepsIds v
      → Settled s
      → Step P v s o
      → Kept k s o.1
  unfolding handle_completed_task
  Step-Kept k v s _ ids settled (Step.nothing q) =
      let e : count k s.task_queue ≡ count k [] =
        sym (count-sort_queue k s.task_queue) ∙ ap (count k) q in
      (ground arith, settled)
  Step-Kept k v s _ ids settled (Step.waiting t rest q h) =
      let e : count k s.task_queue ≡ count k (t ∷ rest) =
        sym (count-sort_queue k s.task_queue) ∙ ap (count k) q in
      (ground arith, settled)
  Step-Kept k v s _ ids settled (Step.completed t done rest id q h e) =
      let same : done.id ≡ t.id = ids id (started id t) done e in
      let before = tracked-at_work k v s t rest id q in
      let after = tracked_completed k v done id (at_work v id t rest s) in
      (
        ground arith,
        rw (handle_completed_task, settled, same, remove-insert_nil t.id (started id t)) refl,
      )
  Step-Kept k v s _ ids settled (Step.failed t rest id x q h e) =
      let before = tracked-at_work k v s t rest id q in
      let after = tracked_failed k v (started id t) x (at_work v id t rest s) in
      let state = handle_failed_task-state v (started id t) id x (at_work v id t rest s) in
      (
        ap (tracked k) state ∙ ground arith,
        ap (λ s'. s'.in_progress_tasks) state
            ∙ in_progress_failed v (started id t) x (at_work v id t rest s)
            ∙ rw settled (remove-insert_nil t.id (started id t)),
      )

  -- From a state with nothing in progress, and with agents that keep the ids of their tasks, processing
  -- the next task leaves each id in the queue and among the completed and failed tasks as often, in
  -- all, as before, and leaves nothing in progress.
  pub process_next_task_conserves :
      (k : Uuid) (v : Services P) (s : AgentOrchestrator P)
      → KeepsIds v
      → Settled s
      → Kept k s (process_next_task v s).1
  process_next_task_conserves k v s ids settled =
      Step-Kept k v s (process_next_task v s) ids settled (process_next_task-Step v s)
