-- ===== src/Agents/Draining.antt =====
-- The processing loop ends while some agent is available, and does not while there is none
-- (RichdaleAccounting/nexus-core/src/agents/orchestrator.rs).
use rich_aim_acct_inv.Prelude.{
  ℕ, zero, suc, ◌+◌, ◌-◌, ◌<◌, ◌≡◌, refl, sym, ap, ◌∙◌, true, false, Option, some, none, List, [],
  ◌∷◌, String, inl, inr, arith, Result, ok, err, Bool-cases, Result-cases, ◌≢◌,
}
use rich_aim_acct_inv.Prelude.OrdMap.{get?}
use rich_aim_acct_inv.Financial.{Uuid}
use rich_aim_acct_inv.Agents.Order.{Unavailable}
use rich_aim_acct_inv.Agents.{
  AgentOrchestrator, Task, Services, place, sort_queue, handle_completed_task, handle_failed_task,
  process_next_task, can_retry, is_agent_available, drain, queue_is_empty, agent_is_free,
}
use rich_aim_acct_inv.Agents.Steps.{Step, started, at_work, process_next_task-Step}
use rich_aim_acct_inv.Agents.Conservation.{after_failure, handle_failed_task-state}

module _ {P : Type 0} where
  -- How often the queue's tasks can still be handed to an agent.
  abbrev pub attempts : List (Task P) → ℕ
  attempts [] = 0
  attempts (t ∷ ts) = t.max_retries - t.retry_count + 1 + attempts ts

  attempts-place : (t : Task P) (ts : List (Task P)) → attempts (place t ts) ≡ attempts (t ∷ ts)
  unfolding place
  attempts-place t [] = refl
  attempts-place t (u ∷ us) = ground (arith, attempts-place t us)

  attempts-sort_queue : (ts : List (Task P)) → attempts (sort_queue ts) ≡ attempts ts
  unfolding sort_queue
  attempts-sort_queue [] = refl
  attempts-sort_queue (t ∷ ts) =
      attempts-place t (sort_queue ts) ∙ ground (arith, attempts-sort_queue ts)

  attempts_pos : (ts : List (Task P)) → queue_is_empty ts ≡ false → 0 < attempts ts
  attempts_pos [] h = ground arith
  attempts_pos (t ∷ ts) h = omega arith

  attempts_failed :
      (v : Services P) (t : Task P) (e : String) (s : AgentOrchestrator P)
      → attempts (after_failure v t e s).task_queue < attempts (t ∷ s.task_queue)
  attempts_failed v t e s = elim (Bool-cases (can_retry t)) [
    | inl again ↦
        let lt : t.retry_count < t.max_retries = ground arith in rw again (omega (arith, lt))
    | inr over ↦ rw over (omega arith)
  ]

  agents_failed :
      (v : Services P) (t : Task P) (e : String) (s : AgentOrchestrator P)
      → (after_failure v t e s).agents ≡ s.agents
  agents_failed v t e s = elim (Bool-cases (can_retry t)) [
    | inl again ↦ rw again refl
    | inr over ↦ rw over refl
  ]

  -- A step of the loop: fewer attempts are left, unless the queue is empty, and the agents are the same.
  abbrev Advanced : AgentOrchestrator P → AgentOrchestrator P → Type 0
  Advanced s s' = (attempts s'.task_queue < attempts s.task_queue) × (s'.agents ≡ s.agents)

  Step-Advanced :
      (v : Services P) (s : AgentOrchestrator P)
      (o : Result String (Unit {0}) × AgentOrchestrator P) (a : Uuid)
      → is_agent_available a s ≡ true
      → queue_is_empty s.task_queue ≡ false
      → Step P v s o
      → Advanced s o.1
  unfolding handle_completed_task
  Step-Advanced v s _ a free more (Step.nothing q) = (attempts_pos s.task_queue more, refl)
  Step-Advanced v s _ a free more (Step.waiting t rest q k) = let taken = k a in ground arith
  Step-Advanced v s _ a free more (Step.completed t done rest id q k e) =
      let before : attempts s.task_queue ≡ attempts (t ∷ rest) =
        sym (attempts-sort_queue s.task_queue) ∙ ap attempts q in
      (omega (arith, before), refl)
  Step-Advanced v s _ a free more (Step.failed t rest id x q k e) =
      let before : attempts s.task_queue ≡ attempts (t ∷ rest) =
        sym (attempts-sort_queue s.task_queue) ∙ ap attempts q in
      let state = handle_failed_task-state v (started id t) id x (at_work v id t rest s) in
      let fewer = attempts_failed v (started id t) x (at_work v id t rest s) in
      let same = ap (λ s'. attempts s'.task_queue) state in
      (
        omega (arith, before, fewer, same),
        ap (λ s'. s'.agents) state ∙ agents_failed v (started id t) x (at_work v id t rest s),
      )

  same_agents :
      (a : Uuid) (s s' : AgentOrchestrator P)
      → s'.agents ≡ s.agents
      → is_agent_available a s' ≡ is_agent_available a s
  unfolding is_agent_available
  same_agents a s s' h = ap (λ m. agent_is_free (get? a m)) h

  -- Only the dead letter file makes a call fail.
  failure_path :
      (v : Services P) (t : Task P) (id : Uuid) (e x : String) (s : AgentOrchestrator P)
      → (handle_failed_task v t id e s).0 ≡ err x
      → (handle_failed_task v t id e s).1.dead_letter_path ≢ none
  unfolding handle_failed_task
  failure_path v t id e x s h = ground arith

  Step-path :
      (v : Services P) (s : AgentOrchestrator P)
      (o : Result String (Unit {0}) × AgentOrchestrator P) (x : String)
      → Step P v s o
      → o.0 ≡ err x
      → o.1.dead_letter_path ≢ none
  Step-path v s _ x (Step.nothing q) h = ground arith
  Step-path v s _ x (Step.waiting t rest q k) h = ground arith
  Step-path v s _ x (Step.completed t done rest id q k e) h = ground arith
  Step-path v s _ x (Step.failed t rest id y q k e) h =
      failure_path v (started id t) id y x (at_work v id t rest s) h

  -- The loop has come to its end: the queue is empty, or the dead letter file could not be written.
  abbrev pub Ended : Option (Result String (Unit {0}) × AgentOrchestrator P) → Type 0
  Ended none = ⊥
  Ended (some (ok _, s)) = s.task_queue ≡ []
  Ended (some (err _, s)) = s.dead_letter_path ≢ none

  empty_queue : (ts : List (Task P)) → queue_is_empty ts ≡ true → ts ≡ []
  empty_queue [] h = refl
  empty_queue (t ∷ ts) h = ground arith

  -- While some agent is enabled and idle, the loop that empties the queue ends within one round for each
  -- attempt that the queued tasks have left, and one more: with the queue empty, or else with an error
  -- and a dead letter file configured.
  pub drain_ends :
      (fuel : ℕ) (v : Services P) (s : AgentOrchestrator P) (a : Uuid)
      → is_agent_available a s ≡ true
      → attempts s.task_queue < fuel
      → Ended (drain fuel v s)
  unfolding drain
  drain_ends zero v s a free enough = ground arith
  drain_ends (suc fuel) v s a free enough = elim (Bool-cases (queue_is_empty s.task_queue)) [
    | inl done ↦ rw (done, drain) (empty_queue s.task_queue done)
    | inr more ↦
        let step = process_next_task-Step v s in
        let next = Step-Advanced v s (process_next_task v s) a free more step in
        elim (Result-cases ((process_next_task v s).0)) [
          | inl (_, e) ↦
              rw (more, e, drain)
                (drain_ends fuel v (process_next_task v s).1 a
                  (same_agents a s (process_next_task v s).1 next.1 ∙ free)
                  (omega (arith, next.0, enough)))
          | inr (x, e) ↦ rw (more, e, drain) (Step-path v s (process_next_task v s) x step e)
        ]
  ]

  -- A queue that is not empty stays so, behind the same agents, when nobody is available.
  abbrev Stuck : AgentOrchestrator P → Result String (Unit {0}) × AgentOrchestrator P → Type 0
  Stuck s o = (o.0 ≡ ok tt) × ((o.1.agents ≡ s.agents) × (queue_is_empty o.1.task_queue ≡ false))

  nonempty_sorted : (ts : List (Task P)) → queue_is_empty ts ≡ false → sort_queue ts ≢ []
  nonempty_sorted ts h q =
      let none_left : attempts ts ≡ 0 = sym (attempts-sort_queue ts) ∙ ap attempts q in
      omega (arith, attempts_pos ts h, none_left)

  Step-Stuck :
      (v : Services P) (s : AgentOrchestrator P)
      (o : Result String (Unit {0}) × AgentOrchestrator P)
      → ((a : Uuid) → Unavailable s a)
      → queue_is_empty s.task_queue ≡ false
      → Step P v s o
      → Stuck s o
  Step-Stuck v s _ nobody more (Step.nothing q) = elim (nonempty_sorted s.task_queue more q) [ ]
  Step-Stuck v s _ nobody more (Step.waiting t rest q k) = (refl, (refl, refl))
  Step-Stuck v s _ nobody more (Step.completed t done rest id q k e) =
      let taken = nobody id in ground arith
  Step-Stuck v s _ nobody more (Step.failed t rest id x q k e) =
      let taken = nobody id in ground arith

  -- While no agent is available and some task is queued, the loop that empties the queue never ends: no
  -- number of rounds is enough.
  pub drain_starves :
      (fuel : ℕ) (v : Services P) (s : AgentOrchestrator P)
      → ((a : Uuid) → Unavailable s a)
      → queue_is_empty s.task_queue ≡ false
      → drain fuel v s ≡ none
  unfolding drain
  drain_starves zero v s nobody more = refl
  drain_starves (suc fuel) v s nobody more =
      let next = Step-Stuck v s (process_next_task v s) nobody more (process_next_task-Step v s) in
      rw (more, next.0, drain)
        (drain_starves fuel v (process_next_task v s).1
          (λ a. same_agents a s (process_next_task v s).1 next.1.0 ∙ nobody a) next.1.1)
