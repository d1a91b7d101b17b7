-- ===== src/Agents/Counts.antt =====
-- The counters of the system status (RichdaleAccounting/nexus-core/src/agents/status.rs).
use rich_aim_acct_inv.Prelude.{ℕ, ◌+◌, ◌≡◌, List, [], ◌∷◌, arith, length}
use rich_aim_acct_inv.Prelude.OrdMap.{values}
use rich_aim_acct_inv.Agents.{
  AgentStatus, AgentStatusInfo, SystemStatus, new_system_status, count_status, count_tasks,
  count_all, update_counts,
}

abbrev classed : SystemStatus → ℕ
classed s = s.active_agents + s.idle_agents + s.busy_agents + s.error_agents

-- What the agents have done between them.
abbrev pub sum_of : (AgentStatusInfo → ℕ) → List AgentStatusInfo → ℕ
sum_of f [] = 0
sum_of f (i ∷ rest) = f i + sum_of f rest

classed-count_status :
    (x : AgentStatus) (s : SystemStatus) → classed (count_status x s) ≡ classed s + 1
classed-count_status x s = ground arith

-- What `update_counts` has to count, over the entries of the agents.
pub record Counted (is : List AgentStatusInfo) (s : SystemStatus) : Type 0 where
  pub all_agents : s.active_agents + s.idle_agents + s.busy_agents + s.error_agents ≡ length is
  pub processed : s.total_tasks_processed ≡ sum_of (λ i. i.tasks_processed) is
  pub failures : s.total_tasks_failed ≡ sum_of (λ i. i.tasks_failed) is
  pub in_progress : s.total_tasks_in_progress ≡ sum_of (λ i. i.tasks_in_progress) is

classed-count_all :
    (is : List AgentStatusInfo) (s : SystemStatus)
    → classed (count_all is s) ≡ classed s + length is
unfolding count_all
classed-count_all [] s = omega arith
classed-count_all (i ∷ rest) s = omega (
  arith,
  classed-count_all rest (count_tasks i (count_status i.status s)),
  classed-count_status i.status s,
)

-- A class does not touch the tasks.
processed-count_status :
    (x : AgentStatus) (s : SystemStatus)
    → (count_status x s).total_tasks_processed ≡ s.total_tasks_processed
processed-count_status x s = ground arith

failed-count_status :
    (x : AgentStatus) (s : SystemStatus)
    → (count_status x s).total_tasks_failed ≡ s.total_tasks_failed
failed-count_status x s = ground arith

in_progress-count_status :
    (x : AgentStatus) (s : SystemStatus)
    → (count_status x s).total_tasks_in_progress ≡ s.total_tasks_in_progress
in_progress-count_status x s = ground arith

processed-count_all :
    (is : List AgentStatusInfo) (s : SystemStatus)
    → (count_all is s).total_tasks_processed
      ≡ s.total_tasks_processed + sum_of (λ i. i.tasks_processed) is
unfolding count_all
processed-count_all [] s = omega arith
processed-count_all (i ∷ rest) s = omega (
  arith,
  processed-count_all rest (count_tasks i (count_status i.status s)),
  processed-count_status i.status s,
)

failed-count_all :
    (is : List AgentStatusInfo) (s : SystemStatus)
    → (count_all is s).total_tasks_failed ≡ s.total_tasks_failed + sum_of (λ i. i.tasks_failed) is
unfolding count_all
failed-count_all [] s = omega arith
failed-count_all (i ∷ rest) s = omega (
  arith,
  failed-count_all rest (count_tasks i (count_status i.status s)),
  failed-count_status i.status s,
)

in_progress-count_all :
    (is : List AgentStatusInfo) (s : SystemStatus)
    → (count_all is s).total_tasks_in_progress
      ≡ s.total_tasks_in_progress + sum_of (λ i. i.tasks_in_progress) is
unfolding count_all
in_progress-count_all [] s = omega arith
in_progress-count_all (i ∷ rest) s = omega (
  arith,
  in_progress-count_all rest (count_tasks i (count_status i.status s)),
  in_progress-count_status i.status s,
)

-- After the counts are updated, the active, idle, busy and error agents add up to the entries that are
-- kept, and the tasks processed, failed and in progress are the sums over those entries, whatever the
-- counters held before.
update_counts-Counted : (s : SystemStatus) → Counted (values s.agent_statuses) (update_counts s)
unfolding update_counts
update_counts-Counted s =
    let is = values s.agent_statuses in
    let start : SystemStatus = record new_system_status {
      total_agents = length s.agent_statuses;
      agent_statuses = s.agent_statuses;
    } in
    record {
      all_agents = omega (arith, classed-count_all is start);
      processed = omega (arith, processed-count_all is start);
      failures = omega (arith, failed-count_all is start);
      in_progress = omega (arith, in_progress-count_all is start);
    }
