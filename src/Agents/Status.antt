-- ===== src/Agents/Status.antt =====
-- What the orchestrator keeps on each agent (RichdaleAccounting/nexus-core/src/agents/status.rs). The
-- average processing time and the health score are floats and left out.
use rich_aim_acct_inv.Prelude.{
  ℕ, ◌+◌, ◌-◌, Option, none, some, List, [], ◌∷◌, String, length, ltb, if◌then◌else◌,
}
use rich_aim_acct_inv.Prelude.OrdMap.{OrdMap, insert, values}
use rich_aim_acct_inv.Financial.{Uuid, DateTime}
use rich_aim_acct_inv.Agents.Tasks.{AgentType, AgentStatus}

pub record AgentStatusInfo : Type 0 where
  pub agent_id : Uuid
  pub agent_type : AgentType
  pub status : AgentStatus
  pub last_status_change : DateTime
  pub tasks_processed : ℕ
  pub tasks_failed : ℕ
  pub tasks_in_progress : ℕ
  pub last_error : Option String
  pub last_task_completion : Option DateTime

-- `AgentStatusInfo::new`
unfoldable pub new_status : DateTime → Uuid → AgentType → AgentStatusInfo
new_status now agent_id agent_type = record {
  agent_id = agent_id;
  agent_type = agent_type;
  status = AgentStatus.idle;
  last_status_change = now;
  tasks_processed = 0;
  tasks_failed = 0;
  tasks_in_progress = 0;
  last_error = none;
  last_task_completion = none;
}

abbrev pub update_status : DateTime → AgentStatus → AgentStatusInfo → AgentStatusInfo
update_status now s i = record i { status = s; last_status_change = now }

abbrev pub record_task_completion : DateTime → AgentStatusInfo → AgentStatusInfo
record_task_completion now i = record i {
  tasks_processed = i.tasks_processed + 1;
  last_task_completion = some now;
}

abbrev pub record_task_failure : String → AgentStatusInfo → AgentStatusInfo
record_task_failure e i = record i { tasks_failed = i.tasks_failed + 1; last_error = some e }

abbrev pub increment_tasks_in_progress : AgentStatusInfo → AgentStatusInfo
increment_tasks_in_progress i = record i { tasks_in_progress = i.tasks_in_progress + 1 }

abbrev pub decrement_tasks_in_progress : AgentStatusInfo → AgentStatusInfo
decrement_tasks_in_progress i = record i {
  tasks_in_progress =
      if ltb 0 i.tasks_in_progress then i.tasks_in_progress - 1 else i.tasks_in_progress;
}

-- `SystemStatus`, without the time, the health score and its warnings.
pub record SystemStatus : Type 0 where
  pub total_agents : ℕ
  pub active_agents : ℕ
  pub idle_agents : ℕ
  pub busy_agents : ℕ
  pub error_agents : ℕ
  pub total_tasks_processed : ℕ
  pub total_tasks_failed : ℕ
  pub total_tasks_in_progress : ℕ
  pub agent_statuses : OrdMap AgentStatusInfo

-- `SystemStatus::default`
abbrev pub new_system_status : SystemStatus
new_system_status = record {
  total_agents = 0;
  active_agents = 0;
  idle_agents = 0;
  busy_agents = 0;
  error_agents = 0;
  total_tasks_processed = 0;
  total_tasks_failed = 0;
  total_tasks_in_progress = 0;
  agent_statuses = [];
}

-- The body of the loop of `update_counts`: one agent is counted under its status, and its tasks.
abbrev pub count_status : AgentStatus → SystemStatus → SystemStatus
count_status AgentStatus.idle s = record s { idle_agents = s.idle_agents + 1 }
count_status AgentStatus.busy s = record s { busy_agents = s.busy_agents + 1 }
count_status (AgentStatus.error _) s = record s { error_agents = s.error_agents + 1 }
count_status AgentStatus.initializing s = record s { active_agents = s.active_agents + 1 }
count_status AgentStatus.shutting_down s = record s { active_agents = s.active_agents + 1 }

abbrev pub count_tasks : AgentStatusInfo → SystemStatus → SystemStatus
count_tasks i s = record s {
  total_tasks_processed = s.total_tasks_processed + i.tasks_processed;
  total_tasks_failed = s.total_tasks_failed + i.tasks_failed;
  total_tasks_in_progress = s.total_tasks_in_progress + i.tasks_in_progress;
}

unfoldable pub count_all : List AgentStatusInfo → SystemStatus → SystemStatus
count_all [] s = s
count_all (i ∷ rest) s = count_all rest (count_tasks i (count_status i.status s))

-- `update_counts`: the counters start again from zero.
unfoldable pub update_counts : SystemStatus → SystemStatus
unfolding count_all
update_counts s = count_all (values s.agent_statuses) (record new_system_status {
  total_agents = length s.agent_statuses;
  agent_statuses = s.agent_statuses;
})

unfoldable pub add_agent_status : AgentStatusInfo → SystemStatus → SystemStatus
unfolding update_counts
add_agent_status i s =
    update_counts (record s { agent_statuses = insert i.agent_id i s.agent_statuses })
