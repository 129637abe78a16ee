-- ===== src/Model/Db.antt =====
-- The rows of the database: internal/common/model/db. `RunStatus` is the enum `runs_status` of
-- migrations/001_initial.up.sql and migrations/007_alter_runs_status.up.sql.
use playbook_dispatcher.Common.{ℕ, Bool, true, false, String, Option, List}
use playbook_dispatcher.Model.Messages.{RunnerEvent, SatEvent}

abbrev pub Uuid : Type 0
Uuid = String

pub data RunStatus : Type 0 where
  running success failure timeout canceled : RunStatus

abbrev pub is_running : RunStatus → Bool
is_running running = true
is_running _ = false

abbrev pub is_failure : RunStatus → Bool
is_failure failure = true
is_failure _ = false

abbrev pub is_canceled : RunStatus → Bool
is_canceled canceled = true
is_canceled _ = false

-- `status in ('success', 'failure')`
abbrev pub is_complete : RunStatus → Bool
is_complete success = true
is_complete failure = true
is_complete _ = false

-- The column `events`: what is marshalled into it, before it is marshalled.
pub data Events : Type 0 where
  no_events : Events
  runner_events : List RunnerEvent → Events
  sat_events : List SatEvent → Events

pub record Run : Type 0 where
  pub id : Uuid
  pub org_id : String
  pub service : String
  pub recipient : Uuid
  pub correlation_id : Uuid
  pub url : String
  pub status : RunStatus
  pub labels : List (String × String)
  pub events : Events
  pub playbook_name : Option String
  pub playbook_run_url : String
  pub principal : Option String
  pub sat_id : Option Uuid
  pub sat_org_id : Option String
  pub timeout_s : ℕ
  pub response_full : Bool

pub record RunHost : Type 0 where
  pub id : Uuid
  pub run_id : Uuid
  pub inventory_id : Option Uuid
  pub subscription_manager_id : Option Uuid
  pub host : String
  pub sat_sequence : Option ℕ
  pub status : RunStatus
  pub log : String

pub record Store : Type 0 where
  pub runs : List Run
  pub run_hosts : List RunHost
