-- ===== src/Model/Inputs.antt =====
-- What the controllers hand to the dispatch manager: internal/common/model/generic/types.go.
use playbook_dispatcher.Common.{ℕ, String, Option, List}
use playbook_dispatcher.Model.Db.{Uuid}

pub record RunHostsInput : Type 0 where
  pub ansible_host : Option String
  pub inventory_id : Option Uuid
  pub subscription_manager_id : Option Uuid

pub record GenericRunInput : Type 0 where
  pub recipient : Uuid
  pub account : Option String
  pub url : String
  pub hosts : List RunHostsInput
  pub labels : List (String × String)
  pub timeout : Option ℕ
  pub org_id : String
  pub sat_id : Option Uuid
  pub sat_org_id : Option String
  pub name : Option String
  pub web_console_url : Option String
  pub principal : Option String

pub record CancelInput : Type 0 where
  pub run_id : Uuid
  pub org_id : String
  pub principal : String
