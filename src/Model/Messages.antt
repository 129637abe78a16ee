-- ===== src/Model/Messages.antt =====
-- The events that runners and Satellite report: internal/common/model/message. The sequence and the
-- codes are not negative in schema/rhcsatJobEvent.yaml, nor are the line numbers in
-- schema/ansibleRunnerJobEvent.yaml; a counter may be negative there.
use playbook_dispatcher.Common.{ℕ, suc, Bool, true, false, leb, String, Option}

-- `minus n` is -(n + 1).
pub data Integer : Type 0 where
  plus : ℕ → Integer
  minus : ℕ → Integer

-- `a < b` on Go's integers.
abbrev pub integer_lt : Integer → Integer → Bool
integer_lt (plus a) (plus b) = leb (suc a) b
integer_lt (plus a) (minus b) = false
integer_lt (minus a) (plus b) = true
integer_lt (minus a) (minus b) = leb (suc b) a

pub record EventData : Type 0 where
  pub crc_dispatcher_correlation_id : Option String
  pub crc_dispatcher_error_details : Option String
  pub host : Option String

pub record RunnerEvent : Type 0 where
  pub counter : Integer
  pub event : String
  pub event_data : Option EventData
  pub start_line : ℕ
  pub end_line : ℕ
  pub stdout : Option String

pub data SatEventType : Type 0 where
  playbook_run_update playbook_run_finished playbook_run_completed : SatEventType

abbrev pub is_completed_type : SatEventType → Bool
is_completed_type playbook_run_completed = true
is_completed_type _ = false

abbrev pub is_finished_type : SatEventType → Bool
is_finished_type playbook_run_finished = true
is_finished_type _ = false

pub record SatEvent : Type 0 where
  pub type : SatEventType
  pub correlation_id : String
  pub host : Option String
  pub sequence : Option ℕ
  pub console : Option String
  pub status : Option String
  pub satellite_connection_code : Option ℕ
  pub satellite_connection_error : Option String
  pub satellite_infrastructure_code : Option ℕ
  pub satellite_infrastructure_error : Option String
