-- ===== src/Tests/Data.antt =====
-- The events, runs and rows of the tests.
use playbook_dispatcher.Common.{
  ℕ, Bool, true, false, String, Option, none, some, List, [], ◌∷◌, if◌then◌else◌, ◌==◌,
}
use playbook_dispatcher.Model.{
  Uuid, RunStatus, running, success, no_events, Run, RunHost, Store, plus, RunnerEvent, SatEvent,
  SatEventType, playbook_run_update, playbook_run_finished, playbook_run_completed,
}
use playbook_dispatcher.Kafka.{
  Message, header_request_id, header_correlation_id, header_request_type,
}
use playbook_dispatcher.ResponseConsumer.Handler.Messages.{Env}

abbrev pub runner_event : ℕ → String → Option String → Option String → RunnerEvent
runner_event counter event host stdout = record {
  counter = plus counter;
  event = event;
  event_data = some (record {
    crc_dispatcher_correlation_id = some "c1";
    crc_dispatcher_error_details = none;
    host = host;
  });
  start_line = 0;
  end_line = 1;
  stdout = stdout;
}

abbrev pub start : RunnerEvent
start = runner_event 1 "executor_on_start" none none

abbrev pub failed_on_a : RunnerEvent
failed_on_a = runner_event 3 "runner_on_failed" (some "a") (some "broken")

abbrev pub ok_on_b : RunnerEvent
ok_on_b = runner_event 2 "runner_on_ok" (some "b") (some "fine")

abbrev pub stats : RunnerEvent
stats = runner_event 4 "playbook_on_stats" none (some "recap")

abbrev pub playbook_events : List RunnerEvent
playbook_events = start ∷ failed_on_a ∷ ok_on_b ∷ stats ∷ []

abbrev pub sat_event :
    SatEventType → Option String → Option ℕ → Option String → Option String → SatEvent
sat_event type host sequence console status = record {
  type = type;
  correlation_id = "c1";
  host = host;
  sequence = sequence;
  console = console;
  status = status;
  satellite_connection_code = none;
  satellite_connection_error = none;
  satellite_infrastructure_code = none;
  satellite_infrastructure_error = none;
}

abbrev pub finished_on_b : SatEvent
finished_on_b = sat_event playbook_run_finished (some "b") none none (some "success")

abbrev pub later_on_a : SatEvent
later_on_a = sat_event playbook_run_update (some "a") (some 2) (some "two") none

abbrev pub first_on_a : SatEvent
first_on_a = sat_event playbook_run_update (some "a") (some 0) (some "zero") none

abbrev pub completed : SatEvent
completed = sat_event playbook_run_completed none none none (some "failure")

abbrev pub open_events : List SatEvent
open_events = finished_on_b ∷ later_on_a ∷ first_on_a ∷ []

abbrev pub completed_events : List SatEvent
completed_events = later_on_a ∷ completed ∷ []

abbrev pub run_of : Uuid → RunStatus → Bool → Run
run_of id status response_full = record {
  id = id;
  org_id = "o1";
  service = "remediations";
  recipient = "r1";
  correlation_id = "c1";
  url = "https://example.com/playbook";
  status = status;
  labels = [];
  events = no_events;
  playbook_name = none;
  playbook_run_url = "https://example.com";
  principal = none;
  sat_id = some "s1";
  sat_org_id = some "5";
  timeout_s = 3600;
  response_full = response_full;
}

abbrev pub row_of : Uuid → Uuid → String → RunStatus → String → RunHost
row_of id run_id host status log = record {
  id = id;
  run_id = run_id;
  inventory_id = some host;
  subscription_manager_id = none;
  host = host;
  sat_sequence = none;
  status = status;
  log = log;
}

abbrev pub store : Store
store = record {
  runs = run_of "1" running false ∷ run_of "2" success true ∷ [];
  run_hosts = row_of "h1" "1" "a" running "" ∷ row_of "h2" "1" "b" success "done" ∷ [];
}

-- A decoder that knows two messages, and a database that accepts every statement or refuses the rows.
abbrev pub env_with : Option String → Env
env_with refusal = record {
  parse_uuid = λ text. some text;
  new_uuid = λ n. "new";
  unmarshal_runner = λ value.
      if value == "runner" then some (record { org_id = "o1"; events = playbook_events }) else none;
  unmarshal_sat = λ value.
      if value == "sat" then some (record { org_id = "o1"; events = open_events }) else none;
  db_fails = λ call. refusal;
}

abbrev pub message_of : String → String → Message
message_of request_type value = record {
  headers =
      (header_request_id, "q1")
      ∷ (header_correlation_id, "c1")
      ∷ (header_request_type, request_type)
      ∷ [];
  value = value;
}
