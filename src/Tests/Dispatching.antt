-- ===== src/Tests/Dispatching.antt =====
-- The dispatch manager with a database of one run of Satellite.

use playbook_dispatcher.Common.{false, none, some, [], ◌∷◌}
use playbook_dispatcher.Model.{GenericRunInput, CancelInput}
use playbook_dispatcher.Dispatch.Protocols.{Config}
use playbook_dispatcher.Dispatch.{accepted, Env, World, process_run, process_cancel}
use playbook_dispatcher.Dispatch.Runs.{IsAllOrNothing, process_run_lem}
use playbook_dispatcher.Dispatch.Requests.{IsSentOnce, process_run-sent}
use playbook_dispatcher.Dispatch.Cancel.{IsGuarded, process_cancel_lem}
use playbook_dispatcher.Tests.Data.{store}

abbrev config : Config
config = record {
  demo_mode = false;
  web_console_url_default = "https://console";
  default_run_timeout = 3600;
  return_url = "https://return";
  response_interval = "60";
  satellite_response_full = false;
}

abbrev pub env : Env
env = record {
  config = config;
  hash = λ text. "hash";
  new_uuid = λ n. "new";
  rate_limit_error = none;
  send_request = λ request. accepted "m1";
  db_fails = λ statement. none;
}

abbrev pub world : World
world = record { store = store; sent = [] }

abbrev pub run : GenericRunInput
run = record {
  recipient = "r1";
  account = none;
  url = "https://example.com/playbook";
  hosts =
      record { ansible_host = none; inventory_id = some "i1"; subscription_manager_id = some "m1" }
      ∷ record { ansible_host = some "a"; inventory_id = some "i2"; subscription_manager_id = none }
      ∷ [];
  labels = [];
  timeout = none;
  org_id = "o1";
  sat_id = some "s1";
  sat_org_id = some "5";
  name = some "playbook";
  web_console_url = some "https://console";
  principal = some "user";
}

abbrev pub cancel : CancelInput
cancel = record { run_id = "1"; org_id = "o1"; principal = "user" }

process_run_lem_example :
    IsAllOrNothing "remediations" run store (process_run env "o1" "remediations" run world)
process_run_lem_example = process_run_lem env "o1" "remediations" run world

process_run-sent_example :
    IsSentOnce env "o1" "remediations" run world (process_run env "o1" "remediations" run world)
process_run-sent_example = process_run-sent env "o1" "remediations" run world

process_cancel_lem_example : IsGuarded env "o1" cancel world (process_cancel env "o1" cancel world)
process_cancel_lem_example = process_cancel_lem env "o1" cancel world
