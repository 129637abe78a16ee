-- ===== src/Tests/Requests.antt =====
-- The private API on a run of Satellite, and on two inputs of which one is refused.
use playbook_dispatcher.Common.{◌≡◌, refl, String, Option, none, some, [], ◌∷◌, ok}
use playbook_dispatcher.Dispatch.{process_run}
use playbook_dispatcher.Dispatch.Totality.{Returns, process_run-Returns_satellite}
use playbook_dispatcher.Private.Inputs.{RunInputV2, validate_satellite_fields}
use playbook_dispatcher.Private.Runs.{
  Env, create_run_v2, runs_create_v2, cancel_run, invalid_request,
}
use playbook_dispatcher.Private.Validation.{runs_create_v2-refused}
use playbook_dispatcher.Private.Statuses.{
  IsCreatedOrKept, IsAskedOrRefused, create_run_v2-IsCreatedOrKept, cancel_run-IsAskedOrRefused,
}
use playbook_dispatcher.Tests.Dispatching.{env, world, run, cancel}

abbrev api : Env
api = record {
  dispatch = λ i. env;
  parse_uuid = λ text. some text;
  blocklist_org_ids = "o2";
  ean_to_org_id = λ account. ok "o1";
  psk_principal = "remediations";
}

abbrev input_with : Option String → RunInputV2
input_with sat_org_id = record {
  hosts = some run.hosts;
  labels = none;
  name = "playbook";
  org_id = "o1";
  principal = "user";
  recipient = "r1";
  recipient_config = some (record { sat_id = some "s1"; sat_org_id = sat_org_id });
  timeout = none;
  url = "https://example.com/playbook";
  web_console_url = none;
}

abbrev input : RunInputV2
input = input_with (some "5")

process_run-Returns_satellite_example : Returns (process_run env "o1" "remediations" run world).1
process_run-Returns_satellite_example =
    process_run-Returns_satellite env "o1" "remediations" run world refl refl refl refl refl

runs_create_v2-refused_example :
    (e : String) × (runs_create_v2 api (some (input ∷ input_with none ∷ [])) world
      ≡ (world, ok (invalid_request e)))
unfolding validate_satellite_fields
runs_create_v2-refused_example =
    runs_create_v2-refused api (input ∷ input_with none ∷ []) world refl

create_run_v2-IsCreatedOrKept_example :
    IsCreatedOrKept world.store (create_run_v2 api 0 input world)
create_run_v2-IsCreatedOrKept_example = create_run_v2-IsCreatedOrKept api 0 input world

cancel_run-IsAskedOrRefused_example : IsAskedOrRefused world (cancel_run api 0 cancel world)
cancel_run-IsAskedOrRefused_example = cancel_run-IsAskedOrRefused api 0 cancel world
