-- ===== src/Private/Inputs.antt =====
-- The inputs of internal/api/controllers/private/runsCreateActions.go, their validation and what is
-- made of them for the dispatch manager.
use playbook_dispatcher.Common.{
  ℕ, String, Option, none, some, List, [], ◌∷◌, map, if◌then◌else◌, is_some,
}
use playbook_dispatcher.Model.{Uuid, RunHostsInput, GenericRunInput}

pub record RecipientConfig : Type 0 where
  pub sat_id : Option String
  pub sat_org_id : Option String

pub record RunInputV2 : Type 0 where
  pub hosts : Option (List RunHostsInput)
  pub labels : Option (List (String × String))
  pub name : String
  pub org_id : String
  pub principal : String
  pub recipient : Uuid
  pub recipient_config : Option RecipientConfig
  pub timeout : Option ℕ
  pub url : String
  pub web_console_url : Option String

pub record RunInput : Type 0 where
  pub account : String
  pub hosts : Option (List RunHostsInput)
  pub labels : Option (List (String × String))
  pub recipient : Uuid
  pub timeout : Option ℕ
  pub url : String

-- `getLabels`
abbrev pub get_labels : Option (List (String × String)) → List (String × String)
get_labels none = []
get_labels (some labels) = labels

abbrev pub parse_run_host : RunHostsInput → RunHostsInput
parse_run_host host = record {
  ansible_host = host.ansible_host;
  inventory_id = host.inventory_id;
  subscription_manager_id = host.subscription_manager_id;
}

unfoldable pub parse_run_hosts : Option (List RunHostsInput) → List RunHostsInput
parse_run_hosts none = []
parse_run_hosts (some hosts) = map parse_run_host hosts

unfoldable pub run_input_v1_generic_map :
    RunInput → String → Uuid → List RunHostsInput → GenericRunInput
run_input_v1_generic_map run_input org_id parsed_recipient parsed_hosts = record {
  recipient = parsed_recipient;
  account = some run_input.account;
  url = run_input.url;
  hosts = parsed_hosts;
  labels = get_labels run_input.labels;
  timeout = run_input.timeout;
  org_id = org_id;
  sat_id = none;
  sat_org_id = none;
  name = none;
  web_console_url = none;
  principal = none;
}

abbrev pub config_sat_org_id : Option RecipientConfig → Option String
config_sat_org_id none = none
config_sat_org_id (some c) = c.sat_org_id

abbrev pub config_sat_id : Option RecipientConfig → Option String
config_sat_id none = none
config_sat_id (some c) = c.sat_id

unfoldable pub run_input_v2_generic_map :
    RunInputV2 → Uuid → List RunHostsInput → Option Uuid → GenericRunInput
run_input_v2_generic_map run_input parsed_recipient parsed_hosts parsed_sat_id = record {
  recipient = parsed_recipient;
  account = none;
  url = run_input.url;
  hosts = parsed_hosts;
  labels = get_labels run_input.labels;
  timeout = run_input.timeout;
  org_id = run_input.org_id;
  sat_id = parsed_sat_id;
  sat_org_id = config_sat_org_id run_input.recipient_config;
  name = some run_input.name;
  web_console_url = run_input.web_console_url;
  principal = some run_input.principal;
}

-- The loop of `validateSatelliteFields`.
unfoldable pub validate_inventory_ids : List RunHostsInput → Option String
validate_inventory_ids [] = none
validate_inventory_ids (h ∷ hs) =
    let rest = validate_inventory_ids hs in
    if is_some h.inventory_id then rest else some "Inventory ID needs to be defined"

abbrev pub validate_sat_hosts : Option (List RunHostsInput) → Option String
validate_sat_hosts none = some "Hosts need to be defined"
validate_sat_hosts (some []) = some "Hosts cannot be empty"
validate_sat_hosts (some (h ∷ hs)) = validate_inventory_ids (h ∷ hs)

abbrev pub validate_config :
    Option String → Option String → Option (List RunHostsInput) → Option String
validate_config none none hosts = none
validate_config none (some o) hosts = some "Both sat_id and sat_org need to be defined"
validate_config (some s) none hosts = some "Both sat_id and sat_org need to be defined"
validate_config (some s) (some o) hosts = validate_sat_hosts hosts

-- `validateSatelliteFields`; a text is its error.
unfoldable pub validate_satellite_fields : RunInputV2 → Option String
unfolding validate_inventory_ids
validate_satellite_fields run_input =
    validate_config (config_sat_id run_input.recipient_config)
      (config_sat_org_id run_input.recipient_config) run_input.hosts
