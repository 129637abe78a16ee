-- ===== src/Dispatch/Protocols.antt =====
-- The protocols of internal/api/dispatch/protocols: what a worker is told. A metadata dictionary is an
-- association list; `hash` is the hexadecimal SHA-256 of a text.
pub mod Metadata
use playbook_dispatcher.Common.{
  ℕ, Bool, true, false, String, Option, none, some, List, [], ◌∷◌, concat, insert, Result, ok, err,
  ◌>>=◌, Fault, deref,
}
use playbook_dispatcher.Model.{Uuid, RunHostsInput, GenericRunInput, CancelInput}

pub record Config : Type 0 where
  pub demo_mode : Bool
  pub web_console_url_default : String
  pub default_run_timeout : ℕ
  pub return_url : String
  pub response_interval : String
  pub satellite_response_full : Bool

pub data Protocol : Type 0 where
  runner_protocol satellite_protocol : Protocol

abbrev pub Metadata : Type 0
Metadata = List (String × String)

unfoldable pub get_directive : Protocol → String
get_directive runner_protocol = "rhc-worker-playbook"
get_directive satellite_protocol = "foreman_rh_cloud"

unfoldable pub get_response_full : Config → Protocol → Bool
get_response_full cfg runner_protocol = true
get_response_full cfg satellite_protocol = cfg.satellite_response_full

-- `strings.Join(texts, ",")`
abbrev pub join_rest : List String → String
join_rest [] = ""
join_rest (x ∷ xs) = concat "," (concat x (join_rest xs))

abbrev pub join : List String → String
join [] = ""
join (x ∷ xs) = concat x (join_rest xs)

-- `getHostsLine`
unfoldable pub inventory_ids : List RunHostsInput → Result Fault (List String)
inventory_ids [] = ok []
inventory_ids (h ∷ hs) = do id ← deref h.inventory_id; ids ← inventory_ids hs; ok (id ∷ ids)

unfoldable pub get_hosts_line : GenericRunInput → Result Fault String
unfolding inventory_ids
get_hosts_line run_input = inventory_ids run_input.hosts >>= λ ids. ok (join ids)

-- `submanIdsAsString`: the ids that are there, which are never the empty text.
unfoldable pub subman_ids : List RunHostsInput → List String
subman_ids [] = []
subman_ids (h ∷ hs) =
    let rest = subman_ids hs in elim h.subscription_manager_id [ none ↦ rest | some id ↦ id ∷ rest ]

-- The key is written where the joined text is not empty.
abbrev pub insert_subman_ids : List String → Metadata → Metadata
insert_subman_ids [] metadata = metadata
insert_subman_ids (id ∷ ids) metadata = insert "subscription_manager_ids" (join (id ∷ ids)) metadata

unfoldable pub build_common_signal : Config → Metadata
build_common_signal cfg =
    ("return_url", cfg.return_url) ∷ ("response_interval", cfg.response_interval) ∷ []

-- `strconv.FormatBool`
abbrev pub format_bool : Bool → String
format_bool true = "true"
format_bool false = "false"

unfoldable pub runner_meta_data : GenericRunInput → Uuid → Config → Metadata
unfolding build_common_signal insert
runner_meta_data run_input correlation_id cfg =
    insert "crc_dispatcher_correlation_id" correlation_id (build_common_signal cfg)

module _ (hash : String → String) where
  unfoldable pub satellite_meta_data : GenericRunInput → Uuid → Config → Result Fault Metadata
  unfolding get_hosts_line subman_ids build_common_signal get_response_full insert
  satellite_meta_data run_input correlation_id cfg = do
    hosts ← get_hosts_line run_input
    principal ← deref run_input.principal
    name ← deref run_input.name
    url ← deref run_input.web_console_url
    sat_id ← deref run_input.sat_id
    sat_org_id ← deref run_input.sat_org_id
    ok (
        insert "response_full" (format_bool (get_response_full cfg satellite_protocol)) (
          insert_subman_ids (subman_ids run_input.hosts) (
            insert "hosts" hosts (
              insert "initiator_user_id" (hash principal) (
                insert "sat_org_id" sat_org_id (
                  insert "sat_id" sat_id (
                    insert "playbook_run_url" url (
                      insert "playbook_run_name" name (
                        insert "correlation_id" correlation_id
                          (insert "operation" "run" (build_common_signal cfg)))))))))))

  unfoldable pub build_meta_data :
      Protocol → GenericRunInput → Uuid → Config → Result Fault Metadata
  unfolding runner_meta_data satellite_meta_data
  build_meta_data runner_protocol run_input correlation_id cfg =
      ok (runner_meta_data run_input correlation_id cfg)
  build_meta_data satellite_protocol run_input correlation_id cfg =
      satellite_meta_data run_input correlation_id cfg

  unfoldable pub build_cancel_meta_data : CancelInput → Uuid → Metadata
  build_cancel_meta_data cancel_input correlation_id =
      ("operation", "cancel")
      ∷ ("correlation_id", correlation_id)
      ∷ ("initiator_user_id", hash cancel_input.principal)
      ∷ []
