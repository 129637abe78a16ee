-- ===== src/Dispatch.antt =====
-- The dispatch manager: internal/api/dispatch/impl.go and db.go.
--
-- `World` is the database and the requests that were given to Cloud Connector, the latest last. What
-- Cloud Connector and the rate limiter answer, the refusals of the database and the new uuids are
-- what `Env` holds.
pub mod Protocols
pub mod Runs
pub mod Cancel
pub mod Requests
pub mod Totality
use playbook_dispatcher.Common.{
  ℕ, suc, Bool, true, false, ◌||◌, not, String, Option, none, some, List, [], ◌∷◌, ◌++◌,
  if◌then◌else◌, ◌==◌, is_some, Result, ok, err, ◌>>=◌, Fault, deref,
}
use playbook_dispatcher.Model.{
  Uuid, running, is_running, no_events, Run, RunHost, Store, RunHostsInput, GenericRunInput,
  CancelInput,
}
use playbook_dispatcher.Dispatch.Protocols.{
  Config, Protocol, runner_protocol, satellite_protocol, Metadata, get_directive, get_response_full,
  build_meta_data, build_cancel_meta_data,
}

pub record CloudRequest : Type 0 where
  pub org_id : String
  pub recipient : Uuid
  pub url : String
  pub directive : String
  pub metadata : Metadata

pub data CloudAnswer : Type 0 where
  accepted : String → CloudAnswer
  not_found : CloudAnswer
  request_error : String → CloudAnswer

pub data Statement : Type 0 where
  select_run create_run create_hosts : Statement

pub record Env : Type 0 where
  pub config : Config
  pub hash : String → String
  pub new_uuid : ℕ → Uuid
  pub rate_limit_error : Option String
  pub send_request : CloudRequest → CloudAnswer
  pub db_fails : Statement → Option String

pub record World : Type 0 where
  pub store : Store
  pub sent : List CloudRequest

pub data DispatchError : Type 0 where
  rate_limited connector_failed db_failed : String → DispatchError
  recipient_not_found : Uuid → DispatchError
  run_not_found run_org_id_mismatch run_cancel_type run_cancel_not_cancelable : Uuid → DispatchError

-- What `ProcessRun` and `ProcessCancel` return.
pub record Reply : Type 0 where
  pub run_id : Uuid
  pub correlation_id : Uuid
  pub error : Option DispatchError

abbrev pub nil_uuid : Uuid
nil_uuid = "00000000-0000-0000-0000-000000000000"

unfoldable pub new_correlation_id : Env → Uuid
new_correlation_id env = if env.config.demo_mode then nil_uuid else env.new_uuid 0

abbrev pub or_default {ℓ} : {A : Type ℓ} → Option A → A → A
or_default none a = a
or_default (some b) a = b

unfoldable pub apply_defaults : Config → GenericRunInput → GenericRunInput
apply_defaults cfg run = record run {
  web_console_url = some (or_default run.web_console_url cfg.web_console_url_default);
  timeout = some (or_default run.timeout cfg.default_run_timeout);
}

unfoldable pub get_protocol : GenericRunInput → Protocol
get_protocol run_input = if is_some run_input.sat_id then satellite_protocol else runner_protocol

-- `default:unknown` of a column: gorm stores it for the empty text.
unfoldable pub column_default : String → String
column_default text = if text == "" then "unknown" else text

-- `newRun`, with the id it makes and the defaults with which it is stored.
unfoldable pub new_run : Uuid → GenericRunInput → Uuid → Bool → String → Result Fault Run
unfolding column_default
new_run id input correlation_id response_full service = do
  timeout ← deref input.timeout
  url ← deref input.web_console_url
  ok (record {
    id = id;
    org_id = column_default input.org_id;
    service = column_default service;
    recipient = input.recipient;
    correlation_id = correlation_id;
    url = input.url;
    status = running;
    labels = input.labels;
    events = no_events;
    playbook_name = input.name;
    playbook_run_url = url;
    principal = input.principal;
    sat_id = input.sat_id;
    sat_org_id = input.sat_org_id;
    timeout_s = timeout;
    response_full = response_full;
  })

abbrev pub host_name : RunHostsInput → Result Fault String
host_name input_host = elim input_host.ansible_host [
  | none ↦ deref input_host.inventory_id
  | some host ↦ ok host
]

-- `newHostRun`; `n` counts the uuids that are made.
module _ (env : Env) where
  unfoldable pub new_host_run : ℕ → List RunHostsInput → Uuid → Result Fault (List RunHost)
  new_host_run n [] entity_id = ok []
  new_host_run n (h ∷ hs) entity_id = do
    host ← host_name h
    hosts ← new_host_run (suc n) hs entity_id
    ok (
        record {
          id = env.new_uuid n;
          run_id = entity_id;
          inventory_id = h.inventory_id;
          subscription_manager_id = h.subscription_manager_id;
          host = host;
          sat_sequence = none;
          status = running;
          log = "";
        }
        ∷ hosts)

  abbrev pub executed : Statement → Option DispatchError
  executed statement = elim (env.db_fails statement) [ none ↦ none | some e ↦ some (db_failed e) ]

  -- The transaction: the store it commits, or its error.
  abbrev pub insert_hosts : Option DispatchError → Store → List RunHost → Result DispatchError Store
  insert_hosts (some e) store hosts = err e
  insert_hosts none store hosts = ok (record store { run_hosts = store.run_hosts ++ hosts })

  abbrev pub create_run_hosts :
      Store → Run → List RunHostsInput → Result Fault (Result DispatchError Store)
  create_run_hosts store entity [] = ok (ok store)
  create_run_hosts store entity (h ∷ hs) = new_host_run 2 (h ∷ hs) entity.id >>= λ hosts.
      ok (insert_hosts (executed create_hosts) store hosts)

  abbrev pub create_entity :
      Option DispatchError
      → Store
      → Run
      → List RunHostsInput
      → Result Fault (Result DispatchError Store)
  create_entity (some e) store entity hosts = ok (err e)
  create_entity none store entity hosts =
      create_run_hosts (record store { runs = store.runs ++ entity ∷ [] }) entity hosts

  abbrev pub committed : World → Run → Result DispatchError Store → World × Result Fault Reply
  committed w entity (err e) = (
    w,
    ok (record { run_id = entity.id; correlation_id = entity.correlation_id; error = some e }),
  )
  committed w entity (ok store) = (
    record w { store = store },
    ok (record { run_id = entity.id; correlation_id = entity.correlation_id; error = none }),
  )

  abbrev pub panics_or {ℓ} :
      {A : Type ℓ}
      → World
      → Result Fault A
      → (A → World × Result Fault Reply)
      → World × Result Fault Reply
  panics_or w (err f) k = (w, err f)
  panics_or w (ok a) k = k a

  abbrev pub refused : World → Uuid → DispatchError → World × Result Fault Reply
  refused w correlation_id e =
      (w, ok (record { run_id = nil_uuid; correlation_id = correlation_id; error = some e }))

  -- `ProcessRun` from the answer of Cloud Connector on.
  unfoldable pub save_run :
      World → String → GenericRunInput → Uuid → CloudAnswer → World × Result Fault Reply
  unfolding new_run
  save_run w service run correlation_id (request_error e) =
      refused w correlation_id (connector_failed e)
  save_run w service run correlation_id not_found =
      refused w correlation_id (recipient_not_found run.recipient)
  save_run w service run correlation_id (accepted message_id) =
      panics_or w
        (new_run (env.new_uuid 1) run correlation_id
          (get_response_full env.config (get_protocol run)) service)
        (λ entity.
          panics_or w (create_entity (executed create_run) w.store entity run.hosts)
            (committed w entity))

  abbrev pub send : CloudRequest → World → World
  send request w = record w { sent = w.sent ++ request ∷ [] }

  abbrev pub run_request : String → GenericRunInput → Metadata → CloudRequest
  run_request org_id run metadata = record {
    org_id = org_id;
    recipient = run.recipient;
    url = run.url;
    directive = get_directive (get_protocol run);
    metadata = metadata;
  }

  -- `ProcessRun` from the rate limiter on.
  abbrev pub dispatch_run :
      String
      → String
      → GenericRunInput
      → Uuid
      → World
      → Option String
      → Metadata
      → World × Result Fault Reply
  dispatch_run org_id service run correlation_id w (some e) metadata =
      refused w correlation_id (rate_limited e)
  dispatch_run org_id service run correlation_id w none metadata =
      save_run (send (run_request org_id run metadata) w) service run correlation_id
        (env.send_request (run_request org_id run metadata))

  unfoldable pub process_run :
      String → String → GenericRunInput → World → World × Result Fault Reply
  unfolding apply_defaults get_protocol build_meta_data save_run new_correlation_id
  process_run org_id service run w =
      let run' = apply_defaults env.config run in
      let correlation_id = new_correlation_id env in
      panics_or w (build_meta_data env.hash (get_protocol run') run' correlation_id env.config)
        (dispatch_run org_id service run' correlation_id w env.rate_limit_error)

  -- `dm.db.First(&run, cancel.RunId)`
  unfoldable pub find_run : Uuid → List Run → Option Run
  find_run id [] = none
  find_run id (r ∷ rs) = let rest = find_run id rs in if r.id == id then some r else rest

  abbrev pub select_first : Option String → Uuid → List Run → Option Run
  select_first (some e) id runs = none
  select_first none id runs = find_run id runs

  abbrev pub cancel_request : String → Run → CancelInput → CloudRequest
  cancel_request org_id run cancel = record {
    org_id = org_id;
    recipient = run.recipient;
    url = "";
    directive = get_directive satellite_protocol;
    metadata = build_cancel_meta_data env.hash cancel run.correlation_id;
  }

  abbrev pub cancel_answer : World → Run → CancelInput → CloudAnswer → World × Result Fault Reply
  cancel_answer w run cancel (request_error e) = refused w run.correlation_id (connector_failed e)
  cancel_answer w run cancel not_found =
      refused w run.correlation_id (recipient_not_found run.recipient)
  cancel_answer w run cancel (accepted message_id) =
      (w, ok (record { run_id = cancel.run_id; correlation_id = run.correlation_id; error = none }))

  -- The rate limiter's error comes with the correlation id that is not set yet.
  abbrev pub send_cancel :
      String → Run → CancelInput → World → Option String → World × Result Fault Reply
  send_cancel org_id run cancel w (some e) = refused w nil_uuid (rate_limited e)
  send_cancel org_id run cancel w none =
      cancel_answer (send (cancel_request org_id run cancel) w) run cancel
        (env.send_request (cancel_request org_id run cancel))

  abbrev pub cancel_found : String → CancelInput → World → Option Run → World × Result Fault Reply
  cancel_found org_id cancel w none = refused w nil_uuid (run_not_found cancel.run_id)
  cancel_found org_id cancel w (some run) =
      if not (run.org_id == org_id)
      then refused w run.correlation_id (run_org_id_mismatch cancel.run_id)
      else (if not (is_some run.sat_id) || not (is_some run.sat_org_id)
          then refused w run.correlation_id (run_cancel_type run.id)
          else (if not (is_running run.status)
              then refused w run.correlation_id (run_cancel_not_cancelable run.id)
              else send_cancel org_id run cancel w env.rate_limit_error))

  unfoldable pub process_cancel : String → CancelInput → World → World × Result Fault Reply
  unfolding find_run
  process_cancel org_id cancel w =
      cancel_found org_id cancel w
        (select_first (env.db_fails select_run) cancel.run_id w.store.runs)
