-- ===== src/ResponseConsumer/Handler/Writing.antt =====
-- What `onMessage` of internal/response-consumer/handler.go selects, infers and writes: the run with
-- its status and events, and the rows of `run_hosts`.
use playbook_dispatcher.Common.{
  ℕ, suc, Bool, false, ◌&&◌, ◌||◌, not, String, Option, none, some, List, [], ◌∷◌, if◌then◌else◌,
  ◌==◌, text_lt, is_some, Result, ok, err, ◌>>=◌, ◌>>◌, Fault, invalid_uuid, deref,
}
use playbook_dispatcher.Model.{
  Uuid, RunStatus, is_failure, is_canceled, is_complete, Events, runner_events, sat_events, Run,
  RunHost, RunnerEvent, SatEvent,
}
use playbook_dispatcher.Satellite.{sort_sat_events, get_sat_hosts, get_sat_host_info}
use playbook_dispatcher.Ansible.{get_ansible_hosts, get_stdout}
use playbook_dispatcher.ResponseConsumer.Status.{
  infer_status, infer_sat_playbook_status, check_sat_status_partial, infer_sat_host_status,
}
use playbook_dispatcher.ResponseConsumer.RunHosts.{create_record, sat_update}
use playbook_dispatcher.ResponseConsumer.Handler.Messages.{
  runner_message_header_value, sat_message_header_value, DbCall, Env, ParsedMessageInfo, select_run,
  insert_hosts, update_host,
}

-- Why the transaction does not commit.
pub data TxError : Type 0 where
  db_error : String → TxError
  panic : Fault → TxError

abbrev pub run_db : Env → DbCall → Result TxError (Unit {0})
run_db env call = elim (env.db_fails call) [ none ↦ ok tt | some e ↦ err (db_error e) ]

abbrev pub checked {ℓ} : {A : Type ℓ} → Result Fault A → Result TxError A
checked (ok a) = ok a
checked (err f) = err (panic f)

-- `org_id = ? AND correlation_id = ?`
abbrev pub is_addressed : String → Uuid → Run → Bool
is_addressed org_id correlation_id r = r.org_id == org_id && r.correlation_id == correlation_id

abbrev pub with_smaller_id : Run → Option Run → Run
with_smaller_id r none = r
with_smaller_id r (some q) = if text_lt q.id r.id then q else r

-- `First`: of the rows that match, the one with the smallest primary key.
unfoldable pub first_run : (Run → Bool) → List Run → Option Run
first_run p [] = none
first_run p (r ∷ rs) =
    let rest = first_run p rs in if p r then some (with_smaller_id r rest) else rest

-- What `First(&run)` leaves: the zero `Run` if it fails or finds nothing.
abbrev pub selected : Env → String → Uuid → List Run → Option Run
selected env org_id correlation_id runs =
    if is_some (env.db_fails select_run)
    then none
    else first_run (is_addressed org_id correlation_id) runs

abbrev pub has_response_full : Option Run → Bool
has_response_full none = false
has_response_full (some r) = r.response_full

-- `if run.Status == failure || run.Status == canceled { status = run.Status }`
abbrev pub keep_status : Option Run → RunStatus → RunStatus
keep_status none status = status
keep_status (some r) status =
    if is_failure r.status || is_canceled r.status then r.status else status

-- The status and the events to be stored. The Satellite events are sorted in place first.
unfoldable pub infer_update :
    String → ParsedMessageInfo → Option Run → Result Fault (RunStatus × Events)
infer_update request_type info run =
    if request_type == sat_message_header_value
    then (do
      unsorted ← deref info.sat
      let events = sort_sat_events unsorted
      inferred ← infer_sat_playbook_status events
      let status = if has_response_full run then inferred else check_sat_status_partial events
      ok (keep_status run status, sat_events events))
    else (do events ← deref info.runner; ok (infer_status events none, runner_events events))

-- `status not in ('success', 'failure')` and the id of the run, beside the two columns above.
abbrev pub is_updatable : String → Uuid → Run → Run → Bool
is_updatable org_id correlation_id run r =
    is_addressed org_id correlation_id r && r.id == run.id && not (is_complete r.status)

unfoldable pub update_runs : (Run → Bool) → RunStatus → Events → List Run → List Run
update_runs p status payload [] = []
update_runs p status payload (r ∷ rs) =
    (if p r then record r { status = status; events = payload } else r)
    ∷ update_runs p status payload rs

-- `RowsAffected`
unfoldable pub rows_affected : (Run → Bool) → List Run → ℕ
rows_affected p [] = 0
rows_affected p (r ∷ rs) = if p r then suc (rows_affected p rs) else rows_affected p rs

-- `mapHostsToRunHosts`, where making a row may panic; the number counts the uuids made.
unfoldable pub map_hosts_to_run_hosts :
    (ℕ → String → Result Fault RunHost) → ℕ → List String → Result Fault (List RunHost)
map_hosts_to_run_hosts fn i [] = ok []
map_hosts_to_run_hosts fn i (host ∷ hosts) = do
  row ← fn i host
  rows ← map_hosts_to_run_hosts fn (suc i) hosts
  ok (row ∷ rows)

abbrev pub or_localhost : List String → List String
or_localhost [] = "localhost" ∷ []
or_localhost (h ∷ hs) = h ∷ hs

abbrev pub runner_row : Env → Run → List RunnerEvent → ℕ → String → String → RunHost
runner_row env run events i host log = record {
  id = env.new_uuid i;
  run_id = run.id;
  inventory_id = none;
  subscription_manager_id = none;
  host = host;
  sat_sequence = none;
  status = infer_status events (some host);
  log = log;
}

unfoldable pub runner_run_host : Env → Run → List RunnerEvent → ℕ → String → Result Fault RunHost
runner_run_host env run events i host =
    get_stdout events none >>= λ log. ok (runner_row env run events i host log)

unfoldable pub sat_run_host : Env → Run → List SatEvent → ℕ → String → Result Fault RunHost
sat_run_host env run events i host = get_sat_host_info events host >>= λ info.
    elim (env.parse_uuid host) [
      | none ↦ err invalid_uuid
      | some inventory_id ↦ ok (record {
        id = env.new_uuid i;
        run_id = run.id;
        inventory_id = some inventory_id;
        subscription_manager_id = none;
        host = "";
        sat_sequence = info.sequence;
        status = infer_sat_host_status events host;
        log = info.console;
      })
    ]

-- `satUpdateRecord`: one statement for each host; the number counts the statements.
unfoldable pub sat_update_record :
    Env → Bool → ℕ → List RunHost → List RunHost → Result TxError (List RunHost)
sat_update_record env response_full i [] rows = ok rows
sat_update_record env response_full i (u ∷ us) rows = do
  run_db env (update_host i)
  sat_update_record env response_full (suc i) us (sat_update response_full u rows)

-- The rows of `run_hosts` after the message.
unfoldable pub write_hosts :
    Env → String → ParsedMessageInfo → Run → List RunHost → Result TxError (List RunHost)
write_hosts env request_type info run rows =
    if request_type == runner_message_header_value
    then (do
      events ← checked (deref info.runner)
      let hosts = or_localhost (get_ansible_hosts events)
      new ← checked (map_hosts_to_run_hosts (runner_run_host env run events) 0 hosts)
      run_db env insert_hosts
      ok (create_record new rows))
    else if request_type == sat_message_header_value
    then (do
      unsorted ← checked (deref info.sat)
      let events = sort_sat_events unsorted
      updates ←
          checked (map_hosts_to_run_hosts (sat_run_host env run events) 0 (get_sat_hosts events))
      sat_update_record env run.response_full 0 updates rows)
    else ok rows
