-- ===== src/ResponseConsumer/Handler/Transactions.antt =====
-- `onMessage` of internal/response-consumer/handler.go: one message of the topic of run updates.
-- Logging and metrics are left out, but the last branch of `onMessage`, which tells the outcomes
-- apart by a metric, is the result.
use playbook_dispatcher.Common.{
  ℕ, zero, suc, String, Option, none, some, Result, ok, err, ◌>>=◌, ◌>>◌, Fault,
}
use playbook_dispatcher.Model.{Uuid, RunStatus, Events, Run, Store}
use playbook_dispatcher.Kafka.{Message}
use playbook_dispatcher.ResponseConsumer.Handler.Messages.{
  Env, get_headers, ParsedMessageInfo, parse_message, select_run, update_run,
}
use playbook_dispatcher.ResponseConsumer.Handler.Writing.{
  TxError, run_db, checked, selected, infer_update, is_updatable, update_runs, rows_affected,
  write_hosts, db_error, panic,
}

-- What the transaction leaves: the store, and the run with the number of its rows that were updated.
pub record TxResult : Type 0 where
  pub store : Store
  pub status : RunStatus
  pub run : Option Run
  pub runs_updated : ℕ

unfoldable pub write_run :
    Env
    → String
    → Uuid
    → ParsedMessageInfo
    → Store
    → RunStatus × Events
    → Option Run
    → Result TxError TxResult
write_run env request_type correlation_id info store (status, payload) none =
    ok (record { store = store; status = status; run = none; runs_updated = 0 })
write_run env request_type correlation_id info store (status, payload) (some run) = do
  run_db env update_run
  let p = is_updatable info.org_id correlation_id run
  rows ← write_hosts env request_type info run store.run_hosts
  ok (record {
    store = record { runs = update_runs p status payload store.runs; run_hosts = rows };
    status = status;
    run = some run;
    runs_updated = rows_affected p store.runs;
  })

-- The function that `onMessage` hands to `Transaction`.
unfoldable pub transaction :
    Env → String → Uuid → ParsedMessageInfo → Store → Result TxError TxResult
transaction env request_type correlation_id info store = do
  let run = selected env info.org_id correlation_id store.runs
  update ← checked (infer_update request_type info run)
  run_db env select_run
  write_run env request_type correlation_id info store update run

-- How `onMessage` ends.
pub data Outcome : Type 0 where
  headers_unreadable unparsable : Outcome
  update_error : String → Outcome
  panicked : Fault → Outcome
  updated : RunStatus → Outcome
  missed : RunStatus → Outcome

-- `runsUpdated > 0`
abbrev pub ending : RunStatus → ℕ → Outcome
ending status zero = missed status
ending status (suc n) = updated status

-- A transaction whose function fails or panics is rolled back.
abbrev pub finish : Store → Result TxError TxResult → Store × Outcome
finish store (err (db_error e)) = (store, update_error e)
finish store (err (panic f)) = (store, panicked f)
finish store (ok r) = (r.store, ending r.status r.runs_updated)

abbrev pub handle_info : Env → Store → Uuid → String → Option ParsedMessageInfo → Store × Outcome
handle_info env store correlation_id request_type none = (store, unparsable)
handle_info env store correlation_id request_type (some info) =
    finish store (transaction env request_type correlation_id info store)

abbrev pub handle_headers : Env → Message → Store → Option (Uuid × String) → Store × Outcome
handle_headers env msg store none = (store, headers_unreadable)
handle_headers env msg store (some (correlation_id, request_type)) =
    handle_info env store correlation_id request_type (parse_message env request_type msg)

unfoldable pub on_message : Env → Message → Store → Store × Outcome
on_message env msg store = handle_headers env msg store (get_headers env msg)
