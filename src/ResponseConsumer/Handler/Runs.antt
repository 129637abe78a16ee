-- ===== src/ResponseConsumer/Handler/Runs.antt =====
-- What a message does to the table `runs`.
use playbook_dispatcher.Common.{
  given_true, given_false, ◌≡◌, refl, ◌⊎◌, true, false, String, Option, none, some, List, [], ◌∷◌,
  arith, Each, Result, ok, err, >>=-eq-ok, inl, inr, Bool-cases,
}
use playbook_dispatcher.Model.{Uuid, RunStatus, is_complete, Events, Run, Store}
use playbook_dispatcher.Kafka.{Message}
use playbook_dispatcher.ResponseConsumer.Handler.Messages.{
  Env, ParsedMessageInfo, get_headers, parse_message, select_run, update_run,
}
use playbook_dispatcher.ResponseConsumer.Handler.Writing.{
  TxError, db_error, panic, is_addressed, is_updatable, update_runs, rows_affected, run_db, checked,
  infer_update, selected, write_hosts,
}
use playbook_dispatcher.ResponseConsumer.Handler.Transactions.{
  TxResult, write_run, transaction, finish, on_message,
}

-- What may become of a run: only its status and its events change, and not even these once it is
-- marked as complete, nor if it is not of the given organisation and correlation id.
pub record RunStep (org_id : String) (correlation_id : Uuid) (old new : Run) : Type 0 where
  pub kept : new ≡ record old { status = new.status; events = new.events }
  pub complete_kept : (is_complete old.status ≡ false) ⊎ (new ≡ old)
  pub others_kept : (is_addressed org_id correlation_id old ≡ true) ⊎ (new ≡ old)

module _ (org_id : String) (correlation_id : Uuid) where
  RunStep-refl : (r : Run) → RunStep org_id correlation_id r r
  RunStep-refl r = record { kept = refl; complete_kept = inr refl; others_kept = inr refl }

  Each-RunStep-refl : (rs : List Run) → Each (RunStep org_id correlation_id) rs rs
  Each-RunStep-refl [] = tt
  Each-RunStep-refl (r ∷ rs) = (RunStep-refl r, Each-RunStep-refl rs)

  update_runs-RunStep :
      (run : Run) (status : RunStatus) (payload : Events) (rs : List Run)
      → Each
          (RunStep org_id correlation_id)
          rs
          (update_runs (is_updatable org_id correlation_id run) status payload rs)
  unfolding update_runs
  update_runs-RunStep run status payload [] = tt
  update_runs-RunStep run status payload (r ∷ rs) =
      elim (Bool-cases (is_updatable org_id correlation_id run r)) [
        | inr other ↦ rw other (RunStep-refl r, update_runs-RunStep run status payload rs)
        | inl updatable ↦ rw updatable (
          record {
            kept = refl;
            complete_kept = given_true (is_complete r.status) (λ h. ground (arith, updatable));
            others_kept =
                given_false (is_addressed org_id correlation_id r) (λ h. ground (arith, updatable));
          },
          update_runs-RunStep run status payload rs,
        )
      ]

-- The table `runs` after a transaction that commits.
abbrev RunsAfter : String → Uuid → Store → TxResult → Type 0
RunsAfter org_id correlation_id store r =
    ((r.store.runs ≡ store.runs) × (r.runs_updated ≡ 0))
    ⊎ ((run : Run) × (payload : Events) × (r.store.runs
          ≡ update_runs (is_updatable org_id correlation_id run) r.status payload store.runs)
        × (r.runs_updated ≡ rows_affected (is_updatable org_id correlation_id run) store.runs))

write_run-RunsAfter :
    (env : Env) (request_type : String) (correlation_id : Uuid) (info : ParsedMessageInfo)
    (store : Store) (update : RunStatus × Events) (run : Option Run) (r : TxResult)
    → write_run env request_type correlation_id info store update run ≡ ok r
    → RunsAfter info.org_id correlation_id store r
unfolding write_run
write_run-RunsAfter env request_type correlation_id info store (status, payload) none r h =
    inl (ground arith, ground arith)
write_run-RunsAfter env request_type correlation_id info store (status, payload) (some run) r h =
    let (u, allowed, h') = >>=-eq-ok (run_db env update_run) _ h in
    let (rows, written, h'') =
      >>=-eq-ok (write_hosts env request_type info run store.run_hosts) _ h' in
    inr (run, payload, ground arith, ground arith)

transaction-RunsAfter :
    (env : Env) (request_type : String) (correlation_id : Uuid) (info : ParsedMessageInfo)
    (store : Store) (r : TxResult)
    → transaction env request_type correlation_id info store ≡ ok r
    → RunsAfter info.org_id correlation_id store r
unfolding transaction
transaction-RunsAfter env request_type correlation_id info store r h =
    let run = selected env info.org_id correlation_id store.runs in
    let (update, inferred, h') = >>=-eq-ok (checked (infer_update request_type info run)) _ h in
    let (u, allowed, h'') = >>=-eq-ok (run_db env select_run) _ h' in
    write_run-RunsAfter env request_type correlation_id info store update run r h''

-- What is left of a message is what its transaction leaves.
pub on_message_eq :
    (env : Env) (msg : Message) (store : Store) {correlation_id : Uuid} {request_type : String}
    {info : ParsedMessageInfo}
    → get_headers env msg ≡ some (correlation_id, request_type)
    → parse_message env request_type msg ≡ some info
    → on_message env msg store
      ≡ finish store (transaction env request_type correlation_id info store)
unfolding on_message
on_message_eq env msg store h p = rw (h, p)

Result-cases :
    (res : Result TxError TxResult)
    → ((e : TxError) × (res ≡ err e)) ⊎ ((r : TxResult) × (res ≡ ok r))
Result-cases (err e) = inl (e, refl)
Result-cases (ok r) = inr (r, refl)

finish_runs : (store : Store) (e : TxError) → (finish store (err e)).0 ≡ store
finish_runs store (db_error e) = refl
finish_runs store (panic f) = refl

RunsAfter-RunStep :
    (org_id : String) (correlation_id : Uuid) (store : Store) (r : TxResult)
    → RunsAfter org_id correlation_id store r
    → Each (RunStep org_id correlation_id) store.runs r.store.runs
RunsAfter-RunStep org_id correlation_id store r (inl (same, _)) =
    rw same (Each-RunStep-refl org_id correlation_id store.runs)
RunsAfter-RunStep org_id correlation_id store r (inr (run, payload, e, _)) =
    rw e (update_runs-RunStep org_id correlation_id run r.status payload store.runs)

-- A message that can be read adds and removes no run. It changes nothing but the status and the
-- events of runs of its own organisation and correlation id, and leaves a run alone that is marked as
-- success or failure.
pub on_message_runs :
    (env : Env) (msg : Message) (store : Store) {correlation_id : Uuid} {request_type : String}
    {info : ParsedMessageInfo}
    → get_headers env msg ≡ some (correlation_id, request_type)
    → parse_message env request_type msg ≡ some info
    → Each (RunStep info.org_id correlation_id) store.runs (on_message env msg store).0.runs
on_message_runs env msg store {correlation_id} {request_type} {info} h p =
    rw (on_message_eq env msg store h p)
      (elim (Result-cases (transaction env request_type correlation_id info store)) [
        | inl (e, failed) ↦
            rw failed
              (rw (finish_runs store e) (Each-RunStep-refl info.org_id correlation_id store.runs))
        | inr (r, done) ↦ rw done (
            RunsAfter-RunStep info.org_id correlation_id store r
              (transaction-RunsAfter env request_type correlation_id info store r done))
      ])
