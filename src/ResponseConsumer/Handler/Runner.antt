-- ===== src/ResponseConsumer/Handler/Runner.antt =====
-- A message of a runner, from the headers to the rows, when the database accepts the statements.
use mathlib.Core.List.{Memᴰ}
use mathlib.Core.Path.{subst}
use playbook_dispatcher.Common.{
  ℕ, suc, ◌≡◌, refl, sym, ap, ◌∙◌, Bool, true, false, String, Option, none, some, List, [], ◌∷◌,
  arith, eq_refl, ok, inl, inr, Bool-cases, text_lt,
}
use playbook_dispatcher.Model.{
  Uuid, RunStatus, is_complete, Run, RunHost, Store, runner_events, RunnerEvent,
}
use playbook_dispatcher.Ansible.{get_ansible_hosts, get_stdout, append_details}
use playbook_dispatcher.Ansible.Output.{get_stdout_lem, by_counter, last_failure, transcript}
use playbook_dispatcher.ResponseConsumer.Status.{infer_status}
use playbook_dispatcher.ResponseConsumer.RunHosts.{create_record}
use playbook_dispatcher.Kafka.{Message}
use playbook_dispatcher.ResponseConsumer.Handler.Messages.{
  Env, RunnerMessage, DbCall, get_headers, parse_message, select_run, update_run, insert_hosts,
  runner_message_header_value, ParsedMessageInfo,
}
use playbook_dispatcher.ResponseConsumer.Handler.Transactions.{
  updated, write_run, transaction, ending, on_message,
}
use playbook_dispatcher.ResponseConsumer.Handler.Writing.{
  is_addressed, is_updatable, first_run, with_smaller_id, update_runs, rows_affected, run_db,
  infer_update, selected, write_hosts, map_hosts_to_run_hosts, runner_run_host, runner_row,
  or_localhost,
}
use playbook_dispatcher.ResponseConsumer.Handler.Runs.{on_message_eq}

with_smaller_id_cases :
    (p : Run → Bool) (r : Run) (rs : List Run) (o : Option Run) {q : Run}
    → p r ≡ true
    → ((s : Run) → o ≡ some s → (p s ≡ true) × Memᴰ s rs)
    → with_smaller_id r o ≡ q
    → (p q ≡ true) × Memᴰ q (r ∷ rs)
with_smaller_id_cases p r rs none h k e = (ap p (sym e) ∙ h, Memᴰ.head (sym e))
with_smaller_id_cases p r rs (some s) h k e = elim (Bool-cases (text_lt s.id r.id)) [
  | inl lt ↦
      let same = rw lt at e in
      (ap p (sym same) ∙ (k s refl).0, Memᴰ.tail (subst (λ x. Memᴰ x rs) same (k s refl).1))
  | inr ge ↦ let same = rw ge at e in (ap p (sym same) ∙ h, Memᴰ.head (sym same))
]

some_inj : {a b : Run} → some a ≡ some b → a ≡ b
some_inj h = cc

pub first_run_lem :
    (p : Run → Bool) (rs : List Run) {q : Run} → first_run p rs ≡ some q → (p q ≡ true) × Memᴰ q rs
unfolding first_run
first_run_lem p [] h = cc
first_run_lem p (r ∷ rs) h = elim (Bool-cases (p r)) [
  | inl here ↦
      with_smaller_id_cases p r rs (first_run p rs) here (λ s e. first_run_lem p rs e)
        (some_inj (rw here at h))
  | inr other ↦ let (f, m) = first_run_lem p rs (rw other at h) in (f, Memᴰ.tail m)
]

rows_affected-pos :
    (p : Run → Bool) (q : Run) (rs : List Run)
    → p q ≡ true
    → Memᴰ q rs
    → (n : ℕ) × (rows_affected p rs ≡ suc n)
unfolding rows_affected
rows_affected-pos p q [] h m = elim m [ ]
rows_affected-pos p q (r ∷ rs) h (Memᴰ.head e) = (rows_affected p rs, rw (← e, h))
rows_affected-pos p q (r ∷ rs) h (Memᴰ.tail m) =
    let (n, more) = rows_affected-pos p q rs h m in
    elim (Bool-cases (p r)) [
      | inl here ↦ (rows_affected p rs, rw here)
      | inr other ↦ (n, rw other more)
    ]

-- The rows that a runner's message gives rise to, for each host with the status of that host and
-- with the whole output of the run.
abbrev pub RowsMade : List RunnerEvent → Uuid → List String → List RunHost → Type 0
RowsMade events run_id [] [] = Unit
RowsMade events run_id (h ∷ hs) (r ∷ rs) =
    (r.host ≡ h)
    × (r.run_id ≡ run_id)
    × (r.status ≡ infer_status events (some h))
    × (get_stdout events none ≡ ok r.log)
    × RowsMade events run_id hs rs
RowsMade events run_id hs rs = ⊥

pub map_hosts_total :
    (env : Env) (run : Run) (events : List RunnerEvent) (i : ℕ) (hosts : List String)
    → (rows : List RunHost) × (map_hosts_to_run_hosts (runner_run_host env run events) i hosts
        ≡ ok rows)
      × RowsMade events run.id hosts rows
unfolding map_hosts_to_run_hosts runner_run_host
map_hosts_total env run events i [] = ([], refl, tt)
map_hosts_total env run events i (h ∷ hs) =
    let (rows, made, each) = map_hosts_total env run events (suc i) hs in
    let printed = (get_stdout_lem events).0 in
    let log =
      append_details (last_failure none (by_counter events)) (transcript (by_counter events)) in
    (
      runner_row env run events i h log ∷ rows,
      rw (printed, made),
      (refl, refl, refl, printed, each),
    )

-- The database accepts every statement.
abbrev pub Accepts : Env → Type 0
Accepts env = (call : DbCall) → env.db_fails call ≡ none

pub run_db_ok : (env : Env) (call : DbCall) → Accepts env → run_db env call ≡ ok tt
run_db_ok env call db = rw (db call, run_db)

parse_runner :
    (env : Env) (msg : Message) (m : RunnerMessage)
    → env.unmarshal_runner msg.value ≡ some m
    → parse_message env runner_message_header_value msg
      ≡ some (record { org_id = m.org_id; runner = some m.events; sat = none })
unfolding parse_message
parse_runner env msg m u = rw u

module _ (env : Env) (correlation_id : Uuid) (info : ParsedMessageInfo) (db : Accepts env) where
  pub selected_lem :
      (runs : List Run)
      → selected env info.org_id correlation_id runs
        ≡ first_run (is_addressed info.org_id correlation_id) runs
  selected_lem runs = rw (db select_run)

  pub write_hosts_runner :
      (run : Run) (old new : List RunHost) (events : List RunnerEvent)
      → info.runner ≡ some events
      → map_hosts_to_run_hosts
          (runner_run_host env run events)
          0
          (or_localhost (get_ansible_hosts events))
        ≡ ok new
      → write_hosts env runner_message_header_value info run old ≡ ok (create_record new old)
  unfolding write_hosts
  write_hosts_runner run old new events r made = simp (r, made, run_db_ok env insert_hosts db)

  infer_update_runner :
      (run : Option Run) (events : List RunnerEvent)
      → info.runner ≡ some events
      → infer_update runner_message_header_value info run
        ≡ ok (infer_status events none, runner_events events)
  unfolding infer_update
  infer_update_runner run events r = simp r

  transaction_runner :
      (store : Store) (events : List RunnerEvent) (run : Run) (new : List RunHost)
      → info.runner ≡ some events
      → first_run (is_addressed info.org_id correlation_id) store.runs ≡ some run
      → map_hosts_to_run_hosts
          (runner_run_host env run events)
          0
          (or_localhost (get_ansible_hosts events))
        ≡ ok new
      → transaction env runner_message_header_value correlation_id info store
        ≡ ok (record {
          store = record {
            runs =
                update_runs
                  (is_updatable info.org_id correlation_id run)
                  (infer_status events none)
                  (runner_events events)
                  store.runs;
            run_hosts = create_record new store.run_hosts;
          };
          status = infer_status events none;
          run = some run;
          runs_updated = rows_affected (is_updatable info.org_id correlation_id run) store.runs;
        })
  unfolding transaction write_run
  transaction_runner store events run new r found made = simp (
    db select_run,
    found,
    infer_update_runner (some run) events r,
    run_db_ok env select_run db,
    run_db_ok env update_run db,
    write_hosts_runner run store.run_hosts new events r made,
  )

ending_updated :
    (status : RunStatus) (n : ℕ) → ((m : ℕ) × (n ≡ suc m)) → ending status n ≡ updated status
ending_updated status n (m, e) = rw e

-- A message of a runner is carried out whenever the database accepts the statements. The run is the
-- first of the organisation and the correlation id, and is not marked as complete: then its rows get
-- the status inferred from the events, and the events; and each host that the events name, or
-- localhost if they name none, is written with its own status and the output of the run.
pub on_message_runner :
    (env : Env) (msg : Message) (store : Store) {correlation_id : Uuid} {m : RunnerMessage}
    {run : Run}
    → Accepts env
    → get_headers env msg ≡ some (correlation_id, runner_message_header_value)
    → env.unmarshal_runner msg.value ≡ some m
    → first_run (is_addressed m.org_id correlation_id) store.runs ≡ some run
    → is_complete run.status ≡ false
    → (rows : List RunHost) × RowsMade m.events run.id
        (or_localhost (get_ansible_hosts m.events))
        rows
      × (on_message env msg store ≡ (
        record {
          runs =
              update_runs
                (is_updatable m.org_id correlation_id run)
                (infer_status m.events none)
                (runner_events m.events)
                store.runs;
          run_hosts = create_record rows store.run_hosts;
        },
        updated (infer_status m.events none),
      ))
on_message_runner env msg store {correlation_id} {m} {run} db h u found open_run =
    let info : ParsedMessageInfo = record {
      org_id = m.org_id;
      runner = some m.events;
      sat = none;
    } in
    let (rows, made, each) =
      map_hosts_total env run m.events 0 (or_localhost (get_ansible_hosts m.events)) in
    let p = is_updatable m.org_id correlation_id run in
    let (addressed, member) =
      first_run_lem (is_addressed m.org_id correlation_id) store.runs found in
    let affected = rows_affected-pos p run store.runs (ground (arith, eq_refl run.id)) member in
    (
      rows,
      each,
      on_message_eq env msg store {info = info} h (parse_runner env msg m u)
          ∙ rw (
            transaction_runner env correlation_id info db store m.events run rows refl found made,
            ending_updated (infer_status m.events none) (rows_affected p store.runs) affected,
          ),
    )
