-- ===== src/Tests/Consumer.antt =====
-- The consumer of updates on a store with a run that is open and one that is complete.
use playbook_dispatcher.Common.{◌≡◌, refl, false, String, none, some, List, [], ◌∷◌, Each, ok}
use playbook_dispatcher.Model.{running, failure, success, Run, RunHost, runner_events, sat_events}
use playbook_dispatcher.Kafka.{get_header, Message}
use playbook_dispatcher.Satellite.{sort_sat_events, get_sat_hosts, get_sat_host_info}
use playbook_dispatcher.Ansible.{get_ansible_hosts, get_stdout}
use playbook_dispatcher.ResponseConsumer.Status.{infer_status, infer_sat_host_status}
use playbook_dispatcher.ResponseConsumer.RunHosts.{create_record, sat_update}
use playbook_dispatcher.ResponseConsumer.RunHosts.Upsert.{
  is_at, find_host, merge, find_host-create_record,
}
use playbook_dispatcher.ResponseConsumer.RunHosts.Sequence.{HostStep}
use playbook_dispatcher.ResponseConsumer.Handler.Messages.{
  Env, ParsedMessageInfo, get_headers, parse_message, sat_message_header_value,
  runner_message_header_value,
}
use playbook_dispatcher.ResponseConsumer.Handler.Transactions.{on_message, updated}
use playbook_dispatcher.ResponseConsumer.Handler.Writing.{
  first_run, is_updatable, update_runs, or_localhost, infer_update, write_hosts,
  map_hosts_to_run_hosts, sat_run_host, sat_update_record,
}
use playbook_dispatcher.ResponseConsumer.Handler.Runs.{RunStep, on_message_runs}
use playbook_dispatcher.ResponseConsumer.Handler.Runner.{RowsMade, on_message_runner}
use playbook_dispatcher.ResponseConsumer.Handler.Hosts.{IsWritten, write_hosts-IsWritten}
use playbook_dispatcher.ResponseConsumer.Handler.Satellite.{infer_update_partial, write_hosts_sat}
use playbook_dispatcher.Tests.Data.{
  playbook_events, open_events, run_of, row_of, store, env_with, message_of,
}

abbrev env : Env
env = env_with none

abbrev runner_msg : Message
runner_msg = message_of "playbook" "runner"

on_message_runs_example :
    Each (RunStep "o1" "c1") store.runs (on_message env runner_msg store).0.runs
unfolding get_headers parse_message get_header
on_message_runs_example =
    on_message_runs env runner_msg store {correlation_id = "c1"} {request_type = "playbook"}
      {info = record { org_id = "o1"; runner = some playbook_events; sat = none }} refl refl

on_message_runner_example :
    (rows : List RunHost) × RowsMade playbook_events "1"
      (or_localhost (get_ansible_hosts playbook_events))
      rows
    × (on_message env runner_msg store ≡ (
      record {
        runs =
            update_runs
              (is_updatable "o1" "c1" (run_of "1" running false))
              (infer_status playbook_events none)
              (runner_events playbook_events)
              store.runs;
        run_hosts = create_record rows store.run_hosts;
      },
      updated (infer_status playbook_events none),
    ))
unfolding get_headers get_header first_run
on_message_runner_example =
    on_message_runner env runner_msg store {correlation_id = "c1"}
      {m = record { org_id = "o1"; events = playbook_events }} {run = run_of "1" running false}
      (λ call. refl) refl refl refl refl

abbrev sat_info : ParsedMessageInfo
sat_info = record { org_id = "o1"; runner = none; sat = some open_events }

abbrev open_run : Run
open_run = run_of "1" running false

-- The rows of the run: that of `a` gets a sequence and a log with a gap, that of `b` its status.
abbrev sat_rows : List RunHost
sat_rows =
    record (row_of "h1" "1" "a" running "zerotwo") {
      sat_sequence = some 2;
      log = "\\n\\u2026\\nzerotwo";
    }
    ∷ row_of "h2" "1" "b" success "done"
    ∷ []

write_hosts_sat_example : Each (HostStep false "1") store.run_hosts sat_rows
unfolding write_hosts map_hosts_to_run_hosts get_sat_hosts sort_sat_events sat_run_host
    get_sat_host_info sat_update_record sat_update infer_sat_host_status
write_hosts_sat_example = write_hosts_sat env sat_info open_run store.run_hosts sat_rows refl

infer_update_partial_example :
    infer_update sat_message_header_value sat_info (some open_run)
    ≡ ok (running, sat_events (sort_sat_events open_events))
infer_update_partial_example =
    infer_update_partial sat_info open_run {events = open_events} refl refl refl refl

abbrev made : List RunHost
made =
    record (row_of "new" "1" "a" failure "fine\nbroken\nrecap\n") { inventory_id = none }
    ∷ record (row_of "new" "1" "b" success "fine\nbroken\nrecap\n") { inventory_id = none }
    ∷ []

find_host-create_record_example :
    find_host "1" "b" (create_record made store.run_hosts)
    ≡ merge (find_host "1" "b" store.run_hosts) (find_host "1" "b" made)
unfolding find_host is_at
find_host-create_record_example =
    find_host-create_record "1" "b" made store.run_hosts (refl, (refl, tt))

abbrev runner_info : ParsedMessageInfo
runner_info = record { org_id = "o1"; runner = some playbook_events; sat = none }

write_hosts-IsWritten_example :
    (new : List RunHost) × (output : String) × (write_hosts env runner_message_header_value
        runner_info
        (run_of "1" running false)
        store.run_hosts
      ≡ ok new)
    × (get_stdout playbook_events none ≡ ok output)
    × IsWritten
        (infer_status playbook_events (some "a"))
        output
        (find_host "1" "a" store.run_hosts)
        (find_host "1" "a" new)
unfolding get_ansible_hosts
write_hosts-IsWritten_example =
    write_hosts-IsWritten env runner_info (run_of "1" running false) store.run_hosts
      {events = playbook_events} "a" (λ call. refl) refl refl
