-- ===== src/Ansible.antt =====
-- internal/common/ansible/runner.go. The `len(result) > 0` of `GetStdout` is `result` not being the
-- empty text.
pub mod Output
use playbook_dispatcher.Common.{
  ℕ, Bool, true, false, String, Option, none, some, List, [], ◌∷◌, if◌then◌else◌, ltb, ◌==◌, concat,
  text_lt, keys, insert, Result, ok, err, ◌>>=◌, Fault, nil_dereference, not,
}
use playbook_dispatcher.Model.{EventData, RunnerEvent, integer_lt}
use playbook_dispatcher.Satellite.{sort_slice, insert_sorted, add_host}

-- `event.EventData != nil && event.EventData.Host != nil`, and the host.
abbrev pub event_host : Option EventData → Option String
event_host none = none
event_host (some d) = d.host

unfoldable pub collect_hosts : List (String × Bool) → List RunnerEvent → List (String × Bool)
collect_hosts hosts [] = hosts
collect_hosts hosts (e ∷ es) = collect_hosts (add_host (event_host e.event_data) hosts) es

unfoldable pub get_ansible_hosts : List RunnerEvent → List String
unfolding collect_hosts insert sort_slice insert_sorted
get_ansible_hosts events = sort_slice text_lt (keys (collect_hosts [] events))

abbrev pub event_executor_on_failed : String
event_executor_on_failed = "executor_on_failed"

-- `host != nil && event.EventData != nil && *event.EventData.Host != *host`
abbrev pub is_other_host : Option String → Option EventData → Result Fault Bool
is_other_host none event_data = ok false
is_other_host (some host) none = ok false
is_other_host (some host) (some d) = elim d.host [
  | none ↦ err nil_dereference
  | some h ↦ ok (not (h == host))
]

-- `result += *event.Stdout`, with a line break where the output spans lines.
abbrev pub append_stdout : Option String → Bool → String → String
append_stdout none spans result = result
append_stdout (some text) spans result =
    if spans then concat (concat result text) "\n" else concat result text

-- The loop: the last executor failure, and the output so far.
unfoldable pub stdout_from :
    Option String
    → Option RunnerEvent
    → String
    → List RunnerEvent
    → Result Fault (Option RunnerEvent × String)
stdout_from host failed result [] = ok (failed, result)
stdout_from host failed result (e ∷ es) =
    let failed' = if e.event == event_executor_on_failed then some e else failed in
    is_other_host host e.event_data >>= λ other.
    stdout_from host failed'
      (if other then result else append_stdout e.stdout (ltb e.start_line e.end_line) result) es

abbrev pub error_details : Option RunnerEvent → Option String
error_details none = none
error_details (some e) = elim e.event_data [ none ↦ none | some d ↦ d.crc_dispatcher_error_details ]

abbrev pub append_details : Option RunnerEvent → String → String
append_details failed result = elim (error_details failed) [
  | none ↦ result
  | some details ↦
      if result == "" then concat result details else concat (concat result "\n") details
]

unfoldable pub get_stdout : List RunnerEvent → Option String → Result Fault String
unfolding stdout_from sort_slice insert_sorted
get_stdout events host =
    stdout_from host none "" (sort_slice (λ a b. integer_lt a.counter b.counter) events)
    >>= λ (failed, result). ok (append_details failed result)
