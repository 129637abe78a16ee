-- ===== src/ResponseConsumer/Status.antt =====
-- The functions of internal/response-consumer/handler.go that infer a status from events.
pub mod Runner
pub mod Sat
pub mod Hosts
use playbook_dispatcher.Common.{
  Bool, true, false, ◌||◌, not, String, Option, none, some, List, [], ◌∷◌, if◌then◌else◌, is_some,
  ◌==◌, lookup, insert, Result, ok, ◌>>=◌, Fault, deref,
}
use playbook_dispatcher.Model.{
  RunStatus, running, success, failure, canceled, is_running, is_failure, is_canceled, EventData,
  RunnerEvent, SatEvent, is_completed_type, is_finished_type,
}

abbrev pub event_playbook_on_stats : String
event_playbook_on_stats = "playbook_on_stats"

abbrev pub event_runner_on_failed : String
event_runner_on_failed = "runner_on_failed"

abbrev pub event_executor_on_failed : String
event_executor_on_failed = "executor_on_failed"

-- `host != nil && EventData != nil && EventData.Host != nil && *EventData.Host != *host`
abbrev pub is_for_other : Option String → Option EventData → Bool
is_for_other none d = false
is_for_other (some host) none = false
is_for_other (some host) (some d) = elim d.host [ none ↦ false | some h ↦ not (h == host) ]

-- One round of the loop of `inferStatus`, over `finished` and `failed`.
unfoldable pub status_round : Option String → RunnerEvent → Bool × Bool → Bool × Bool
status_round host e (finished, failed) =
    let finished' = if e.event == event_playbook_on_stats then true else finished in
    if is_for_other host e.event_data
    then (finished', failed)
    else if e.event == event_executor_on_failed
    then (true, true)
    else (finished', if e.event == event_runner_on_failed then true else failed)

unfoldable pub status_loop : Option String → Bool × Bool → List RunnerEvent → Bool × Bool
status_loop host flags [] = flags
status_loop host flags (e ∷ es) = status_loop host (status_round host e flags) es

-- The `switch` that ends `inferStatus`.
abbrev pub status_of_flags : Bool × Bool → RunStatus
status_of_flags (finished, failed) =
    if finished then (if failed then failure else success) else running

unfoldable pub infer_status : List RunnerEvent → Option String → RunStatus
unfolding status_loop status_round
infer_status events host = status_of_flags (status_loop host (false, false) events)

unfoldable pub sat_status_event_db_map : String → RunStatus
sat_status_event_db_map status =
    if status == "success"
    then success
    else if status == "failure"
    then failure
    else if status == "canceled"
    then canceled
    else running

-- `if _, ok := hostStatusMap[host]; !ok { hostStatusMap[host] = "running" }`
abbrev pub enter_host : String → List (String × RunStatus) → List (String × RunStatus)
enter_host h statuses = if is_some (lookup h statuses) then statuses else insert h running statuses

abbrev pub set_status :
    String → Option String → List (String × RunStatus) → List (String × RunStatus)
set_status h none statuses = statuses
set_status h (some s) statuses = insert h (sat_status_event_db_map s) statuses

-- What an event changes in `hostStatusMap`.
abbrev pub note_host :
    Option String → Option String → List (String × RunStatus) → List (String × RunStatus)
note_host none status statuses = statuses
note_host (some h) status statuses = set_status h status (enter_host h statuses)

abbrev pub values : List (String × RunStatus) → List RunStatus
values [] = []
values ((k, v) ∷ m) = v ∷ values m

-- The loop over `hostStatusMap`, and the `switch` behind it.
unfoldable pub summarize : Bool → Bool → List RunStatus → RunStatus
summarize failed cancelled [] = if failed then failure else if cancelled then canceled else success
summarize failed cancelled (s ∷ ss) =
    let rest = summarize (failed || is_failure s) (cancelled || is_canceled s) ss in
    if is_running s then s else rest

unfoldable pub infer_sat_from : List (String × RunStatus) → List SatEvent → Result Fault RunStatus
unfolding summarize sat_status_event_db_map lookup insert
infer_sat_from statuses [] = ok (summarize false false (values statuses))
infer_sat_from statuses (e ∷ es) =
    let rest = infer_sat_from (note_host e.host e.status statuses) es in
    if is_completed_type e.type
    then (deref e.status >>= λ s. ok (sat_status_event_db_map s))
    else rest

unfoldable pub infer_sat_playbook_status : List SatEvent → Result Fault RunStatus
unfolding infer_sat_from
infer_sat_playbook_status events = infer_sat_from [] events

-- `event.Host != nil && *event.Host != host`
abbrev pub is_other_host : Option String → String → Bool
is_other_host none host = false
is_other_host (some h) host = not (h == host)

abbrev pub status_or : Option String → RunStatus → RunStatus
status_or none rest = rest
status_or (some s) rest = sat_status_event_db_map s

unfoldable pub infer_sat_host_status : List SatEvent → String → RunStatus
unfolding sat_status_event_db_map
infer_sat_host_status [] host = running
infer_sat_host_status (e ∷ es) host =
    let rest = infer_sat_host_status es host in
    if is_other_host e.host host
    then rest
    else if is_finished_type e.type
    then status_or e.status rest
    else rest

unfoldable pub check_sat_status_partial : List SatEvent → RunStatus
unfolding sat_status_event_db_map
check_sat_status_partial [] = running
check_sat_status_partial (e ∷ es) =
    let rest = check_sat_status_partial es in
    if is_completed_type e.type then status_or e.status rest else rest
