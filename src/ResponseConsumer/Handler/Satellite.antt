-- ===== src/ResponseConsumer/Handler/Satellite.antt =====
-- A message of Satellite: the status that is stored, and what becomes of the rows of its hosts.
use mathlib.Core.Path.{subst}
use playbook_dispatcher.Common.{
  ℕ, suc, ◌≡◌, ◌∙◌, Bool, true, false, ◌||◌, String, some, List, [], ◌∷◌, arith, any, Each, Result,
  ok, err, >>=-eq-ok, deref, Fault,
}
use playbook_dispatcher.Model.{
  Uuid, RunStatus, running, is_failure, is_canceled, Events, sat_events, Run, RunHost, SatEvent,
  is_completed_type,
}
use playbook_dispatcher.Satellite.{sort_sat_events, get_sat_hosts, get_sat_host_info}
use playbook_dispatcher.Satellite.Sorting.{sort_sat_events_lem}
use playbook_dispatcher.ResponseConsumer.Status.{infer_sat_playbook_status}
use playbook_dispatcher.ResponseConsumer.Status.Sat.{any-perm, check_sat_status_partial_open}
use playbook_dispatcher.ResponseConsumer.Status.Hosts.{infer_sat_playbook_status_open}
use playbook_dispatcher.ResponseConsumer.RunHosts.{sat_update}
use playbook_dispatcher.ResponseConsumer.RunHosts.Sequence.{
  HostStep, sat_update-HostStep, Each-HostStep-refl, Each-HostStep-trans,
}
use playbook_dispatcher.ResponseConsumer.Handler.Messages.{
  Env, ParsedMessageInfo, update_host, sat_message_header_value,
}
use playbook_dispatcher.ResponseConsumer.Handler.Writing.{
  infer_update, write_hosts, sat_update_record, sat_run_host, map_hosts_to_run_hosts, checked,
  run_db,
}

-- A run that has failed or was canceled keeps that status, whatever Satellite reports later.
pub infer_update_final :
    (info : ParsedMessageInfo) (r : Run) {status : RunStatus} {payload : Events}
    → (is_failure r.status || is_canceled r.status) ≡ true
    → infer_update sat_message_header_value info (some r) ≡ ok (status, payload)
    → status ≡ r.status
unfolding infer_update
infer_update_final info r final h =
    let (unsorted, given, h') = >>=-eq-ok (deref info.sat) _ h in
    let (inferred, e, h'') =
      >>=-eq-ok (infer_sat_playbook_status (sort_sat_events unsorted)) _ h' in
    ground (arith, final)

-- With partial responses a run stays running as long as no event reports it as completed: whatever
-- its hosts report, and in whatever order the events come. The events are stored in the order of
-- their sequences.
pub infer_update_partial :
    (info : ParsedMessageInfo) (r : Run) {events : List SatEvent}
    → r.response_full ≡ false
    → (is_failure r.status || is_canceled r.status) ≡ false
    → info.sat ≡ some events
    → any (λ e. is_completed_type e.type) events ≡ false
    → infer_update sat_message_header_value info (some r)
      ≡ ok (running, sat_events (sort_sat_events events))
unfolding infer_update
infer_update_partial info r {events} partial open_run given h =
    let still =
      any-perm (λ e. is_completed_type e.type) (sort_sat_events events) events
        (sort_sat_events_lem events).0
      ∙ h in
    simp (
      given,
      infer_sat_playbook_status_open (sort_sat_events events) still,
      partial,
      open_run,
      check_sat_status_partial_open (sort_sat_events events) still,
    )

-- The updates are all of one run.
abbrev AllOfRun : Uuid → List RunHost → Type 0
AllOfRun run_id [] = Unit
AllOfRun run_id (u ∷ us) = (u.run_id ≡ run_id) × AllOfRun run_id us

sat_run_host-run_id :
    (env : Env) (run : Run) (events : List SatEvent) (i : ℕ) (h : String) (row : RunHost)
    → sat_run_host env run events i h ≡ ok row
    → row.run_id ≡ run.id
unfolding sat_run_host
sat_run_host-run_id env run events i h row e =
    let (info, found, e') = >>=-eq-ok (get_sat_host_info events h) _ e in ground arith

map_hosts-AllOfRun :
    (env : Env) (run : Run) (events : List SatEvent) (i : ℕ) (hosts : List String)
    (rows : List RunHost)
    → map_hosts_to_run_hosts (sat_run_host env run events) i hosts ≡ ok rows
    → AllOfRun run.id rows
unfolding map_hosts_to_run_hosts
map_hosts-AllOfRun env run events i [] [] e = tt
map_hosts-AllOfRun env run events i [] (r ∷ rows) e = cc
map_hosts-AllOfRun env run events i (h ∷ hosts) rows e =
    let (row, made, e') = >>=-eq-ok (sat_run_host env run events i h) _ e in
    let (rest, made_rest, e'') =
      >>=-eq-ok (map_hosts_to_run_hosts (sat_run_host env run events) (suc i) hosts) _ e' in
    let same : (row ∷ rest) ≡ rows = cc in
    subst (AllOfRun run.id) same (
      sat_run_host-run_id env run events i h row made,
      map_hosts-AllOfRun env run events (suc i) hosts rest made_rest,
    )

sat_update_record-HostStep :
    (env : Env) (full : Bool) (run_id : Uuid) (i : ℕ) (us old new : List RunHost)
    → AllOfRun run_id us
    → sat_update_record env full i us old ≡ ok new
    → Each (HostStep full run_id) old new
unfolding sat_update_record
sat_update_record-HostStep env full run_id i [] old new a e =
    let same : old ≡ new = cc in
    subst (Each (HostStep full run_id) old) same (Each-HostStep-refl full run_id old)
sat_update_record-HostStep env full run_id i (u ∷ us) old new (a, as') e =
    let (ok_tt, allowed, e') = >>=-eq-ok (run_db env (update_host i)) _ e in
    Each-HostStep-trans full run_id old (sat_update full u old) new
      (sat_update-HostStep full run_id u old a)
      (sat_update_record-HostStep env full run_id (suc i) us (sat_update full u old) new as' e')

-- A message of Satellite adds and removes no row of `run_hosts`, and changes only rows of its run. The
-- sequence of a row never gets smaller. With partial responses nothing is lost from a log: what was
-- there stays, and more may follow.
pub write_hosts_sat :
    (env : Env) (info : ParsedMessageInfo) (run : Run) (old new : List RunHost)
    → write_hosts env sat_message_header_value info run old ≡ ok new
    → Each (HostStep run.response_full run.id) old new
unfolding write_hosts
write_hosts_sat env info run old new h =
    let (unsorted, given, h') = >>=-eq-ok (checked (deref info.sat)) _ h in
    let events = sort_sat_events unsorted in
    let made = map_hosts_to_run_hosts (sat_run_host env run events) 0 (get_sat_hosts events) in
    let (updates, e, h'') = >>=-eq-ok (checked made) _ h' in
    sat_update_record-HostStep env run.response_full run.id 0 updates old new
      (map_hosts-AllOfRun env run events 0 (get_sat_hosts events) updates
        (unchecked made updates e))
      h''
  where
    unchecked :
        (m : Result Fault (List RunHost)) (rows : List RunHost) → checked m ≡ ok rows → m ≡ ok rows
    unchecked (ok x) rows p = cc
    unchecked (err f) rows p = cc
