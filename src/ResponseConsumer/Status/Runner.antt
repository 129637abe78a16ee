-- ===== src/ResponseConsumer/Status/Runner.antt =====
-- What `inferStatus` answers.
use playbook_dispatcher.Common.{
  ◌⊎◌, inl, inr, ◌≡◌, refl, Bool, true, false, ◌&&◌, ◌||◌, not, String, Option, List, [], ◌∷◌, ◌++◌,
  arith, any, ◌==◌, if◌then◌else◌,
}
use playbook_dispatcher.Model.{RunStatus, running, success, failure, RunnerEvent}
use playbook_dispatcher.ResponseConsumer.Status.{
  event_playbook_on_stats, event_runner_on_failed, event_executor_on_failed, is_for_other,
  status_round, status_loop, infer_status,
}

-- The event ends the run, for the host that is asked about.
abbrev pub ends : Option String → RunnerEvent → Bool
ends host e =
    e.event == event_playbook_on_stats
    || (not (is_for_other host e.event_data) && e.event == event_executor_on_failed)

-- The event is a failure of that host.
abbrev pub fails : Option String → RunnerEvent → Bool
fails host e =
    not (is_for_other host e.event_data)
    && (e.event == event_runner_on_failed || e.event == event_executor_on_failed)

status_round_lem :
    (host : Option String) (e : RunnerEvent) (finished failed : Bool)
    → status_round host e (finished, failed) ≡ (finished || ends host e, failed || fails host e)
unfolding status_round
status_round_lem host e finished failed = ground arith

status_loop_lem :
    (host : Option String) (finished failed : Bool) (es : List RunnerEvent)
    → status_loop host (finished, failed) es
      ≡ (finished || any (ends host) es, failed || any (fails host) es)
unfolding status_loop
status_loop_lem host finished failed [] = ground arith
status_loop_lem host finished failed (e ∷ es) = ground (
  arith,
  status_round_lem host e finished failed,
  status_loop_lem host (finished || ends host e) (failed || fails host e) es,
)

-- `inferStatus` answers running until some event ends the run. Then it answers failure if some event
-- is a failure of the host that is asked about (of any host, if none is), and success otherwise.
pub infer_status_lem :
    (events : List RunnerEvent) (host : Option String)
    → infer_status events host ≡ (
        if any (ends host) events
        then (if any (fails host) events then failure else success)
        else running)
unfolding infer_status
infer_status_lem events host = rw (status_loop_lem host false false events)

any-append {ℓ} :
    {A : Type ℓ} (p : A → Bool) (xs ys : List A) → any p (xs ++ ys) ≡ (any p xs || any p ys)
any-append p [] ys = refl
any-append p (x ∷ xs) ys = ground (arith, any-append p xs ys)

-- The later of two statuses is as final as the earlier one.
abbrev pub IsAsFinal : RunStatus → RunStatus → Type 0
IsAsFinal failure new = new ≡ failure
IsAsFinal running new = Unit
IsAsFinal old new = (new ≡ success) ⊎ (new ≡ failure)

final_flags :
    (ended failed ended' failed' : Bool)
    → IsAsFinal
        (if ended then (if failed then failure else success) else running)
        (if ended || ended' then (if failed || failed' then failure else success) else running)
final_flags true true e f = refl
final_flags true false e true = inr refl
final_flags true false e false = inl refl
final_flags false failed e f = tt

-- Later events never take a failure back, and never set a run that has ended to running.
pub infer_status-append :
    (events later : List RunnerEvent) (host : Option String)
    → IsAsFinal (infer_status events host) (infer_status (events ++ later) host)
infer_status-append events later host =
    rw
      (
        infer_status_lem events host,
        infer_status_lem (events ++ later) host,
        any-append (ends host) events later,
        any-append (fails host) events later,
      )
      (final_flags (any (ends host) events) (any (fails host) events) (any (ends host) later)
        (any (fails host) later))
