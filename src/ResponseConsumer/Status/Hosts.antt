-- ===== src/ResponseConsumer/Status/Hosts.antt =====
-- The status of a Satellite run that has not been reported as completed, from its hosts.
use playbook_dispatcher.Common.{
  ◌≡◌, refl, ◌∙◌, ap, Bool, true, false, ◌||◌, String, Option, none, some, List, [], ◌∷◌, arith,
  any, ◌==◌, eq_iff, eq_refl, if◌then◌else◌, ok, is_some, lookup, keys, lookup-insert, contains,
  IsDistinct, insert-IsDistinct, contains-keys, holds, any-contains, any-ext,
}
use playbook_dispatcher.Model.{
  RunStatus, running, is_running, is_failure, is_canceled, SatEvent, is_completed_type,
}
use playbook_dispatcher.Satellite.{get_sat_hosts}
use playbook_dispatcher.Satellite.Hosts.{names_host, get_sat_hosts_lem}
use playbook_dispatcher.ResponseConsumer.Status.{
  summarize, infer_sat_from, infer_sat_playbook_status, sat_status_event_db_map, status_or,
  note_host, values, enter_host,
}
use playbook_dispatcher.ResponseConsumer.Status.Sat.{verdict, summarize_lem}

-- The status that the host was last reported with, `s` at first.
abbrev pub reported : String → RunStatus → List SatEvent → RunStatus
reported h s [] = s
reported h s (e ∷ es) = reported h (if names_host h e.host then status_or e.status s else s) es

-- `hostStatusMap` at the end of the loop.
abbrev note_all : List (String × RunStatus) → List SatEvent → List (String × RunStatus)
note_all m [] = m
note_all m (e ∷ es) = note_all (note_host e.host e.status m) es

infer_sat_from_open :
    (m : List (String × RunStatus)) (es : List SatEvent)
    → any (λ e. is_completed_type e.type) es ≡ false
    → infer_sat_from m es ≡ ok (summarize false false (values (note_all m es)))
unfolding infer_sat_from
infer_sat_from_open m [] h = refl
infer_sat_from_open m (e ∷ es) h =
    ground (arith, infer_sat_from_open (note_host e.host e.status m) es)

abbrev or_running : Option RunStatus → RunStatus
or_running none = running
or_running (some s) = s

lookup-enter_host :
    (h k : String) (m : List (String × RunStatus))
    → lookup h (enter_host k m) ≡ (if k == h then some (or_running (lookup h m)) else lookup h m)
lookup-enter_host h k m = ground (arith, lookup-insert k h running m, eq_iff k h)

lookup-note_host :
    (h : String) (o st : Option String) (m : List (String × RunStatus))
    → lookup h (note_host o st m)
      ≡ (if names_host h o then some (status_or st (or_running (lookup h m))) else lookup h m)
lookup-note_host h none st m = refl
lookup-note_host h (some k) none m = lookup-enter_host h k m
lookup-note_host h (some k) (some s) m =
    ground (
      arith,
      lookup-insert k h (sat_status_event_db_map s) (enter_host k m),
      lookup-enter_host h k m,
    )

lookup-note_all :
    (h : String) (m : List (String × RunStatus)) (es : List SatEvent)
    → lookup h (note_all m es) ≡ (
        if is_some (lookup h m) || any (λ e. names_host h e.host) es
        then some (reported h (or_running (lookup h m)) es)
        else none)
lookup-note_all h m [] = ground arith
lookup-note_all h m (e ∷ es) = ground (
  arith,
  lookup-note_all h (note_host e.host e.status m) es,
  lookup-note_host h e.host e.status m,
)

enter_host-IsDistinct :
    (k : String) (m : List (String × RunStatus))
    → IsDistinct (keys m)
    → IsDistinct (keys (enter_host k m))
enter_host-IsDistinct k m d = ground (arith, insert-IsDistinct k running m)

note_host-IsDistinct :
    (o st : Option String) (m : List (String × RunStatus))
    → IsDistinct (keys m)
    → IsDistinct (keys (note_host o st m))
note_host-IsDistinct none st m d = d
note_host-IsDistinct (some k) none m d = enter_host-IsDistinct k m d
note_host-IsDistinct (some k) (some s) m d =
    insert-IsDistinct k _ (enter_host k m) (enter_host-IsDistinct k m d)

note_all-IsDistinct :
    (m : List (String × RunStatus)) (es : List SatEvent)
    → IsDistinct (keys m)
    → IsDistinct (keys (note_all m es))
note_all-IsDistinct m [] d = d
note_all-IsDistinct m (e ∷ es) d =
    note_all-IsDistinct (note_host e.host e.status m) es (note_host-IsDistinct e.host e.status m d)

lookup-tail :
    (p : RunStatus → Bool) (j k : String) (v : RunStatus) (m : List (String × RunStatus))
    → contains j (keys m) ≡ false
    → contains k (keys m) ≡ true
    → holds p (lookup k m) ≡ holds p (lookup k ((j, v) ∷ m))
unfolding lookup
lookup-tail p j k v m d c = ground (arith, eq_iff j k)

any-values :
    (p : RunStatus → Bool) (m : List (String × RunStatus))
    → IsDistinct (keys m)
    → any p (values m) ≡ any (λ k. holds p (lookup k m)) (keys m)
any-values p [] d = refl
any-values p ((j, v) ∷ m) d =
    let head : holds p (lookup j ((j, v) ∷ m)) ≡ p v = unfold lookup in ground (arith, eq_refl j) in
    ground (
      arith,
      head,
      any-values p m,
      any-ext (λ k. holds p (lookup k m)) (λ k. holds p (lookup k ((j, v) ∷ m))) (keys m)
          (λ k c. lookup-tail p j k v m d.0 c),
    )

any-note_all :
    (p : RunStatus → Bool) (es : List SatEvent)
    → any p (values (note_all [] es)) ≡ any (λ h. p (reported h running es)) (get_sat_hosts es)
unfolding lookup
any-note_all p es =
    any-values p (note_all [] es) (note_all-IsDistinct [] es tt)
    ∙ any-ext (λ k. holds p (lookup k (note_all [] es))) (λ h. p (reported h running es))
        (keys (note_all [] es)) (λ k c. known k c)
    ∙ any-contains (λ h. p (reported h running es)) (keys (note_all [] es)) (get_sat_hosts es)
        (λ k. same k)
  where
    same : (k : String) → contains k (keys (note_all [] es)) ≡ contains k (get_sat_hosts es)
    same k = ground (
      arith,
      contains-keys k (note_all [] es),
      lookup-note_all k [] es,
      (get_sat_hosts_lem es).0 k,
    )

    known :
        (k : String)
        → contains k (keys (note_all [] es)) ≡ true
        → holds p (lookup k (note_all [] es)) ≡ p (reported k running es)
    known k c = ground (arith, contains-keys k (note_all [] es), lookup-note_all k [] es)

-- While no event reports the run as completed, its status is that of its hosts: those that the events
-- name, each with the status it was last reported with, and running if there is none. The run is
-- running if any host is; otherwise a failure outweighs a cancellation, and that outweighs success.
pub infer_sat_playbook_status_open :
    (events : List SatEvent)
    → any (λ e. is_completed_type e.type) events ≡ false
    → let some_host =
        λ (p : RunStatus → Bool). any (λ h. p (reported h running events)) (get_sat_hosts events) in
      infer_sat_playbook_status events
      ≡ ok (verdict (some_host is_running) (some_host is_failure) (some_host is_canceled))
unfolding infer_sat_playbook_status
infer_sat_playbook_status_open events h =
    infer_sat_from_open [] events h
    ∙ ap ok (
        summarize_lem (values (note_all [] events))
        ∙ rw (
          any-note_all is_running events,
          any-note_all is_failure events,
          any-note_all is_canceled events,
        ))
