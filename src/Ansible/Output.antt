-- ===== src/Ansible/Output.antt =====
-- The output that `GetStdout` puts together for a whole run, and the hosts of a run.
use text.Mathlib.TextLemmas.{append_assoc, append-nil, nil-append}
use playbook_dispatcher.Common.{
  ◌≡◌, refl, ◌∙◌, sym, Bool, true, false, ◌||◌, Option, none, some, List, [], ◌∷◌, arith, any,
  String, contains, IsDistinct, ◌==◌, keys, if◌then◌else◌, concat, ltb, ok,
}
use playbook_dispatcher.Model.{RunnerEvent, integer_lt, Integer}
use playbook_dispatcher.Satellite.{sort_slice, add_host}
use playbook_dispatcher.Satellite.Sorting.{IsSorted, sort_slice-IsSorted, contains-sort_slice}
use playbook_dispatcher.Satellite.Hosts.{
  names_host, contains-add_host, add_host-IsDistinct, sort_slice-IsDistinct,
}
use playbook_dispatcher.Ansible.{
  event_host, collect_hosts, get_ansible_hosts, event_executor_on_failed, append_stdout,
  stdout_from, append_details, get_stdout,
}

-- What an event prints, whose output spans lines or does not.
abbrev pub printed : Option String → Bool → String
printed none spans = ""
printed (some text) spans = if spans then concat text "\n" else text

-- What the events print, one after another.
abbrev pub transcript : List RunnerEvent → String
transcript [] = ""
transcript (e ∷ es) = concat (printed e.stdout (ltb e.start_line e.end_line)) (transcript es)

-- The last executor failure among the events, if there is one.
abbrev pub last_failure : Option RunnerEvent → List RunnerEvent → Option RunnerEvent
last_failure found [] = found
last_failure found (e ∷ es) =
    last_failure (if e.event == event_executor_on_failed then some e else found) es

append_stdout_lem :
    (o : Option String) (spans : Bool) (result : String)
    → append_stdout o spans result ≡ concat result (printed o spans)
append_stdout_lem none spans result = sym (append-nil result)
append_stdout_lem (some text) true result = append_assoc result text "\n"
append_stdout_lem (some text) false result = refl

stdout_from_lem :
    (failed : Option RunnerEvent) (result : String) (es : List RunnerEvent)
    → stdout_from none failed result es ≡ ok (last_failure failed es, concat result (transcript es))
unfolding stdout_from
stdout_from_lem failed result [] = rw append-nil
stdout_from_lem failed result (e ∷ es) =
    let spans = ltb e.start_line e.end_line in
    let failed' = if e.event == event_executor_on_failed then some e else failed in
    rw (append_stdout_lem e.stdout spans result) (
      stdout_from_lem failed' (concat result (printed e.stdout spans)) es
      ∙ rw (append_assoc result (printed e.stdout spans) (transcript es)))

integer_lt_asym : (a b : Integer) → integer_lt a b ≡ true → integer_lt b a ≡ false
integer_lt_asym a b h = ground arith

integer_lt_neg_trans :
    (a b c : Integer) → integer_lt b a ≡ false → integer_lt c b ≡ false → integer_lt c a ≡ false
integer_lt_neg_trans a b c h k = ground arith

-- The events in the order of their counters.
abbrev pub by_counter : List RunnerEvent → List RunnerEvent
by_counter events = sort_slice (λ a b. integer_lt a.counter b.counter) events

pub get_stdout_lem :
    (events : List RunnerEvent)
    → (get_stdout events none
        ≡ ok (
            append_details
              (last_failure none (by_counter events))
              (transcript (by_counter events))))
      × IsSorted (λ a b. integer_lt a.counter b.counter) (by_counter events)
unfolding get_stdout
get_stdout_lem events = (
  rw (stdout_from_lem none "" (by_counter events), nil-append),
  sort_slice-IsSorted (λ a b. integer_lt a.counter b.counter)
      (λ a b. integer_lt_asym a.counter b.counter)
      (λ a b c. integer_lt_neg_trans a.counter b.counter c.counter) events,
)

contains-collect_hosts :
    (h : String) (hosts : List (String × Bool)) (events : List RunnerEvent)
    → contains h (keys (collect_hosts hosts events))
      ≡ (contains h (keys hosts) || any (λ e. names_host h (event_host e.event_data)) events)
unfolding collect_hosts
contains-collect_hosts h hosts [] = ground arith
contains-collect_hosts h hosts (e ∷ es) = ground (
  arith,
  contains-collect_hosts h (add_host (event_host e.event_data) hosts) es,
  contains-add_host h (event_host e.event_data) hosts,
)

collect_hosts-IsDistinct :
    (hosts : List (String × Bool)) (events : List RunnerEvent)
    → IsDistinct (keys hosts)
    → IsDistinct (keys (collect_hosts hosts events))
unfolding collect_hosts
collect_hosts-IsDistinct hosts [] d = d
collect_hosts-IsDistinct hosts (e ∷ es) d =
    collect_hosts-IsDistinct (add_host (event_host e.event_data) hosts) es
      (add_host-IsDistinct (event_host e.event_data) hosts d)

-- `GetAnsibleHosts` names a host exactly when the data of some event does, and names none twice.
pub get_ansible_hosts_lem :
    (events : List RunnerEvent)
    → ((h : String)
        → contains h (get_ansible_hosts events)
          ≡ any (λ e. names_host h (event_host e.event_data)) events)
      × IsDistinct (get_ansible_hosts events)
unfolding get_ansible_hosts
get_ansible_hosts_lem events = (
  λ h. contains-sort_slice h (keys (collect_hosts [] events)) ∙ contains-collect_hosts h [] events,
  sort_slice-IsDistinct (keys (collect_hosts [] events)) (collect_hosts-IsDistinct [] events tt),
)
