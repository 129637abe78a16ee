-- ===== src/Satellite/Hosts.antt =====
-- Which hosts `GetSatHosts` and `GetAnsibleHosts` name. Both fill a map and sort its keys.
use playbook_dispatcher.Common.{
  ◌≡◌, refl, ◌∙◌, Bool, true, false, ◌||◌, Option, none, some, List, [], ◌∷◌, arith, inl, inr,
  Bool-cases, any, String, contains, text_lt, ◌==◌, eq_iff, keys, contains-keys-insert, IsDistinct,
  insert-IsDistinct,
}
use playbook_dispatcher.Model.{SatEvent}
use playbook_dispatcher.Satellite.{
  sort_slice, insert_sorted, add_host, collect_hosts, get_sat_hosts,
}
use playbook_dispatcher.Satellite.Sorting.{contains-insert_sorted, contains-sort_slice}

-- `host != nil && *host == h`
abbrev pub names_host : String → Option String → Bool
names_host h none = false
names_host h (some k) = k == h

pub contains-add_host :
    (h : String) (o : Option String) (hosts : List (String × Bool))
    → contains h (keys (add_host o hosts)) ≡ (names_host h o || contains h (keys hosts))
contains-add_host h none hosts = refl
contains-add_host h (some k) hosts = contains-keys-insert k h true hosts

pub add_host-IsDistinct :
    (o : Option String) (hosts : List (String × Bool))
    → IsDistinct (keys hosts)
    → IsDistinct (keys (add_host o hosts))
add_host-IsDistinct none hosts d = d
add_host-IsDistinct (some k) hosts d = insert-IsDistinct k true hosts d

insert_sorted-IsDistinct :
    (x : String) (ys : List String)
    → contains x ys ≡ false
    → IsDistinct ys
    → IsDistinct (insert_sorted text_lt x ys)
unfolding insert_sorted
insert_sorted-IsDistinct x [] c d = (refl, tt)
insert_sorted-IsDistinct x (y ∷ ys) c d = elim (Bool-cases (text_lt y x)) [
  | inl h ↦ rw h (
    contains-insert_sorted y x ys ∙ ground (arith, eq_iff x y, eq_iff y x),
    insert_sorted-IsDistinct x ys (ground arith) d.1,
  )
  | inr h ↦ rw h (c, d)
]

pub sort_slice-IsDistinct : (xs : List String) → IsDistinct xs → IsDistinct (sort_slice text_lt xs)
unfolding sort_slice
sort_slice-IsDistinct [] d = tt
sort_slice-IsDistinct (x ∷ xs) (c, d) =
    insert_sorted-IsDistinct x (sort_slice text_lt xs) (contains-sort_slice x xs ∙ c)
      (sort_slice-IsDistinct xs d)

contains-collect_hosts :
    (h : String) (hosts : List (String × Bool)) (events : List SatEvent)
    → contains h (keys (collect_hosts hosts events))
      ≡ (contains h (keys hosts) || any (λ e. names_host h e.host) events)
unfolding collect_hosts
contains-collect_hosts h hosts [] = ground arith
contains-collect_hosts h hosts (e ∷ es) =
    ground
      (arith, contains-collect_hosts h (add_host e.host hosts) es, contains-add_host h e.host hosts)

collect_hosts-IsDistinct :
    (hosts : List (String × Bool)) (events : List SatEvent)
    → IsDistinct (keys hosts)
    → IsDistinct (keys (collect_hosts hosts events))
unfolding collect_hosts
collect_hosts-IsDistinct hosts [] d = d
collect_hosts-IsDistinct hosts (e ∷ es) d =
    collect_hosts-IsDistinct (add_host e.host hosts) es (add_host-IsDistinct e.host hosts d)

-- `GetSatHosts` names a host exactly when some event does, and names none twice.
pub get_sat_hosts_lem :
    (events : List SatEvent)
    → ((h : String) → contains h (get_sat_hosts events) ≡ any (λ e. names_host h e.host) events)
      × IsDistinct (get_sat_hosts events)
unfolding get_sat_hosts
get_sat_hosts_lem events = (
  λ h. contains-sort_slice h (keys (collect_hosts [] events)) ∙ contains-collect_hosts h [] events,
  sort_slice-IsDistinct (keys (collect_hosts [] events)) (collect_hosts-IsDistinct [] events tt),
)
