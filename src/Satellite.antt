-- ===== src/Satellite.antt =====
-- internal/common/satellite/satellite.go. `sort.Slice` leaves the order of events that compare
-- equal open; the insertion sort keeps it, as Go's does for up to twelve items. The loop of
-- `GetSatHosts` fills a map whose keys are then sorted.
pub mod Sorting
pub mod Hosts
use playbook_dispatcher.Common.{
  ℕ, suc, Bool, true, false, String, Option, none, some, List, [], ◌∷◌, if◌then◌else◌, ltb, eqb,
  ◌==◌, concat, text_lt, keys, insert, Result, ok, ◌>>=◌, Fault, deref, not,
}
use playbook_dispatcher.Model.{SatEvent}

-- `sort.Slice` and `sort.SliceStable`, for the test `less`.
module _ {ℓ} {A : Type ℓ} (less : A → A → Bool) where
  unfoldable pub insert_sorted : A → List A → List A
  insert_sorted x [] = x ∷ []
  insert_sorted x (y ∷ ys) = if less y x then y ∷ insert_sorted x ys else x ∷ y ∷ ys

  unfoldable pub sort_slice : List A → List A
  sort_slice [] = []
  sort_slice (x ∷ xs) = insert_sorted x (sort_slice xs)

-- The `less` of `SortSatEvents`: an event without a sequence goes last.
abbrev pub sequence_less : Option ℕ → Option ℕ → Bool
sequence_less none b = false
sequence_less (some a) none = true
sequence_less (some a) (some b) = ltb a b

unfoldable pub sort_sat_events : List SatEvent → List SatEvent
unfolding sort_slice insert_sorted
sort_sat_events events = sort_slice (λ a b. sequence_less a.sequence b.sequence) events

-- One round of the loop of `GetSatHosts`.
abbrev pub add_host : Option String → List (String × Bool) → List (String × Bool)
add_host none hosts = hosts
add_host (some h) hosts = insert h true hosts

unfoldable pub collect_hosts : List (String × Bool) → List SatEvent → List (String × Bool)
collect_hosts hosts [] = hosts
collect_hosts hosts (e ∷ es) = collect_hosts (add_host e.host hosts) es

unfoldable pub get_sat_hosts : List SatEvent → List String
unfolding collect_hosts insert sort_slice insert_sorted
get_sat_hosts events = sort_slice text_lt (keys (collect_hosts [] events))

pub record SatHostInfo : Type 0 where
  pub sequence : Option ℕ
  pub console : String

-- `event.Host != nil && *event.Host != *host`
abbrev pub is_other_host : Option String → String → Bool
is_other_host none host = false
is_other_host (some h) host = not (h == host)

abbrev pub or_else : Option ℕ → Option ℕ → Option ℕ
or_else none old = old
or_else (some s) old = some s

abbrev pub append_console : Option String → String → String
append_console none console = console
append_console (some s) console = concat console s

-- `if code != nil && *code != 0 { console += *error }`
abbrev pub append_error : Option ℕ → Option String → String → Result Fault String
append_error none error console = ok console
append_error (some code) error console =
    if eqb code 0 then ok console else (deref error >>= λ text. ok (concat console text))

-- What one event of the host adds.
unfoldable pub add_host_event : SatEvent → SatHostInfo → Result Fault SatHostInfo
add_host_event e info = do
  let console = append_console e.console info.console
  connection ← append_error e.satellite_connection_code e.satellite_connection_error console
  final ← append_error e.satellite_infrastructure_code e.satellite_infrastructure_error connection
  ok (record { sequence = or_else e.sequence info.sequence; console = final })

unfoldable pub host_info_from : String → SatHostInfo → List SatEvent → Result Fault SatHostInfo
unfolding add_host_event
host_info_from host info [] = ok info
host_info_from host info (e ∷ es) =
    let skip = host_info_from host info es in
    let take = (add_host_event e info >>= λ next. host_info_from host next es) in
    if is_other_host e.host host then skip else take

unfoldable pub get_sat_host_info : List SatEvent → String → Result Fault SatHostInfo
unfolding host_info_from
get_sat_host_info events host =
    host_info_from host (record { sequence = none; console = "" }) events
