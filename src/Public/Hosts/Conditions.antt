-- ===== src/Public/Hosts/Conditions.antt =====
-- The query of a listing of hosts: the join and the conditions of
-- internal/api/controllers/public/runHostsList.go. The query has no order; here the rows come in the
-- order of the table of hosts.
use playbook_dispatcher.Common.{
  ℕ, Bool, false, ◌&&◌, ◌||◌, not, String, Option, none, some, List, [], ◌∷◌, ◌++◌, all, has_none,
  if◌then◌else◌, ◌==◌, contains, lookup, Result, ok, err, ◌>>=◌,
}
use playbook_dispatcher.Model.{Uuid, RunStatus, running, timeout, RunHost}
use playbook_dispatcher.Public.Fields.{Row}
use playbook_dispatcher.Public.Listing.{
  Env, DeepObject, same_status, is_expired, has_labels, label_pairs,
}

pub record HostRow : Type 0 where
  pub run_host : RunHost
  pub row : Row

-- `INNER JOIN runs on runs.id = run_hosts.run_id`
unfoldable pub join_host : RunHost → List Row → List HostRow
join_host h [] = []
join_host h (r ∷ rows) =
    let rest = join_host h rows in
    if r.run.id == h.run_id then record { run_host = h; row = r } ∷ rest else rest

unfoldable pub join_hosts : List RunHost → List Row → List HostRow
unfolding join_host
join_hosts [] rows = []
join_hosts (h ∷ hosts) rows = join_host h rows ++ join_hosts hosts rows

pub record RunHostFilter : Type 0 where
  pub status : Option RunStatus
  pub inventory_id : Option String

-- The two deep objects are those of "filter[run]" and "filter[run][labels]".
pub record HostsRequest : Type 0 where
  pub org_id : String
  pub allowed_services : List String
  pub fields : DeepObject
  pub run_filters : DeepObject
  pub run_labels : DeepObject
  pub query_string : String
  pub filter : Option RunHostFilter
  pub limit : Option ℕ
  pub offset : Option ℕ

abbrev pub HostCondition : Type 0
HostCondition = HostRow → Bool

-- Why a query is not run: the request is refused, or the database refuses a value.
pub data QueryError : Type 0 where
  refused : String → QueryError
  database_error : QueryError

-- The switch on the status filter.
unfoldable pub host_status_conditions : ℕ → RunStatus → List HostCondition
host_status_conditions now timeout =
    (λ h.
      same_status h.row.run.status timeout
      || same_status h.row.run.status running && is_expired now h.row)
    ∷ []
host_status_conditions now running =
    (λ h. same_status h.run_host.status running) ∷ (λ h. not (is_expired now h.row)) ∷ []
host_status_conditions now status = (λ h. same_status h.run_host.status status) ∷ []

abbrev host_status_filter : ℕ → Option RunStatus → List HostCondition
host_status_filter now none = []
host_status_filter now (some status) = host_status_conditions now status

-- A list of values that is compared with `=`: the database takes a single one only.
abbrev single :
    Option (List String)
    → (String → Result QueryError (List HostCondition))
    → Result QueryError (List HostCondition)
single none condition = ok []
single (some (value ∷ [])) condition = condition value
single (some values) condition = err database_error

abbrev has_run_id : Option Uuid → Result QueryError (List HostCondition)
has_run_id none = err database_error
has_run_id (some id) = ok ((λ h. h.run_host.run_id == id) ∷ [])

abbrev is_inventory_id : Uuid → Option Uuid → Bool
is_inventory_id id none = false
is_inventory_id id (some other) = other == id

abbrev has_inventory_id : Option Uuid → Result QueryError (List HostCondition)
has_inventory_id none = err (refused "Unable to parse inventory id!")
has_inventory_id (some id) = ok ((λ h. is_inventory_id id h.run_host.inventory_id) ∷ [])

abbrev inventory_filter : Env → Option String → Result QueryError (List HostCondition)
inventory_filter env none = ok []
inventory_filter env (some text) = has_inventory_id (env.parse_uuid text)

abbrev run_label_filter : DeepObject → List HostCondition
run_label_filter filters =
    let wanted = label_pairs filters in
    if has_none wanted then [] else (λ h. has_labels wanted h.row.run.labels) ∷ []

-- What the parameter `filter` adds; without it the deep objects are not read.
unfoldable pub host_filter_conditions :
    Env → HostsRequest → Option RunHostFilter → Result QueryError (List HostCondition)
unfolding host_status_conditions label_pairs
host_filter_conditions env request none = ok []
host_filter_conditions env request (some f) = inventory_filter env f.inventory_id >>= λ inventory.
    single (lookup "id" request.run_filters) (λ id. has_run_id (env.parse_uuid id)) >>= λ run_ids.
    single (lookup "service" request.run_filters)
      (λ service. ok ((λ h. h.row.run.service == service) ∷ []))
    >>= λ services. ok (
        host_status_filter env.now f.status
        ++ run_ids
        ++ services
        ++ run_label_filter request.run_labels
        ++ inventory)

abbrev pub host_service_condition : List String → List HostCondition
host_service_condition services =
    if has_none services then [] else (λ h. contains h.row.run.service services) ∷ []

abbrev pub all_host_conditions : HostsRequest → List HostCondition → List HostCondition
all_host_conditions request filters =
    (λ h. h.row.run.org_id == request.org_id) ∷ host_service_condition request.allowed_services
    ++ filters

unfoldable pub select_hosts : List HostCondition → List HostRow → List HostRow
select_hosts conditions [] = []
select_hosts conditions (h ∷ hs) =
    let rest = select_hosts conditions hs in
    if all (λ condition. condition h) conditions then h ∷ rest else rest
