-- ===== src/Public/Hosts.antt =====
-- The listing of hosts: internal/api/controllers/public/runHostsList.go.
mod Conditions
pub mod Visible
pub mod Answers
unfoldable pub use Conditions.*
use playbook_dispatcher.Common.{
  ℕ, Bool, true, false, ◌&&◌, ◌||◌, not, String, Option, none, some, List, [], ◌∷◌, ◌++◌, map,
  length, all, has_none, if◌then◌else◌, ◌==◌, concat, contains, lookup, Result, ok, err, ◌>>=◌,
  Fault, unknown_field,
}
use playbook_dispatcher.Model.{
  Uuid, RunStatus, running, success, failure, timeout, canceled, Run, RunHost,
}
use playbook_dispatcher.Public.Pages.{Links, get_limit, get_offset, create_links, page}
use playbook_dispatcher.Public.Fields.{Row, run_host_fields, default_run_host_fields, parse_fields}
use playbook_dispatcher.Public.Listing.{
  Env, DeepObject, same_status, is_expired, has_labels, label_pairs,
}

-- `mapHostFieldsToSql`
unfoldable pub map_host_fields_to_sql : String → Result Fault String
map_host_fields_to_sql field =
    if "host" == field
    then ok "run_hosts.host"
    else if "run" == field
    then ok "run_hosts.run_id"
    else if "status" == field
    then ok "run_hosts.status"
    else if "stdout" == field
    then ok "run_hosts.log"
    else if "links" == field
    then ok "run_hosts.inventory_id"
    else if "inventory_id" == field
    then ok "run_hosts.inventory_id"
    else err unknown_field

unfoldable pub host_columns : List String → Result Fault (List String)
unfolding map_host_fields_to_sql
host_columns [] = ok []
host_columns (field ∷ fields) = map_host_fields_to_sql field >>= λ column.
    host_columns fields >>= λ columns. ok (column ∷ columns)

pub record ApiRunHost : Type 0 where
  pub host : Option String
  pub stdout : Option String
  pub status : Option RunStatus
  pub run : Option Uuid
  pub links : Option (Option String)
  pub inventory_id : Option Uuid

-- `inventoryLink`
abbrev pub inventory_link : Option Uuid → Option String
inventory_link none = none
inventory_link (some id) = some (concat "/api/inventory/v1/hosts/" id)

abbrev set_inventory_id : Option Uuid → ApiRunHost → ApiRunHost
set_inventory_id none h = h
set_inventory_id (some id) h = record h { inventory_id = some id }

-- The loop over the fields of one host.
unfoldable pub set_host_field : RunHost → String → ApiRunHost → ApiRunHost
set_host_field db field h =
    if "host" == field
    then record h { host = some db.host }
    else if "stdout" == field
    then record h { stdout = some db.log }
    else if "status" == field
    then record h { status = some db.status }
    else if "run" == field
    then record h { run = some db.run_id }
    else if "links" == field
    then record h { links = some (inventory_link db.inventory_id) }
    else if "inventory_id" == field
    then set_inventory_id db.inventory_id h
    else h

unfoldable pub set_host_fields : RunHost → List String → ApiRunHost → ApiRunHost
unfolding set_host_field
set_host_fields db [] h = h
set_host_fields db (field ∷ fields) h = set_host_fields db fields (set_host_field db field h)

abbrev pub empty_host : ApiRunHost
empty_host = record {
  host = none;
  stdout = none;
  status = none;
  run = none;
  links = none;
  inventory_id = none;
}

abbrev pub api_host : List String → HostRow → ApiRunHost
api_host fields h = set_host_fields h.run_host fields empty_host

pub record RunHosts : Type 0 where
  pub hosts_data : List ApiRunHost
  pub count : ℕ
  pub total : ℕ
  pub links : Links

pub data HostsResponse : Type 0 where
  bad_request : String → HostsResponse
  internal_error : HostsResponse
  hosts_listed : RunHosts → HostsResponse

abbrev pub host_page : HostsRequest → List HostRow → List HostRow
host_page request rows = page (get_limit request.limit) (get_offset request.offset) rows

abbrev hosts_reply : Env → HostsRequest → ℕ → List ApiRunHost → HostsResponse
hosts_reply env request total hosts = hosts_listed (record {
  hosts_data = hosts;
  count = length hosts;
  total = total;
  links =
      create_links env.urls "/api/playbook-dispatcher/v1/run_hosts" request.query_string
        (get_limit request.limit) (get_offset request.offset) total;
})

abbrev pub find_hosts :
    Env
    → HostsRequest
    → List String
    → List HostRow
    → Option String
    → Result Fault (List String)
    → Result Fault HostsResponse
find_hosts env request fields rows e (err fault) = err fault
find_hosts env request fields rows (some e) (ok columns) = ok internal_error
find_hosts env request fields rows none (ok columns) =
    ok (hosts_reply env request (length rows) (map (api_host fields) (host_page request rows)))

abbrev pub query_hosts :
    Env → HostsRequest → List String → List HostRow → Option String → Result Fault HostsResponse
query_hosts env request fields rows (some e) = ok internal_error
query_hosts env request fields rows none =
    find_hosts env request fields rows env.find_error (host_columns fields)

abbrev pub filtered_hosts :
    Env
    → HostsRequest
    → List HostRow
    → List String
    → Result QueryError (List HostCondition)
    → Result Fault HostsResponse
filtered_hosts env request rows fields (err (refused e)) = ok (bad_request e)
filtered_hosts env request rows fields (err database_error) = ok internal_error
filtered_hosts env request rows fields (ok filters) =
    query_hosts env request fields (select_hosts (all_host_conditions request filters) rows)
      env.count_error

abbrev pub hosts_with_fields :
    Env → HostsRequest → List HostRow → Result String (List String) → Result Fault HostsResponse
hosts_with_fields env request rows (err e) = ok (bad_request e)
hosts_with_fields env request rows (ok fields) =
    filtered_hosts env request rows fields (host_filter_conditions env request request.filter)

-- `ApiRunHostsList`
unfoldable pub api_run_hosts_list :
    Env → HostsRequest → List RunHost → List Row → Result Fault HostsResponse
unfolding join_hosts select_hosts host_columns host_filter_conditions set_host_fields parse_fields
api_run_hosts_list env request hosts rows =
    hosts_with_fields env request (join_hosts hosts rows)
      (parse_fields request.fields "data" run_host_fields default_run_host_fields)
