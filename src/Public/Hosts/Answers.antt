-- ===== src/Public/Hosts/Answers.antt =====
-- What a request for the hosts of runs is answered, on every branch.
use playbook_dispatcher.Common.{
  ◌≡◌, refl, true, false, ◌||◌, String, Option, none, some, List, ◌++◌, map, length, All, is_some,
  Result, ok, err, Fault, ◌⊎◌, inl, inr, or_true,
}
use playbook_dispatcher.Model.{RunHost}
use mathlib.Core.List.{Perm}
use playbook_dispatcher.Public.Pages.{get_limit, get_offset, page}
use playbook_dispatcher.Public.Fields.{Row, run_host_fields, default_run_host_fields, parse_fields}
use playbook_dispatcher.Public.Fields.Known.{parse_fields-IsKnown}
use playbook_dispatcher.Public.Listing.{Env}
use playbook_dispatcher.Public.Listing.Visible.{All-map}
use playbook_dispatcher.Public.Hosts.{
  HostRow, HostsRequest, HostCondition, QueryError, refused, database_error, RunHosts,
  HostsResponse, bad_request, internal_error, hosts_listed, join_hosts, host_filter_conditions,
  all_host_conditions, select_hosts, api_host, find_hosts, query_hosts, filtered_hosts,
  hosts_with_fields, api_run_hosts_list,
}
use playbook_dispatcher.Public.Hosts.Visible.{
  IsHostVisible, IsJoined, host_meets, select_hosts_lem, conditions-IsHostVisible,
  host_columns-Returns, join_hosts-IsJoined,
}

-- The hosts of a listing. The hosts joined with their runs are what is found and what is left out: a host
-- is found if it is visible to the request and meets the conditions, and left out if it fails one. One
-- page of what is found is shown, and `total` counts all of it.
abbrev pub IsHostListing : Env → HostsRequest → List RunHost → List Row → RunHosts → Type 0
IsHostListing env request hosts runs reply =
    (fields : List String) × (filters : List HostCondition) × (found : List HostRow)
    × (left_out : List HostRow) × (parse_fields request.fields "data" run_host_fields
          default_run_host_fields
        ≡ ok fields)
    × (host_filter_conditions env request request.filter ≡ ok filters)
    × Perm (found ++ left_out) (join_hosts hosts runs)
    × All (IsHostVisible request hosts runs) found
    × All (λ h. host_meets (all_host_conditions request filters) h ≡ true) found
    × All (λ h. host_meets (all_host_conditions request filters) h ≡ false) left_out
    × (reply.hosts_data
        ≡ map (api_host fields) (page (get_limit request.limit) (get_offset request.offset) found))
    × (reply.total ≡ length found)

abbrev pub IsHostsAnswer :
    Env → HostsRequest → List RunHost → List Row → Result Fault HostsResponse → Type 0
IsHostsAnswer env request hosts runs (err fault) = ⊥
IsHostsAnswer env request hosts runs (ok (bad_request e)) =
    (parse_fields request.fields "data" run_host_fields default_run_host_fields ≡ err e)
    ⊎ (host_filter_conditions env request request.filter ≡ err (refused e))
IsHostsAnswer env request hosts runs (ok internal_error) =
    ((is_some env.count_error || is_some env.find_error) ≡ true)
    ⊎ (host_filter_conditions env request request.filter ≡ err database_error)
IsHostsAnswer env request hosts runs (ok (hosts_listed reply)) =
    IsHostListing env request hosts runs reply

module _ (env : Env) (request : HostsRequest) (hosts : List RunHost) (runs : List Row)
    (fields : List String)
    (known : parse_fields request.fields "data" run_host_fields default_run_host_fields
      ≡ ok fields) where
  abbrev rows : List HostRow
  rows = join_hosts hosts runs

  module _ (filters : List HostCondition)
      (valid : host_filter_conditions env request request.filter ≡ ok filters) where
    abbrev matching : List HostRow
    matching = select_hosts (all_host_conditions request filters) rows

    find_hosts-IsHostsAnswer :
        (e : Option String) (columns : List String)
        → env.find_error ≡ e
        → IsHostsAnswer env request hosts runs
            (find_hosts env request fields matching e (ok columns))
    find_hosts-IsHostsAnswer (some e) columns p =
        inl (rw (p, or_true (is_some env.count_error)) refl)
    find_hosts-IsHostsAnswer none columns p =
        let (kept, (left_out, q, others)) =
          select_hosts_lem (IsJoined hosts runs) (all_host_conditions request filters) rows
            (join_hosts-IsJoined hosts runs hosts (λ h m. m)) in
        (
          fields,
          filters,
          matching,
          left_out,
          known,
          valid,
          q,
          All-map (λ h k. conditions-IsHostVisible hosts runs request filters h k.0 k.1) matching
              kept,
          All-map (λ h k. k.1) matching kept,
          others,
          refl,
          refl,
        )

    query_hosts-IsHostsAnswer :
        (e : Option String)
        → env.count_error ≡ e
        → IsHostsAnswer env request hosts runs (query_hosts env request fields matching e)
    query_hosts-IsHostsAnswer (some e) p = inl (rw p refl)
    query_hosts-IsHostsAnswer none p =
        let (columns, c) = host_columns-Returns fields (
          parse_fields-IsKnown request.fields "data" run_host_fields default_run_host_fields
            (refl, (refl, (refl, tt))) known) in
        rw c (find_hosts-IsHostsAnswer env.find_error columns refl)

  filtered-IsHostsAnswer :
      (filters : Result QueryError (List HostCondition))
      → host_filter_conditions env request request.filter ≡ filters
      → IsHostsAnswer env request hosts runs (filtered_hosts env request rows fields filters)
  filtered-IsHostsAnswer (err (refused e)) p = inr p
  filtered-IsHostsAnswer (err database_error) p = inr p
  filtered-IsHostsAnswer (ok filters) p = query_hosts-IsHostsAnswer filters p env.count_error refl

with_fields-IsHostsAnswer :
    (env : Env) (request : HostsRequest) (hosts : List RunHost) (runs : List Row)
    (fields : Result String (List String))
    → parse_fields request.fields "data" run_host_fields default_run_host_fields ≡ fields
    → IsHostsAnswer env request hosts runs
        (hosts_with_fields env request (join_hosts hosts runs) fields)
with_fields-IsHostsAnswer env request hosts runs (err e) p = inl p
with_fields-IsHostsAnswer env request hosts runs (ok fields) p =
    filtered-IsHostsAnswer env request hosts runs fields p
      (host_filter_conditions env request request.filter) refl

-- A listing of hosts never panics. It is refused with 400 only for an unknown field or an inventory id
-- that is no uuid, and with 500 only for an error of the database. Else the rows of the join divide into
-- those that meet every condition, each a host of the table with its own run, which is of the request's
-- org and, where services are set, of one of these, and those that fail one; the former are counted, and
-- the page of the limit and the offset is shown of them.
pub api_run_hosts_list-IsHostsAnswer :
    (env : Env) (request : HostsRequest) (hosts : List RunHost) (runs : List Row)
    → IsHostsAnswer env request hosts runs (api_run_hosts_list env request hosts runs)
unfolding api_run_hosts_list
api_run_hosts_list-IsHostsAnswer env request hosts runs =
    with_fields-IsHostsAnswer env request hosts runs
      (parse_fields request.fields "data" run_host_fields default_run_host_fields) refl
