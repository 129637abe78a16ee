-- ===== src/Connections/Status.antt =====
-- The connections of hosts: internal/api/controllers/private/highlevelConnectionStatus.go. The answers of
-- the inventory, of sources and of Cloud Connector are parameters. The groups of hosts stand in an order
-- of their own, as those of a map do.
pub mod Grouping
pub mod Reported
use playbook_dispatcher.Common.{
  ℕ, ◌+◌, Bool, true, false, String, Option, none, some, List, [], ◌∷◌, ◌++◌, map, length, ◌&&◌,
  ltb, if◌then◌else◌, ◌==◌, concat, is_some, Result, ok, err, ◌>>=◌, Fault, deref,
}
use playbook_dispatcher.Model.{Uuid}
use playbook_dispatcher.Connections.Inventory.{
  HostDetails, InventoryAnswers, get_host_connection_details,
}
use playbook_dispatcher.Connections.Recipients.{ConnectionStatus, connected, disconnected}

pub data RecipientType : Type 0 where
  satellite direct_connect no_recipient : RecipientType

pub record RecipientWithConnectionInfo : Type 0 where
  pub info_org_id : String
  pub recipient : Uuid
  pub recipient_type : RecipientType
  pub sat_id : String
  pub info_sat_org_id : String
  pub info_status : String
  pub systems : List String

pub record SourceConnectionStatus : Type 0 where
  pub source_id : String
  pub source_rhc_id : Option String
  pub availability_status : Option String

pub record RhcSatellite : Type 0 where
  pub satellite_id : String
  pub sat_org_id : String
  pub sat_version : String
  pub hosts : List String
  pub sat_source_id : String
  pub sat_rhc_client_id : Option String
  pub source_availability_status : Option String

pub record StatusAnswers : Type 0 where
  pub inventory : InventoryAnswers
  pub parse_recipient : String → Option Uuid
  pub connection : String → String → Result String ConnectionStatus
  pub source_details : String → Result String SourceConnectionStatus

-- `sortHostsByRecipient`
pub record SortedHosts : Type 0 where
  pub on_satellite : List HostDetails
  pub direct : List HostDetails
  pub no_rhc : List HostDetails

abbrev pub sort_host : Option String → Option String → HostDetails → SortedHosts → SortedHosts
sort_host (some s) client host sorted = record sorted { on_satellite = host ∷ sorted.on_satellite }
sort_host none (some c) host sorted = record sorted { direct = host ∷ sorted.direct }
sort_host none none host sorted = record sorted { no_rhc = host ∷ sorted.no_rhc }

unfoldable pub sort_hosts_by_recipient : List HostDetails → SortedHosts
sort_hosts_by_recipient [] = record { on_satellite = []; direct = []; no_rhc = [] }
sort_hosts_by_recipient (host ∷ hosts) =
    sort_host host.satellite_instance_id host.rhc_client_id host (sort_hosts_by_recipient hosts)

abbrev text_or_empty : Option String → String
text_or_empty none = ""
text_or_empty (some s) = s

abbrev nil_uuid : Uuid
nil_uuid = "00000000-0000-0000-0000-000000000000"

abbrev parsed_or_nil : Option Uuid → Uuid
parsed_or_nil none = nil_uuid
parsed_or_nil (some id) = id

abbrev client_uuid : StatusAnswers → Option String → Uuid
client_uuid env none = nil_uuid
client_uuid env (some id) = parsed_or_nil (env.parse_recipient id)

-- `formatConnectionResponse`
abbrev pub format_connection_response :
    StatusAnswers
    → Option String
    → Option String
    → Option String
    → String
    → List String
    → RecipientType
    → String
    → RecipientWithConnectionInfo
format_connection_response env sat sat_org client org hosts type status = record {
  info_org_id = org;
  recipient = client_uuid env client;
  recipient_type = type;
  sat_id = text_or_empty sat;
  info_sat_org_id = text_or_empty sat_org;
  info_status = status;
  systems = hosts;
}

abbrev pub status_text : ConnectionStatus → String
status_text connected = "connected"
status_text disconnected = "disconnected"

-- A reply of Cloud Connector, added to those of the recipients that follow; an error ends the loop.
abbrev pub add_response :
    Result String ConnectionStatus
    → (ConnectionStatus → RecipientWithConnectionInfo)
    → Option (List RecipientWithConnectionInfo)
    → Option (List RecipientWithConnectionInfo)
add_response (err e) response rest = none
add_response (ok status) response none = none
add_response (ok status) response (some rest) = some (response status ∷ rest)

abbrev pub respond_then :
    Result String ConnectionStatus
    → (ConnectionStatus → RecipientWithConnectionInfo)
    → Result Fault (Option (List RecipientWithConnectionInfo))
    → Result Fault (Option (List RecipientWithConnectionInfo))
respond_then (err e) response rest = ok none
respond_then (ok status) response rest =
    rest >>= λ responses. ok (add_response (ok status) response responses)

-- `getDirectConnectStatus`; nothing stands for the status 500 that is written.
unfoldable pub get_direct_connect_status :
    StatusAnswers
    → String
    → List HostDetails
    → Result Fault (Option (List RecipientWithConnectionInfo))
get_direct_connect_status env org [] = ok (some [])
get_direct_connect_status env org (host ∷ hosts) = deref host.rhc_client_id >>= λ client.
    respond_then (env.connection org client)
      (λ status.
        format_connection_response env none none host.rhc_client_id org (host.id ∷ [])
          direct_connect (status_text status))
      (get_direct_connect_status env org hosts)

abbrev pub add_in_group :
    Bool
    → String
    → RhcSatellite
    → String
    → List (String × RhcSatellite)
    → List (String × RhcSatellite)
    → List (String × RhcSatellite)
add_in_group true k s id groups rest = (k, record s { hosts = s.hosts ++ id ∷ [] }) ∷ groups
add_in_group false k s id groups rest = (k, s) ∷ rest

abbrev pub add_to :
    String → RhcSatellite → String → List (String × RhcSatellite) → List (String × RhcSatellite)
add_to key new id [] = (key, new) ∷ []
add_to key new id ((k, s) ∷ groups) =
    add_in_group (key == k) k s id groups (add_to key new id groups)

abbrev pub new_satellite : String → String → HostDetails → RhcSatellite
new_satellite instance org host = record {
  satellite_id = instance;
  sat_org_id = org;
  sat_version = text_or_empty host.satellite_version;
  hosts = host.id ∷ [];
  sat_source_id = "";
  sat_rhc_client_id = none;
  source_availability_status = none;
}

-- `groupHostsBySatellite`, from the groups so far.
unfoldable pub group_hosts_by_satellite :
    List (String × RhcSatellite) → List HostDetails → Result Fault (List (String × RhcSatellite))
group_hosts_by_satellite groups [] = ok groups
group_hosts_by_satellite groups (host ∷ hosts) = deref host.satellite_instance_id >>= λ sat.
    deref host.satellite_org_id >>= λ org.
    group_hosts_by_satellite (add_to (concat sat org) (new_satellite sat org host) host.id groups)
      hosts

-- `getSourceInfo`
abbrev pub set_source : Result String SourceConnectionStatus → RhcSatellite → RhcSatellite
set_source (err e) s = s
set_source (ok source) s = record s {
  sat_source_id = source.source_id;
  sat_rhc_client_id = source.source_rhc_id;
  source_availability_status = source.availability_status;
}

unfoldable pub get_source_info :
    StatusAnswers → List (String × RhcSatellite) → List (String × RhcSatellite)
get_source_info env [] = []
get_source_info env ((k, s) ∷ groups) =
    (k, set_source (env.source_details s.satellite_id) s) ∷ get_source_info env groups

abbrev pub respond_for :
    StatusAnswers
    → String
    → RhcSatellite
    → Option String
    → Option (List RecipientWithConnectionInfo)
    → Option (List RecipientWithConnectionInfo)
respond_for env org s none rest = rest
respond_for env org s (some client) rest =
    add_response (env.connection s.sat_org_id client)
      (λ status.
        format_connection_response env (some s.satellite_id) (some s.sat_org_id) (some client) org
          s.hosts satellite (status_text status))
      rest

-- `createSatelliteConnectionResponses`
unfoldable pub create_satellite_connection_responses :
    StatusAnswers
    → String
    → List (String × RhcSatellite)
    → Option (List RecipientWithConnectionInfo)
create_satellite_connection_responses env org [] = some []
create_satellite_connection_responses env org ((k, s) ∷ groups) =
    respond_for env org s s.sat_rhc_client_id (create_satellite_connection_responses env org groups)

-- `getSatelliteStatus`
unfoldable pub get_satellite_status :
    StatusAnswers
    → String
    → List HostDetails
    → Result Fault (Option (List RecipientWithConnectionInfo))
unfolding group_hosts_by_satellite get_source_info create_satellite_connection_responses
get_satellite_status env org hosts = group_hosts_by_satellite [] hosts >>= λ groups.
    ok (create_satellite_connection_responses env org (get_source_info env groups))

abbrev pub ids_of : List HostDetails → List String
ids_of [] = []
ids_of (host ∷ hosts) = host.id ∷ ids_of hosts

-- `getRHCStatus`, for the hosts that are not connected, if there are any.
abbrev pub no_rhc_responses :
    StatusAnswers → String → List HostDetails → List RecipientWithConnectionInfo
no_rhc_responses env org [] = []
no_rhc_responses env org (host ∷ hosts) =
    format_connection_response env none none none org (ids_of (host ∷ hosts)) no_recipient
      "rhc_not_configured"
    ∷ []

-- The status that is written first, and the list that is written last.
pub record StatusReply : Type 0 where
  pub code : ℕ
  pub body : List RecipientWithConnectionInfo

abbrev or_none_written :
    Option (List RecipientWithConnectionInfo) → List RecipientWithConnectionInfo
or_none_written none = []
or_none_written (some responses) = responses

-- `concatResponses`
abbrev pub reply_of :
    Option (List RecipientWithConnectionInfo)
    → Option (List RecipientWithConnectionInfo)
    → List RecipientWithConnectionInfo
    → StatusReply
reply_of sats directs others = record {
  code = if is_some sats && is_some directs then 200 else 500;
  body = (or_none_written sats ++ or_none_written directs) ++ others;
}

unfoldable pub answer_sorted : StatusAnswers → String → SortedHosts → Result Fault StatusReply
unfolding get_satellite_status get_direct_connect_status
answer_sorted env org sorted = get_satellite_status env org sorted.on_satellite >>= λ sats.
    get_direct_connect_status env org sorted.direct >>= λ directs.
    ok (reply_of sats directs (no_rhc_responses env org sorted.no_rhc))

unfoldable pub answer_details :
    StatusAnswers → String → Result String (List HostDetails) → Result Fault StatusReply
unfolding sort_hosts_by_recipient answer_sorted
answer_details env org (err e) = ok (record { code = 400; body = [] })
answer_details env org (ok details) = answer_sorted env org (sort_hosts_by_recipient details)

-- `ApiInternalHighlevelConnectionStatus`; without hosts each of its steps gives an empty list, as its
-- early returns do.
unfoldable pub api_internal_highlevel_connection_status :
    StatusAnswers → String → List String → Result Fault StatusReply
unfolding get_host_connection_details answer_details
api_internal_highlevel_connection_status env org input =
    if ltb 50 (length input)
    then ok (record { code = 400; body = [] })
    else (get_host_connection_details env.inventory input >>= λ details.
        answer_details env org details)
