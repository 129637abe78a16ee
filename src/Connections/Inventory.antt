-- ===== src/Connections/Inventory.antt =====
-- Hosts of the inventory: internal/api/connectors/inventory/inventory.go. The answers of the inventory
-- are parameters. A fact that is a number stands as it is printed.
pub mod Sizes
use playbook_dispatcher.Common.{
  ℕ, zero, suc, Bool, true, false, String, Option, none, some, List, [], ◌∷◌, length, if◌then◌else◌,
  ◌==◌, lookup, insert, is_some, Result, ok, err, ◌>>=◌, Fault, index_out_of_range, nil_dereference,
  deref,
}
use playbook_dispatcher.Model.{Uuid}

pub data FactValue : Type 0 where
  float : String → FactValue
  text : String → FactValue
  other : FactValue

pub record FactSet : Type 0 where
  pub namespace : String
  pub facts : List (String × FactValue)

pub record HostOut : Type 0 where
  pub host_id : Option String
  pub fact_sets : Option (List FactSet)

pub record SystemProfile : Type 0 where
  pub profile_owner_id : Option String
  pub profile_rhc_client_id : Option String

pub record SystemProfileOut : Type 0 where
  pub profile_id : Option String
  pub profile : Option SystemProfile

pub record SatelliteFacts : Type 0 where
  pub instance_id : Option String
  pub version : Option String
  pub facts_org_id : Option String

pub record HostDetails : Type 0 where
  pub id : String
  pub owner_id : Option String
  pub satellite_instance_id : Option String
  pub satellite_version : Option String
  pub satellite_org_id : Option String
  pub rhc_client_id : Option String

abbrev pub no_details : HostDetails
no_details = record {
  id = "";
  owner_id = none;
  satellite_instance_id = none;
  satellite_version = none;
  satellite_org_id = none;
  rhc_client_id = none;
}

-- `convertInterfaceToString`
abbrev pub convert_interface_to_string : FactValue → String
convert_interface_to_string (float printed) = printed
convert_interface_to_string (text s) = s
convert_interface_to_string other = ""

abbrev or_old : Option FactValue → Option String → Option String
or_old none old = old
or_old (some value) old = some (convert_interface_to_string value)

abbrev add_facts : FactSet → SatelliteFacts → SatelliteFacts
add_facts fact found =
    if fact.namespace == "satellite"
    then record {
      instance_id = or_old (lookup "satellite_instance_id" fact.facts) found.instance_id;
      version = or_old (lookup "satellite_version" fact.facts) found.version;
      facts_org_id = or_old (lookup "organization_id" fact.facts) found.facts_org_id;
    }
    else found

unfoldable pub collect_facts : SatelliteFacts → List FactSet → SatelliteFacts
unfolding lookup
collect_facts found [] = found
collect_facts found (fact ∷ facts) = collect_facts (add_facts fact found) facts

-- `getSatelliteFacts`
abbrev pub get_satellite_facts : Option (List FactSet) → Result Fault SatelliteFacts
get_satellite_facts facts = deref facts >>= λ facts.
    ok (collect_facts (record { instance_id = none; version = none; facts_org_id = none }) facts)

-- `keySystemProfileResults`, from the map so far.
unfoldable pub key_system_profile_results :
    List (String × SystemProfileOut)
    → List SystemProfileOut
    → Result Fault (List (String × SystemProfileOut))
unfolding insert
key_system_profile_results keyed [] = ok keyed
key_system_profile_results keyed (p ∷ ps) =
    deref p.profile_id >>= λ id. key_system_profile_results (insert id p keyed) ps

-- `systemProfileResults[*host.Id].SystemProfile`; a missing key is a result without a profile.
abbrev pub profile_of : Option SystemProfileOut → Result Fault SystemProfile
profile_of none = err nil_dereference
profile_of (some p) = deref p.profile

unfoldable pub details_of : List (String × SystemProfileOut) → HostOut → Result Fault HostDetails
unfolding lookup collect_facts
details_of profiles host = get_satellite_facts host.fact_sets >>= λ facts.
    deref host.host_id >>= λ id. profile_of (lookup id profiles) >>= λ profile. ok (record {
      id = id;
      owner_id = profile.profile_owner_id;
      satellite_instance_id = facts.instance_id;
      satellite_version = facts.version;
      satellite_org_id = facts.facts_org_id;
      rhc_client_id = profile.profile_rhc_client_id;
    })

-- The rest of a slice that was made with `make`.
unfoldable pub blanks : ℕ → List HostDetails
blanks zero = []
blanks (suc n) = no_details ∷ blanks n

-- The loop that fills the slice of `n` details.
unfoldable pub fill_details :
    List (String × SystemProfileOut) → List HostOut → ℕ → Result Fault (List HostDetails)
unfolding details_of blanks
fill_details profiles [] n = ok (blanks n)
fill_details profiles (host ∷ hosts) zero =
    details_of profiles host >>= λ details. err index_out_of_range
fill_details profiles (host ∷ hosts) (suc n) = details_of profiles host >>= λ details.
    fill_details profiles hosts n >>= λ rest. ok (details ∷ rest)

-- What the two requests are answered; a status 404 for the hosts is an empty list.
pub record InventoryAnswers : Type 0 where
  pub parse_uuid : String → Option Uuid
  pub get_hosts : List Uuid → Result String (List HostOut)
  pub get_profiles : List Uuid → Result String (List SystemProfileOut)

-- `strSliceToUUIDSlice`
abbrev add_uuid : Option Uuid → Result String (List Uuid) → Result String (List Uuid)
add_uuid none rest = err "invalid UUID"
add_uuid (some id) rest = rest >>= λ ids. ok (id ∷ ids)

unfoldable pub str_slice_to_uuid_slice : InventoryAnswers → List String → Result String (List Uuid)
str_slice_to_uuid_slice env [] = ok []
str_slice_to_uuid_slice env (id ∷ ids) =
    add_uuid (env.parse_uuid id) (str_slice_to_uuid_slice env ids)

abbrev pub with_profiles :
    List HostOut
    → ℕ
    → Result String (List SystemProfileOut)
    → Result Fault (Result String (List HostDetails))
with_profiles hosts n (err e) = ok (err e)
with_profiles hosts n (ok profiles) = key_system_profile_results [] profiles >>= λ keyed.
    fill_details keyed hosts n >>= λ details. ok (ok details)

abbrev pub with_hosts :
    InventoryAnswers
    → List Uuid
    → ℕ
    → Result String (List HostOut)
    → Result Fault (Result String (List HostDetails))
with_hosts env uuids n (err e) = ok (err e)
with_hosts env uuids n (ok []) = ok (ok [])
with_hosts env uuids n (ok (host ∷ hosts)) = with_profiles (host ∷ hosts) n (env.get_profiles uuids)

abbrev pub with_uuids :
    InventoryAnswers
    → ℕ
    → Result String (List Uuid)
    → Result Fault (Result String (List HostDetails))
with_uuids env n (err e) = ok (err e)
with_uuids env n (ok uuids) = with_hosts env uuids n (env.get_hosts uuids)

-- `GetHostConnectionDetails`
unfoldable pub get_host_connection_details :
    InventoryAnswers → List String → Result Fault (Result String (List HostDetails))
unfolding str_slice_to_uuid_slice key_system_profile_results fill_details
get_host_connection_details env ids = with_uuids env (length ids) (str_slice_to_uuid_slice env ids)
