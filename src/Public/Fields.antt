-- ===== src/Public/Fields.antt =====
-- The fields of a listing: `parseFields` of internal/api/controllers/public/common.go, and
-- conversions.go. `Row` is a run with its time stamps, in seconds.
pub mod Known
use playbook_dispatcher.Common.{
  ℕ, Bool, true, false, String, Option, none, some, List, [], ◌∷◌, ◌++◌, if◌then◌else◌, ◌==◌,
  concat, split, contains, lookup, Result, ok, err, ◌>>=◌, Fault, unknown_field,
}
use playbook_dispatcher.Model.{Uuid, RunStatus, Run}

pub record Row : Type 0 where
  pub run : Run
  pub created_at : ℕ
  pub updated_at : ℕ

pub record ApiRun : Type 0 where
  pub id : Option Uuid
  pub org_id : Option String
  pub recipient : Option Uuid
  pub url : Option String
  pub labels : Option (List (String × String))
  pub timeout : Option ℕ
  pub status : Option RunStatus
  pub name : Option String
  pub web_console_url : Option String
  pub created_at : Option ℕ
  pub updated_at : Option ℕ
  pub service : Option String
  pub correlation_id : Option Uuid

abbrev pub empty_run : ApiRun
empty_run = record {
  id = none;
  org_id = none;
  recipient = none;
  url = none;
  labels = none;
  timeout = none;
  status = none;
  name = none;
  web_console_url = none;
  created_at = none;
  updated_at = none;
  service = none;
  correlation_id = none;
}

-- `runFields` and `runHostFields`; of these maps only the keys matter.
abbrev pub run_fields : List String
run_fields =
    "id" ∷ "org_id" ∷ "recipient" ∷ "url" ∷ "labels" ∷ "timeout" ∷ "status" ∷ "name"
    ∷ "web_console_url" ∷ "created_at" ∷ "updated_at" ∷ "service" ∷ "correlation_id" ∷ []

abbrev pub run_host_fields : List String
run_host_fields = "host" ∷ "run" ∷ "status" ∷ "stdout" ∷ "links" ∷ "inventory_id" ∷ []

abbrev pub default_run_fields : List String
default_run_fields = "id" ∷ "org_id" ∷ "recipient" ∷ "url" ∷ "labels" ∷ "timeout" ∷ "status" ∷ []

abbrev pub default_run_host_fields : List String
default_run_host_fields = "host" ∷ "run" ∷ "status" ∷ []

-- The inner loop of `parseFields`.
unfoldable pub parse_names : List String → List String → Result String (List String)
parse_names known [] = ok []
parse_names known (field ∷ fields) =
    let rest = parse_names known fields in
    if contains field known
    then (rest >>= λ parsed. ok (field ∷ parsed))
    else err (concat "unknown field: " field)

unfoldable pub parse_values : List String → List String → Result String (List String)
unfolding parse_names split
parse_values known [] = ok []
parse_values known (value ∷ values) = parse_names known (split 44 value) >>= λ parsed.
    parse_values known values >>= λ rest. ok (parsed ++ rest)

abbrev pub parse_selected :
    List String → List String → Option (List String) → Result String (List String)
parse_selected known defaults none = ok defaults
parse_selected known defaults (some values) = parse_values known values

-- `parseFields`
unfoldable pub parse_fields :
    List (String × List String) → String → List String → List String → Result String (List String)
unfolding parse_values
parse_fields input key known defaults = parse_selected known defaults (lookup key input)

-- One round of the loop of `dbRuntoApiRun`.
unfoldable pub set_field : Row → String → ApiRun → Result Fault ApiRun
set_field r field run =
    if "id" == field
    then ok (record run { id = some r.run.id })
    else if "org_id" == field
    then ok (record run { org_id = some r.run.org_id })
    else if "recipient" == field
    then ok (record run { recipient = some r.run.recipient })
    else if "url" == field
    then ok (record run { url = some r.run.url })
    else if "labels" == field
    then ok (record run { labels = some r.run.labels })
    else if "timeout" == field
    then ok (record run { timeout = some r.run.timeout_s })
    else if "status" == field
    then ok (record run { status = some r.run.status })
    else if "name" == field
    then ok (named r.run.playbook_name run)
    else if "web_console_url" == field
    then ok (record run { web_console_url = some r.run.playbook_run_url })
    else if "created_at" == field
    then ok (record run { created_at = some r.created_at })
    else if "updated_at" == field
    then ok (record run { updated_at = some r.updated_at })
    else if "service" == field
    then ok (record run { service = some r.run.service })
    else if "correlation_id" == field
    then ok (record run { correlation_id = some r.run.correlation_id })
    else err unknown_field
  where
    named : Option String → ApiRun → ApiRun
    named none run = run
    named (some name) run = record run { name = some name }

-- `dbRuntoApiRun`, from the run so far.
unfoldable pub set_fields : Row → List String → ApiRun → Result Fault ApiRun
unfolding set_field
set_fields r [] run = ok run
set_fields r (field ∷ fields) run = set_field r field run >>= λ next. set_fields r fields next

unfoldable pub db_run_to_api_run : Row → List String → Result Fault ApiRun
unfolding set_fields
db_run_to_api_run r fields = set_fields r fields empty_run
