-- ===== src/Public/Listing/Conditions.antt =====
-- The query of a listing of runs: the conditions and the order of internal/api/controllers/public/runsList.go.
-- Each `Where` adds a test that a row has to pass. A label filter asks for labels that a run has, with
-- those values. `now` is `NOW()`, in seconds. Marshalling the labels does not fail, since they are texts.
use playbook_dispatcher.Common.{
  ℕ, ◌+◌, Bool, true, false, ◌&&◌, ◌||◌, not, String, Option, none, some, List, [], ◌∷◌, ◌++◌, all,
  has_none, if◌then◌else◌, ltb, leb, eqb, ◌==◌, text_lt, concat, split, contains, lookup, Result,
  ok, err, ◌>>=◌,
}
use playbook_dispatcher.Model.{
  Uuid, RunStatus, running, success, failure, timeout, canceled, is_running,
}
use playbook_dispatcher.Public.Pages.{Urls}
use playbook_dispatcher.Public.Fields.{Row}

-- What surrounds a listing: the time, the reading of uuids, and errors of the database.
pub record Env : Type 0 where
  pub now : ℕ
  pub parse_uuid : String → Option Uuid
  pub count_error : Option String
  pub find_error : Option String
  pub urls : Urls

pub record RunsFilter : Type 0 where
  pub status : Option RunStatus
  pub recipient : Option String
  pub service : Option String

pub record ListParams : Type 0 where
  pub filter : Option RunsFilter
  pub sort_by : Option String
  pub limit : Option ℕ
  pub offset : Option ℕ

abbrev pub DeepObject : Type 0
DeepObject = List (String × List String)

-- The identity's org, the services of the middleware, the two deep objects and the query string.
pub record Request : Type 0 where
  pub org_id : String
  pub allowed_services : List String
  pub fields : DeepObject
  pub labels : DeepObject
  pub query_string : String
  pub params : ListParams

abbrev pub Condition : Type 0
Condition = Row → Bool

abbrev pub same_status : RunStatus → RunStatus → Bool
same_status running running = true
same_status success success = true
same_status failure failure = true
same_status timeout timeout = true
same_status canceled canceled = true
same_status a b = false

-- `runs.created_at + runs.timeout * interval '1 second' <= NOW()`
abbrev pub is_expired : ℕ → Row → Bool
is_expired now row = leb (row.created_at + row.run.timeout_s) now

-- The status as `mapFieldsToSql` selects it.
unfoldable pub shown_status : ℕ → Row → RunStatus
shown_status now row =
    if is_running row.run.status && is_expired now row then timeout else row.run.status

-- The columns that are read.
abbrev pub read_row : ℕ → Row → Row
read_row now row = record row { run = record row.run { status = shown_status now row } }

-- The switch on the status filter.
unfoldable pub status_conditions : ℕ → RunStatus → List Condition
status_conditions now timeout =
    (λ row.
      same_status row.run.status timeout
      || same_status row.run.status running && is_expired now row)
    ∷ []
status_conditions now running =
    (λ row. same_status row.run.status running) ∷ (λ row. not (is_expired now row)) ∷ []
status_conditions now status = (λ row. same_status row.run.status status) ∷ []

abbrev pub service_condition : List String → List Condition
service_condition services =
    if has_none services then [] else (λ row. contains row.run.service services) ∷ []

abbrev optional : Option String → (String → Condition) → List Condition
optional none condition = []
optional (some text) condition = condition text ∷ []

abbrev status_filter : ℕ → Option RunStatus → List Condition
status_filter now none = []
status_filter now (some status) = status_conditions now status

abbrev recipient_filter : Env → Option String → Result String (List Condition)
recipient_filter env none = ok []
recipient_filter env (some text) = parsed (env.parse_uuid text)
  where
    parsed : Option Uuid → Result String (List Condition)
    parsed none = err "Unable to parse recipient!"
    parsed (some recipient) = ok ((λ row. row.run.recipient == recipient) ∷ [])

-- What the parameter `filter` adds.
abbrev pub filter_conditions : Env → Option RunsFilter → Result String (List Condition)
filter_conditions env none = ok []
filter_conditions env (some f) = recipient_filter env f.recipient >>= λ recipient. ok (
    status_filter env.now f.status
    ++ recipient
    ++ optional f.service (λ service row. row.run.service == service))

-- The last value of each key; a key without values is left out.
abbrev last_value : List String → Option String
last_value [] = none
last_value (v ∷ []) = some v
last_value (v ∷ w ∷ ws) = last_value (w ∷ ws)

abbrev add_label : String → Option String → List (String × String) → List (String × String)
add_label key none labels = labels
add_label key (some value) labels = (key, value) ∷ labels

unfoldable pub label_pairs : DeepObject → List (String × String)
label_pairs [] = []
label_pairs ((key, values) ∷ filters) = add_label key (last_value values) (label_pairs filters)

-- `runs.labels @> ?`
abbrev has_value : Option String → String → Bool
has_value none value = false
has_value (some other) value = other == value

abbrev pub has_labels : List (String × String) → List (String × String) → Bool
has_labels wanted labels = all (λ entry. has_value (lookup entry.0 labels) entry.1) wanted

-- `addLabelFilterToQueryAsWhereClause`
unfoldable pub label_conditions : DeepObject → List Condition
unfolding label_pairs
label_conditions filters =
    let wanted = label_pairs filters in
    if has_none wanted then [] else (λ row. has_labels wanted row.run.labels) ∷ []

-- `getOrderBy`
abbrev order_parts : List String → String
order_parts [] = ""
order_parts (column ∷ []) = concat column " desc"
order_parts (column ∷ direction ∷ parts) = concat column (concat " " direction)

unfoldable pub get_order_by : Option String → String
unfolding split
get_order_by none = "created_at desc"
get_order_by (some sort_by) =
    if sort_by == "" then "created_at desc" else order_parts (split 58 sort_by)

-- The order of the rows, then by id. Only the two orders that the API's schema admits are known here.
abbrev by_id : Row → Row → Bool
by_id a b = text_lt a.run.id b.run.id

abbrev pub row_order : String → Option (Row → Row → Bool)
row_order order =
    if order == "created_at desc"
    then some (λ a b. ltb b.created_at a.created_at || eqb a.created_at b.created_at && by_id a b)
    else if order == "created_at asc"
    then some (λ a b. ltb a.created_at b.created_at || eqb a.created_at b.created_at && by_id a b)
    else none

unfoldable pub select_rows : List Condition → List Row → List Row
select_rows conditions [] = []
select_rows conditions (row ∷ rows) =
    let rest = select_rows conditions rows in
    if all (λ condition. condition row) conditions then row ∷ rest else rest
