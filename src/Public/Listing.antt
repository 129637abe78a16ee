-- ===== src/Public/Listing.antt =====
-- The listing of runs: internal/api/controllers/public/runsList.go. The table is a list of rows.
mod Conditions
pub mod Shown
pub mod Visible
pub mod Answers
pub mod Granted
unfoldable pub use Conditions.*
use playbook_dispatcher.Common.{
  ℕ, ◌+◌, Bool, true, false, ◌&&◌, ◌||◌, not, String, Option, none, some, List, [], ◌∷◌, ◌++◌, map,
  length, all, has_none, if◌then◌else◌, ltb, leb, eqb, ◌==◌, text_lt, concat, split, contains,
  lookup, Result, ok, err, ◌>>=◌, Fault,
}
use playbook_dispatcher.Model.{
  Uuid, RunStatus, running, success, failure, timeout, canceled, is_running, Run,
}
use playbook_dispatcher.Satellite.{sort_slice}
use playbook_dispatcher.Public.Pages.{Urls, Links, get_limit, get_offset, create_links, page}
use playbook_dispatcher.Public.Fields.{
  Row, ApiRun, run_fields, default_run_fields, parse_fields, db_run_to_api_run,
}

pub record Runs : Type 0 where
  pub runs_data : List ApiRun
  pub count : ℕ
  pub total : ℕ
  pub links : Links

pub data Response : Type 0 where
  bad_request : String → Response
  internal_error : Response
  listed : Runs → Response

unfoldable pub convert_rows : List Row → List String → Result Fault (List ApiRun)
unfolding db_run_to_api_run
convert_rows [] fields = ok []
convert_rows (row ∷ rows) fields =
    db_run_to_api_run row fields >>= λ run. convert_rows rows fields >>= λ runs. ok (run ∷ runs)

abbrev pub runs_reply : Env → Request → ℕ → List ApiRun → Response
runs_reply env request total runs = listed (record {
  runs_data = runs;
  count = length runs;
  total = total;
  links =
      create_links env.urls "/api/playbook-dispatcher/v1/runs" request.query_string
        (get_limit request.params.limit) (get_offset request.params.offset) total;
})

-- The page of the rows that are found, in the order that the database knows.
abbrev pub found_page : Request → (Row → Row → Bool) → List Row → List Row
found_page request before rows =
    page (get_limit request.params.limit) (get_offset request.params.offset)
      (sort_slice before rows)

abbrev pub find_rows :
    Env
    → Request
    → List String
    → List Row
    → Option (Row → Row → Bool)
    → Option String
    → Result Fault Response
find_rows env request fields rows none e = ok internal_error
find_rows env request fields rows (some before) (some e) = ok internal_error
find_rows env request fields rows (some before) none =
    convert_rows (map (read_row env.now) (found_page request before rows)) fields >>= λ runs.
    ok (runs_reply env request (length rows) runs)

-- The two queries.
abbrev pub query_rows :
    Env → Request → List String → List Row → Option String → Result Fault Response
query_rows env request fields rows (some e) = ok internal_error
query_rows env request fields rows none =
    find_rows env request fields rows (row_order (get_order_by request.params.sort_by))
      env.find_error

-- Every condition of the query.
abbrev pub all_conditions : Request → List Condition → List Condition
all_conditions request filters =
    (λ row. row.run.org_id == request.org_id) ∷ service_condition request.allowed_services
    ++ filters
    ++ label_conditions request.labels

abbrev pub filtered :
    Env → Request → List Row → List String → Result String (List Condition) → Result Fault Response
filtered env request rows fields (err e) = ok (bad_request e)
filtered env request rows fields (ok filters) =
    query_rows env request fields (select_rows (all_conditions request filters) rows)
      env.count_error

abbrev pub with_fields :
    Env → Request → List Row → Result String (List String) → Result Fault Response
with_fields env request rows (err e) = ok (bad_request e)
with_fields env request rows (ok fields) =
    filtered env request rows fields (filter_conditions env request.params.filter)

-- `ApiRunsList`
unfoldable pub api_runs_list : Env → Request → List Row → Result Fault Response
unfolding select_rows convert_rows sort_slice get_order_by label_conditions status_conditions
    parse_fields
api_runs_list env request rows =
    with_fields env request rows (parse_fields request.fields "data" run_fields default_run_fields)
