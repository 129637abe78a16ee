-- ===== src/Tests/Listings.antt =====
-- Two runs of one org, of which one is of a service that its user may see.
use playbook_dispatcher.Common.{
  ℕ, zero, suc, ◌-◌, ◌≡◌, refl, ap, ◌∙◌, concat, false, String, none, some, List, [], ◌∷◌, ok, map,
  all, All, arith, split, lookup,
}
use Prim.Native.String
use text.Mathlib.TextLemmas.{length-cons, length-append}
use playbook_dispatcher.Model.{running, timeout}
use playbook_dispatcher.Satellite.{sort_slice, insert_sorted}
use playbook_dispatcher.Public.Pages.{Urls, create_links, create_link}
use playbook_dispatcher.Public.Pages.Cover.{follow_links, follow_links_lem}
use playbook_dispatcher.Public.Pages.Parts.{IsPart}
use playbook_dispatcher.Public.Fields.{
  Row, empty_run, parse_fields, parse_values, parse_names, set_field, set_fields, db_run_to_api_run,
}
use playbook_dispatcher.Public.Listing.{
  Env, Request, Runs, listed, read_row, same_status, shown_status, status_conditions, label_pairs,
  label_conditions, get_order_by, select_rows, convert_rows, api_runs_list,
}
use playbook_dispatcher.Public.Listing.Shown.{status_conditions-shown_status}
use playbook_dispatcher.Public.Listing.Answers.{IsAnswer, api_runs_list-IsAnswer}
use playbook_dispatcher.Public.Listing.Granted.{IsOwn, api_runs_list-IsOwn}
use playbook_dispatcher.Public.Hosts.{HostsRequest, api_run_hosts_list}
use playbook_dispatcher.Public.Hosts.Answers.{IsHostsAnswer, api_run_hosts_list-IsHostsAnswer}
use playbook_dispatcher.Access.Modes.{get_kessel_auth_mode_with_context, map_variant_to_mode}
use playbook_dispatcher.Tests.Data.{run_of, store}
use playbook_dispatcher.Tests.Access.{access, required, user, context, user_passes}

abbrev row_at : ℕ → String → String → Row
row_at created_at id service = record {
  run = record (run_of id running false) { service = service; timeout_s = 100 };
  created_at = created_at;
  updated_at = created_at;
}

abbrev rows : List Row
rows = row_at 10 "1" "remediations" ∷ row_at 20 "2" "tasks" ∷ []

abbrev env : Env
env = record {
  now = 200;
  parse_uuid = λ text. some text;
  count_error = none;
  find_error = none;
  urls = record { itoa = λ n. "n"; set_page = λ query limit offset. query };
}

abbrev request : Request
request = record {
  org_id = "o1";
  allowed_services = "remediations" ∷ [];
  fields = ("data", "id,status" ∷ []) ∷ [];
  labels = [];
  query_string = "q";
  params = record { filter = none; sort_by = none; limit = none; offset = none };
}

abbrev shown_runs : Runs
shown_runs = record {
  runs_data = record empty_run { id = some "1"; status = some timeout } ∷ [];
  count = 1;
  total = 1;
  links = record {
    first = "/api/playbook-dispatcher/v1/runs?q";
    last = "/api/playbook-dispatcher/v1/runs?q";
    next = none;
    previous = none;
  };
}

one_listed : api_runs_list env request rows ≡ ok (listed shown_runs)
unfolding api_runs_list parse_fields parse_values parse_names split lookup select_rows convert_rows
    sort_slice insert_sorted get_order_by label_conditions label_pairs set_field set_fields
    db_run_to_api_run create_links create_link shown_status
one_listed = refl

api_runs_list-IsAnswer_example : IsAnswer env request rows (api_runs_list env request rows)
api_runs_list-IsAnswer_example = api_runs_list-IsAnswer env request rows

api_runs_list-IsOwn_example :
    (fields : List String) × (shown : List Row) × (convert_rows
        (map (read_row env.now) shown)
        fields
      ≡ ok shown_runs.runs_data)
    × IsPart shown rows
    × All (IsOwn access user) shown
unfolding get_kessel_auth_mode_with_context map_variant_to_mode
api_runs_list-IsOwn_example =
    api_runs_list-IsOwn access required user _ context refl user_passes env request rows shown_runs
      refl refl one_listed

status_conditions-shown_status_example :
    all (λ condition. condition (row_at 10 "1" "tasks")) (status_conditions 200 timeout)
    ≡ same_status (shown_status 200 (row_at 10 "1" "tasks")) timeout
status_conditions-shown_status_example =
    status_conditions-shown_status 200 timeout (row_at 10 "1" "tasks")

-- Links that hold the offset in unary digits.
abbrev unary : ℕ → String
unary zero = ""
unary (suc n) = String.◌∷◌ "1" (unary n)

abbrev unary_urls : Urls
unary_urls = record { itoa = unary; set_page = λ query limit offset. offset }

abbrev read_page : String → ℕ × ℕ
read_page link = (1, String.count link - 6)

unary_count : (n : ℕ) → String.count (unary n) ≡ n
unary_count zero = refl
unary_count (suc n) = length-cons "1" (unary n) ∙ ap suc (unary_count n)

read_page_lem : (n : ℕ) → read_page (concat "/runs" (concat "?" (unary n))) ≡ (1, n)
read_page_lem n =
    rw (length-append "/runs" (concat "?" (unary n)), length-append "?" (unary n), unary_count n)
      (ap (λ m. (1, m)) (omega arith))

follow_links_lem_example :
    follow_links unary_urls "/runs" "q" read_page 2
      (some (create_links unary_urls "/runs" "q" 1 0 2).first)
      rows
    ≡ rows
follow_links_lem_example =
    follow_links_lem unary_urls "/runs" "q" read_page 1 read_page_lem rows (omega arith)

abbrev hosts_request : HostsRequest
hosts_request = record {
  org_id = "o1";
  allowed_services = [];
  fields = [];
  run_filters = [];
  run_labels = [];
  query_string = "q";
  filter = none;
  limit = some 1;
  offset = none;
}

api_run_hosts_list-IsHostsAnswer_example :
    IsHostsAnswer env hosts_request store.run_hosts rows
      (api_run_hosts_list env hosts_request store.run_hosts rows)
api_run_hosts_list-IsHostsAnswer_example =
    api_run_hosts_list-IsHostsAnswer env hosts_request store.run_hosts rows
