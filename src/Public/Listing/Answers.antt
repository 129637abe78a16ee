-- ===== src/Public/Listing/Answers.antt =====
-- What a request for a listing is answered, on every branch.
use playbook_dispatcher.Common.{
  ◌≡◌, refl, sym, Bool, true, false, ◌||◌, String, Option, none, some, List, [], ◌∷◌, ◌++◌, map,
  length, All, is_some, Result, ok, err, Fault, ◌⊎◌, inl, inr, or_true,
}
use mathlib.Core.List.{Perm}
use mathlib.Core.List.Perm
use playbook_dispatcher.Satellite.{sort_slice}
use playbook_dispatcher.Satellite.Sorting.{sort_slice-perm}
use playbook_dispatcher.Public.Pages.{get_limit, get_offset, page}
use playbook_dispatcher.Public.Fields.{Row, ApiRun, run_fields, default_run_fields, parse_fields}
use playbook_dispatcher.Public.Fields.Known.{db_run_to_api_run-known}
use playbook_dispatcher.Public.Listing.{
  Env, Request, Condition, Runs, Response, bad_request, internal_error, listed, read_row,
  all_conditions, filter_conditions, select_rows, convert_rows, found_page, row_order, get_order_by,
  find_rows, query_rows, filtered, with_fields, api_runs_list,
}
use playbook_dispatcher.Public.Listing.Visible.{
  IsVisible, meets, select_rows_lem, sort_slice-All, All-map, conditions-IsVisible,
  length-sort_slice,
}

-- The rows of a listing. The table is what is found, in the order of the listing, and what is left out:
-- a row is found if it is visible to the request and meets the conditions, and left out if it fails one.
-- One page of what is found is shown, and `total` counts all of it.
abbrev pub IsListing : Env → Request → List Row → Runs → Type 0
IsListing env request rows runs =
    (fields : List String) × (filters : List Condition) × (found : List Row) × (left_out : List Row)
    × (parse_fields request.fields "data" run_fields default_run_fields ≡ ok fields)
    × (filter_conditions env request.params.filter ≡ ok filters)
    × Perm (found ++ left_out) rows
    × All (IsVisible request) found
    × All (λ row. meets (all_conditions request filters) row ≡ true) found
    × All (λ row. meets (all_conditions request filters) row ≡ false) left_out
    × (convert_rows
          (map (read_row env.now)
            (page (get_limit request.params.limit) (get_offset request.params.offset) found))
          fields
        ≡ ok runs.runs_data)
    × (runs.total ≡ length found)

abbrev pub IsAnswer : Env → Request → List Row → Result Fault Response → Type 0
IsAnswer env request rows (err fault) = ⊥
IsAnswer env request rows (ok (bad_request e)) =
    (parse_fields request.fields "data" run_fields default_run_fields ≡ err e)
    ⊎ (filter_conditions env request.params.filter ≡ err e)
IsAnswer env request rows (ok internal_error) =
    ((is_some env.count_error || is_some env.find_error) ≡ true)
    ⊎ (row_order (get_order_by request.params.sort_by) ≡ none)
IsAnswer env request rows (ok (listed runs)) = IsListing env request rows runs

convert_rows-Returns :
    (input : List (String × List String)) (fields : List String) (rows : List Row)
    → parse_fields input "data" run_fields default_run_fields ≡ ok fields
    → (runs : List ApiRun) × (convert_rows rows fields ≡ ok runs)
unfolding convert_rows
convert_rows-Returns input fields [] e = ([], refl)
convert_rows-Returns input fields (row ∷ rows) e =
    let (run, p) = db_run_to_api_run-known row input fields e in
    let (runs, q) = convert_rows-Returns input fields rows e in (run ∷ runs, rw (p, q) refl)

module _ (env : Env) (request : Request) (rows : List Row) (fields : List String)
    (known : parse_fields request.fields "data" run_fields default_run_fields ≡ ok fields)
    (filters : List Condition)
    (valid : filter_conditions env request.params.filter ≡ ok filters) where
  abbrev matching : List Row
  matching = select_rows (all_conditions request filters) rows

  find_rows-IsAnswer :
      (order : Option (Row → Row → Bool)) (e : Option String)
      → row_order (get_order_by request.params.sort_by) ≡ order
      → env.find_error ≡ e
      → IsAnswer env request rows (find_rows env request fields matching order e)
  find_rows-IsAnswer none e p q = inr p
  find_rows-IsAnswer (some before) (some e) p q =
      inl (rw (q, or_true (is_some env.count_error)) refl)
  find_rows-IsAnswer (some before) none _ _ =
      let (runs, c) =
        convert_rows-Returns request.fields fields
          (map (read_row env.now) (found_page request before matching)) known in
      let (kept, (left_out, p, others)) = select_rows_lem (all_conditions request filters) rows in
      let kept =
        sort_slice-All (λ row. meets (all_conditions request filters) row ≡ true) before matching
          kept in
      rw c (
        fields,
        filters,
        sort_slice before matching,
        left_out,
        known,
        valid,
        Perm.trans (Perm.append_right left_out (sort_slice-perm before matching)) p,
        All-map (conditions-IsVisible request filters) _ kept,
        kept,
        others,
        c,
        sym (length-sort_slice before matching),
      )

  query_rows-IsAnswer :
      (e : Option String)
      → env.count_error ≡ e
      → IsAnswer env request rows (query_rows env request fields matching e)
  query_rows-IsAnswer (some e) p = inl (rw p refl)
  query_rows-IsAnswer none p =
      find_rows-IsAnswer (row_order (get_order_by request.params.sort_by)) env.find_error refl refl

filtered-IsAnswer :
    (env : Env) (request : Request) (rows : List Row) (fields : List String)
    (filters : Result String (List Condition))
    → parse_fields request.fields "data" run_fields default_run_fields ≡ ok fields
    → filter_conditions env request.params.filter ≡ filters
    → IsAnswer env request rows (filtered env request rows fields filters)
filtered-IsAnswer env request rows fields (err e) p q = inr q
filtered-IsAnswer env request rows fields (ok filters) p q =
    query_rows-IsAnswer env request rows fields p filters q env.count_error refl

with_fields-IsAnswer :
    (env : Env) (request : Request) (rows : List Row) (fields : Result String (List String))
    → parse_fields request.fields "data" run_fields default_run_fields ≡ fields
    → IsAnswer env request rows (with_fields env request rows fields)
with_fields-IsAnswer env request rows (err e) p = inl p
with_fields-IsAnswer env request rows (ok fields) p =
    filtered-IsAnswer env request rows fields (filter_conditions env request.params.filter) p refl

-- A listing never panics. It is refused with 400 only for an unknown field or a recipient that is no
-- uuid, and with 500 only for an error of the database or an unknown order. Else the table divides into
-- the runs that meet every condition, which are of the request's org and, where services are set, of
-- these services, and those that fail one; the former are counted, and the page of the limit and the
-- offset is shown of them.
pub api_runs_list-IsAnswer :
    (env : Env) (request : Request) (rows : List Row)
    → IsAnswer env request rows (api_runs_list env request rows)
unfolding api_runs_list
api_runs_list-IsAnswer env request rows =
    with_fields-IsAnswer env request rows
      (parse_fields request.fields "data" run_fields default_run_fields) refl
